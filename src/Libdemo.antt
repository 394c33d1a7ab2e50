-- ===== src/Libdemo.antt =====
-- packages/sys_call_demo/libdemo, libdemo.c and libtmp.c: a library is loaded at run time.
pub mod Laws
mod Tests
use myfreelib.Base.{
  ℕ, ℤ, pos, eq_ℤ, str, int, String, Arg, Bool, true, false, ◌||◌, Option, some, none, List, [],
  ◌∷◌, ◌++◌, ◌≡◌, ◌⊎◌, take, codes, if◌then◌else◌, arith,
}
use myfreelib.Base.Sys.{Trace, Prog, pure, call, ◌>>=◌, ◌>>◌}

-- The functions that `atexit` is given.
pub data Handler : Type 0 where
  atexit_a atexit_b : Handler

pub data Call : Type 0 where
  print : String → List Arg → Call
  print_name : String → Call  -- `printf("%s\n", __func__)`
  print_path : String → (path : List ℕ) → Call  -- a `printf` of `lib_path`
  print_info : Call  -- the `printf` of `info`, as `dladdr` has filled it in
  atexit : Handler → Call
  dlopen_lazy : (path : List ℕ) → Call
  dlsym : (handle : ℤ) → (symbol : String) → Call
  dladdr : (address : ℤ) → Call
  invoke : (address : ℤ) → (format : String) → Call  -- a call through the pointer
  dlclose : (handle : ℤ) → Call

-- The value returned: a handle or an address, 0 if it is null; of `atexit` 0 if the function is
-- registered; of `dladdr` 0 if nothing was stored.
pub record Reply : Type 0 where
  pub ret : ℤ

abbrev pub Io : Type 0 → Type 0
Io A = Prog Call Reply A

abbrev pub History : Type 0
History = Trace Call Reply

-- The two handlers.
unfoldable pub handle : Handler → Io (Unit {0})
handle Handler.atexit_a = do call (print_name "atexit_a"); pure tt
handle Handler.atexit_b = do call (print_name "atexit_b"); pure tt

-- `y` of libdemo.c
unfoldable pub y : Io (Unit {0})
y = do call (print "Symbol replacement. I am libdemo's y().\n" []); pure tt

-- `y`, `x`, `xyz_old` and `xyz_new` of libtmp.c; `x` calls the `y` that the linker binds.
abbrev print_function : String → Io (Unit {0})
print_function name = do call (print "function: %s\n" (str name ∷ [])); pure tt

unfoldable pub libtmp_y : Io (Unit {0})
libtmp_y = print_function "y"

unfoldable pub x : (bound_y : Io (Unit {0})) → Io (Unit {0})
x bound_y = do print_function "x"; bound_y

unfoldable pub xyz_old : Io (Unit {0})
xyz_old = do call (print_name "xyz_old"); pure tt

unfoldable pub xyz_new : Io (Unit {0})
xyz_new = do call (print_name "xyz_new"); pure tt

-- `lib_path` after its `snprintf`; `root` is PKG_INSTALL_ROOT_DIR.
abbrev lib_path : (root : List ℕ) → List ℕ
lib_path root = take 299 (root ++ codes "/usr/lib/libclprint.so")

-- How a function of the process ends: it returns, the process dies of a call of address 0, or the
-- `printf` of an `info` in which nothing was stored has no defined behaviour.
pub data Ending (A : Type 0) : Type 0 where
  returned : A → Ending A
  killed undefined : Ending A

-- The part of `dldemo` from the call of `clprogress_print` on.
unfoldable pub invoke_print : (lib_handler address : ℤ) → Io (Ending (Unit {0}))
invoke_print lib_handler address = do
  call (invoke address "Success.\n")
  if eq_ℤ address (pos 0) then pure killed else (do call (dlclose lib_handler); pure (returned tt))

unfoldable pub dldemo : (root : List ℕ) → Io (Ending (Unit {0}))
dldemo root = do
  call (atexit Handler.atexit_a)
  call (atexit Handler.atexit_b)
  h ← call (dlopen_lazy (lib_path root))
  if eq_ℤ h.ret (pos 0)
      then (do call (print_path "Open %s failed!\n" (lib_path root)); pure tt)
      else pure tt
  p ← call (dlsym h.ret "clprogress_print")
  if eq_ℤ p.ret (pos 0)
      then (do call (print "Can not find symbol clprogress_print.\n" []); pure tt)
      else pure tt
  d ← call (dladdr p.ret)
  if eq_ℤ d.ret (pos 0) then pure undefined else (do call print_info; invoke_print h.ret p.ret)

-- `some_name_load` and `some_name_unload`, which run before and after `main`
unfoldable pub some_name_load : Io (Unit {0})
some_name_load = do call (print_name "some_name_load"); pure tt

unfoldable pub some_name_unload : Io (Unit {0})
some_name_unload = do call (print_name "some_name_unload"); pure tt

-- Which `y` and which `xyz` the linker binds.
pub data BoundY : Type 0 where
  in_libdemo in_libtmp : BoundY

pub data BoundXyz : Type 0 where
  ver_1 ver_2 : BoundXyz

abbrev y_of : BoundY → Io (Unit {0})
y_of BoundY.in_libdemo = y
y_of BoundY.in_libtmp = libtmp_y

abbrev xyz_of : BoundXyz → Io (Unit {0})
xyz_of BoundXyz.ver_1 = xyz_old
xyz_of BoundXyz.ver_2 = xyz_new

-- What follows `dldemo` in `main`.
unfoldable pub finish : BoundY → BoundXyz → Io (Ending ℤ)
finish b v = do x (y_of b); xyz_of v; pure (returned (pos 0))

abbrev after_dldemo : BoundY → BoundXyz → Ending (Unit {0}) → Io (Ending ℤ)
after_dldemo b v (returned _) = finish b v
after_dldemo b v killed = pure killed
after_dldemo b v undefined = pure undefined

unfoldable pub main : BoundY → BoundXyz → (root : List ℕ) → Io (Ending ℤ)
main b v root = do done ← dldemo root; after_dldemo b v done
