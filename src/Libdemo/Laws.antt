-- ===== src/Libdemo/Laws.antt =====
-- How a run of libdemo ends.
use myfreelib.Base.{
  ℕ, ℤ, pos, eq_ℤ, String, Bool, true, false, ◌||◌, List, [], ◌∷◌, ◌++◌, if◌then◌else◌, ◌≡◌, refl,
  append_assoc, ◌⊎◌, arith,
}
use myfreelib.Base.Sys.{pure, ◌>>=◌, ◌>>◌}
use myfreelib.Libdemo.{
  Handler, Call, Reply, History, Io, BoundY, BoundXyz, print_name, atexit, dlsym, invoke, handle, y,
  x, libtmp_y, xyz_old, xyz_new, invoke_print, dladdr, Ending, returned, killed, undefined, dldemo,
  some_name_load, some_name_unload, finish, main,
}

-- The handlers that `atexit` was asked to register, and those that it has, the last first.
abbrev pub offered : History → List Handler
offered [] = []
offered ((atexit h, r) ∷ t) = h ∷ offered t
offered (_ ∷ t) = offered t

abbrev pub registered : History → List Handler
registered [] = []
registered ((atexit h, r) ∷ t) = if eq_ℤ r.ret (pos 0) then h ∷ registered t else registered t
registered (_ ∷ t) = registered t

abbrev run_handlers : List Handler → Io (Unit {0})
run_handlers [] = pure tt
run_handlers (h ∷ hs) = do handle h; run_handlers hs

-- The C library makes of the handlers registered, the last first, the list of those that it calls at
-- the exit.
module _ (to_call : List Handler → List Handler) where
  -- If `main` returns, these handlers, and then the destructor.
  abbrev leave : Ending ℤ → Io (Ending ℤ)
  leave (returned r) os t =
      (do run_handlers (to_call (registered t)); some_name_unload; pure (returned r)) os t
  leave killed os t = (killed, t)
  leave undefined os t = (undefined, t)

  -- A run of the process.
  abbrev pub run : BoundY → BoundXyz → (root : List ℕ) → Io (Ending ℤ)
  run b v root = do some_name_load; r ← main b v root; leave r

-- The function names printed alone on a line, the last first.
abbrev pub names : History → List String
names [] = []
names ((print_name s, r) ∷ t) = s ∷ names t
names (_ ∷ t) = names t

-- The addresses called, and the addresses that `dlsym` returned.
abbrev pub called : History → List ℤ
called [] = []
called ((invoke a f, r) ∷ t) = a ∷ called t
called (_ ∷ t) = called t

abbrev pub found : History → List ℤ
found [] = []
found ((dlsym h s, r) ∷ t) = r.ret ∷ found t
found (_ ∷ t) = found t

abbrev pub null_among : List ℤ → Bool
null_among [] = false
null_among (a ∷ addresses) = eq_ℤ a (pos 0) || null_among addresses

-- Has `dladdr` stored nothing?
abbrev pub unknown_address : History → Bool
unknown_address [] = false
unknown_address ((dladdr a, r) ∷ t) = eq_ℤ r.ret (pos 0) || unknown_address t
unknown_address (_ ∷ t) = unknown_address t

abbrev handler_name : Handler → String
handler_name Handler.atexit_a = "atexit_a"
handler_name Handler.atexit_b = "atexit_b"

-- The names that these handlers print, one after the other, the last first.
abbrev pub handler_names : List Handler → List String
handler_names [] = []
handler_names (h ∷ hs) = handler_names hs ++ handler_name h ∷ []

abbrev pub xyz_name : BoundXyz → String
xyz_name BoundXyz.ver_1 = "xyz_old"
xyz_name BoundXyz.ver_2 = "xyz_new"

-- What the end of `main` prints, whatever the linker binds; it does nothing else.
finish_lem :
    (os : History → Call → Reply) (b : BoundY) (v : BoundXyz) (t : History)
    → let (r, u) = finish b v os t in
      (r ≡ returned (pos 0))
      × (names u ≡ xyz_name v ∷ names t)
      × (offered u ≡ offered t)
      × (registered u ≡ registered t)
      × (called u ≡ called t)
      × (found u ≡ found t)
      × (unknown_address u ≡ unknown_address t)
unfolding finish x y libtmp_y xyz_old xyz_new
finish_lem os BoundY.in_libdemo BoundXyz.ver_1 t = ground arith
finish_lem os BoundY.in_libdemo BoundXyz.ver_2 t = ground arith
finish_lem os BoundY.in_libtmp BoundXyz.ver_1 t = ground arith
finish_lem os BoundY.in_libtmp BoundXyz.ver_2 t = ground arith

dldemo_lem :
    (os : History → Call → Reply) (root : List ℕ) (t : History)
    → called t ≡ []
    → found t ≡ []
    → unknown_address t ≡ false
    → offered t ≡ []
    → let (r, u) = dldemo root os t in
      (names u ≡ names t)
      × (offered u ≡ Handler.atexit_b ∷ Handler.atexit_a ∷ [])
      × (((r ≡ undefined) × (unknown_address u ≡ true) × (called u ≡ []))
          ⊎ ((r ≡ killed)
              × (unknown_address u ≡ false)
              × (null_among (found u) ≡ true)
              × (called u ≡ found u))
          ⊎ ((r ≡ returned tt)
              × (unknown_address u ≡ false)
              × (null_among (found u) ≡ false)
              × (called u ≡ found u)))
unfolding dldemo invoke_print
dldemo_lem os root t a b c d = ground arith

-- What the handlers print, in the order in which they are called.
run_handlers_lem :
    (os : History → Call → Reply) (hs : List Handler) (t : History)
    → let u = (run_handlers hs os t).1 in
      (names u ≡ handler_names hs ++ names t)
      × (offered u ≡ offered t)
      × (registered u ≡ registered t)
      × (called u ≡ called t)
      × (found u ≡ found t)
      × (unknown_address u ≡ unknown_address t)
unfolding handle
run_handlers_lem os [] t = ground arith
run_handlers_lem os (Handler.atexit_a ∷ hs) t =
    let u = (print_name "atexit_a", os t (print_name "atexit_a")) ∷ t in
    ground
      (arith, run_handlers_lem os hs u, append_assoc (handler_names hs) ("atexit_a" ∷ []) (names t))
run_handlers_lem os (Handler.atexit_b ∷ hs) t =
    let u = (print_name "atexit_b", os t (print_name "atexit_b")) ∷ t in
    ground
      (arith, run_handlers_lem os hs u, append_assoc (handler_names hs) ("atexit_b" ∷ []) (names t))

-- Suppose that the C library calls the handlers registered in the reverse order of their
-- registration. Then, whatever the calls return and the linker binds, the process offers atexit_a
-- and then atexit_b to `atexit`, and one of three things happens. `dladdr` stores nothing, and the
-- `printf` after it has no defined behaviour. Or `dladdr` succeeds and the address that `dlsym`
-- returned is null: the process calls it and is killed. Or neither: it calls that address and
-- returns 0, and the names printed are the constructor's, that of the `xyz` bound, those of the
-- handlers that were registered, the last first, and the destructor's.
pub run_ends :
    (to_call : List Handler → List Handler) (os : History → Call → Reply) (b : BoundY)
    (v : BoundXyz) (root : List ℕ)
    → ((hs : List Handler) → to_call hs ≡ hs)
    → let (r, u) = run to_call b v root os [] in
      (offered u ≡ Handler.atexit_b ∷ Handler.atexit_a ∷ [])
      × (((r ≡ undefined) × (unknown_address u ≡ true) × (called u ≡ []))
          ⊎ ((r ≡ killed)
              × (unknown_address u ≡ false)
              × (null_among (found u) ≡ true)
              × (called u ≡ found u))
          ⊎ ((r ≡ returned (pos 0))
              × (unknown_address u ≡ false)
              × (null_among (found u) ≡ false)
              × (called u ≡ found u)
              × (names u
                  ≡ "some_name_unload" ∷ handler_names (registered u)
                    ++ xyz_name v ∷ "some_name_load" ∷ [])))
unfolding main some_name_load some_name_unload
run_ends to_call os b v root h =
    let t : History = (print_name "some_name_load", os [] (print_name "some_name_load")) ∷ [] in
    let u = (dldemo root os t).1 in
    let w = (finish b v os u).1 in
    ground (
      arith,
      dldemo_lem os root t refl refl refl refl,
      finish_lem os b v u,
      h (registered w),
      run_handlers_lem os (registered w) w,
    )
