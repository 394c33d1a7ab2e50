-- ===== src/Driver/Hello.antt =====
-- packages/driver/helloworld/helloworld.c, and vexpress-a9/helloworld.c, which is the same text.
use myfreelib.Base.{ℤ, pos, int, [], ◌∷◌, ◌≡◌, refl}
use myfreelib.Base.Sys.{pure, call, ◌>>◌}
use myfreelib.Driver.Kernel.{Call, Reply, History, Kernel, pr_info, held}

-- `num`, unless it is given as a parameter of the module
abbrev num : ℤ
num = pos 5

hello_init : (num : ℤ) → Kernel ℤ
hello_init num = do call (pr_info "helloworld init, num=%d\n" (int num ∷ [])); pure (pos 0)

hello_exit : (num : ℤ) → Kernel (Unit {0})
hello_exit num = do call (pr_info "helloworld exit, num=%d\n" (int num ∷ [])); pure tt

-- Loading the module with any number and then removing it leaves what was held before, and the
-- loading succeeds.
hello_holds_nothing :
    (os : History → Call → Reply) (t : History) (n : ℤ)
    → let (r, u) = hello_init n os t in
      (r ≡ pos 0) × (held u ≡ held t) × (held (hello_exit n os u).1 ≡ held t)
unfolding hello_init hello_exit
hello_holds_nothing os t n = (refl, refl, refl)
