-- ===== src/Driver/HelloClass/Laws.antt =====
-- What helloworld_class_driver.c holds after its init and exit functions.
use myfreelib.Base.{pos, is_neg, ◌∷◌, ◌⊎◌, ◌≡◌, true, arith}
use myfreelib.Driver.Kernel.{Call, Reply, History, held, my_dev, region, cdev, class_of, device}
use myfreelib.Driver.HelloClass.{Statics, hello_init, hello_exit}

-- Whatever the kernel answers, `hello_init` either returns a negative code and holds nothing more
-- than before, or returns 0 and has added exactly the region, the cdev, the class and the device
-- that its static variables name.
hello_init_all_or_nothing :
    (os : History → Call → Reply) (t : History) (s : Statics)
    → let ((r, s'), u) = hello_init s os t in
      ((is_neg r ≡ true) × (held u ≡ held t))
      ⊎ ((r ≡ pos 0)
          × (held u
              ≡ device s'.hello_class s'.dev
                ∷ class_of s'.hello_class
                ∷ cdev my_dev
                ∷ region s'.dev 1
                ∷ held t))
unfolding hello_init
hello_init_all_or_nothing os t s = ground arith

-- If `hello_init` returns 0, then `hello_exit`, run on the static variables that it leaves, gives
-- back everything: the module holds what it held before `hello_init`.
hello_exit-hello_init :
    (os : History → Call → Reply) (t : History) (s : Statics)
    → (hello_init s os t).0.0 ≡ pos 0
    → let ((r, s'), u) = hello_init s os t in held (hello_exit s' os u).1 ≡ held t
unfolding hello_exit
hello_exit-hello_init os t s h = ground (arith, hello_init_all_or_nothing os t s)

-- Whatever the kernel answers, `hello_init` either returns a negative code and holds nothing more
-- than before; or it returns 0 holding besides exactly the region, the cdev, the class and the
-- device that its static variables name, and `hello_exit`, run next on these, gives everything back.
pub hello_class_all_or_nothing :
    (os : History → Call → Reply) (t : History) (s : Statics)
    → let ((r, s'), u) = hello_init s os t in
      ((is_neg r ≡ true) × (held u ≡ held t))
      ⊎ ((r ≡ pos 0)
          × (held u
              ≡ device s'.hello_class s'.dev
                ∷ class_of s'.hello_class
                ∷ cdev my_dev
                ∷ region s'.dev 1
                ∷ held t)
          × (held (hello_exit s' os u).1 ≡ held t))
hello_class_all_or_nothing os t s =
    ground (arith, hello_init_all_or_nothing os t s, hello_exit-hello_init os t s)
