-- ===== src/Driver/CharClass/Laws.antt =====
-- What char_class_driver.c holds after its init and exit functions. The kernel answers here by
-- the call alone, since the init function makes no call twice.
use myfreelib.Base.{ℤ, pos, is_neg, ◌∷◌, ◌≡◌, true, false, arith}
use myfreelib.Driver.Kernel.{
  Dev, Call, Reply, History, held, my_dev, my_dev2, cdev, region, class_of, device,
  alloc_chrdev_region, cdev_add, class_create, device_create,
}
use myfreelib.Driver.CharClass.{Statics, second, my_driver_init, my_driver_exit}

module _ (answer : Call → Reply) (t : History) (s : Statics) where
  abbrev major_dev : Dev
  major_dev = record { major = (answer (alloc_chrdev_region 0 1)).out; minor = 0 }

  abbrev new_class : ℤ
  new_class = (answer (class_create "hello_class")).ret

  -- If the region and both cdevs are obtained, the class is created and both device nodes too, then
  -- `my_driver_init` returns 0, and `my_driver_exit` afterwards gives everything back.
  my_driver_exit-my_driver_init :
      is_neg (answer (alloc_chrdev_region 0 1)).ret ≡ false
      → is_neg (answer (cdev_add my_dev major_dev 1)).ret ≡ false
      → is_neg (answer (cdev_add my_dev2 (second major_dev) 1)).ret ≡ false
      → is_neg new_class ≡ false
      → is_neg (answer (device_create new_class major_dev "mydev")).ret ≡ false
      → is_neg (answer (device_create new_class (second major_dev) "mydev1")).ret ≡ false
      → let ((r, s'), u) = my_driver_init s (λ _ c. answer c) t in
        (r ≡ pos 0) × (held (my_driver_exit s' (λ _ c. answer c) u).1 ≡ held t)
  unfolding my_driver_init my_driver_exit
  my_driver_exit-my_driver_init a b c d e f = ground arith

  -- If the region and the first cdev are obtained and the second `cdev_add` fails, the init
  -- function returns that failure and leaves the first cdev added, with its region given back.
  my_driver_init_keeps_first_cdev :
      is_neg (answer (alloc_chrdev_region 0 1)).ret ≡ false
      → is_neg (answer (cdev_add my_dev major_dev 1)).ret ≡ false
      → is_neg (answer (cdev_add my_dev2 (second major_dev) 1)).ret ≡ true
      → let ((r, s'), u) = my_driver_init s (λ _ c. answer c) t in
        (is_neg r ≡ true) × (held u ≡ cdev my_dev ∷ held t)
  unfolding my_driver_init
  my_driver_init_keeps_first_cdev a b c = ground arith

  -- If the region and both cdevs are obtained and `class_create` fails, the init function returns
  -- that failure and leaves the second cdev added.
  my_driver_init_keeps_second_cdev :
      is_neg (answer (alloc_chrdev_region 0 1)).ret ≡ false
      → is_neg (answer (cdev_add my_dev major_dev 1)).ret ≡ false
      → is_neg (answer (cdev_add my_dev2 (second major_dev) 1)).ret ≡ false
      → is_neg new_class ≡ true
      → let ((r, s'), u) = my_driver_init s (λ _ c. answer c) t in
        (is_neg r ≡ true) × (held u ≡ cdev my_dev2 ∷ held t)
  unfolding my_driver_init
  my_driver_init_keeps_second_cdev a b c d = ground arith

  -- If the first `cdev_add` fails and every later call succeeds, the init function returns 0 and
  -- holds all but the first cdev.
  my_driver_init_overlooks_first_cdev :
      is_neg (answer (alloc_chrdev_region 0 1)).ret ≡ false
      → is_neg (answer (cdev_add my_dev major_dev 1)).ret ≡ true
      → is_neg (answer (cdev_add my_dev2 (second major_dev) 1)).ret ≡ false
      → is_neg new_class ≡ false
      → is_neg (answer (device_create new_class major_dev "mydev")).ret ≡ false
      → is_neg (answer (device_create new_class (second major_dev) "mydev1")).ret ≡ false
      → let ((r, s'), u) = my_driver_init s (λ _ c. answer c) t in
        (r ≡ pos 0)
        × (held u
            ≡ device new_class (second major_dev)
              ∷ device new_class major_dev
              ∷ class_of new_class
              ∷ cdev my_dev2
              ∷ region major_dev 1
              ∷ held t)
  unfolding my_driver_init
  my_driver_init_overlooks_first_cdev a b c d e f = ground arith
