-- ===== src/Driver/Modules.antt =====
-- What the four smaller modules of packages/driver hold after their init and exit functions.
use myfreelib.Base.{pos, is_neg, eq_ℤ, true, false, ◌∷◌, ◌≡◌, ◌⊎◌}
use myfreelib.Driver.Kernel.{
  Call, Reply, History, held, my_dev, cdev, region, sysfs_file, kobject, misc,
}
use myfreelib.Driver.FirstCdev
use myfreelib.Driver.HelloChar
use myfreelib.Driver.UeventDemo
use myfreelib.Driver.CharMisc

-- Whatever the kernel answers, the init function of each of first_cdev.c, helloworld_char_driver.c,
-- uevent.c and char_miscdevices.c either returns an error, a negative code or for uevent.c one other
-- than 0, and holds nothing more than before; or it returns 0 holding besides exactly the region and
-- the cdev, the same, the kobject and its sysfs file, or the misc device, and the exit function run
-- next gives everything back.
pub modules_all_or_nothing :
    (os : History → Call → Reply) (t : History)
    → (let (r, u) = FirstCdev.my_driver_init os t in
        ((is_neg r ≡ true) × (held u ≡ held t))
        ⊎ ((r ≡ pos 0)
            × (held u ≡ cdev my_dev ∷ region FirstCdev.first_dev 1 ∷ held t)
            × (held (FirstCdev.my_driver_exit os u).1 ≡ held t)))
      × (let (r, u) = HelloChar.hello_init os t in
          ((is_neg r ≡ true) × (held u ≡ held t))
          ⊎ ((r ≡ pos 0)
              × (held u ≡ cdev my_dev ∷ region HelloChar.hello_dev 1 ∷ held t)
              × (held (HelloChar.hello_exit os u).1 ≡ held t)))
      × (let ((r, k), u) = UeventDemo.my_module_init os t in
          ((eq_ℤ r (pos 0) ≡ false) × (held u ≡ held t))
          ⊎ ((r ≡ pos 0)
              × (held u ≡ sysfs_file k ∷ kobject k ∷ held t)
              × (held (UeventDemo.my_module_exit k os u).1 ≡ held t)))
      × (let (r, u) = CharMisc.my_driver_init os t in
          ((is_neg r ≡ true) × (held u ≡ held t))
          ⊎ ((r ≡ pos 0)
              × (held u ≡ misc ∷ held t)
              × (held (CharMisc.my_driver_exit os u).1 ≡ held t)))
modules_all_or_nothing os t = (
  FirstCdev.first_cdev_all_or_nothing os t,
  HelloChar.hello_char_all_or_nothing os t,
  UeventDemo.uevent_all_or_nothing os t,
  CharMisc.char_misc_all_or_nothing os t,
)
