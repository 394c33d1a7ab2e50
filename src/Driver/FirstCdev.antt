-- ===== src/Driver/FirstCdev.antt =====
-- packages/driver/vexpress-a9/first_cdev.c: a character device with a fixed major.
use myfreelib.Base.{ℕ, ℤ, pos, is_neg, int, str, [], ◌∷◌, ◌⊎◌, ◌≡◌, true, arith, if◌then◌else◌}
use myfreelib.Base.Sys.{pure, call, ◌>>=◌, ◌>>◌}
use myfreelib.Driver.Kernel.{
  Dev, Call, Reply, History, Kernel, my_dev, pr_info, register_chrdev_region,
  unregister_chrdev_region, cdev_init, cdev_add, cdev_del, held, cdev, region,
}

abbrev my_major_num : ℕ
my_major_num = 202

-- `MKDEV(MY_MAJOR_NUM, 0)`
abbrev pub first_dev : Dev
first_dev = record { major = my_major_num; minor = 0 }

pub my_dev_open : Kernel ℤ
my_dev_open = do call (pr_info "%s is called.\n" (str "my_dev_open" ∷ [])); pure (pos 0)

pub my_dev_close : Kernel ℤ
my_dev_close = do call (pr_info "%s is called.\n" (str "my_dev_close" ∷ [])); pure (pos 0)

pub my_dev_ioctl : (cmd arg : ℤ) → Kernel ℤ
my_dev_ioctl cmd arg = do
  call (pr_info "%s is called. cmd=%d, arg=%ld\n" (str "my_dev_ioctl" ∷ int cmd ∷ int arg ∷ []))
  pure (pos 0)

pub my_driver_init : Kernel ℤ
my_driver_init = do
  call (pr_info "my driver init.\n" [])
  r ← call (register_chrdev_region first_dev 1)
  if is_neg r.ret
      then (do
        call (pr_info "Unable to allocate mayor number %d\n" (int (pos my_major_num) ∷ []))
        pure r.ret)
      else (do
        call (cdev_init my_dev)
        a ← call (cdev_add my_dev first_dev 1)
        if is_neg a.ret
            then (do
              call (unregister_chrdev_region first_dev 1)
              call (pr_info "Unable to add cdev\n" [])
              pure a.ret)
            else pure (pos 0))

pub my_driver_exit : Kernel (Unit {0})
my_driver_exit = do
  call (pr_info "my driver exit.\n" [])
  call (cdev_del my_dev)
  call (unregister_chrdev_region first_dev 1)
  pure tt

-- Whatever the kernel answers, the init function either returns a negative code and holds nothing
-- more than before, or returns 0 holding the region and the cdev besides, and the exit function
-- run next gives both back.
pub first_cdev_all_or_nothing :
    (os : History → Call → Reply) (t : History)
    → let (r, u) = my_driver_init os t in
      ((is_neg r ≡ true) × (held u ≡ held t))
      ⊎ ((r ≡ pos 0)
          × (held u ≡ cdev my_dev ∷ region first_dev 1 ∷ held t)
          × (held (my_driver_exit os u).1 ≡ held t))
unfolding my_driver_init my_driver_exit
first_cdev_all_or_nothing os t = ground arith
