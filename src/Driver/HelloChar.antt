-- ===== src/Driver/HelloChar.antt =====
-- packages/driver/helloworld_char_driver/helloworld_char_driver.c: a character device with a fixed major.
use myfreelib.Base.{ℕ, ℤ, pos, is_neg, int, str, [], ◌∷◌, ◌⊎◌, ◌≡◌, true, arith, if◌then◌else◌}
use myfreelib.Base.Sys.{pure, call, ◌>>=◌, ◌>>◌}
use myfreelib.Driver.Kernel.{
  Dev, Call, Reply, History, Kernel, my_dev, pr_info, register_chrdev_region,
  unregister_chrdev_region, cdev_init, cdev_add, cdev_del, held, cdev, region,
}

abbrev my_major_num : ℕ
my_major_num = 222

-- `MKDEV(MY_MAJOR_NUM, 0)`
abbrev pub hello_dev : Dev
hello_dev = record { major = my_major_num; minor = 0 }

unfoldable pub my_dev_open : Kernel ℤ
my_dev_open = do call (pr_info "%s is called.\n" (str "my_dev_open" ∷ [])); pure (pos 0)

unfoldable pub my_dev_close : Kernel ℤ
my_dev_close = do call (pr_info "%s is called.\n" (str "my_dev_close" ∷ [])); pure (pos 0)

unfoldable pub my_dev_ioctl : (cmd arg : ℤ) → Kernel ℤ
my_dev_ioctl cmd arg = do
  call (pr_info "%s is called. cmd = %d, arg = %ld\n" (str "my_dev_ioctl" ∷ int cmd ∷ int arg ∷ []))
  pure (pos 0)

pub hello_init : Kernel ℤ
hello_init = do
  call (pr_info "helloworld init.\n" [])
  r ← call (register_chrdev_region hello_dev 1)
  if is_neg r.ret
      then (do call (pr_info "register_chrdev_region failed.\n" []); pure r.ret)
      else (do
        call (cdev_init my_dev)
        a ← call (cdev_add my_dev hello_dev 1)
        if is_neg a.ret
            then (do
              call (unregister_chrdev_region hello_dev 1)
              call (pr_info "cdev_add failed.\n" [])
              pure a.ret)
            else pure (pos 0))

pub hello_exit : Kernel (Unit {0})
hello_exit = do
  call (pr_info "helloworld exit\n" [])
  call (cdev_del my_dev)
  call (unregister_chrdev_region hello_dev 1)
  pure tt

-- Whatever the kernel answers, the init function either returns a negative code and holds nothing
-- more than before, or returns 0 holding the region and the cdev besides, and the exit function
-- run next gives both back.
pub hello_char_all_or_nothing :
    (os : History → Call → Reply) (t : History)
    → let (r, u) = hello_init os t in
      ((is_neg r ≡ true) × (held u ≡ held t))
      ⊎ ((r ≡ pos 0)
          × (held u ≡ cdev my_dev ∷ region hello_dev 1 ∷ held t)
          × (held (hello_exit os u).1 ≡ held t))
unfolding hello_init hello_exit
hello_char_all_or_nothing os t = ground arith
