-- ===== src/Driver/CharClass.antt =====
-- packages/driver/vexpress-a9/char_class_driver.c: a character device with two minors, a class
-- and two device nodes.
pub mod Laws
use myfreelib.Base.{ℤ, pos, is_neg, int, str, [], ◌∷◌, if◌then◌else◌}
use myfreelib.Base.Sys.{pure, call, ◌>>=◌, ◌>>◌}
use myfreelib.Driver.Kernel.{
  Dev, Kernel, my_dev, my_dev2, pr_info, alloc_chrdev_region, unregister_chrdev_region, cdev_init,
  cdev_add, cdev_del, class_create, class_destroy, device_create, device_destroy,
}

-- The static variables that the exit function reads. `major` and `dev` are set together, so the
-- major is read from `dev`.
pub record Statics : Type 0 where
  pub hello_class : ℤ
  pub dev : Dev

-- `MKDEV(major,1)`
abbrev pub second : Dev → Dev
second d = record { major = d.major; minor = 1 }

unfoldable pub my_dev_open : Kernel ℤ
my_dev_open = do call (pr_info "%s is called.\n" (str "my_dev_open" ∷ [])); pure (pos 0)

unfoldable pub my_dev_close : Kernel ℤ
my_dev_close = do call (pr_info "%s is called.\n" (str "my_dev_close" ∷ [])); pure (pos 0)

unfoldable pub my_dev_ioctl : (cmd arg : ℤ) → Kernel ℤ
my_dev_ioctl cmd arg = do
  call (pr_info "%s is called. cmd=%d, arg=%ld\n" (str "my_dev_ioctl" ∷ int cmd ∷ int arg ∷ []))
  pure (pos 0)

-- The part of `my_driver_init` from `class_create` on. The second device is not looked at.
create_nodes : Statics → Kernel (ℤ × Statics)
create_nodes s = do
  c ← call (class_create "hello_class")
  let s' = record s { hello_class = c.ret }
  if is_neg c.ret
      then (do
        call (cdev_del my_dev)
        call (unregister_chrdev_region s.dev 1)
        call (pr_info "failed to register device class\n" [])
        pure (c.ret, s'))
      else (do
        d ← call (device_create c.ret s.dev "mydev")
        call (device_create c.ret (second s.dev) "mydev1")
        if is_neg d.ret
            then (do
              call (class_destroy c.ret)
              call (cdev_del my_dev)
              call (unregister_chrdev_region s.dev 1)
              call (pr_info "failed to create the device\n" [])
              pure (d.ret, s'))
            else pure (pos 0, s'))

-- The answer to the first `cdev_add` is overwritten by that to the second.
pub my_driver_init : Statics → Kernel (ℤ × Statics)
unfolding create_nodes
my_driver_init s = do
  call (pr_info "my driver init.\n" [])
  r ← call (alloc_chrdev_region 0 1)
  if is_neg r.ret
      then (do call (pr_info "Unable to allocate mayor number\n" []); pure (r.ret, s))
      else (do
        let dev : Dev = record { major = r.out; minor = 0 }
        let s' = record s { dev = dev }
        call (pr_info "correctly major number %d\n" (int (pos r.out) ∷ []))
        call (cdev_init my_dev)
        call (cdev_add my_dev dev 1)
        call (cdev_init my_dev2)
        a ← call (cdev_add my_dev2 (second dev) 1)
        if is_neg a.ret
            then (do
              call (unregister_chrdev_region dev 1)
              call (pr_info "Unable to add cdev\n" [])
              pure (a.ret, s'))
            else create_nodes s')

pub my_driver_exit : Statics → Kernel (Unit {0})
my_driver_exit s = do
  call (pr_info "my driver exit.\n" [])
  call (device_destroy s.hello_class s.dev)
  call (device_destroy s.hello_class (second s.dev))
  call (class_destroy s.hello_class)
  call (cdev_del my_dev)
  call (cdev_del my_dev2)
  call (unregister_chrdev_region s.dev 1)
  pure tt
