-- ===== src/Driver/HelloClass.antt =====
-- packages/driver/helloworld_class_driver/helloworld_class_driver.c: a character device with a
-- class and a device node.
pub mod Laws
use myfreelib.Base.{ℤ, pos, is_neg, int, str, pair, [], ◌∷◌, if◌then◌else◌}
use myfreelib.Base.Sys.{pure, call, ◌>>=◌, ◌>>◌}
use myfreelib.Driver.Kernel.{
  Dev, Kernel, my_dev, pr_info, alloc_chrdev_region, unregister_chrdev_region, cdev_init, cdev_add,
  cdev_del, class_create, class_destroy, device_create, device_destroy,
}

-- the static variables that the exit function reads
pub record Statics : Type 0 where
  pub hello_class : ℤ
  pub hello_device : ℤ
  pub dev : Dev

unfoldable pub my_dev_open : Kernel ℤ
my_dev_open = do call (pr_info "%s is called.\n" (str "my_dev_open" ∷ [])); pure (pos 0)

unfoldable pub my_dev_close : Kernel ℤ
my_dev_close = do call (pr_info "%s is called.\n" (str "my_dev_close" ∷ [])); pure (pos 0)

unfoldable pub my_dev_ioctl : (cmd arg : ℤ) → Kernel ℤ
my_dev_ioctl cmd arg = do
  call (pr_info "%s is called. cmd = %d, arg = %ld\n" (str "my_dev_ioctl" ∷ int cmd ∷ int arg ∷ []))
  pure (pos 0)

-- The part of `hello_init` from `class_create` on.
create_node : Statics → Kernel (ℤ × Statics)
create_node s = do
  c ← call (class_create "hello_class")
  let s' = record s { hello_class = c.ret }
  if is_neg c.ret
      then (do
        call (unregister_chrdev_region s.dev 1)
        call (cdev_del my_dev)
        call (pr_info "class_create failed.\n" [])
        pure (c.ret, s'))
      else (do
        call (pr_info "class_create success\n" [])
        d ← call (device_create c.ret s.dev "hello_dev")
        let s'' = record s' { hello_device = d.ret }
        if is_neg d.ret
            then (do
              call (class_destroy c.ret)
              call (unregister_chrdev_region s.dev 1)
              call (cdev_del my_dev)
              call (pr_info "device_create failed.\n" [])
              pure (d.ret, s''))
            else (do call (pr_info "create a device node success.\n" []); pure (pos 0, s'')))

unfoldable pub hello_init : Statics → Kernel (ℤ × Statics)
unfolding create_node
hello_init s = do
  call (pr_info "helloworld init.\n" [])
  r ← call (alloc_chrdev_region 0 1)
  if is_neg r.ret
      then (do call (pr_info "alloc_chrdev_region failed.\n" []); pure (r.ret, s))
      else (do
        let dev : Dev = record { major = r.out; minor = 0 }
        let s' = record s { dev = dev }
        call (
            pr_info "Major=%d, dev_no=%d, dev=%d\n"
              (int (pos r.out) ∷ pair r.out 0 ∷ pair r.out 0 ∷ []))
        call (cdev_init my_dev)
        a ← call (cdev_add my_dev dev 1)
        if is_neg a.ret
            then (do
              call (unregister_chrdev_region dev 1)
              call (pr_info "cdev_add failed.\n" [])
              pure (a.ret, s'))
            else create_node s')

pub hello_exit : Statics → Kernel (Unit {0})
hello_exit s = do
  call (pr_info "helloworld exit\n" [])
  call (device_destroy s.hello_class s.dev)
  call (class_destroy s.hello_class)
  call (cdev_del my_dev)
  call (unregister_chrdev_region s.dev 1)
  pure tt
