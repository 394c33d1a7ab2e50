-- ===== src/Driver/CharMisc.antt =====
-- packages/driver/vexpress-a9/char_miscdevices.c: a misc device with a minor that the kernel picks.
use myfreelib.Base.{ℤ, pos, is_neg, int, str, [], ◌∷◌, ◌⊎◌, ◌≡◌, true, arith, if◌then◌else◌}
use myfreelib.Base.Sys.{pure, call, ◌>>=◌, ◌>>◌}
use myfreelib.Driver.Kernel.{
  Call, Reply, History, Kernel, pr_info, misc_register, misc_deregister, held, misc,
}

unfoldable pub my_dev_open : Kernel ℤ
my_dev_open = do call (pr_info "%s is called.\n" (str "my_dev_open" ∷ [])); pure (pos 0)

unfoldable pub my_dev_close : Kernel ℤ
my_dev_close = do call (pr_info "%s is called.\n" (str "my_dev_close" ∷ [])); pure (pos 0)

unfoldable pub my_dev_ioctl : (cmd arg : ℤ) → Kernel ℤ
my_dev_ioctl cmd arg = do
  call (pr_info "%s is called. cmd=%d, arg=%ld\n" (str "my_dev_ioctl" ∷ int cmd ∷ int arg ∷ []))
  pure (pos 0)

pub my_driver_init : Kernel ℤ
my_driver_init = do
  call (pr_info "my driver init.\n" [])
  r ← call misc_register
  if is_neg r.ret
      then (do call (pr_info "Unable to allocate misc minor number\n" []); pure r.ret)
      else (do call (pr_info "mydev: got minor %i\n" (int (pos r.out) ∷ [])); pure (pos 0))

pub my_driver_exit : Kernel (Unit {0})
my_driver_exit = do call (pr_info "my driver exit.\n" []); call misc_deregister; pure tt

-- Whatever the kernel answers, the init function either returns a negative code and holds nothing
-- more than before, or returns 0 holding the misc device besides, and the exit function run next
-- gives it back.
pub char_misc_all_or_nothing :
    (os : History → Call → Reply) (t : History)
    → let (r, u) = my_driver_init os t in
      ((is_neg r ≡ true) × (held u ≡ held t))
      ⊎ ((r ≡ pos 0) × (held u ≡ misc ∷ held t) × (held (my_driver_exit os u).1 ≡ held t))
unfolding my_driver_init my_driver_exit
char_misc_all_or_nothing os t = ground arith
