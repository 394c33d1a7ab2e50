-- ===== src/Driver/UeventDemo.antt =====
-- packages/driver/uevent/uevent.c: a kobject with a sysfs attribute that announces itself.
use myfreelib.Base.{
  ℕ, List, codes, length, drop, ◌++◌, ◌+◌, ℤ, pos, negsuc, eq_ℤ, [], ◌∷◌, ◌⊎◌, ◌≡◌, false, arith,
  if◌then◌else◌,
}
use myfreelib.Base.Sys.{pure, call, ◌>>=◌, ◌>>◌}
use myfreelib.Driver.Kernel.{
  Call, Reply, History, Kernel, pr_info, kobject_create_and_add, kobject_put, sysfs_create_file,
  sysfs_remove_file, kobject_uevent_env, kobj_add, kobj_remove, held, kobject, sysfs_file,
}

-- `-ENOMEM`
abbrev no_memory : ℤ
no_memory = negsuc 11

-- The text that `sprintf` writes to `buf`, with its zero.
abbrev attr_text : List ℕ
attr_text = codes "my_sysfs_attr\n"

-- The number of characters, and `buf` after it.
my_sysfs_show : (buf : List ℕ) → ℤ × List ℕ
my_sysfs_show buf = (pos (length attr_text), attr_text ++ 0 ∷ drop (length attr_text + 1) buf)

-- Returns the code and the static variable `my_kobj`.
pub my_module_init : Kernel (ℤ × ℤ)
my_module_init = do
  k ← call (kobject_create_and_add "my_kobject_hello")
  if eq_ℤ k.ret (pos 0) then pure (no_memory, k.ret) else (do
    r ← call (sysfs_create_file k.ret)
    if eq_ℤ r.ret (pos 0)
        then (do call (kobject_uevent_env k.ret kobj_add); pure (pos 0, k.ret))
        else (do call (kobject_put k.ret); pure (r.ret, k.ret)))

pub my_module_exit : (my_kobj : ℤ) → Kernel (Unit {0})
my_module_exit my_kobj = do
  call (kobject_uevent_env my_kobj kobj_remove)
  call (sysfs_remove_file my_kobj)
  call (kobject_put my_kobj)
  call (pr_info "my_module unloaded\n" [])
  pure tt

-- Whatever the kernel answers, the init function either returns a code other than 0 and holds
-- nothing more than before, or returns 0 holding the kobject and its sysfs file besides, and the
-- exit function run next on that kobject gives both back.
pub uevent_all_or_nothing :
    (os : History → Call → Reply) (t : History)
    → let ((r, k), u) = my_module_init os t in
      ((eq_ℤ r (pos 0) ≡ false) × (held u ≡ held t))
      ⊎ ((r ≡ pos 0)
          × (held u ≡ sysfs_file k ∷ kobject k ∷ held t)
          × (held (my_module_exit k os u).1 ≡ held t))
unfolding my_module_init my_module_exit
uevent_all_or_nothing os t = ground arith
