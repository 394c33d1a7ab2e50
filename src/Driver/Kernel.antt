-- ===== src/Driver/Kernel.antt =====
-- The kernel interface that the drivers of packages/driver call, and a ledger of what a module
-- holds after a history of calls.
use myfreelib.Base.{
  ℕ, ℤ, Arg, String, Bool, true, false, List, [], ◌∷◌, ◌==◌, ◌&&◌, is_neg, eq_ℤ, if◌then◌else◌,
}
use myfreelib.Base.Sys.{Trace, Prog}

-- `dev_t`, taken apart by `MAJOR` and `MINOR`, built by `MKDEV`
pub record Dev : Type 0 where
  pub major : ℕ
  pub minor : ℕ

-- the static variables of type `struct cdev`
pub data Cdev : Type 0 where
  my_dev my_dev2 : Cdev

-- the strings of `kobject_uevent_env` are told apart by the action alone
pub data Uevent : Type 0 where
  kobj_add kobj_remove : Uevent

-- A pointer that the kernel returns is a handle; it stands in the calls that take it.
pub data Call : Type 0 where
  pr_info : String → List Arg → Call
  alloc_chrdev_region : (baseminor count : ℕ) → Call
  register_chrdev_region unregister_chrdev_region : Dev → (count : ℕ) → Call
  cdev_init : Cdev → Call
  cdev_add : Cdev → Dev → (count : ℕ) → Call
  cdev_del : Cdev → Call
  class_create : (name : String) → Call
  class_destroy : (cls : ℤ) → Call
  device_create : (cls : ℤ) → Dev → (name : String) → Call
  device_destroy : (cls : ℤ) → Dev → Call
  misc_register misc_deregister : Call
  kobject_create_and_add : (name : String) → Call
  kobject_put : (kobj : ℤ) → Call
  sysfs_create_file sysfs_remove_file : (kobj : ℤ) → Call
  kobject_uevent_env : (kobj : ℤ) → Uevent → Call
  jiffies_to_msecs : Call

-- `ret` is the return value: for a pointer, a handle that is not negative, or the (negative) error
-- code that `PTR_ERR` finds in it; for `kobject_create_and_add`, 0 is the null pointer. `out` is the
-- number written through a pointer: the major that `alloc_chrdev_region` picks, the minor that
-- `misc_register` picks, the milliseconds of `jiffies_to_msecs(jiffies)`.
pub record Reply : Type 0 where
  pub ret : ℤ
  pub out : ℕ

abbrev pub Kernel : Type 0 → Type 0
Kernel A = Prog Call Reply A

abbrev pub History : Type 0
History = Trace Call Reply

-- What a module can hold.
pub data Resource : Type 0 where
  region : Dev → (count : ℕ) → Resource
  cdev : Cdev → Resource
  class_of : (cls : ℤ) → Resource
  device : (cls : ℤ) → Dev → Resource
  misc : Resource
  kobject sysfs_file : (kobj : ℤ) → Resource

abbrev same_dev : Dev → Dev → Bool
same_dev a b = (a.major == b.major) && (a.minor == b.minor)

abbrev same_cdev : Cdev → Cdev → Bool
same_cdev Cdev.my_dev Cdev.my_dev = true
same_cdev Cdev.my_dev2 Cdev.my_dev2 = true
same_cdev _ _ = false

abbrev same : Resource → Resource → Bool
same (region a n) (region b m) = same_dev a b && (n == m)
same (cdev a) (cdev b) = same_cdev a b
same (class_of a) (class_of b) = eq_ℤ a b
same (device a d) (device b e) = eq_ℤ a b && same_dev d e
same misc misc = true
same (kobject a) (kobject b) = eq_ℤ a b
same (sysfs_file a) (sysfs_file b) = eq_ℤ a b
same _ _ = false

abbrev release : Resource → List Resource → List Resource
release r [] = []
release r (x ∷ xs) = if same r x then xs else x ∷ release r xs

abbrev acquire : Bool → Resource → List Resource → List Resource
acquire failed r h = if failed then h else r ∷ h

-- What one call does to the resources that are held, by its documentation.
abbrev effect : Call → Reply → List Resource → List Resource
effect (alloc_chrdev_region base n) r h =
    acquire (is_neg r.ret) (region (record { major = r.out; minor = base }) n) h
effect (register_chrdev_region d n) r h = acquire (is_neg r.ret) (region d n) h
effect (unregister_chrdev_region d n) r h = release (region d n) h
effect (cdev_add c d n) r h = acquire (is_neg r.ret) (cdev c) h
effect (cdev_del c) r h = release (cdev c) h
effect (class_create name) r h = acquire (is_neg r.ret) (class_of r.ret) h
effect (class_destroy c) r h = release (class_of c) h
effect (device_create c d name) r h = acquire (is_neg r.ret) (device c d) h
effect (device_destroy c d) r h = release (device c d) h
effect misc_register r h = acquire (is_neg r.ret) misc h
effect misc_deregister r h = release misc h
effect (kobject_create_and_add name) r h = acquire (eq_ℤ r.ret (ℤ.pos 0)) (kobject r.ret) h
effect (kobject_put k) r h = release (kobject k) h
effect (sysfs_create_file k) r h = if eq_ℤ r.ret (ℤ.pos 0) then sysfs_file k ∷ h else h
effect (sysfs_remove_file k) r h = release (sysfs_file k) h
effect _ r h = h

-- The resources held after a history, the last acquired first.
abbrev pub held : History → List Resource
held [] = []
held ((c, r) ∷ t) = effect c r (held t)
