-- ===== src/Driver/Tests.antt =====
-- The theorems about the drivers at a kernel that answers in fixed ways.
use myfreelib.Base.{ℤ, pos, negsuc, is_neg, eq_ℤ, true, false, [], ◌∷◌, ◌≡◌, ◌⊎◌}
use myfreelib.Driver.Kernel.{
  Dev, Cdev, Call, Reply, History, held, my_dev, region, cdev, class_of, device, misc, kobject,
  sysfs_file, alloc_chrdev_region, cdev_add, class_create, kobject_create_and_add, jiffies_to_msecs,
}
use myfreelib.Driver.HelloClass
use myfreelib.Driver.HelloClass.Laws.{hello_class_all_or_nothing}
use myfreelib.Driver.CharClass
use myfreelib.Driver.FirstCdev
use myfreelib.Driver.FirstCdev.{first_cdev_all_or_nothing}
use myfreelib.Driver.HelloChar
use myfreelib.Driver.HelloChar.{hello_char_all_or_nothing}
use myfreelib.Driver.CharMisc
use myfreelib.Driver.CharMisc.{char_misc_all_or_nothing}
use myfreelib.Driver.UeventDemo
use myfreelib.Driver.UeventDemo.{uevent_all_or_nothing}
use myfreelib.Driver.Modules.{modules_all_or_nothing}
use myfreelib.Driver.IoctlTest
use myfreelib.Driver.IoctlTest.{Reaches, spaced, dense, tests_reach_their_drivers}

abbrev returns : ℤ → Reply
returns n = record { ret = n; out = 0 }

-- Every call succeeds: the major is 240, the class 7, the kobject 9.
abbrev fine : Call → Reply
fine (alloc_chrdev_region base n) = record { ret = pos 0; out = 240 }
fine (class_create name) = returns (pos 7)
fine (kobject_create_and_add name) = returns (pos 9)
fine jiffies_to_msecs = record { ret = pos 0; out = 5999 }
fine c = returns (pos 0)

abbrev fine_os : History → Call → Reply
fine_os t c = fine c

-- `-ENOMEM`
abbrev no_memory : Reply
no_memory = returns (negsuc 11)

abbrev no_second_cdev : Call → Reply
no_second_cdev (cdev_add Cdev.my_dev2 d n) = no_memory
no_second_cdev c = fine c

abbrev no_class : Call → Reply
no_class (class_create name) = no_memory
no_class c = fine c

abbrev no_class_os : History → Call → Reply
no_class_os t c = no_class c

abbrev nowhere : Dev
nowhere = record { major = 0; minor = 0 }

abbrev hello_statics : HelloClass.Statics
hello_statics = record { hello_class = pos 0; hello_device = pos 0; dev = nowhere }

abbrev char_statics : CharClass.Statics
char_statics = record { hello_class = pos 0; dev = nowhere }

hello_class_all_or_nothing_example :
    let ((r, s'), u) = HelloClass.hello_init hello_statics fine_os [] in
    ((is_neg r ≡ true) × (held u ≡ []))
    ⊎ ((r ≡ pos 0)
        × (held u
            ≡ device s'.hello_class s'.dev
              ∷ class_of s'.hello_class
              ∷ cdev my_dev
              ∷ region s'.dev 1
              ∷ [])
        × (held (HelloClass.hello_exit s' fine_os u).1 ≡ []))
hello_class_all_or_nothing_example = hello_class_all_or_nothing fine_os [] hello_statics

-- 1500 milliseconds when the module is loaded, 5999 later.
abbrev clock : History → Call → Reply
clock [] jiffies_to_msecs = record { ret = pos 0; out = 1500 }
clock t c = fine c

modules_all_or_nothing_example :
    (let (r, u) = FirstCdev.my_driver_init fine_os [] in
      ((is_neg r ≡ true) × (held u ≡ []))
      ⊎ ((r ≡ pos 0)
          × (held u ≡ cdev my_dev ∷ region FirstCdev.first_dev 1 ∷ [])
          × (held (FirstCdev.my_driver_exit fine_os u).1 ≡ [])))
    × (let (r, u) = HelloChar.hello_init fine_os [] in
        ((is_neg r ≡ true) × (held u ≡ []))
        ⊎ ((r ≡ pos 0)
            × (held u ≡ cdev my_dev ∷ region HelloChar.hello_dev 1 ∷ [])
            × (held (HelloChar.hello_exit fine_os u).1 ≡ [])))
    × (let ((r, k), u) = UeventDemo.my_module_init fine_os [] in
        ((eq_ℤ r (pos 0) ≡ false) × (held u ≡ []))
        ⊎ ((r ≡ pos 0)
            × (held u ≡ sysfs_file k ∷ kobject k ∷ [])
            × (held (UeventDemo.my_module_exit k fine_os u).1 ≡ [])))
    × (let (r, u) = CharMisc.my_driver_init fine_os [] in
        ((is_neg r ≡ true) × (held u ≡ []))
        ⊎ ((r ≡ pos 0) × (held u ≡ misc ∷ []) × (held (CharMisc.my_driver_exit fine_os u).1 ≡ [])))
modules_all_or_nothing_example = modules_all_or_nothing fine_os []

-- Descriptor 3 is opened.
abbrev device_os : IoctlTest.History → IoctlTest.Call → IoctlTest.Reply
device_os t c = record { ret = pos 3 }

tests_reach_their_drivers_example :
    Reaches device_os fine_os IoctlTest.hello_char_test IoctlTest.hello_char_fops "/dev/mydev"
      spaced
      (pos 110)
    × Reaches device_os fine_os IoctlTest.hello_class_test IoctlTest.hello_class_fops
        "/dev/hello_dev" spaced
        (pos 110)
    × Reaches device_os fine_os IoctlTest.vexpress_test IoctlTest.char_class_fops "/dev/mydev" dense
        (pos 100)
    × Reaches device_os fine_os IoctlTest.vexpress_test IoctlTest.char_misc_fops "/dev/mydev" dense
        (pos 100)
tests_reach_their_drivers_example = tests_reach_their_drivers device_os fine_os
