-- ===== src/Driver/IoctlTest.antt =====
-- The test programs ioctl_test.c of helloworld_char_driver and helloworld_class_driver and test_ioctl.c
-- of vexpress-a9/user_code, and the file operations of the drivers that they reach.
use myfreelib.Base.{
  ℤ, pos, is_neg, eq_ℤ, Bool, false, not, ◌||◌, same_text, codes, remove, str, int, Arg, String,
  List, [], ◌∷◌, ◌≡◌, arith, if◌then◌else◌,
}
use myfreelib.Base.Sys.{Trace, Prog, pure, call, ◌>>=◌, ◌>>◌}
use myfreelib.Driver.Kernel
use myfreelib.Driver.Kernel.{Kernel, pr_info}
use myfreelib.Driver.HelloClass
use myfreelib.Driver.HelloChar
use myfreelib.Driver.CharClass
use myfreelib.Driver.CharMisc

pub data Call : Type 0 where
  print : String → Call
  perror : String → Call
  open_file : (path : String) → Call
  ioctl : (fd cmd arg : ℤ) → Call
  close : (fd : ℤ) → Call

pub record Reply : Type 0 where
  pub ret : ℤ

abbrev pub Io : Type 0 → Type 0
Io A = Prog Call Reply A

abbrev pub History : Type 0
History = Trace Call Reply

-- What the three programs share.
abbrev test : (path : String) (complaint : Call) (arg : ℤ) → Io ℤ
test path complaint arg = do
  d ← call (open_file path)
  if is_neg d.ret
      then (do call complaint; pure (pos 0))
      else (do call (ioctl d.ret (pos 100) arg); call (close d.ret); pure (pos 0))

pub hello_char_test : Io ℤ
hello_char_test = test "/dev/mydev" (print "open mydev error.\n") (pos 110)

pub hello_class_test : Io ℤ
hello_class_test = test "/dev/hello_dev" (print "open mydev error.\n") (pos 110)

pub vexpress_test : Io ℤ
vexpress_test = test "/dev/mydev" (perror "fail to open device file: /dev/mydev") (pos 100)

-- The driver's functions in a `struct file_operations`.
pub record FileOperations : Type 0 where
  pub open_fn : Kernel ℤ
  pub release_fn : Kernel ℤ
  pub unlocked_ioctl : (cmd arg : ℤ) → Kernel ℤ

pub hello_class_fops : FileOperations
hello_class_fops = record {
  open_fn = HelloClass.my_dev_open;
  release_fn = HelloClass.my_dev_close;
  unlocked_ioctl = HelloClass.my_dev_ioctl;
}

pub hello_char_fops : FileOperations
hello_char_fops = record {
  open_fn = HelloChar.my_dev_open;
  release_fn = HelloChar.my_dev_close;
  unlocked_ioctl = HelloChar.my_dev_ioctl;
}

pub char_class_fops : FileOperations
char_class_fops = record {
  open_fn = CharClass.my_dev_open;
  release_fn = CharClass.my_dev_close;
  unlocked_ioctl = CharClass.my_dev_ioctl;
}

pub char_misc_fops : FileOperations
char_misc_fops = record {
  open_fn = CharMisc.my_dev_open;
  release_fn = CharMisc.my_dev_close;
  unlocked_ioctl = CharMisc.my_dev_ioctl;
}

abbrev member : ℤ → List ℤ → Bool
member fd [] = false
member fd (x ∷ fds) = eq_ℤ fd x || member fd fds

-- The descriptors that are open on the file `device`, the last opened first.
abbrev open_on : (device : String) → History → List ℤ
open_on device [] = []
open_on device ((open_file path, r) ∷ t) =
    if is_neg r.ret || not (same_text (codes path) (codes device))
    then open_on device t
    else r.ret ∷ open_on device t
open_on device ((close fd, r) ∷ t) = remove fd (open_on device t)
open_on device (_ ∷ t) = open_on device t

-- The functions of the driver of `device` that run while a program makes these calls, by the kernel's
-- documentation of `struct file_operations`: `open` if the
-- program opens that file, the others if their descriptor is open on it. Of other files and
-- descriptors the driver learns nothing.
abbrev deliver : FileOperations → (device : String) → History → Kernel (Unit {0})
deliver fops device [] = pure tt
deliver fops device ((open_file path, r) ∷ t) = do
  deliver fops device t
  if is_neg r.ret || not (same_text (codes path) (codes device))
      then pure tt
      else (do fops.open_fn; pure tt)
deliver fops device ((ioctl fd cmd arg, r) ∷ t) = do
  deliver fops device t
  if member fd (open_on device t) then (do fops.unlocked_ioctl cmd arg; pure tt) else pure tt
deliver fops device ((close fd, r) ∷ t) = do
  deliver fops device t
  if member fd (open_on device t) then (do fops.release_fn; pure tt) else pure tt
deliver fops device (_ ∷ t) = deliver fops device t

-- The lines that the driver prints, the last first.
abbrev pub lines : Kernel.History → List (String × List Arg)
lines [] = []
lines ((pr_info format args, r) ∷ t) = (format, args) ∷ lines t
lines (_ ∷ t) = lines t

-- The lines of one run of a test program, with the driver's format of the second.
abbrev session : (format : String) (arg : ℤ) → List (String × List Arg)
session format arg =
    ("%s is called.\n", str "my_dev_close" ∷ [])
    ∷ (format, str "my_dev_ioctl" ∷ int (pos 100) ∷ int arg ∷ [])
    ∷ ("%s is called.\n", str "my_dev_open" ∷ [])
    ∷ []

module _ (os : History → Call → Reply) (kernel : Kernel.History → Kernel.Call → Kernel.Reply) where
  -- The program returns 0, and the driver of `device` prints nothing if that file cannot be opened,
  -- and otherwise the lines of one run.
  abbrev pub Reaches :
      Io ℤ → FileOperations → (device : String) (format : String) (arg : ℤ) → Type 0
  Reaches program fops device format arg =
      let (r, t) = program os [] in
      (r ≡ pos 0)
      × (lines (deliver fops device t kernel []).1
          ≡ (if is_neg (os [] (open_file device)).ret then [] else session format arg))

abbrev pub spaced : String
spaced = "%s is called. cmd = %d, arg = %ld\n"

abbrev pub dense : String
dense = "%s is called. cmd=%d, arg=%ld\n"

-- Whatever the calls return, each test program returns 0. If it cannot open the file of the device
-- that it is written for, /dev/mydev or for the class driver /dev/hello_dev, that device's driver
-- learns nothing; otherwise the driver prints, on calls that come by the descriptor of that file,
-- that it is opened, then given the command 100 with the program's argument, and then closed. For
-- test_ioctl.c this holds of the two drivers in vexpress-a9 that call their device mydev,
-- char_class_driver.c and char_miscdevices.c.
pub tests_reach_their_drivers :
    (os : History → Call → Reply) (kernel : Kernel.History → Kernel.Call → Kernel.Reply)
    → Reaches os kernel hello_char_test hello_char_fops "/dev/mydev" spaced (pos 110)
      × Reaches os kernel hello_class_test hello_class_fops "/dev/hello_dev" spaced (pos 110)
      × Reaches os kernel vexpress_test char_class_fops "/dev/mydev" dense (pos 100)
      × Reaches os kernel vexpress_test char_misc_fops "/dev/mydev" dense (pos 100)
unfolding hello_char_test hello_class_test vexpress_test hello_char_fops hello_class_fops
    char_class_fops HelloClass.my_dev_open HelloClass.my_dev_close HelloClass.my_dev_ioctl
    HelloChar.my_dev_open HelloChar.my_dev_close HelloChar.my_dev_ioctl CharClass.my_dev_open
    CharClass.my_dev_close CharClass.my_dev_ioctl char_misc_fops CharMisc.my_dev_open
    CharMisc.my_dev_close CharMisc.my_dev_ioctl
tests_reach_their_drivers os kernel = (ground arith, ground arith, ground arith, ground arith)
