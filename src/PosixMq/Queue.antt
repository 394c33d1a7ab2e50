-- ===== src/PosixMq/Queue.antt =====
-- `create_demo`, `getattr_demo` and `unlink_demo` of posix_mq_demo.c.
use myfreelib.Base.{ℕ, ℤ, pos, minus_one, eq_ℤ, [], if◌then◌else◌}
use myfreelib.Base.Sys.{pure, call, ◌>>=◌, ◌>>◌}
use myfreelib.PosixMq.Calls.{
  Io, attr, default, posix_mq_path, test, rdwr, print, print_attr, mq_create, mq_open, mq_close,
  mq_unlink, mq_getattr,
}

-- `MAX_MSG`, `MSG_SIZE`
abbrev pub max_msg : ℕ
max_msg = 5

abbrev pub msg_size : ℕ
msg_size = 2048

-- `printf("create posix mq fail.\n"); return -1;`
abbrev pub create_failed : Io ℤ
create_failed = do call (print "create posix mq fail.\n" []); pure minus_one

pub create_demo : Io ℤ
create_demo = do
  m ← call (mq_create posix_mq_path (attr max_msg msg_size))
  if eq_ℤ m.ret minus_one then create_failed else (do call (mq_close m.ret); pure (pos 0))

-- The second half of `getattr_demo`. Where `mq_getattr` fails, its reply holds the attributes as
-- they were.
getattr_own : Io ℤ
getattr_own = do
  m ← call (mq_open posix_mq_path rdwr)
  if eq_ℤ m.ret minus_one then create_failed else (do
    a ← call (mq_getattr m.ret)
    call (mq_close m.ret)
    call (print_attr "mq_maxmsg = %ld\nmq_msgsize = %ld\n" a.mq_maxmsg a.mq_msgsize)
    pure (pos 0))

pub getattr_demo : Io ℤ
unfolding getattr_own
getattr_demo = do
  m ← call (mq_create test default)
  if eq_ℤ m.ret minus_one then create_failed else (do
    a ← call (mq_getattr m.ret)
    call (print_attr "default mq_maxmsg = %ld\ndefault mq_msgsize = %ld\n" a.mq_maxmsg a.mq_msgsize)
    call (mq_close m.ret)
    call (mq_unlink test)
    getattr_own)

pub unlink_demo : Io ℤ
unlink_demo = do call (mq_unlink posix_mq_path); pure (pos 0)
