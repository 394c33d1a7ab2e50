-- ===== src/Commands/Programs.antt =====
-- The chains of the demos, each with the names that its usage text lists.
use myfreelib.Base.{
  ℕ, pos, minus_one, Bool, String, List, [], ◌∷◌, ◌≡◌, codes, ltb, not, ◌==◌, arith,
}
use myfreelib.Commands.Dispatch.{Outcome, usage, runs, indeterminate, dispatch}

-- The functions that the chains lead to.
pub data Function : Type 0 where
  share_lc_demo mutex_lc_demo init fcntl_re_demo : Function
  fcntl_wr_demo fcntl_un_demo data_server_demo data_client_demo : Function
  addrinfo_demo nameinfo_demo select_demo epoll_demo : Function
  cat_demo share_demo create_demo getattr_demo : Function
  unlink_demo send_demo receive_demo sig_notify_demo : Function
  thr_notify_demo wait_demo post_demo get_demo : Function
  uname_demo client_demo server_demo pty_demo : Function
  sysv_sem_simple str_server_demo str_client_demo pipe_demo : Function
  pipe_sync pipe_redirect sysv_msg_ctl leaks : Function
  overflow use_after_free double_free sysv_msg_show : Function

-- `argc < 2`
abbrev lacks_argument : ℕ → Bool
lacks_argument argc = ltb argc 2

-- `argc != 2`
abbrev not_one_argument : ℕ → Bool
not_one_argument argc = not (argc == 2)

file_lock_main : List (List ℕ) → Outcome Function
file_lock_main =
    dispatch lacks_argument minus_one
      (("share_lc", runs share_lc_demo)
        ∷ ("mutex_lc", runs mutex_lc_demo)
        ∷ ("init", runs init)
        ∷ ("fcntl_re", runs fcntl_re_demo)
        ∷ ("fcntl_wr", runs fcntl_wr_demo)
        ∷ ("fcntl_un", runs fcntl_un_demo)
        ∷ [])
      (usage (pos 0))

abbrev file_lock_usage : List String
file_lock_usage = "init" ∷ "share_lc" ∷ "mutex_lc" ∷ "fcntl_re" ∷ "fcntl_wr" ∷ "fcntl_un" ∷ []

inet_socket_main : List (List ℕ) → Outcome Function
inet_socket_main =
    dispatch lacks_argument minus_one
      (("data_server", runs data_server_demo)
        ∷ ("data_client", runs data_client_demo)
        ∷ ("addrinfo", runs addrinfo_demo)
        ∷ ("nameinfo", runs nameinfo_demo)
        ∷ [])
      (usage (pos 0))

abbrev inet_socket_usage : List String
inet_socket_usage =
    "str_server" ∷ "str_client" ∷ "data_server" ∷ "data_client" ∷ "addrinfo" ∷ "nameinfo" ∷ []

io_module_main : List (List ℕ) → Outcome Function
io_module_main =
    dispatch lacks_argument minus_one
      (("select", runs select_demo) ∷ ("epoll", runs epoll_demo) ∷ []) (usage (pos 0))

abbrev io_module_usage : List String
io_module_usage = "select" ∷ "epoll" ∷ []

mmap_main : List (List ℕ) → Outcome Function
mmap_main =
    dispatch lacks_argument minus_one
      (("cat", runs cat_demo) ∷ ("show", usage (pos 0)) ∷ ("share", runs share_demo) ∷ [])
      (usage (pos 0))

abbrev mmap_usage : List String
mmap_usage = "cat" ∷ "share" ∷ []

posix_mq_main : List (List ℕ) → Outcome Function
posix_mq_main =
    dispatch lacks_argument minus_one
      (("create", runs create_demo)
        ∷ ("getattr", runs getattr_demo)
        ∷ ("unlink", runs unlink_demo)
        ∷ ("send", runs send_demo)
        ∷ ("receive", runs receive_demo)
        ∷ ("sig_notify", runs sig_notify_demo)
        ∷ ("thr_notify", runs thr_notify_demo)
        ∷ [])
      (usage (pos 0))

abbrev posix_mq_usage : List String
posix_mq_usage =
    "create" ∷ "getattr" ∷ "unlink" ∷ "send" ∷ "receive" ∷ "sig_notify" ∷ "thr_notify" ∷ []

posix_sem_main : List (List ℕ) → Outcome Function
posix_sem_main =
    dispatch lacks_argument minus_one
      (("create", runs create_demo)
        ∷ ("unlink", runs unlink_demo)
        ∷ ("wait", runs wait_demo)
        ∷ ("post", runs post_demo)
        ∷ ("get", runs get_demo)
        ∷ ("uname", runs uname_demo)
        ∷ [])
      (usage (pos 0))

abbrev posix_sem_usage : List String
posix_sem_usage = "create" ∷ "unlink" ∷ "wait" ∷ "post" ∷ "get" ∷ "uname" ∷ []

posix_shm_main : List (List ℕ) → Outcome Function
posix_shm_main =
    dispatch lacks_argument minus_one
      (("create", runs create_demo)
        ∷ ("unlink", runs unlink_demo)
        ∷ ("client", runs client_demo)
        ∷ ("server", runs server_demo)
        ∷ [])
      (usage (pos 0))

abbrev posix_shm_usage : List String
posix_shm_usage = "create" ∷ "unlink" ∷ "client" ∷ "server" ∷ []

pty_main : List (List ℕ) → Outcome Function
pty_main = dispatch lacks_argument minus_one (("pty", runs pty_demo) ∷ []) (usage (pos 0))

abbrev pty_usage : List String
pty_usage = "pty" ∷ []

sysv_sem_main : List (List ℕ) → Outcome Function
sysv_sem_main =
    dispatch lacks_argument minus_one (("simple", runs sysv_sem_simple) ∷ []) (usage (pos 0))

abbrev sysv_sem_usage : List String
sysv_sem_usage = "simple" ∷ []

unix_socket_main : List (List ℕ) → Outcome Function
unix_socket_main =
    dispatch lacks_argument minus_one
      (("str_server", runs str_server_demo)
        ∷ ("str_client", runs str_client_demo)
        ∷ ("data_server", runs data_server_demo)
        ∷ ("data_client", runs data_client_demo)
        ∷ [])
      (usage (pos 0))

abbrev unix_socket_usage : List String
unix_socket_usage = "str_server" ∷ "str_client" ∷ "data_server" ∷ "data_client" ∷ []

sysv_msg_main : List (List ℕ) → Outcome Function
sysv_msg_main =
    dispatch not_one_argument minus_one
      (("ctl", runs sysv_msg_ctl) ∷ ("show", runs sysv_msg_show) ∷ []) (usage (pos 0))

abbrev sysv_msg_usage : List String
sysv_msg_usage = "ctl" ∷ "show" ∷ []

memory_debug_main : List (List ℕ) → Outcome Function
memory_debug_main =
    dispatch not_one_argument (pos 0)
      (("leaks", runs leaks)
        ∷ ("overflow", runs overflow)
        ∷ ("use_after_free", runs use_after_free)
        ∷ ("double_free", runs double_free)
        ∷ [])
      (usage (pos 0))

abbrev memory_debug_usage : List String
memory_debug_usage = "leaks" ∷ "overflow" ∷ "use_after_free" ∷ "double_free" ∷ []

-- Without a last `else`: then `ret` is returned as it was declared.
pipe_main : List (List ℕ) → Outcome Function
pipe_main =
    dispatch lacks_argument minus_one
      (("demo", runs pipe_demo) ∷ ("sync", runs pipe_sync) ∷ ("redirect", runs pipe_redirect) ∷ [])
      indeterminate

abbrev pipe_usage : List String
pipe_usage = "demo" ∷ "sync" ∷ "redirect" ∷ []

-- The outcome is the call of a function.
abbrev Calls : Outcome Function → Type 0
Calls (runs f) = Unit
Calls _ = ⊥

-- Each of these names, as the only argument, makes the program call a function.
abbrev AllCall : (List (List ℕ) → Outcome Function) → (program : List ℕ) → List String → Type 0
AllCall main program [] = Unit
AllCall main program (name ∷ names) =
    Calls (main (program ∷ codes name ∷ [])) × AllCall main program names

-- In every demo but inet_socket_demo each name that the usage text lists makes the program call a
-- function, if it is the only argument.
usage_names_work :
    (p : List ℕ)
    → AllCall file_lock_main p file_lock_usage
      × AllCall io_module_main p io_module_usage
      × AllCall mmap_main p mmap_usage
      × AllCall posix_mq_main p posix_mq_usage
      × AllCall posix_sem_main p posix_sem_usage
      × AllCall posix_shm_main p posix_shm_usage
      × AllCall pty_main p pty_usage
      × AllCall sysv_sem_main p sysv_sem_usage
      × AllCall unix_socket_main p unix_socket_usage
      × AllCall sysv_msg_main p sysv_msg_usage
      × AllCall memory_debug_main p memory_debug_usage
      × AllCall pipe_main p pipe_usage
unfolding dispatch file_lock_main io_module_main mmap_main posix_mq_main posix_sem_main
    posix_shm_main pty_main sysv_sem_main unix_socket_main sysv_msg_main memory_debug_main pipe_main
usage_names_work p = ground arith

-- Whatever follows them, the names `str_server` and `str_client` of the usage text of
-- inet_socket_demo make it print that text and return 0.
inet_stream_names_refused :
    (p : List ℕ) (rest : List (List ℕ))
    → (inet_socket_main (p ∷ codes "str_server" ∷ rest) ≡ usage (pos 0))
      × (inet_socket_main (p ∷ codes "str_client" ∷ rest) ≡ usage (pos 0))
unfolding inet_socket_main dispatch
inet_stream_names_refused p rest = ground arith
