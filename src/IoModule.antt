-- ===== src/IoModule.antt =====
-- packages/sys_call_demo/io_module_demo/io_module_demo.c: waiting for the standard input with `select` and
-- with `epoll`.
pub mod Laws
use Prim.Native.Nat.{bit_and}
use myfreelib.Base.{
  ℕ, ℤ, pos, minus_one, eq_ℤ, pos_part, int, str, String, List, [], ◌∷◌, ◌==◌, take, Arg,
  if◌then◌else◌,
}
use myfreelib.Base.Sys.{Prog, pure, call, ◌>>=◌, ◌>>◌}

-- A `struct epoll_event`
pub record Event : Type 0 where
  pub fd : ℤ
  pub events : ℕ

pub data Call : Type 0 where
  print : String → List Arg → Call
  print_input : (tv_sec : ℤ) → (input : List ℕ) → Call
  print_read : (input : List ℕ) → Call
  select : (seconds : ℕ) → Call  -- on descriptor 0, for reading
  scanf : Call
  epoll_create : (size : ℕ) → Call
  epoll_add_stdin : (epfd : ℤ) → Call
  epoll_wait : (epfd : ℤ) → (maxevents : ℕ) → Call

-- The return value, the seconds left, the word scanned, and the events stored.
pub record Reply : Type 0 where
  pub ret : ℤ
  pub tv_sec : ℤ
  pub word : List ℕ
  pub evlist : List Event

abbrev pub Io : Type 0 → Type 0
Io A = Prog Call Reply A

-- A time-out, when `select` returns 0, is handled like an input.
pub select_demo : Io ℤ
select_demo = do
  s ← call (select 10)
  if eq_ℤ s.ret minus_one then (do call (print "select fail.\n" []); pure minus_one) else (do
    call (print "readable.\n" [])
    w ← call scanf
    call (print_input s.tv_sec w.word)
    pure (pos 0))

-- `EPOLLIN`, `EPOLLERR`, `EPOLLHUP`
abbrev pub epollin : ℕ
epollin = 1

abbrev pub epollerr : ℕ
epollerr = 8

abbrev pub epollhup : ℕ
epollhup = 16

abbrev pub name_if : (events flag : ℕ) → String → String
name_if events flag name = if bit_and events flag == 0 then "" else name

-- The loop over the events.
pub show_events : List Event → Io (Unit {0})
show_events [] = pure tt
show_events (e ∷ rest) = do
  call (
      print "fd=%d, events=%s%s%s\n" (
        int e.fd
        ∷ str (name_if e.events epollin "EPOLLIN")
        ∷ str (name_if e.events epollhup "EPOLLHUP")
        ∷ str (name_if e.events epollerr "EPOLLERR")
        ∷ []))
  if bit_and e.events epollin == 0
      then pure tt
      else (do w ← call scanf; call (print_read w.word); pure tt)
  show_events rest

pub epoll_demo : Io ℤ
unfolding show_events
epoll_demo = do
  p ← call (epoll_create 5)
  if eq_ℤ p.ret minus_one
      then (do call (print "epoll_create failed.\n" []); pure minus_one)
      else (do
        a ← call (epoll_add_stdin p.ret)
        if eq_ℤ a.ret minus_one
            then (do call (print "epoll_ctl fail.\n" []); pure minus_one)
            else (do
              w ← call (epoll_wait p.ret 5)
              if eq_ℤ w.ret minus_one
                  then (do call (print "epoll_wait fail.\n" []); pure minus_one)
                  else (do show_events (take (pos_part w.ret) w.evlist); pure (pos 0))))
