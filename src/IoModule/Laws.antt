-- ===== src/IoModule/Laws.antt =====
-- What io_module_demo.c scans.
use Prim.Native.Nat.{bit_and}
use myfreelib.Base.{
  int, str, ℕ, suc, pos_part, List, [], ◌∷◌, ◌==◌, ◌≡◌, ◌+◌, take, arith, if◌then◌else◌,
}
use myfreelib.Base.Sys.{Trace}
use myfreelib.IoModule.{
  print, print_read, name_if, epollhup, epollerr, Event, Call, Reply, scanf, epollin, show_events,
  epoll_demo, epoll_create, epoll_add_stdin, epoll_wait,
}

abbrev pub History : Type 0
History = Trace Call Reply

-- How many words were scanned.
abbrev scans : History → ℕ
scans [] = 0
scans ((scanf, r) ∷ t) = suc (scans t)
scans (_ ∷ t) = scans t

-- The events with an input to be read.
abbrev ready : List Event → ℕ
ready [] = 0
ready (e ∷ es) = if bit_and e.events epollin == 0 then ready es else suc (ready es)

-- The events with an input that the waits have returned.
abbrev announced : History → ℕ
announced [] = 0
announced ((epoll_wait epfd n, r) ∷ t) = ready (take (pos_part r.ret) r.evlist) + announced t
announced (_ ∷ t) = announced t

abbrev line_of : Event → Call
line_of e = print "fd=%d, events=%s%s%s\n" (
    int e.fd
    ∷ str (name_if e.events epollin "EPOLLIN")
    ∷ str (name_if e.events epollhup "EPOLLHUP")
    ∷ str (name_if e.events epollerr "EPOLLERR")
    ∷ [])

scans-show_events :
    (os : History → Call → Reply) (t : History) (es : List Event)
    → let u = (show_events es os t).1 in
      (scans u ≡ scans t + ready es) × (announced u ≡ announced t)
unfolding show_events
scans-show_events os t [] = ground arith
scans-show_events os t (e ∷ es) =
    let line = line_of e in
    let u = (line, os t line) ∷ t in
    let v = (scanf, os u scanf) ∷ u in
    let w = print_read (os u scanf).word in
    ground (arith, scans-show_events os u es, scans-show_events os ((w, os v w) ∷ v) es)

-- Whatever the calls return, `epoll_demo` scans as many words as its wait has returned events with an
-- input.
scans-epoll_demo :
    (os : History → Call → Reply) → let u = (epoll_demo os []).1 in scans u ≡ announced u
unfolding epoll_demo
scans-epoll_demo os =
    let p = os [] (epoll_create 5) in
    let t : History = (epoll_create 5, p) ∷ [] in
    let u : History = (epoll_add_stdin p.ret, os t (epoll_add_stdin p.ret)) ∷ t in
    let w = os u (epoll_wait p.ret 5) in
    let v : History = (epoll_wait p.ret 5, w) ∷ u in
    ground (arith, scans-show_events os v (take (pos_part w.ret) w.evlist))
