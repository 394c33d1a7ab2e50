-- ===== src/Inet/Names.antt =====
-- `addrinfo_demo` and `nameinfo_demo` of inet_socket_demo.c.
use myfreelib.Base.{ℕ, ℤ, pos, minus_one, eq_ℤ, List, [], ◌∷◌, some, none, if◌then◌else◌}
use myfreelib.Base.Sys.{pure, call, ◌>>=◌, ◌>>◌}
use myfreelib.Inet.Calls.{
  AddrInfo, no_hints, Io, print, print_text, print_texts, getaddrinfo, freeaddrinfo, inet_ntop,
  inet_pton, getnameinfo_numeric,
}

-- `AF_INET`
abbrev af_inet : ℤ
af_inet = pos 2

-- The loop over the addresses.
print_addresses : List AddrInfo → Io (Unit {0})
print_addresses [] = pure tt
print_addresses (tmp ∷ rest) = do
  if eq_ℤ tmp.ai_family af_inet
      then (do n ← call (inet_ntop tmp.address); call (print_text "%s\n" n.host); pure tt)
      else (do call (print "not AF_INET\n" []); pure tt)
  print_addresses rest

-- `addrinfo_demo`; `usage` is the function of that name.
pub addrinfo_demo : (usage : Io (Unit {0})) (argv : List (List ℕ)) → Io ℤ
addrinfo_demo usage (argv0 ∷ option ∷ name ∷ rest) = do
  g ← call (getaddrinfo (some name) none no_hints)
  if eq_ℤ g.ret (pos 0)
      then (do print_addresses g.result; call freeaddrinfo; pure (pos 0))
      else (do call (print "getaddrinfo failed.\n" []); pure minus_one)
addrinfo_demo usage argv = do usage; pure minus_one

pub nameinfo_demo : (usage : Io (Unit {0})) (argv : List (List ℕ)) → Io ℤ
nameinfo_demo usage (argv0 ∷ option ∷ text ∷ rest) = do
  a ← call (inet_pton text)
  n ← call (getnameinfo_numeric a.bytes)
  if eq_ℤ n.ret (pos 0)
      then (do call (print_texts "hosts=%s, server=%s\n" n.host n.service); pure (pos 0))
      else pure (pos 0)
nameinfo_demo usage argv = do usage; pure minus_one
