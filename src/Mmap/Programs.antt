-- ===== src/Mmap/Programs.antt =====
-- `cat_demo` and `share_demo` of mmap_demo.c. A call that reads the mapping carries its contents.
use myfreelib.Base.{
  ℕ, ℤ, pos, minus_one, eq_ℤ, String, List, [], ◌∷◌, ◌++◌, length, take, drop, replicate, ltb, ◌-◌,
  ◌+◌, Option, some, none, if◌then◌else◌,
}
use myfreelib.Base.Sys.{Trace, Prog, pure, call, ◌>>=◌, ◌>>◌}

pub data Call : Type 0 where
  print : String → Call
  print_name : String → Option (List ℕ) → Call  -- `none` for a null pointer
  print_mapping : (precision : ℕ) → (contents : List ℕ) → Call
  open_file : Option (List ℕ) → Call
  open_share : Call  -- `open(SHARE_MMAP_FILE_PATH, O_RDWR|O_CREAT, …)`
  fstat : (fd : ℤ) → Call
  map_private : (fd : ℤ) → (size : ℕ) → Call
  map_shared : (fd : ℤ) → (size : ℕ) → Call
  write_mapping : (addr : ℤ) → (count : ℕ) → Call  -- to the standard output
  munmap : (addr : ℤ) → (size : ℕ) → Call
  msync : (contents : List ℕ) → Call
  close : (fd : ℤ) → Call

-- The return value, with an address as a number and `MAP_FAILED` as -1; `st_size`; and the bytes of a
-- new mapping.
pub record Reply : Type 0 where
  pub ret : ℤ
  pub st_size : ℕ
  pub mapping : List ℕ

abbrev pub Io : Type 0 → Type 0
Io A = Prog Call Reply A

abbrev pub History : Type 0
History = Trace Call Reply

abbrev fail : String → Io ℤ
fail message = do call (print message); pure minus_one

-- `cat_demo` with `argv[2]`, a null pointer if there is none. It tests the address against `NULL`.
pub cat_demo : Option (List ℕ) → Io ℤ
cat_demo path = do
  o ← call (open_file path)
  if eq_ℤ o.ret minus_one
      then (do call (print_name "open file %s fail.\n" path); pure minus_one)
      else (do
        s ← call (fstat o.ret)
        if eq_ℤ s.ret minus_one then fail "get file stat fail.\n" else (do
          m ← call (map_private o.ret s.st_size)
          if eq_ℤ m.ret (pos 0) then fail "mmap fail.\n" else (do
            w ← call (write_mapping m.ret s.st_size)
            if eq_ℤ w.ret (pos s.st_size)
                then (do call (munmap m.ret s.st_size); pure (pos 0))
                else fail "write to stdout fail.\n")))

-- `MMAP_SIZE`
abbrev mmap_size : ℕ
mmap_size = 128

-- `snprintf(buf, size, "%s\n", text)`: at most `size - 1` characters and a zero.
abbrev pub print_line_into : (size : ℕ) (text buf : List ℕ) → List ℕ
print_line_into size text buf =
    let line = take (size - 1) (text ++ 10 ∷ []) in line ++ 0 ∷ drop (length line + 1) buf

-- The mapping after the `memset` and the `snprintf`.
unfoldable pub stored : (text : List ℕ) → List ℕ
stored text = print_line_into (mmap_size - 1) text (replicate mmap_size 0)

-- `share_demo` from the `close` on.
store : (text : List ℕ) (fd : ℤ) (mapping : List ℕ) → Io ℤ
store text fd mapping = do
  c ← call (close fd)
  if eq_ℤ c.ret minus_one then fail "close fail.\n" else (do
    call (print_mapping mmap_size mapping)
    if ltb mmap_size (length text) then fail "string too long" else (do
      y ← call (msync (stored text))
      if eq_ℤ y.ret minus_one then fail "msync fail.\n" else pure (pos 0)))

-- `share_demo` with `argv[2]`, if there is one.
unfoldable pub share_demo : Option (List ℕ) → Io ℤ
unfolding store
share_demo none = fail "please input a string\n"
share_demo (some text) = do
  o ← call open_share
  if eq_ℤ o.ret minus_one
      then (do call (print "open file /tmp/share_mmap fail.\n"); pure minus_one)
      else (do
        m ← call (map_shared o.ret mmap_size)
        if eq_ℤ m.ret minus_one then fail "mmap fail.\n" else store text o.ret m.mapping)
