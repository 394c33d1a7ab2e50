-- ===== src/Mmap/Contents.antt =====
-- What `share_demo` of mmap_demo.c leaves in its mapping.
use myfreelib.Base.{
  take-AllNonzero, AllNonzero, shown, shown_lem, ℕ, pos, List, [], ◌∷◌, ◌++◌, length, take, drop,
  replicate, ◌-◌, ◌+◌, ◌<◌, ◌≤◌, ◌≡◌, arith, ◌∙◌, Option, some, none, length-append, length-take,
  length-replicate, length-drop,
}
use myfreelib.Mmap.Programs.{Call, Reply, History, msync, print_line_into, stored, share_demo}

-- The contents last written back.
abbrev pub synced : History → Option (List ℕ)
synced [] = none
synced ((msync contents, r) ∷ t) = some contents
synced (_ ∷ t) = synced t

line-AllNonzero : (s : List ℕ) → AllNonzero s → AllNonzero (s ++ 10 ∷ [])
line-AllNonzero [] h = (λ e. absurd (omega arith), tt)
line-AllNonzero (x ∷ s) h = (h.0, line-AllNonzero s h.1)

length-print_line_into :
    (size : ℕ) (text buf : List ℕ)
    → 0 < size
    → size ≤ length buf
    → length (print_line_into size text buf) ≡ length buf
length-print_line_into size text buf h k =
    let line = take (size - 1) (text ++ 10 ∷ []) in
    omega (
      arith,
      length-append line (0 ∷ drop (length line + 1) buf),
      length-take (size - 1) (text ++ 10 ∷ []),
      length-drop (length line + 1) buf,
    )

length-stored : (text : List ℕ) → length (stored text) ≡ 128
unfolding stored
length-stored text =
    length-print_line_into 127 text (replicate 128 0) (omega arith) (omega arith)
    ∙ length-replicate {A = ℕ} 128 0

shown-stored :
    (text : List ℕ) → AllNonzero text → shown 128 (stored text) ≡ take 126 (text ++ 10 ∷ [])
unfolding stored
shown-stored text h =
    let line = take 126 (text ++ 10 ∷ []) in
    shown_lem 128 line (drop (length line + 1) (replicate 128 0))
      (take-AllNonzero 126 (text ++ 10 ∷ []) (line-AllNonzero text h))
      (omega (arith, length-take 126 (text ++ 10 ∷ [])))

-- If `share_demo` returns 0 for a text with no zero byte, then it has written back 128 bytes in
-- which `%s` shows the text and a newline, cut to 126 characters.
pub shown-share_demo :
    (os : History → Call → Reply) (text : List ℕ) (t : History)
    → AllNonzero text
    → let (ret, u) = share_demo (some text) os t in
      ret ≡ pos 0
      → (contents : List ℕ) × (synced u ≡ some contents)
        × (length contents ≡ 128)
        × (shown 128 contents ≡ take 126 (text ++ 10 ∷ []))
unfolding share_demo
shown-share_demo os text t h e =
    (stored text, ground arith, length-stored text, shown-stored text h)
