-- ===== src/Colorprint/Memory.antt =====
-- A buffer of known size. A store or a read outside it is a fault, `none`.
use Prim.Native.Nat.{ℕ, zero, suc}
use mathlib.Core.Option
use myfreelib.Base.{
  AllNonzero, ℤ, pos, negsuc, Option, some, none, List, [], ◌∷◌, ◌++◌, ◌≡◌, ◌≢◌, refl, ap, ◌≤◌, ◌<◌,
  ◌+◌, ◌==◌, length, drop, replicate, if◌then◌else◌, arith,
}

-- One access after another.
infixl 5 ◌>>=◌
abbrev pub ◌>>=◌ : {A B : Type 0} → Option A → (A → Option B) → Option B
none >>= f = none
some a >>= f = f a

-- `memset(buf, c, n)` for a count that is not negative
pub fill : ℕ → (c : ℕ) → List ℕ → Option (List ℕ)
fill zero c buf = some buf
fill (suc n) c [] = none
fill (suc n) c (x ∷ buf) = Option.map (λ rest. c ∷ rest) (fill n c buf)

-- A negative `int` becomes a `size_t` beyond any buffer.
unfoldable pub memset : ℤ → (c : ℕ) → List ℕ → Option (List ℕ)
memset (pos n) c buf = fill n c buf
memset (negsuc n) c buf = none

pub store_at : ℕ → (v : ℕ) → List ℕ → Option (List ℕ)
store_at i v [] = none
store_at zero v (x ∷ buf) = some (v ∷ buf)
store_at (suc i) v (x ∷ buf) = Option.map (λ rest. x ∷ rest) (store_at i v buf)

-- `*(buf + i) = v`
unfoldable pub poke : ℤ → (v : ℕ) → List ℕ → Option (List ℕ)
poke (pos i) v buf = store_at i v buf
poke (negsuc i) v buf = none

pub until_zero : List ℕ → Option (List ℕ)
until_zero [] = none
until_zero (x ∷ buf) =
    let rest = until_zero buf in if x == 0 then some [] else Option.map (λ s. x ∷ s) rest

-- The string that `%s` reads at `buf + i`.
unfoldable pub string_at : ℕ → List ℕ → Option (List ℕ)
string_at i buf = until_zero (drop i buf)

pub fill_lem :
    (n c : ℕ) (buf : List ℕ) → n ≤ length buf → fill n c buf ≡ some (replicate n c ++ drop n buf)
unfolding fill
fill_lem zero c buf h = refl
fill_lem (suc n) c [] h = absurd (omega arith)
fill_lem (suc n) c (x ∷ buf) h = rw (fill_lem n c buf (omega arith))

fill_too_much : (n c : ℕ) (buf : List ℕ) → length buf < n → fill n c buf ≡ none
unfolding fill
fill_too_much zero c buf h = absurd (omega arith)
fill_too_much (suc n) c [] h = refl
fill_too_much (suc n) c (x ∷ buf) h = rw (fill_too_much n c buf (omega arith))

pub store_at_lem :
    (i c v x : ℕ) (rest : List ℕ)
    → store_at i v (replicate i c ++ x ∷ rest) ≡ some (replicate i c ++ v ∷ rest)
unfolding store_at
store_at_lem zero c v x rest = refl
store_at_lem (suc i) c v x rest = rw (store_at_lem i c v x rest)

pub replicate_split :
    (n i j c : ℕ) → n ≡ i + suc j → replicate n c ≡ replicate i c ++ c ∷ replicate j c
replicate_split zero i j c e = absurd (omega arith)
replicate_split (suc n) zero j c e = let p : n ≡ j = omega arith in rw p
replicate_split (suc n) (suc i) j c e = ap (λ xs. c ∷ xs) (replicate_split n i j c (omega arith))

pub drop-replicate_append :
    (i c x : ℕ) (rest : List ℕ) → drop (suc i) (replicate i c ++ x ∷ rest) ≡ rest
drop-replicate_append zero c x rest = refl
drop-replicate_append (suc i) c x rest = drop-replicate_append i c x rest

pub store_at_outside : (i v : ℕ) (buf : List ℕ) → length buf ≤ i → store_at i v buf ≡ none
unfolding store_at
store_at_outside i v [] h = refl
store_at_outside zero v (x ∷ buf) h = absurd (omega arith)
store_at_outside (suc i) v (x ∷ buf) h = rw (store_at_outside i v buf (omega arith))

pub until_zero_lem : (s rest : List ℕ) → AllNonzero s → until_zero (s ++ 0 ∷ rest) ≡ some s
unfolding until_zero
until_zero_lem [] rest h = refl
until_zero_lem (x ∷ s) rest h = ground (arith, until_zero_lem s rest h.1)

pub until_zero-none : (s : List ℕ) → AllNonzero s → until_zero s ≡ none
unfolding until_zero
until_zero-none [] h = refl
until_zero-none (x ∷ s) h = ground (arith, until_zero-none s h.1)

pub replicate-AllNonzero : (n c : ℕ) → c ≢ 0 → AllNonzero (replicate n c)
replicate-AllNonzero zero c h = tt
replicate-AllNonzero (suc n) c h = (h, replicate-AllNonzero n c h)

pub append-AllNonzero : (xs ys : List ℕ) → AllNonzero xs → AllNonzero ys → AllNonzero (xs ++ ys)
append-AllNonzero [] ys h k = k
append-AllNonzero (x ∷ xs) ys h k = (h.0, append-AllNonzero xs ys h.1 k)

pub drop-AllNonzero : (n : ℕ) (xs : List ℕ) → AllNonzero xs → AllNonzero (drop n xs)
drop-AllNonzero zero xs h = h
drop-AllNonzero (suc n) [] h = tt
drop-AllNonzero (suc n) (x ∷ xs) h = drop-AllNonzero n xs h.1
