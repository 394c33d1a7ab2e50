-- ===== src/PosixShm/Words.antt =====
-- What the server prints of a word that the client has scanned.
use myfreelib.Base.{
  ℕ, zero, suc, List, [], ◌∷◌, ◌++◌, map, ◌≡◌, refl, ap, arith, ◌-◌, ◌≤◌, ◌<◌, length, take,
  length-take, AllNonzero,
}
use myfreelib.PosixShm.Model.{data_size, until_zero}

-- The word up to its first zero, and no more of it than `data` has room for before a zero.
pub as_printed : List ℕ → List ℕ
as_printed w = until_zero (take (data_size - 1) w)

take-take : (n : ℕ) (xs : List ℕ) → take n (take n xs) ≡ take n xs
take-take zero xs = refl
take-take (suc n) [] = refl
take-take (suc n) (x ∷ xs) = ap (λ ys. x ∷ ys) (take-take n xs)

take-all : (n : ℕ) (xs : List ℕ) → length xs ≤ n → take n xs ≡ xs
take-all zero [] h = refl
take-all zero (x ∷ xs) h = absurd (omega arith)
take-all (suc n) [] h = refl
take-all (suc n) (x ∷ xs) h = ap (λ ys. x ∷ ys) (take-all n xs (omega arith))

until_zero-le : (xs : List ℕ) → length (until_zero xs) ≤ length xs
until_zero-le [] = omega arith
until_zero-le (x ∷ xs) = ground (arith, until_zero-le xs)

until_zero-AllNonzero : (xs : List ℕ) → AllNonzero (until_zero xs)
until_zero-AllNonzero [] = tt
until_zero-AllNonzero (x ∷ xs) = ground (arith, until_zero-AllNonzero xs)

pub length-terminated : (w : List ℕ) → length (take (data_size - 1) w) < data_size
length-terminated w = omega (arith, length-take (data_size - 1) w)

-- The zero that the server stores changes nothing of what is printed.
pub as_printed-terminated : (w : List ℕ) → as_printed (take (data_size - 1) w) ≡ as_printed w
unfolding as_printed
as_printed-terminated w = ap until_zero (take-take (data_size - 1) w)

pub as_printed-short : (w : List ℕ) → length w < data_size → as_printed w ≡ until_zero w
unfolding as_printed
as_printed-short w h = ap until_zero (take-all (data_size - 1) w (omega arith))

pub length-as_printed : (w : List ℕ) → length (as_printed w) < data_size
unfolding as_printed
length-as_printed w = omega (arith, until_zero-le (take (data_size - 1) w), length-terminated w)

pub as_printed-AllNonzero : (w : List ℕ) → AllNonzero (as_printed w)
unfolding as_printed
as_printed-AllNonzero w = until_zero-AllNonzero (take (data_size - 1) w)

pub map-as_printed :
    (ws : List (List ℕ)) (w : List ℕ)
    → map as_printed (ws ++ w ∷ []) ≡ map as_printed ws ++ as_printed w ∷ []
map-as_printed [] w = refl
map-as_printed (v ∷ ws) w = ap (λ vs. as_printed v ∷ vs) (map-as_printed ws w)
