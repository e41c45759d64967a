-- ===== src/Prelude/Arrays.antt =====
-- Fixed-size byte arrays, as the numbers whose little-endian bytes they hold.
use Prim.Native.Nat.{ℕ, zero, suc, ◌+◌, ◌*◌, ◌/◌, ◌%◌, ◌^◌, ◌<◌}
use mathlib.Core.Path.{◌≡◌, refl, ap}
use mathlib.Core.List.{List, [], ◌∷◌, ◌++◌}
use native.Mathlib.Omega.{arith}
use native.Mathlib.Numerals.{unary_clauses}
use zodia.Prelude.Lists.{length, take, All}
use zodia.Prelude.Equality.{Bytes}

-- The `n` little-endian bytes of an array.
unfoldable pub bytes_of : ℕ → ℕ → Bytes
bytes_of zero v = []
bytes_of (suc n) v = (v % 256) ∷ bytes_of n (v / 256)

unfoldable pub number_of : Bytes → ℕ
number_of [] = 0
number_of (x ∷ xs) = x + 256 * number_of xs

pow_suc : (n : ℕ) → 256 ^ suc n ≡ 256 * 256 ^ n
pow_suc n = simp unary_clauses (omega arith)

pub number_of-bytes_of : (n v : ℕ) → v < 256 ^ n → number_of (bytes_of n v) ≡ v
unfolding number_of bytes_of
number_of-bytes_of zero v h = omega arith
number_of-bytes_of (suc n) v h =
    omega (arith, pow_suc n, number_of-bytes_of n (v / 256) (omega (arith, pow_suc n, h)))

pub length-bytes_of : (n v : ℕ) → length (bytes_of n v) ≡ n
unfolding bytes_of
length-bytes_of zero v = refl
length-bytes_of (suc n) v = omega (arith, length-bytes_of n (v / 256))

abbrev pub drop {ℓ} : {A : Type ℓ} → ℕ → List A → List A
drop zero xs = xs
drop (suc n) [] = []
drop (suc n) (x ∷ xs) = drop n xs

pub take-append : (n : ℕ) (xs ys : Bytes) → length xs ≡ n → take n (xs ++ ys) ≡ xs
take-append zero [] ys h = refl
take-append (suc n) [] ys h = absurd (omega (arith, h))
take-append zero (x ∷ xs) ys h = absurd (omega (arith, h))
take-append (suc n) (x ∷ xs) ys h = ap (λ zs. x ∷ zs) (take-append n xs ys (omega (arith, h)))

pub drop-append : (n : ℕ) (xs ys : Bytes) → length xs ≡ n → drop n (xs ++ ys) ≡ ys
drop-append zero [] ys h = refl
drop-append (suc n) [] ys h = absurd (omega (arith, h))
drop-append zero (x ∷ xs) ys h = absurd (omega (arith, h))
drop-append (suc n) (x ∷ xs) ys h = drop-append n xs ys (omega (arith, h))

-- Every element fits a `u8`.
abbrev pub IsBytes : Bytes → Type 0
IsBytes = All (λ x. x < 256)

pub bytes_of-IsBytes : (n v : ℕ) → IsBytes (bytes_of n v)
unfolding bytes_of
bytes_of-IsBytes zero v = tt
bytes_of-IsBytes (suc n) v = (omega arith, bytes_of-IsBytes n (v / 256))
