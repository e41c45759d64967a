-- ===== src/Prelude/Equality.antt =====
-- Equality tests as an interface, with instances for numbers and for byte strings.
use Prim.Native.Char.{code}
use Prim.Native.String.{String}
use Prim.Native.Nat.{ℕ}
use mathlib.Core.Path.{◌≡◌, refl}
use mathlib.Core.Logic.{◌↔◌}
use mathlib.Core.Bool.{Bool, true, false, ◌&&◌}
use mathlib.Core.List.{List, [], ◌∷◌}
use mathlib.Core.Option.{Option, none, some}
use native.Mathlib.Omega.{arith}
use zodia.Prelude.Tests.{◌==◌ as same, ==_iff}

pub record Eq {ℓ} (A : Type ℓ) : Type ℓ where
  pub equal : A → A → Bool
  pub decides : (a b : A) → (equal a b ≡ true) ↔ (a ≡ b)

-- A `str` or a `[u8]` is the list of its bytes.
abbrev pub Bytes : Type 0
Bytes = List ℕ

infix 50 ◌==◌
abbrev pub ◌==◌ {ℓ} : {A : Type ℓ} ⦃e : Eq A⦄ → A → A → Bool
◌==◌ ⦃e⦄ = e.equal

pub eq_iff {ℓ} : {A : Type ℓ} ⦃e : Eq A⦄ (a b : A) → ((a == b) ≡ true) ↔ (a ≡ b)
eq_iff ⦃e⦄ = e.decides

pub eq_refl {ℓ} : {A : Type ℓ} ⦃e : Eq A⦄ (a : A) → (a == a) ≡ true
eq_refl ⦃e⦄ a = (e.decides a a).1 refl

instance abbrev pub nat_eq : Eq ℕ
nat_eq = record { equal = same; decides = ==_iff }

unfoldable pub bytes_eq : Bytes → Bytes → Bool
bytes_eq [] [] = true
bytes_eq [] (y ∷ ys) = false
bytes_eq (x ∷ xs) [] = false
bytes_eq (x ∷ xs) (y ∷ ys) = same x y && bytes_eq xs ys

pub bytes_eq_iff : (a b : Bytes) → (bytes_eq a b ≡ true) ↔ (a ≡ b)
unfolding bytes_eq
bytes_eq_iff [] [] = ground arith
bytes_eq_iff [] (y ∷ ys) = ground arith
bytes_eq_iff (x ∷ xs) [] = ground arith
bytes_eq_iff (x ∷ xs) (y ∷ ys) = ground (arith, bytes_eq_iff xs ys)

instance abbrev pub bytes_instance : Eq Bytes
bytes_instance = record { equal = bytes_eq; decides = bytes_eq_iff }

-- The bytes of an ASCII literal.
abbrev pub codes : String → Bytes
codes String.[] = []
codes (String.◌∷◌ c s) = code c ∷ codes s

-- A nullable column compared by SQL's `=`: NULL equals nothing.
abbrev pub is_value {ℓ} : {A : Type ℓ} ⦃e : Eq A⦄ → Option A → A → Bool
is_value none a = false
is_value (some b) a = b == a

-- A nullable column compared by SQL's `!=`: NULL differs from nothing.
abbrev pub is_other {ℓ} : {A : Type ℓ} ⦃e : Eq A⦄ → Option A → A → Bool
is_other none a = false
is_other (some b) a = mathlib.Core.Bool.not (b == a)
