-- ===== src/Prelude/Counts.antt =====
-- How often a number stands in a list, and predicates on every element.
use Prim.Native.Nat.{ℕ, zero, suc, ◌+◌, ◌<◌}
use mathlib.Core.Path.{◌≡◌, refl}
use mathlib.Core.Logic.{◌≢◌}
use mathlib.Core.List.{List, [], ◌∷◌, ◌++◌}
use cserv.Prelude.Tests.{◌==◌, if◌then◌else◌}
use native.Mathlib.Omega.{arith}

-- 1 for the number itself, 0 for the others
abbrev pub one_at : ℕ → ℕ → ℕ
one_at k x = if k == x then 1 else 0

abbrev pub count : ℕ → List ℕ → ℕ
count k [] = 0
count k (x ∷ xs) = one_at k x + count k xs

pub count-append : (k : ℕ) (xs ys : List ℕ) → count k (xs ++ ys) ≡ count k xs + count k ys
count-append k [] ys = omega arith
count-append k (x ∷ xs) ys = ground (arith, count-append k xs ys)

pub one_at_self : (k : ℕ) → one_at k k ≡ 1
one_at_self k = ground arith

module _ {ℓ} {A : Type ℓ} where
  abbrev pub Every {κ} : (A → Type κ) → List A → Type κ
  Every P [] = Unit
  Every P (x ∷ xs) = P x × Every P xs

  pub Every-append {κ} :
      (P : A → Type κ) (xs ys : List A) → Every P xs → Every P ys → Every P (xs ++ ys)
  Every-append P [] ys a b = b
  Every-append P (x ∷ xs) ys a b = (a.0, Every-append P xs ys a.1 b)

  pub Every-split {κ} :
      (P : A → Type κ) (xs ys : List A) → Every P (xs ++ ys) → Every P xs × Every P ys
  Every-split P [] ys a = (tt, a)
  Every-split P (x ∷ xs) ys a = ((a.0, (Every-split P xs ys a.1).0), (Every-split P xs ys a.1).1)

  pub Every-map {κ κ'} :
      (P : A → Type κ) (Q : A → Type κ') (xs : List A)
      → ((x : A) → P x → Q x)
      → Every P xs
      → Every Q xs
  Every-map P Q [] f a = tt
  Every-map P Q (x ∷ xs) f a = (f x a.0, Every-map P Q xs f a.1)

-- a number that does not stand in the list
pub count_zero-Every : (k : ℕ) (xs : List ℕ) → count k xs ≡ 0 → Every (λ x. x ≢ k) xs
count_zero-Every k [] e = tt
count_zero-Every k (x ∷ xs) e = (λ h. ground (arith, h), count_zero-Every k xs (ground arith))

-- the three ways in which numbers compare
pub data Compared (a b : ℕ) : Type 0 where
  less : a < b → Compared a b
  equal : a ≡ b → Compared a b
  greater : b < a → Compared a b

pub compared : (a b : ℕ) → Compared a b
compared zero zero = equal refl
compared zero (suc b) = less (omega arith)
compared (suc a) zero = greater (omega arith)
compared (suc a) (suc b) = elim (compared a b) [
  | less h ↦ less (omega (arith, h))
  | equal h ↦ equal (omega (arith, h))
  | greater h ↦ greater (omega (arith, h))
]

-- What holds of every element holds of a number that stands in the list.
pub Every-count {κ} : (P : ℕ → Type κ) (k : ℕ) (xs : List ℕ) → Every P xs → count k xs ≢ 0 → P k
Every-count P k [] a h = absurd (h refl)
Every-count P k (x ∷ xs) a h = elim (compared k x) [
  | equal e ↦ rw e a.0
  | less l ↦ Every-count P k xs a.1 (λ z. h (ground (arith, l, z)))
  | greater l ↦ Every-count P k xs a.1 (λ z. h (ground (arith, l, z)))
]
