-- ===== src/Prelude/Lists.antt =====
-- Lists measured by native numbers.
use Prim.Native.Nat.{ℕ, suc, ◌+◌}
use mathlib.Core.Path.{◌≡◌}
use mathlib.Core.List.{List, [], ◌∷◌, ◌++◌}
use native.Mathlib.Omega.{arith}
use crack.Prelude.Text.{◌==◌, if◌then◌else◌, Bytes}

module _ {ℓ} {A : Type ℓ} where
  abbrev pub length : List A → ℕ
  length [] = 0
  length (x ∷ xs) = suc (length xs)

  pub length-append : (xs ys : List A) → length (xs ++ ys) ≡ length xs + length ys
  length-append [] ys = omega arith
  length-append (x ∷ xs) ys = omega (arith, length-append xs ys)

  abbrev pub All {κ} : (A → Type κ) → List A → Type κ
  All P [] = Unit {κ}
  All P (x ∷ xs) = P x × All P xs

  pub All-append {κ} : (P : A → Type κ) (xs ys : List A) → All P xs → All P ys → All P (xs ++ ys)
  All-append P [] ys h k = k
  All-append P (x ∷ xs) ys h k = (h.0, All-append P xs ys h.1 k)

pub data Member {ℓ} {A : Type ℓ} (x : A) : List A → Type ℓ where
  here : {xs : List A} → Member x (x ∷ xs)
  there : {y : A} {xs : List A} → Member x xs → Member x (y ∷ xs)

pub Member-left {ℓ} :
    {A : Type ℓ} {x : A} {xs : List A} (ys : List A) → Member x xs → Member x (xs ++ ys)
Member-left ys here = here
Member-left ys (there m) = there (Member-left ys m)

pub Member-right {ℓ} :
    {A : Type ℓ} {x : A} (xs : List A) {ys : List A} → Member x ys → Member x (xs ++ ys)
Member-right [] m = m
Member-right (y ∷ xs) m = there (Member-right xs m)

-- How often a byte stands in a text.
abbrev pub count : ℕ → Bytes → ℕ
count b [] = 0
count b (c ∷ cs) = (if c == b then 1 else 0) + count b cs

pub count-append : (b : ℕ) (xs ys : Bytes) → count b (xs ++ ys) ≡ count b xs + count b ys
count-append b [] ys = omega arith
count-append b (x ∷ xs) ys = omega (arith, count-append b xs ys)
