-- ===== src/Prelude/Maps.antt =====
-- `std::map` with texts as keys, as a list of its pairs.
use crack.Prelude.Text.{Bytes, bytes_eq, bytes_eq_iff, Bool-cases, if◌then◌else◌}
use mathlib.Core.Bool.{true, false}
use mathlib.Core.List.{List, [], ◌∷◌}
use mathlib.Core.Logic.{inl, inr}
use mathlib.Core.Option.{Option, none, some}
use mathlib.Core.Path.{◌≡◌, refl, sym, ◌∙◌}

-- `find(key)`
unfoldable pub find_key {ℓ} : {A : Type ℓ} → List (Bytes × A) → Bytes → Option A
find_key [] n = none
find_key ((m, d) ∷ ds) n = if bytes_eq m n then some d else find_key ds n

-- `map[key] = value`
unfoldable pub set_key {ℓ} : {A : Type ℓ} → List (Bytes × A) → Bytes → A → List (Bytes × A)
set_key [] n def = (n, def) ∷ []
set_key ((m, d) ∷ ds) n def = if bytes_eq m n then (m, def) ∷ ds else (m, d) ∷ set_key ds n def

-- Of two names, one is the same as a third and the other is not.
pub differing : (k n m : Bytes) → bytes_eq k n ≡ false → bytes_eq k m ≡ true → bytes_eq n m ≡ false
differing k n m h e = elim (Bool-cases (bytes_eq n m)) [
  | inl f ↦
      let same = (bytes_eq_iff k n).1 ((bytes_eq_iff k m).0 e ∙ sym ((bytes_eq_iff n m).0 f)) in
      absurd (cc (h, same))
  | inr f ↦ f
]

pub find_key-set_key {ℓ} :
    {A : Type ℓ} (ds : List (Bytes × A)) (n m : Bytes) (d : A)
    → find_key (set_key ds n d) m ≡ (if bytes_eq n m then some d else find_key ds m)
unfolding find_key set_key
find_key-set_key [] n m d = refl
find_key-set_key ((k, e) ∷ ds) n m d = elim (Bool-cases (bytes_eq k n)) [
  | inl h ↦
      rw (h, (bytes_eq_iff k n).0 h)
        (elim (Bool-cases (bytes_eq n m)) [ inl g ↦ rw g refl | inr g ↦ rw g refl ])
  | inr h ↦ rw h (elim (Bool-cases (bytes_eq k m)) [
    | inl g ↦ rw (g, differing k n m h g) refl
    | inr g ↦ rw g (find_key-set_key ds n m d)
  ])
]
