-- ===== src/Types/Paths.antt =====
-- getPathToAncestor against isDerivedFrom, and what its path leads through.
use crack.Prelude.{
  ℕ, zero, suc, ◌+◌, ◌==◌, Bool, true, false, Bool-cases, Option, some, none, List, [], ◌∷◌, ◌≡◌,
  refl, ap, ◌∙◌, inl, inr, arith,
}
use crack.Types.{
  TypeDef, type_def, Parents, no_parents, base, address, parents, is_derived_from, any_derived,
  PathStep, get_path_to_ancestor, path_from,
}

-- The parent at an index.
abbrev pub parent_at : ℕ → Parents → Option TypeDef
parent_at i no_parents = none
parent_at zero (base t ps) = some t
parent_at (suc i) (base t ps) = parent_at i ps

-- From a type along a path: each step is the parent at its index, and the last one is at `goal`.
pub data Leads (goal : ℕ) : TypeDef → List PathStep → Type 0 where
  arrived : {t : TypeDef} → address t ≡ goal → Leads goal t []
  step :
      {t : TypeDef} {s : PathStep} {path : List PathStep}
      → parent_at s.index (parents t) ≡ some s.ancestor
      → Leads goal s.ancestor path
      → Leads goal t (s ∷ path)

-- What the search gives, with or without a path.
abbrev pub Found : TypeDef → TypeDef → Option (List PathStep) → Type 0
Found t other none = is_derived_from t other ≡ false
Found t other (some path) = (is_derived_from t other ≡ true) × Leads (address other) t path

abbrev FoundFrom : Parents → ℕ → TypeDef → Option (List PathStep) → Type 0
FoundFrom ps i other none = any_derived ps other ≡ false
FoundFrom ps i other (some []) = ⊥
FoundFrom ps i other (some (s ∷ path)) =
    (any_derived ps other ≡ true)
    × (j : ℕ) × (s.index ≡ i + j)
    × (parent_at j ps ≡ some s.ancestor)
    × Leads (address other) s.ancestor path

itself :
    (a : ℕ) (p y : Bool) (ps : Parents) (other : TypeDef)
    → (a == address other) ≡ true
    → Found (type_def a p y ps) other (some [])
unfolding is_derived_from
itself a p y ps other e = (rw e refl, arrived (ground arith))

nothing : (i : ℕ) (other : TypeDef) → FoundFrom no_parents i other none
unfolding is_derived_from
nothing i other = refl

lift :
    (a : ℕ) (p y : Bool) (ps : Parents) (other : TypeDef) (r : Option (List PathStep))
    → (a == address other) ≡ false
    → FoundFrom ps 0 other r
    → Found (type_def a p y ps) other r
unfolding is_derived_from
lift a p y ps other none e f = rw e f
lift a p y ps other (some []) e f = absurd f
lift a p y ps other (some (s ∷ path)) e (h, j, q, at, l) =
    let same : s.index ≡ j = omega arith in (rw e h, step (ap (λ k. parent_at k ps) same ∙ at) l)

-- The first parent has a path, or the others are asked.
first_or :
    (t : TypeDef) (ps : Parents) (i : ℕ) (other : TypeDef) (r q : Option (List PathStep))
    → Found t other r
    → FoundFrom ps (i + 1) other q
    → FoundFrom
        (base t ps)
        i
        other
        (elim r [ some path ↦ some (record { index = i; ancestor = t } ∷ path) | none ↦ q ])
unfolding is_derived_from
first_or t ps i other (some path) q (h, l) g = (rw h refl, 0, omega arith, refl, l)
first_or t ps i other none none h g = rw h g
first_or t ps i other none (some []) h g = absurd g
first_or t ps i other none (some (s ∷ path)) h (d, j, q, at, l) =
    (rw h d, suc j, omega arith, at, l)

mutual
  unfolding get_path_to_ancestor

  found : (t other : TypeDef) → Found t other (get_path_to_ancestor t other)
  found (type_def a p y ps) other = elim (Bool-cases (a == address other)) [
    | inl e ↦ rw e (itself a p y ps other e)
    | inr e ↦ rw e (lift a p y ps other (path_from ps 0 other) e (found_from ps 0 other))
  ]

  found_from :
      (ps : Parents) (i : ℕ) (other : TypeDef) → FoundFrom ps i other (path_from ps i other)
  found_from no_parents i other = nothing i other
  found_from (base t ps) i other =
      first_or t ps i other (get_path_to_ancestor t other) (path_from ps (i + 1) other)
        (found t other) (found_from ps (i + 1) other)

-- getPathToAncestor fails exactly where isDerivedFrom does, and otherwise its path leads from parent
-- to parent, each the one at the step's index, to a type with the ancestor's address.
pub get_path_to_ancestor-Leads : (t other : TypeDef) → Found t other (get_path_to_ancestor t other)
get_path_to_ancestor-Leads t other = found t other
