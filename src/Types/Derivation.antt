-- ===== src/Types/Derivation.antt =====
-- isDerivedFrom and matches against the relation of being a base class.
use crack.Prelude.{ℕ, ◌==◌, Bool, true, Bool-cases, ◌≡◌, ◌↔◌, refl, inl, inr, arith}
use crack.Types.{
  TypeDef, type_def, Parents, no_parents, base, address, is_derived_from, any_derived, matched_by,
  any_matched, matches,
}
use mathlib.Core.Path.{subst}

pub data Among (u : TypeDef) : Parents → Type 0 where
  first : {ps : Parents} → Among u (base u ps)
  later : {t : TypeDef} {ps : Parents} → Among u ps → Among u (base t ps)

-- A type, its parents, their parents and so on.
pub data Above (x : TypeDef) : TypeDef → Type 0 where
  itself : Above x x
  up :
      {u : TypeDef} {a : ℕ} {p y : Bool} {ps : Parents}
      → Among u ps
      → Above x u
      → Above x (type_def a p y ps)

pub Above-trans : {x t u : TypeDef} → Above x t → Above t u → Above x u
Above-trans h itself = h
Above-trans h (up m k) = up m (Above-trans h k)

-- One of the types above `t` has the address of `other`.
abbrev pub Reaches : TypeDef → TypeDef → Type 0
Reaches t other = (x : TypeDef) × Above x t × (address x ≡ address other)

mutual
  unfolding is_derived_from

  derived_sound : (t other : TypeDef) → is_derived_from t other ≡ true → Reaches t other
  derived_sound (type_def a p y ps) other h = elim (Bool-cases (a == address other)) [
    | inl e ↦ (type_def a p y ps, itself, ground arith)
    | inr e ↦ let (u, m, (x, k, same_at)) = any_sound ps other (rw e at h) in (x, up m k, same_at)
  ]

  any_sound :
      (ps : Parents) (other : TypeDef)
      → any_derived ps other ≡ true
      → (u : TypeDef) × Among u ps × Reaches u other
  any_sound no_parents other h = cc
  any_sound (base t ps) other h = elim (Bool-cases (is_derived_from t other)) [
    | inl e ↦ (t, first, derived_sound t other e)
    | inr e ↦ let (u, m, r) = any_sound ps other (rw e at h) in (u, later m, r)
  ]

any_complete :
    {u : TypeDef} {ps : Parents} (other : TypeDef)
    → Among u ps
    → is_derived_from u other ≡ true
    → any_derived ps other ≡ true
unfolding is_derived_from
any_complete other first h = rw h refl
any_complete other (later m) h = ground (arith, any_complete other m h)

derived_complete :
    {x t : TypeDef} (other : TypeDef)
    → Above x t
    → address x ≡ address other
    → is_derived_from t other ≡ true
unfolding is_derived_from
derived_complete {x = type_def a p y ps} other itself h = ground arith
derived_complete other (up m k) h =
    ground (arith, any_complete other m (derived_complete other k h))

-- isDerivedFrom holds exactly when a type with the other's address is the type itself or above it.
pub is_derived_from_iff : (t other : TypeDef) → (is_derived_from t other ≡ true) ↔ Reaches t other
is_derived_from_iff t other =
    (derived_sound t other, λ r. let (x, k, e) = r in derived_complete other k e)

-- isDerivedFrom carries over: where every type above `t` with the address of `u` is `u`, a type that
-- is derived from `u` is derived from all that `u` is derived from.
pub is_derived_from_trans :
    (t u v : TypeDef)
    → ((x : TypeDef) → Above x t → address x ≡ address u → x ≡ u)
    → is_derived_from t u ≡ true
    → is_derived_from u v ≡ true
    → is_derived_from t v ≡ true
is_derived_from_trans t u v one h k =
    let (x, above, at) = derived_sound t u h in
    let (y, higher, reached) = derived_sound u v k in
    derived_complete v (Above-trans higher (subst (λ z. Above z t) (one x above at) above)) reached

mutual
  unfolding is_derived_from matched_by

  matched_by_eq : (t this : TypeDef) → matched_by t this ≡ is_derived_from t this
  matched_by_eq (type_def a p y ps) this = rw (any_matched_eq ps this) refl

  any_matched_eq : (ps : Parents) (this : TypeDef) → any_matched ps this ≡ any_derived ps this
  any_matched_eq no_parents this = refl
  any_matched_eq (base t ps) this = rw (matched_by_eq t this, any_matched_eq ps this) refl

-- A type matches exactly the types that are derived from it: the two walks of the hierarchy agree.
pub matches-is_derived_from :
    (this other : TypeDef) → matches this other ≡ is_derived_from other this
unfolding matches
matches-is_derived_from this other = matched_by_eq other this
