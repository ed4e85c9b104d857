-- ===== src/Types/Ancestors.antt =====
-- TypeDef::addToAncestors (model/TypeDef.cc) and the list that it grows.
use crack.Prelude.{
  ℕ, ◌==◌, Bool, true, false, Bool-cases, Option, some, none, List, [], ◌∷◌, ◌++◌, append-nil,
  append_assoc, ◌≡◌, refl, sym, ap, ◌∙◌, inl, inr, arith, All, All-append,
}
use mathlib.Core.Path.{subst}
use crack.Types.{
  TypeDef, type_def, Parents, no_parents, base, address, same, is_derived_from, any_derived,
  in_list, refuse_first, add_last, add_to_ancestors, add_parents, Inherited, inherited, refused,
  InheritError,
}

-- No two types of the list have one address.
abbrev pub Distinct : List TypeDef → Type 0
Distinct [] = Unit {0}
Distinct (t ∷ ts) = All (λ u. same u t ≡ false) ts × Distinct ts

-- No type has its own address among its ancestors.
unfoldable mutual
  pub Acyclic : TypeDef → Type 0
  Acyclic (type_def a p y ps) = (any_derived ps (type_def a p y ps) ≡ false) × AcyclicAll ps

  pub AcyclicAll : Parents → Type 0
  AcyclicAll no_parents = Unit {0}
  AcyclicAll (base t ps) = Acyclic t × AcyclicAll ps

-- The list grew by types that the code counts as ancestors, and has none twice.
pub data Grown (Q : TypeDef → Type 0) (before : List TypeDef) : Inherited → Type 0 where
  stopped : {e : InheritError} → Grown Q before (refused e)
  grown :
      {after : List TypeDef} (new : List TypeDef)
      → after ≡ before ++ new
      → All Q new
      → Distinct after
      → Grown Q before (inherited after)

All-map :
    {P Q : TypeDef → Type 0} (f : (t : TypeDef) → P t → Q t) (ts : List TypeDef)
    → All P ts
    → All Q ts
All-map f [] h = tt
All-map f (t ∷ ts) h = (f t h.0, All-map f ts h.1)

Distinct-snoc :
    (ts : List TypeDef) (t : TypeDef)
    → Distinct ts
    → All (λ u. same u t ≡ false) ts
    → Distinct (ts ++ t ∷ [])
Distinct-snoc [] t h k = (tt, tt)
Distinct-snoc (u ∷ ts) t h k = (
  All-append (λ w. same w u ≡ false) ts (t ∷ []) h.0 (ground arith, tt),
  Distinct-snoc ts t h.1 k.1,
)

in_list-absent :
    (t : TypeDef) (ts : List TypeDef) → in_list t ts ≡ false → All (λ u. same u t ≡ false) ts
unfolding in_list
in_list-absent t [] h = tt
in_list-absent t (u ∷ us) h = elim (Bool-cases (same u t)) [
  | inl e ↦ absurd (ground arith)
  | inr e ↦ (e, in_list-absent t us (rw e at h))
]

-- Only the address of the other type counts.
mutual
  unfolding is_derived_from

  derived_at : (t u w : TypeDef) → address u ≡ address w → is_derived_from t u ≡ is_derived_from t w
  derived_at (type_def a p y ps) u w e = rw (e, any_at ps u w e) refl

  any_at :
      (ps : Parents) (u w : TypeDef) → address u ≡ address w → any_derived ps u ≡ any_derived ps w
  any_at no_parents u w e = refl
  any_at (base t ps) u w e = rw (derived_at t u w e, any_at ps u w e) refl

other_than :
    (ps : Parents) (t u : TypeDef)
    → any_derived ps t ≡ false
    → any_derived ps u ≡ true
    → same u t ≡ false
other_than ps t u h k = elim (Bool-cases (same u t)) [
  | inl e ↦
      let at : address u ≡ address t = ground arith in absurd (ground (arith, any_at ps u t at))
  | inr e ↦ e
]

abbrev Over : TypeDef → TypeDef → Type 0
Over t u = is_derived_from t u ≡ true

abbrev OverAny : Parents → TypeDef → Type 0
OverAny ps u = any_derived ps u ≡ true

over_itself : (a : ℕ) (p y : Bool) (ps : Parents) → Over (type_def a p y ps) (type_def a p y ps)
unfolding is_derived_from
over_itself a p y ps = ground arith

over_parent :
    (a : ℕ) (p y : Bool) (ps : Parents) (u : TypeDef) → OverAny ps u → Over (type_def a p y ps) u
unfolding is_derived_from
over_parent a p y ps u h = ground arith

over_first : (t : TypeDef) (ps : Parents) (u : TypeDef) → Over t u → OverAny (base t ps) u
unfolding is_derived_from
over_first t ps u h = rw h refl

over_rest : (t : TypeDef) (ps : Parents) (u : TypeDef) → OverAny ps u → OverAny (base t ps) u
unfolding is_derived_from
over_rest t ps u h = ground arith

last_grown :
    (a : ℕ) (p y : Bool) (ps : Parents) (before : List TypeDef) (r : Inherited)
    → any_derived ps (type_def a p y ps) ≡ false
    → Grown (OverAny ps) before r
    → Grown (Over (type_def a p y ps)) before (add_last (type_def a p y ps) before r)
last_grown a p y ps before _ c stopped = stopped
last_grown a p y ps before _ c (grown {after} new e q d) =
    let t : TypeDef = type_def a p y ps in
    elim (Bool-cases (in_list t before)) [
      | inl h ↦ rw h stopped
      | inr h ↦
          let fresh : All (λ u. same u t ≡ false) after =
            subst (All (λ u. same u t ≡ false)) (sym e) (
              All-append (λ u. same u t ≡ false) before new (in_list-absent t before h)
                (All-map (λ u k. other_than ps t u c k) new q)) in
          rw h (
            grown (new ++ t ∷ []) (ap (λ l. l ++ t ∷ []) e ∙ append_assoc before new (t ∷ []))
              (All-append (Over t) new (t ∷ []) (All-map (over_parent a p y ps) new q)
                (over_itself a p y ps, tt))
              (Distinct-snoc after t d fresh))
    ]

-- The rest of the parents, behind the first one.
rest_grown :
    (t : TypeDef) (ps : Parents) (before : List TypeDef) (r : Inherited)
    (k : List TypeDef → Inherited)
    → ((l : List TypeDef) → Distinct l → Grown (OverAny ps) l (k l))
    → Grown (Over t) before r
    → Grown
        (OverAny (base t ps))
        before
        (elim r [ refused e ↦ refused e | inherited more ↦ k more ])
rest_grown t ps before _ k f stopped = stopped
rest_grown t ps before _ k f (grown {after} new e q d) = regrow (k after) (f after d)
  where
    regrow : (s : Inherited) → Grown (OverAny ps) after s → Grown (OverAny (base t ps)) before s
    regrow _ stopped = stopped
    regrow _ (grown more e' q' d') =
        grown (new ++ more) (e' ∙ ap (λ l. l ++ more) e ∙ append_assoc before new more)
          (All-append (OverAny (base t ps)) new more (All-map (over_first t ps) new q)
            (All-map (over_rest t ps) more q'))
          d'

checked :
    (t : TypeDef) (before : List TypeDef) (o : Option InheritError) (r : Inherited)
    → Grown (Over t) before r
    → Grown (Over t) before (elim o [ some e ↦ refused e | none ↦ r ])
checked t before none r h = h
checked t before (some e) r h = stopped

mutual
  unfolding add_to_ancestors Acyclic

  added :
      (v o : ℕ) (t : TypeDef) (before : List TypeDef)
      → Acyclic t
      → Distinct before
      → Grown (Over t) before (add_to_ancestors v o t before)
  added v o (type_def a p y ps) before c d = elim (Bool-cases (a == v)) [
    | inl e ↦ rw e (grown [] (sym (append-nil before)) tt d)
    | inr e ↦ rw e (
        checked (type_def a p y ps) before (refuse_first o (type_def a p y ps) before)
          (add_last (type_def a p y ps) before (add_parents v o ps before))
          (last_grown a p y ps before (add_parents v o ps before) c.0
            (added_all v o ps before c.1 d)))
  ]

  added_all :
      (v o : ℕ) (ps : Parents) (before : List TypeDef)
      → AcyclicAll ps
      → Distinct before
      → Grown (OverAny ps) before (add_parents v o ps before)
  added_all v o no_parents before c d = grown [] (sym (append-nil before)) tt d
  added_all v o (base t ps) before c d =
      rest_grown t ps before (add_to_ancestors v o t before) (add_parents v o ps)
        (λ l k. added_all v o ps l c.1 k) (added v o t before c.0 d)

-- For a type above which none has its own address among its ancestors, and a list in which no address
-- stands twice: addToAncestors either throws an error or only adds, behind the list as it was, types
-- that the type is derived from, and no address stands twice in the result.
pub add_to_ancestors-Grown :
    (vtable_base object_type : ℕ) (t : TypeDef) (before : List TypeDef)
    → Acyclic t
    → Distinct before
    → Grown
        (λ u. is_derived_from t u ≡ true)
        before
        (add_to_ancestors vtable_base object_type t before)
add_to_ancestors-Grown v o t before c d = added v o t before c d
