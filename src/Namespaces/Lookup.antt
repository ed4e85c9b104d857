-- ===== src/Namespaces/Lookup.antt =====
-- Lookup of a name against the list of all definitions in sight, and after a definition is added.
use crack.Prelude.Maps.{find_key, set_key, find_key-set_key}
use crack.Namespaces.{
  VarDef, VarDefMap, Namespace, namespace, Namespaces, no_namespaces, scope, or_def, look_up,
  look_up_in, store_def, add_def, is_func, address_of, with_owner, if_unowned,
}
use crack.Prelude.{
  ℕ, Bool, true, false, Bool-cases, if◌then◌else◌, Option, some, none, [], ◌∷◌, ◌++◌, Bytes,
  bytes_eq, Outcome, ok, fault, assertion, ◌≡◌, refl, sym, ap, ◌∙◌, inl, inr,
}

-- The definitions of a namespace, and then those of the scopes around it.
unfoldable mutual
  pub all_defs : Namespace → VarDefMap
  all_defs (namespace a defs os cs ps) = defs ++ all_in ps

  pub all_in : Namespaces → VarDefMap
  all_in no_namespaces = []
  all_in (scope ns ps) = all_defs ns ++ all_in ps

find_key-append :
    (ds es : VarDefMap) (n : Bytes) → find_key (ds ++ es) n ≡ or_def (find_key ds n) (find_key es n)
unfolding find_key
find_key-append [] es n = refl
find_key-append ((m, d) ∷ ds) es n = elim (Bool-cases (bytes_eq m n)) [
  | inl e ↦ rw e refl
  | inr e ↦ rw e (find_key-append ds es n)
]

none_there : (n : Bytes) → none ≡ find_key {A = VarDef} [] n
unfolding find_key
none_there n = refl

mutual
  unfolding look_up all_defs

  in_sight : (ns : Namespace) (n : Bytes) → look_up true ns n ≡ find_key (all_defs ns) n
  in_sight (namespace a defs os cs ps) n =
      ap (or_def (find_key defs n)) (all_in_sight ps n) ∙ sym (find_key-append defs (all_in ps) n)

  all_in_sight : (ps : Namespaces) (n : Bytes) → look_up_in ps n ≡ find_key (all_in ps) n
  all_in_sight no_namespaces n = none_there n
  all_in_sight (scope ns ps) n =
      ap (λ r. or_def r (look_up_in ps n)) (in_sight ns n)
      ∙ ap (or_def (find_key (all_defs ns) n)) (all_in_sight ps n)
      ∙ sym (find_key-append (all_defs ns) (all_in ps) n)

-- A lookup with the scopes around gives the first definition under the name in the list of the
-- namespace's own definitions and behind them those of each scope around it with all around that.
pub look_up-all_defs : (ns : Namespace) (n : Bytes) → look_up true ns n ≡ find_key (all_defs ns) n
look_up-all_defs ns n = in_sight ns n

pub or-if :
    (b : Bool) (d : VarDef) (r up : Option VarDef)
    → or_def (if b then some d else r) up ≡ (if b then some d else or_def r up)
or-if true d r up = refl
or-if false d r up = refl

unowned : (o : Option ℕ) (r : Outcome Namespace) → o ≡ none → if_unowned o r ≡ r
unowned o r h = rw h refl

stored_def :
    (b : Bool) (ns : Namespace) → b ≡ false → (if b then fault assertion else ok ns) ≡ ok ns
stored_def b ns h = rw h refl

-- A definition that has no owner and is no function is added; it then stands for its name, owned by the
-- namespace, in every lookup, and each other name stands for what it stood for.
pub look_up-add_def :
    (recurse : Bool) (ns : Namespace) (def : VarDef)
    → def.owner ≡ none
    → is_func def.kind ≡ false
    → (after : Namespace) × (add_def ns def ≡ ok after)
      × ((n : Bytes)
          → look_up recurse after n ≡ (
              if bytes_eq def.name n
              then some (with_owner (address_of ns) def)
              else look_up recurse ns n))
unfolding add_def store_def look_up
look_up-add_def recurse (namespace a defs os cs ps) def h k =
    let stored = with_owner a def in
    (
      namespace a (set_key defs def.name stored) os (cs ++ stored ∷ []) ps,
      unowned def.owner _ h ∙ stored_def (is_func def.kind) _ k,
      λ n.
          ap (λ r. or_def r (if recurse then look_up_in ps n else none))
            (find_key-set_key defs def.name n stored)
          ∙ or-if (bytes_eq def.name n) stored (find_key defs n) _,
    )
