-- ===== src/Types.antt =====
-- model/TypeDef.cc: a type with its base classes, and the functions that walk the hierarchy. A type is
-- its address, two of its flags and its parents, so the hierarchy above a type is a tree; a base class
-- that is reached twice stands in it twice, with the same address.
pub mod Derivation
pub mod Paths
pub mod Ancestors
use crack.Prelude.{
  ℕ, zero, suc, ◌+◌, ltb, ◌==◌, Bool, true, false, not, ◌&&◌, ◌||◌, if◌then◌else◌, Option, some,
  none, List, [], ◌∷◌, ◌++◌, length,
}

mutual
  pub data TypeDef : Type 0 where
    -- the address, `pointer`, `appendage` and the parents
    type_def : ℕ → Bool → Bool → Parents → TypeDef

  pub data Parents : Type 0 where
    no_parents : Parents
    base : TypeDef → Parents → Parents

abbrev pub address : TypeDef → ℕ
address (type_def a p x ps) = a

abbrev pub is_pointer : TypeDef → Bool
is_pointer (type_def a p x ps) = p

abbrev pub is_appendage : TypeDef → Bool
is_appendage (type_def a p x ps) = x

abbrev pub parents : TypeDef → Parents
parents (type_def a p x ps) = ps

-- `this == other`
abbrev pub same : TypeDef → TypeDef → Bool
same t u = address t == address u

unfoldable mutual
  pub is_derived_from : TypeDef → TypeDef → Bool
  is_derived_from (type_def a p x ps) other =
      if a == address other then true else any_derived ps other

  -- The loop over the parents.
  pub any_derived : Parents → TypeDef → Bool
  any_derived no_parents other = false
  any_derived (base t ps) other = if is_derived_from t other then true else any_derived ps other

unfoldable mutual
  -- `this` comes second: the recursion is on the other type.
  pub matched_by : TypeDef → TypeDef → Bool
  matched_by (type_def a p x ps) this = if a == address this then true else any_matched ps this

  pub any_matched : Parents → TypeDef → Bool
  any_matched no_parents this = false
  any_matched (base t ps) this = if matched_by t this then true else any_matched ps this

unfoldable pub matches : TypeDef → TypeDef → Bool
unfolding matched_by
matches this other = matched_by other this

unfoldable pub in_parents : TypeDef → Parents → Bool
in_parents type no_parents = false
in_parents type (base t ps) = if same type t then true else in_parents type ps

unfoldable pub is_parent : TypeDef → TypeDef → Bool
unfolding in_parents
is_parent this type = in_parents type (parents this)

-- AncestorReference: the index among the parents, and the parent.
pub record PathStep : Type 0 where
  pub index : ℕ
  pub ancestor : TypeDef

unfoldable mutual
  -- `none` is false. The path is resized where the ancestor is met, and filled on the way back.
  pub get_path_to_ancestor : TypeDef → TypeDef → Option (List PathStep)
  get_path_to_ancestor (type_def a p x ps) other =
      let up = path_from ps 0 other in if a == address other then some [] else up

  pub path_from : Parents → ℕ → TypeDef → Option (List PathStep)
  path_from no_parents i other = none
  path_from (base t ps) i other = elim (get_path_to_ancestor t other) [
    | some path ↦ some (record { index = i; ancestor = t } ∷ path)
    | none ↦ path_from ps (i + 1) other
  ]

-- The errors of addToAncestors.
pub data InheritError : Type 0 where
  primitive_class object_not_first already_ancestor : InheritError

pub data Inherited : Type 0 where
  inherited : List TypeDef → Inherited
  refused : InheritError → Inherited

-- The loop over the ancestors that were there before the call.
unfoldable pub in_list : TypeDef → List TypeDef → Bool
in_list t [] = false
in_list t (u ∷ us) = if same u t then true else in_list t us

abbrev is_empty_list : List TypeDef → Bool
is_empty_list [] = true
is_empty_list (t ∷ ts) = false

-- The checks before the parents are added.
unfoldable pub refuse_first : ℕ → TypeDef → List TypeDef → Option InheritError
refuse_first object_type t ancestors =
    if not (is_pointer t)
    then some primitive_class
    else if not (is_empty_list ancestors) && address t == object_type
    then some object_not_first
    else none

-- And the one behind them.
abbrev add_last : TypeDef → List TypeDef → Inherited → Inherited
add_last t before (refused e) = refused e
add_last t before (inherited ancestors) =
    if in_list t before then refused already_ancestor else inherited (ancestors ++ t ∷ [])

unfoldable mutual
  unfolding in_list refuse_first

  -- addToAncestors, with VTableBase and Object of the construct.
  pub add_to_ancestors : ℕ → ℕ → TypeDef → List TypeDef → Inherited
  add_to_ancestors vtable_base object_type (type_def a p x ps) ancestors =
      let t = type_def a p x ps in
      let above = add_parents vtable_base object_type ps ancestors in
      if a == vtable_base
      then inherited ancestors
      else elim (refuse_first object_type t ancestors) [
        | some e ↦ refused e
        | none ↦ add_last t ancestors above
      ]

  pub add_parents : ℕ → ℕ → Parents → List TypeDef → Inherited
  add_parents vtable_base object_type no_parents ancestors = inherited ancestors
  add_parents vtable_base object_type (base t ps) ancestors =
      elim (add_to_ancestors vtable_base object_type t ancestors) [
        | refused e ↦ refused e
        | inherited more ↦ add_parents vtable_base object_type ps more
      ]

-- `cur = cur->parents[0]` until the flag is off; `none` where an appendage has no parent, which the
-- source does not define.
unfoldable pub get_anchor_type : TypeDef → Option TypeDef
get_anchor_type (type_def a p false ps) = some (type_def a p false ps)
get_anchor_type (type_def a p true no_parents) = none
get_anchor_type (type_def a p true (base t ps)) = get_anchor_type t

-- getInstanceBases, as a list.
unfoldable pub parent_list : Parents → List TypeDef
parent_list no_parents = []
parent_list (base t ps) = t ∷ parent_list ps

unfoldable pub get_instance_bases : TypeDef → Option (List TypeDef)
unfolding get_anchor_type parent_list
get_instance_bases t =
    if is_appendage t
    then (elim (get_anchor_type t) [ none ↦ none | some anchor ↦ some (anchor ∷ []) ])
    else some (parent_list (parents t))
