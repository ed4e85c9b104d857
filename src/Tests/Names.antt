-- ===== src/Tests/Names.antt =====
-- The theorems on name spaces at concrete inputs.
use crack.Prelude.Maps.{find_key}
use crack.Namespaces.Aliases.{Aliased, Owned, alias_all-Aliased}
use crack.Namespaces.Lookup.{all_defs, look_up-all_defs, look_up-add_def}
use crack.Namespaces.Removal.{remove_def-look_up}
use crack.Namespaces.{
  VarDef, plain, overloaded, Namespace, namespace, no_namespaces, scope, look_up, add_def,
  remove_def, alias_all, with_owner, tail_of, defs_of, ordered_of, cached_of,
}
use crack.Overloads.{overload, no_overloads}
use crack.Prelude.{
  ℕ, ◌+◌, true, false, if◌then◌else◌, some, none, [], ◌∷◌, Bytes, bytes_eq, codes, length, ok, ◌≡◌,
  refl,
}

abbrev counter : VarDef
counter = record { self = 20; name = codes "n"; owner = some 1; kind = plain }

abbrev printer : VarDef
printer = record {
  self = 21;
  name = codes "p";
  owner = some 1;
  kind = overloaded (overload 21 (codes "p") 1 [] no_overloads);
}

abbrev newcomer : VarDef
newcomer = record { self = 22; name = codes "n"; owner = none; kind = plain }

abbrev outer : Namespace
outer =
    namespace 1 ((codes "n", counter) ∷ (codes "p", printer) ∷ []) [] (counter ∷ printer ∷ [])
      no_namespaces

abbrev inner : Namespace
inner = namespace 2 [] [] [] (scope outer no_namespaces)

abbrev place : Bytes → ℕ
place n = 100 + length n

look_up-all_defs_example : look_up true inner (codes "p") ≡ find_key (all_defs inner) (codes "p")
look_up-all_defs_example = look_up-all_defs inner (codes "p")

look_up-add_def_example :
    (after : Namespace) × (add_def inner newcomer ≡ ok after)
    × ((n : Bytes)
        → look_up true after n
          ≡ (if bytes_eq (codes "n") n then some (with_owner 2 newcomer) else look_up true inner n))
look_up-add_def_example = look_up-add_def true inner newcomer refl refl

inner-Owned : Owned (all_defs inner)
unfolding all_defs
inner-Owned = (refl, (refl, tt))

alias_all-Aliased_example :
    Aliased place
      (namespace 3 [] [] [] no_namespaces)
      (look_up true inner)
      (alias_all place (namespace 3 [] [] [] no_namespaces) inner)
alias_all-Aliased_example =
    alias_all-Aliased place (namespace 3 [] [] [] no_namespaces) inner inner-Owned

counter_there : find_key (defs_of outer) (codes "n") ≡ some counter
unfolding find_key
counter_there = refl

remove_def-look_up_example :
    (after : Namespace) × (remove_def outer counter ≡ ok after)
    × ((n : Bytes)
        → look_up false after n ≡ (if bytes_eq (codes "n") n then none else look_up false outer n))
    × (ordered_of after ≡ tail_of (ordered_of outer))
    × (cached_of after ≡ tail_of (cached_of outer))
remove_def-look_up_example =
    remove_def-look_up outer counter counter ((refl, tt), (tt, tt)) refl counter_there
