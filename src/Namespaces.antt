-- ===== src/Namespaces.antt =====
-- model/Namespace.cc: symbol tables. What getParent gives is part of the namespace, so the scopes
-- around a namespace are a tree. The flags that an alias sets on private definitions (`exposed`), and
-- serialization, are left out.
pub mod Lookup
pub mod Aliases
pub mod Removal
use crack.Prelude.Maps.{find_key, set_key}
use crack.Overloads.{Overload, overload, create_alias}
use crack.Prelude.{
  ℕ, ◌==◌, Bool, true, false, not, ◌&&◌, ◌||◌, if◌then◌else◌, Option, some, none, List, [], ◌∷◌,
  ◌++◌, Bytes, bytes_eq, Outcome, ok, fault, assertion, ◌>>=◌,
}

-- What a VarDefPtr can be cast to.
pub data Kind : Type 0 where
  plain func : Kind
  overloaded : Overload → Kind

-- The owner is a namespace's address.
pub record VarDef : Type 0 where
  pub self : ℕ
  pub name : Bytes
  pub owner : Option ℕ
  pub kind : Kind

-- `std::map` from names.
abbrev pub VarDefMap : Type 0
VarDefMap = List (Bytes × VarDef)

-- `defs.erase(defs.find(name))`
unfoldable pub erase_def : VarDefMap → Bytes → VarDefMap
erase_def [] n = []
erase_def ((m, d) ∷ ds) n = if bytes_eq m n then ds else (m, d) ∷ erase_def ds n

mutual
  pub data Namespace : Type 0 where
    -- the address, `defs`, `ordered`, `orderedForCache` and the parents
    namespace : ℕ → VarDefMap → List VarDef → List VarDef → Namespaces → Namespace

  pub data Namespaces : Type 0 where
    no_namespaces : Namespaces
    scope : Namespace → Namespaces → Namespaces

abbrev pub defs_of : Namespace → VarDefMap
defs_of (namespace a defs os cs ps) = defs

abbrev pub ordered_of : Namespace → List VarDef
ordered_of (namespace a defs os cs ps) = os

abbrev pub cached_of : Namespace → List VarDef
cached_of (namespace a defs os cs ps) = cs

abbrev pub parents_of : Namespace → Namespaces
parents_of (namespace a defs os cs ps) = ps

abbrev pub or_def : Option VarDef → Option VarDef → Option VarDef
or_def none other = other
or_def (some d) other = some d

unfoldable mutual
  unfolding find_key

  pub look_up : Bool → Namespace → Bytes → Option VarDef
  look_up recurse (namespace a defs os cs ps) n =
      let up = look_up_in ps n in or_def (find_key defs n) (if recurse then up else none)

  -- The loop over the parents, which are searched with theirs.
  pub look_up_in : Namespaces → Bytes → Option VarDef
  look_up_in no_namespaces n = none
  look_up_in (scope ns ps) n = or_def (look_up true ns n) (look_up_in ps n)

abbrev pub is_func : Kind → Bool
is_func func = true
is_func _ = false

unfoldable pub store_def : Namespace → VarDef → Outcome Namespace
unfolding set_key
store_def (namespace a defs os cs ps) def =
    if is_func def.kind
    then fault assertion
    else ok (namespace a (set_key defs def.name def) os (cs ++ def ∷ []) ps)

abbrev pub address_of : Namespace → ℕ
address_of (namespace a defs os cs ps) = a

-- `assert(!def->getOwner())`, and `assert(def->getOwner())`
abbrev pub if_unowned : Option ℕ → Outcome Namespace → Outcome Namespace
if_unowned none r = r
if_unowned (some o) r = fault assertion

abbrev pub if_owned : Option ℕ → Outcome Namespace → Outcome Namespace
if_owned none r = fault assertion
if_owned (some o) r = r

abbrev pub with_owner : ℕ → VarDef → VarDef
with_owner a def = record def { owner = some a }

-- The map holds a pointer, so the owner that is set behind the store is the stored definition's.
unfoldable pub add_def : Namespace → VarDef → Outcome Namespace
unfolding store_def
add_def ns def = if_unowned def.owner (store_def ns (with_owner (address_of ns) def))

abbrev pub tail_of : List VarDef → List VarDef
tail_of [] = []
tail_of (d ∷ ds) = ds

abbrev pub is_overloaded : Kind → Bool
is_overloaded (overloaded v) = true
is_overloaded _ = false

-- Both loops erase at their first round, whatever stands there.
unfoldable pub remove_def : Namespace → VarDef → Outcome Namespace
unfolding find_key erase_def
remove_def (namespace a defs os cs ps) def =
    if is_overloaded def.kind then fault assertion else elim (find_key defs def.name) [
      | none ↦ fault assertion
      | some d ↦ ok (namespace a (erase_def defs def.name) (tail_of os) (tail_of cs) ps)
    ]

abbrev pub renamed : Bytes → Overload → Overload
renamed n (overload a m o funcs ps) = overload a n o funcs ps

-- What an alias of a definition stores: an overload is copied, to an address that is new, and the copy
-- renamed and owned by the namespace.
abbrev pub alias_kind : ℕ → ℕ → Bytes → VarDef → Kind → VarDef
alias_kind new a n def (overloaded v) = record {
  self = new;
  name = n;
  owner = some a;
  kind = overloaded (renamed n (create_alias new a v));
}
alias_kind new a n def k = def

abbrev pub alias_of : ℕ → ℕ → Bytes → VarDef → VarDef
alias_of new a n def = alias_kind new a n def def.kind

-- addAlias of a definition under its own name, with the address of the copy.
unfoldable pub add_alias : ℕ → Namespace → VarDef → Outcome Namespace
unfolding store_def
add_alias new ns def = if_owned def.owner (store_def ns (alias_of new (address_of ns) def.name def))

-- `defs[name] = def`
abbrev pub put_def : Namespace → Bytes → VarDef → Namespace
put_def (namespace a defs os cs ps) n def = namespace a (set_key defs n def) os cs ps

-- addAlias under another name.
unfoldable pub add_alias_as : ℕ → Namespace → Bytes → VarDef → Outcome Namespace
unfolding set_key
add_alias_as new ns n def =
    if_owned def.owner (ok (put_def ns n (alias_of new (address_of ns) n def)))

unfoldable pub add_unsafe_alias : Namespace → Bytes → VarDef → Outcome Namespace
unfolding set_key
add_unsafe_alias ns n def = if_owned def.owner (ok (put_def ns n def))

unfoldable pub has_alias_for : VarDefMap → VarDef → Bool
has_alias_for [] def = false
has_alias_for ((n, d) ∷ ds) def = if d.self == def.self then true else has_alias_for ds def

abbrev pub owned_by : Option ℕ → ℕ → Bool
owned_by none a = false
owned_by (some o) a = o == a

abbrev pub is_alias : Namespace → VarDef → Bytes → Bool
is_alias ns def n = not (owned_by def.owner (address_of ns)) || not (bytes_eq n def.name)

-- aliasAll, with the address that the copy made for a name gets.
module _ (fresh : Bytes → ℕ) where
  abbrev pub keep_or_alias : Option VarDef → Namespace → Bytes → VarDef → Outcome Namespace
  keep_or_alias (some d) ns n def = ok ns
  keep_or_alias none ns n def = add_alias_as (fresh n) ns n def

  unfoldable pub alias_defs : Namespace → VarDefMap → Outcome Namespace
  unfolding look_up add_alias_as
  alias_defs ns [] = ok ns
  alias_defs ns ((n, def) ∷ ds) =
      keep_or_alias (look_up true ns n) ns n def >>= (λ ns'. alias_defs ns' ds)

  unfoldable mutual
    unfolding alias_defs

    -- The other namespace comes first: the recursion is on it.
    pub alias_from : Namespace → Namespace → Outcome Namespace
    alias_from (namespace a defs os cs ps) ns =
        alias_defs ns defs >>= (λ ns'. alias_from_all ps ns')

    pub alias_from_all : Namespaces → Namespace → Outcome Namespace
    alias_from_all no_namespaces ns = ok ns
    alias_from_all (scope other ps) ns = alias_from other ns >>= (λ ns'. alias_from_all ps ns')

  unfoldable pub alias_all : Namespace → Namespace → Outcome Namespace
  unfolding alias_from
  alias_all ns other = alias_from other ns
