-- ===== src/Overloads.antt =====
-- model/OverloadDef.cc and the matching of model/FuncDef.cc: a set of functions of one name, with the
-- sets that it inherits. An expression is what its class makes of it, so the three methods of an
-- expression that matching calls are an interface. The `exposed` flags that createAlias sets, and the
-- `type` and `impl` that an overload takes from its first function, are left out.
pub mod Matches
pub mod Search
pub mod Deleted
use crack.Prelude.{
  ℕ, zero, suc, ◌+◌, ◌==◌, Bool, true, false, not, ◌&&◌, ◌||◌, if◌then◌else◌, Option, some, none,
  List, [], ◌∷◌, ◌++◌, Bytes, bytes_eq, length,
}
use crack.Types.{TypeDef, address, matches, is_derived_from}

pub record Arg : Type 0 where
  pub type : TypeDef
  pub name : Bytes

-- The fields that resolution reads: the flags one by one, types and owners by address.
pub record FuncDef : Type 0 where
  pub self : ℕ
  pub name : Bytes
  pub args : List Arg
  pub is_method : Bool
  pub is_virtual : Bool
  pub is_abstract : Bool
  pub is_deleted : Bool
  pub receiver : ℕ
  pub owner : ℕ
  pub func_type : TypeDef

mutual
  pub data Overload : Type 0 where
    -- the address, the name, the owner, the functions and the parents
    overload : ℕ → Bytes → ℕ → List FuncDef → Overloads → Overload

  pub data Overloads : Type 0 where
    no_overloads : Overloads
    delegate : Overload → Overloads → Overloads

abbrev pub self_of : Overload → ℕ
self_of (overload a n o fs ps) = a

unfoldable mutual
  pub flatten : Overload → List FuncDef
  flatten (overload a n o funcs ps) = funcs ++ flatten_all ps

  pub flatten_all : Overloads → List FuncDef
  flatten_all no_overloads = []
  flatten_all (delegate v ps) = flatten v ++ flatten_all ps

abbrev pub null_if_deleted : FuncDef → Option FuncDef
null_if_deleted f = if f.is_deleted then none else some f

-- isVirtualOverride: the types are compared by address.
abbrev pub is_virtual_override : FuncDef → Bool
is_virtual_override f = f.is_virtual && not (f.receiver == f.owner)

pub data Convert : Type 0 where
  no_convert adapt adapt_secondary convert_all : Convert

-- What an expression offers: its type, which may be null, `isAdaptive` and `convert`.
pub record Exprs (E : Type 0) : Type 0 where
  pub type_of : E → Option TypeDef
  pub adaptive : E → Bool
  pub convert : E → TypeDef → Option E

-- The local functions of an overload, the first that a test takes.
unfoldable pub find_func : (FuncDef → Bool) → List FuncDef → Option FuncDef
find_func test [] = none
find_func test (f ∷ fs) = if test f then some f else find_func test fs

abbrev pub or_else : Option FuncDef → Option FuncDef → Option FuncDef
or_else none other = other
or_else (some f) other = some f

-- null_if_deleted of a local function, and the parents where there is none.
abbrev pub local_or : Option FuncDef → Option FuncDef → Option FuncDef
local_or none up = up
local_or (some f) up = null_if_deleted f

unfoldable mutual
  unfolding find_func

  -- The search that getMatch(TypeDef *), getSigMatch and getNoArgMatch make, each with its own test;
  -- the test sees the owner of the overload.
  pub search : (ℕ → FuncDef → Bool) → Overload → Option FuncDef
  search test (overload a n o funcs ps) = local_or (find_func (test o) funcs) (search_all test ps)

  pub search_all : (ℕ → FuncDef → Bool) → Overloads → Option FuncDef
  search_all test no_overloads = none
  search_all test (delegate v ps) = or_else (search test v) (search_all test ps)

-- FuncDef::matches(const ArgVec &) and matchesWithNames.
unfoldable pub same_args : Bool → List Arg → List Arg → Bool
same_args names [] [] = true
same_args names (a ∷ as') (b ∷ bs) =
    address a.type == address b.type
    && (not names || bytes_eq a.name b.name)
    && same_args names as' bs
same_args names _ _ = false

unfoldable pub get_sig_match : List Arg → Bool → Overload → Option FuncDef
unfolding search same_args
get_sig_match args names v = search (λ o f. same_args names f.args args) v

unfoldable pub get_type_match : TypeDef → Overload → Option FuncDef
unfolding search is_derived_from
get_type_match type v = search (λ o f. is_derived_from f.func_type type) v

abbrev pub is_empty_args : List Arg → Bool
is_empty_args [] = true
is_empty_args (a ∷ as') = false

unfoldable pub get_no_arg_match : Bool → Overload → Option FuncDef
unfolding search
get_no_arg_match accept_alias v =
    search (λ o f. is_empty_args f.args && (accept_alias || f.owner == o)) v

-- The functions of the alias, which has no parents.
unfoldable pub create_alias : ℕ → ℕ → Overload → Overload
unfolding flatten
create_alias address' owner (overload a n o funcs ps) =
    overload address' n owner (flatten (overload a n o funcs ps)) no_overloads

unfoldable pub add_func : Overload → FuncDef → Overload
add_func (overload a n o funcs ps) f = overload a n o (funcs ++ f ∷ []) ps

unfoldable pub append_parent : Overloads → Overload → Overloads
append_parent no_overloads v = delegate v no_overloads
append_parent (delegate u us) v = delegate u (append_parent us v)

unfoldable pub add_parent : Overload → Overload → Bool → Overload
unfolding append_parent
add_parent (overload a n o funcs ps) parent true = overload a n o funcs (delegate parent ps)
add_parent (overload a n o funcs ps) parent false = overload a n o funcs (append_parent ps parent)

unfoldable mutual
  pub has_ancestor : Overload → Overload → Bool
  has_ancestor (overload a n o funcs ps) parent =
      if a == self_of parent then true else any_ancestor ps parent

  pub any_ancestor : Overloads → Overload → Bool
  any_ancestor no_overloads parent = false
  any_ancestor (delegate v ps) parent =
      if has_ancestor v parent then true else any_ancestor ps parent

unfoldable pub is_single_function : Overload → Bool
unfolding flatten
is_single_function v = length (flatten v) == 1

abbrev only : List FuncDef → Option FuncDef
only (f ∷ []) = some f
only _ = none

unfoldable pub get_single_function : Overload → Option FuncDef
unfolding flatten
get_single_function v = only (flatten v)

unfoldable pub all_methods : List FuncDef → Bool
all_methods [] = true
all_methods (f ∷ fs) = if f.is_method then all_methods fs else false

unfoldable mutual
  unfolding all_methods

  -- isStatic of every function is off: it needs a receiver.
  pub needs_receiver : Overload → Bool
  needs_receiver (overload a n o funcs ps) = if all_methods funcs then all_need ps else false

  pub all_need : Overloads → Bool
  all_need no_overloads = true
  all_need (delegate v ps) = if needs_receiver v then all_need ps else false
