-- ===== src/Modules/Lazy.antt =====
-- model/LazyImports.cc: the lazy imports of a module. A ModuleImports object is reached by its key in
-- `byModule`, so what `byLocalName` points to is that key. Serialization is left out.
pub mod Answer
pub mod First
use crack.Imports.{ImportedDef}
use crack.Modules.Names.{parse_canonical_name}
use crack.Prelude.Maps.{find_key, set_key, find_key-set_key}
use crack.Prelude.{
  ℕ, ◌==◌, Bool, true, false, Bool-cases, if◌then◌else◌, Option, some, none, List, [], ◌∷◌, ◌++◌,
  Bytes, bytes_eq, bytes_eq_iff, Outcome, ok, parse_error, fault, assertion, ◌>>=◌, ◌≡◌, refl, sym,
  ap, ◌∙◌, inl, inr, Member, here, there,
}

pub record ModuleImports : Type 0 where
  pub module_name : List Bytes
  pub raw_shared_lib : Bool
  pub imports : List ImportedDef

-- The pair of a module's name and the flag, as one text.
abbrev pub module_id : Bytes → Bool → Bytes
module_id name raw = (if raw then 1 else 0) ∷ name

pub record LazyImports : Type 0 where
  pub by_module : List (Bytes × ModuleImports)
  pub by_local_name : List (Bytes × Bytes)

abbrev pub no_lazy_imports : LazyImports
no_lazy_imports = record { by_module = []; by_local_name = [] }

-- `emplace` of the local name: an entry that is there stays.
abbrev pub emplace : Option Bytes → List (Bytes × Bytes) → Bytes → Bytes → List (Bytes × Bytes)
emplace (some old) ns name id = ns
emplace none ns name id = set_key ns name id

-- addImportTo
unfoldable pub add_import_to : LazyImports → Bytes → ModuleImports → ImportedDef → LazyImports
unfolding find_key set_key
add_import_to l id imports def = record {
  by_module = set_key l.by_module id (record imports { imports = imports.imports ++ def ∷ [] });
  by_local_name = emplace (find_key l.by_local_name def.local) l.by_local_name def.local id;
}

abbrev pub add_found :
    Option ModuleImports → LazyImports → Bytes → Bool → ImportedDef → Outcome LazyImports
add_found (some imports) l name raw def = ok (add_import_to l (module_id name raw) imports def)
add_found none l name raw def = parse_canonical_name name >>= λ parsed. ok (
    add_import_to l (module_id name raw)
      (record { module_name = parsed; raw_shared_lib = raw; imports = [] }) def)

unfoldable pub add_import : LazyImports → Bytes → Bool → ImportedDef → Outcome LazyImports
unfolding find_key add_import_to
add_import l name raw def = add_found (find_key l.by_module (module_id name raw)) l name raw def

-- The loop of getImport over the module's symbols.
unfoldable pub find_local : List ImportedDef → Bytes → Option ImportedDef
find_local [] n = none
find_local (i ∷ is') n = if bytes_eq i.local n then some i else find_local is' n

abbrev pub only_symbol : ModuleImports → Option ImportedDef → Outcome ModuleImports
only_symbol m none = fault assertion
only_symbol m (some i) = ok (record m { imports = i ∷ [] })

abbrev pub symbol_of : Option ModuleImports → Bytes → Outcome ModuleImports
symbol_of none n = fault assertion
symbol_of (some m) n = only_symbol m (find_local m.imports n)

-- The default ModuleImports, for which `exists` is false.
abbrev pub no_imports : ModuleImports
no_imports = record { module_name = []; raw_shared_lib = false; imports = [] }

abbrev pub get_at : LazyImports → Option Bytes → Bytes → Outcome ModuleImports
get_at l none n = ok no_imports
get_at l (some id) n = symbol_of (find_key l.by_module id) n

unfoldable pub get_import : LazyImports → Bytes → Outcome ModuleImports
unfolding find_key find_local
get_import l n = get_at l (find_key l.by_local_name n) n

-- An import that was asked for.
pub record Entry : Type 0 where
  pub name : Bytes
  pub raw : Bool
  pub def : ImportedDef

-- Imports added one after the other, the last one first in the list.
pub data Added : LazyImports → List Entry → Type 0 where
  start : Added no_lazy_imports []
  next :
      {l l' : LazyImports} {es : List Entry} (e : Entry)
      → Added l es
      → add_import l e.name e.raw e.def ≡ ok l'
      → Added l' (e ∷ es)

-- The import that was first added under a local name.
abbrev pub or_entry : Option Entry → Option Entry → Option Entry
or_entry none other = other
or_entry (some e) other = some e

abbrev pub first_added : List Entry → Bytes → Option Entry
first_added [] n = none
first_added (e ∷ es) n =
    or_entry (first_added es n) (if bytes_eq e.def.local n then some e else none)

-- What getImport promises for it.
pub data Answers : Option Entry → Outcome ModuleImports → Type 0 where
  not_there : Answers none (ok no_imports)
  there_it_is :
      {e : Entry} {parsed : List Bytes}
      → parse_canonical_name e.name ≡ ok parsed
      → Answers
          (some e)
          (ok (record { module_name = parsed; raw_shared_lib = e.raw; imports = e.def ∷ [] }))
