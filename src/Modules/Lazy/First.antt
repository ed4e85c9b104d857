-- ===== src/Modules/Lazy/First.antt =====
-- addImport and getImport (model/LazyImports.cc) over a sequence of additions.
use crack.Modules.Lazy.{
  ModuleImports, module_id, LazyImports, find_local, get_import, Entry, first_added, Answers,
}
use crack.Modules.Names.{parse_canonical_name}
use crack.Prelude.Maps.{find_key}
use crack.Prelude.{Bool, some, none, List, Bytes, ok, ◌≡◌}

-- What holds of the maps after the additions.
record Kept (l : LazyImports) (es : List Entry) : Type 0 where
  answers : (n : Bytes) → Answers (first_added es n) (get_import l n)
  known :
      (n id : Bytes) (m : ModuleImports)
      → find_key l.by_local_name n ≡ none
      → find_key l.by_module id ≡ some m
      → find_local m.imports n ≡ none
  parsed :
      (name : Bytes) (raw : Bool) (m : ModuleImports)
      → find_key l.by_module (module_id name raw) ≡ some m
      → (parse_canonical_name name ≡ ok m.module_name) × (m.raw_shared_lib ≡ raw)
