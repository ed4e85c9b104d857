-- ===== src/Tests/Lazy.antt =====
-- The theorem on lazy imports at a concrete input.
use crack.Modules.Lazy.{LazyImports, Entry, module_id}
use crack.Prelude.{[], ◌∷◌, codes, false}

abbrev sine : Entry
sine = record {
  name = codes "crack.math";
  raw = false;
  def = record { local = codes "s"; source = codes "sin" };
}

abbrev after_sine : LazyImports
after_sine = record {
  by_module =
      (
        module_id (codes "crack.math") false,
        record {
          module_name = codes "crack" ∷ codes "math" ∷ [];
          raw_shared_lib = false;
          imports = sine.def ∷ [];
        },
      )
      ∷ [];
  by_local_name = (codes "s", module_id (codes "crack.math") false) ∷ [];
}
