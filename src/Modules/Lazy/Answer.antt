-- ===== src/Modules/Lazy/Answer.antt =====
-- What getImport answers before and behind one more import.
use crack.Imports.{ImportedDef}
use crack.Modules.Lazy.{
  ModuleImports, module_id, LazyImports, emplace, add_import_to, find_local, only_symbol, symbol_of,
  no_imports, get_at, Entry, or_entry, Answers, not_there, there_it_is,
}
use crack.Modules.Names.{parse_canonical_name}
use crack.Prelude.Maps.{find_key, set_key, find_key-set_key}
use crack.Prelude.{
  Bool, true, false, Bool-cases, if◌then◌else◌, Option, some, none, List, [], ◌∷◌, ◌++◌, Bytes,
  bytes_eq, bytes_eq_iff, ok, ◌≡◌, refl, sym, ap, ◌∙◌, inl, inr, ◌⊎◌,
}
use mathlib.Core.Path.{subst}

abbrev pub or_id : Option Bytes → Option Bytes → Option Bytes
or_id none other = other
or_id (some k) other = some k

abbrev or_symbol : Option ImportedDef → Option ImportedDef → Option ImportedDef
or_symbol none other = other
or_symbol (some i) other = some i

pub find_local-append :
    (xs : List ImportedDef) (i : ImportedDef) (n : Bytes)
    → find_local (xs ++ i ∷ []) n
      ≡ or_symbol (find_local xs n) (if bytes_eq i.local n then some i else none)
unfolding find_local
find_local-append [] i n = refl
find_local-append (x ∷ xs) i n = elim (Bool-cases (bytes_eq x.local n)) [
  | inl e ↦ rw e refl
  | inr e ↦ rw e (find_local-append xs i n)
]

or_id-none : (r : Option Bytes) → or_id r none ≡ r
or_id-none none = refl
or_id-none (some k) = refl

emplace-same :
    (old : Bytes) (ns : List (Bytes × Bytes)) (m n id : Bytes) (b : Bool)
    → find_key ns m ≡ some old
    → bytes_eq m n ≡ b
    → find_key ns n ≡ or_id (find_key ns n) (if b then some id else none)
emplace-same old ns m n id true h e =
    let at_n = ap (find_key ns) (sym ((bytes_eq_iff m n).0 e)) ∙ h in rw at_n refl
emplace-same old ns m n id false h e = sym (or_id-none (find_key ns n))

emplace-new :
    (ns : List (Bytes × Bytes)) (m n id : Bytes) (b : Bool)
    → find_key ns m ≡ none
    → bytes_eq m n ≡ b
    → (if b then some id else find_key ns n) ≡ or_id (find_key ns n) (if b then some id else none)
emplace-new ns m n id true h e =
    let at_n = ap (find_key ns) (sym ((bytes_eq_iff m n).0 e)) ∙ h in rw at_n refl
emplace-new ns m n id false h e = sym (or_id-none (find_key ns n))

pub find_key-emplace :
    (r : Option Bytes) (ns : List (Bytes × Bytes)) (m n id : Bytes)
    → find_key ns m ≡ r
    → find_key (emplace r ns m id) n
      ≡ or_id (find_key ns n) (if bytes_eq m n then some id else none)
find_key-emplace (some old) ns m n id h = emplace-same old ns m n id (bytes_eq m n) h refl
find_key-emplace none ns m n id h =
    find_key-set_key ns m n id ∙ emplace-new ns m n id (bytes_eq m n) h refl

-- The symbol of a module that got another import.
abbrev pub grown : ModuleImports → ImportedDef → ModuleImports
grown m i = record m { imports = m.imports ++ i ∷ [] }

only-Answers :
    (first : Option Entry) (m : ModuleImports) (r : Option ImportedDef)
    → Answers first (only_symbol m r)
    → (e : Entry) × (first ≡ some e)
only-Answers first m none a = elim a [ ]
only-Answers (some e) m (some i) a = (e, refl)
only-Answers none m (some i) a = elim a [ ]

symbol-Answers :
    (first : Option Entry) (old : Option ModuleImports) (n : Bytes)
    → Answers first (symbol_of old n)
    → (e : Entry) × (first ≡ some e)
symbol-Answers first none n a = elim a [ ]
symbol-Answers first (some m) n a = only-Answers first m (find_local m.imports n) a

grown_only :
    (first : Option Entry) (m : ModuleImports) (i : ImportedDef) (r x : Option ImportedDef)
    → Answers first (only_symbol m r)
    → only_symbol (grown m i) (or_symbol r x) ≡ only_symbol m r
grown_only first m i none x a = elim a [ ]
grown_only first m i (some y) x a = refl

grown_symbol :
    (first : Option Entry) (m : ModuleImports) (i : ImportedDef) (n : Bytes)
    → Answers first (symbol_of (some m) n)
    → symbol_of (some (grown m i)) n ≡ symbol_of (some m) n
grown_symbol first m i n a =
    ap (only_symbol (grown m i)) (find_local-append m.imports i n)
    ∙ grown_only first m i (find_local m.imports n) _ a

symbol_after :
    (first : Option Entry) (n : Bytes) (i : ImportedDef) (same : Bool) (old : Option ModuleImports)
    (here : ModuleImports)
    → (same ≡ true → old ≡ some here)
    → Answers first (symbol_of old n)
    → symbol_of (if same then some (grown here i) else old) n ≡ symbol_of old n
symbol_after first n i false old here w a = refl
symbol_after first n i true old here w a =
    let there = w refl in
    grown_symbol first here i n (subst (λ o. Answers first (symbol_of o n)) there a)
    ∙ ap (λ o. symbol_of o n) (sym there)

-- A name that was known before keeps its answer.
Answers-old :
    (n : Bytes) (e : Entry) (first : Option Entry) (b same : Bool) (old : Option ModuleImports)
    (here : ModuleImports)
    → (same ≡ true → old ≡ some here)
    → Answers first (symbol_of old n)
    → Answers
        (or_entry first (if b then some e else none))
        (symbol_of (if same then some (grown here e.def) else old) n)
Answers-old n e first b same old here w a =
    let (f, at) = symbol-Answers first old n a in
    rw (symbol_after first n e.def same old here w a) (
      subst (λ x. Answers x (symbol_of old n))
        (at ∙ sym (ap (λ x. or_entry x (if b then some e else none)) at)) a)

-- What add_import makes of the maps: `here` is the module's entry, which may be new.
pub record Step (l : LazyImports) (e : Entry) (here : ModuleImports) : Type 0 where
  pub place :
      (find_key l.by_module (module_id e.name e.raw) ≡ some here)
      ⊎ (find_key l.by_module (module_id e.name e.raw) ≡ none)
  pub fresh : (n : Bytes) → find_key l.by_local_name n ≡ none → find_local here.imports n ≡ none
  pub named : (parse_canonical_name e.name ≡ ok here.module_name) × (here.raw_shared_lib ≡ e.raw)

nothing_before : (first : Option Entry) → Answers first (ok no_imports) → first ≡ none
nothing_before none a = refl
nothing_before (some e) a = elim a [ ]

no_answer : (first : Option Entry) (n : Bytes) → ¬ Answers first (symbol_of none n)
no_answer first n a = elim a [ ]

picks :
    (r : Option ImportedDef) (b : Bool) (i : ImportedDef)
    → r ≡ none
    → b ≡ true
    → or_symbol r (if b then some i else none) ≡ some i
picks r b i h k = rw (h, k) refl

here_again :
    (l : LazyImports) (e : Entry) (here : ModuleImports) (first : Option Entry) (k n : Bytes)
    → Step l e here
    → Answers first (symbol_of (find_key l.by_module k) n)
    → bytes_eq (module_id e.name e.raw) k ≡ true
    → find_key l.by_module k ≡ some here
here_again l e here first k n t a h =
    let at_k = ap (find_key l.by_module) (sym ((bytes_eq_iff (module_id e.name e.raw) k).0 h)) in
    elim t.place [
      | inl p ↦ at_k ∙ p
      | inr p ↦ absurd (no_answer first n (subst (λ o. Answers first (symbol_of o n)) (at_k ∙ p) a))
    ]

itself : (n : Bytes) → bytes_eq n n ≡ true
itself n = (bytes_eq_iff n n).1 refl

new_symbol :
    (here : ModuleImports) (e : Entry) (n : Bytes)
    → find_local here.imports n ≡ none
    → bytes_eq e.def.local n ≡ true
    → symbol_of (some (grown here e.def)) n ≡ ok (record here { imports = e.def ∷ [] })
new_symbol here e n h b = ap (only_symbol (grown here e.def)) (
    find_local-append here.imports e.def n
    ∙ picks (find_local here.imports n) (bytes_eq e.def.local n) e.def h b)

Answers-new :
    (here : ModuleImports) (e : Entry) (raw : Bool)
    → parse_canonical_name e.name ≡ ok here.module_name
    → here.raw_shared_lib ≡ raw
    → e.raw ≡ raw
    → Answers (some e) (ok (record here { imports = e.def ∷ [] }))
Answers-new here e raw p h k =
    subst
      (λ r.
        Answers (some e) (
          ok (record { module_name = here.module_name; raw_shared_lib = r; imports = e.def ∷ [] })))
      (k ∙ sym h) (there_it_is p)

pub step-Answers :
    (l : LazyImports) (e : Entry) (here : ModuleImports) (first : Option Entry) (n : Bytes)
    (r : Option Bytes) (b : Bool)
    → Step l e here
    → find_key l.by_local_name n ≡ r
    → bytes_eq e.def.local n ≡ b
    → Answers first (get_at l r n)
    → Answers (or_entry first (if b then some e else none)) (
        get_at
          (add_import_to l (module_id e.name e.raw) here e.def)
          (or_id r (if b then some (module_id e.name e.raw) else none))
          n)
unfolding add_import_to
step-Answers l e here first n (some k) b t h q a =
    rw (find_key-set_key l.by_module (module_id e.name e.raw) k (grown here e.def)) (
      Answers-old n e first b (bytes_eq (module_id e.name e.raw) k) (find_key l.by_module k) here
        (here_again l e here first k n t a) a)
step-Answers l e here first n none false t h q a =
    subst (λ x. Answers (or_entry x none) (ok no_imports)) (sym (nothing_before first a)) not_there
step-Answers l e here first n none true t h q a =
    let id = module_id e.name e.raw in
    let found : find_key (set_key l.by_module id (grown here e.def)) id ≡ some (grown here e.def) =
      find_key-set_key l.by_module id id (grown here e.def) ∙ rw (itself id) refl in
    subst (λ o. Answers (or_entry first (some e)) (symbol_of o n)) (sym found)
      (subst (Answers (or_entry first (some e))) (sym (new_symbol here e n (t.fresh n h) q)) (
        subst (λ x. Answers (or_entry x (some e)) (ok (record here { imports = e.def ∷ [] })))
          (sym (nothing_before first a)) (Answers-new here e e.raw t.named.0 t.named.1 refl)))
