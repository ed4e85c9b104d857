-- ===== src/Namespaces/Removal.antt =====
-- Namespace::removeDef (model/Namespace.cc): the map, and the vectors beside it.
use crack.Prelude.Maps.{find_key, differing}
use crack.Namespaces.{
  VarDef, VarDefMap, erase_def, Namespace, namespace, or_def, look_up, remove_def, tail_of,
  is_overloaded, defs_of, ordered_of, cached_of,
}
use crack.Prelude.{
  Bool, false, Bool-cases, if◌then◌else◌, Option, some, none, [], ◌∷◌, Bytes, bytes_eq,
  bytes_eq_iff, ok, fault, assertion, ◌≡◌, refl, sym, ap, ◌∙◌, inl, inr, All,
}

-- The keys of a map.
abbrev pub Distinct : VarDefMap → Type 0
Distinct [] = Unit {0}
Distinct (d ∷ ds) = All (λ e. bytes_eq d.0 e.0 ≡ false) ds × Distinct ds

absent : (ds : VarDefMap) (n : Bytes) → All (λ e. bytes_eq n e.0 ≡ false) ds → find_key ds n ≡ none
unfolding find_key
absent [] n h = refl
absent ((m, d) ∷ ds) n h = rw (backwards n m h.0) (absent ds n h.1)
  where
    backwards : (n m : Bytes) → bytes_eq n m ≡ false → bytes_eq m n ≡ false
    backwards n m h = elim (Bool-cases (bytes_eq m n)) [
      | inl f ↦ absurd (cc (h, (bytes_eq_iff n m).1 (sym ((bytes_eq_iff m n).0 f))))
      | inr f ↦ f
    ]

find_key-erase_def :
    (ds : VarDefMap) (n m : Bytes)
    → Distinct ds
    → find_key (erase_def ds n) m ≡ (if bytes_eq n m then none else find_key ds m)
unfolding find_key erase_def
find_key-erase_def [] n m h = elim (Bool-cases (bytes_eq n m)) [
  | inl e ↦ rw e refl
  | inr e ↦ rw e refl
]
find_key-erase_def ((k, d) ∷ ds) n m h = elim (Bool-cases (bytes_eq k n)) [
  | inl e ↦
      rw (e, sym ((bytes_eq_iff k n).0 e))
        (elim (Bool-cases (bytes_eq k m)) [
          | inl f ↦ rw (f, sym ((bytes_eq_iff k m).0 f)) (absent ds k h.0)
          | inr f ↦ rw f refl
        ])
  | inr e ↦ rw e (elim (Bool-cases (bytes_eq k m)) [
    | inl f ↦ rw (f, differing k n m e f) refl
    | inr f ↦ rw f (find_key-erase_def ds n m h.1)
  ])
]

or_def-none : (r : Option VarDef) → or_def r none ≡ r
or_def-none none = refl
or_def-none (some d) = refl

-- A definition that is no overload, and whose name the namespace defines, in a map in which no name
-- stands twice, is removed: its name is then undefined in the namespace itself, and each other name
-- stands for what it stood for; but `ordered` and `orderedForCache` lose their first entry each,
-- whichever definition that is.
pub remove_def-look_up :
    (ns : Namespace) (def d : VarDef)
    → Distinct (defs_of ns)
    → is_overloaded def.kind ≡ false
    → find_key (defs_of ns) def.name ≡ some d
    → (after : Namespace) × (remove_def ns def ≡ ok after)
      × ((n : Bytes)
          → look_up false after n ≡ (if bytes_eq def.name n then none else look_up false ns n))
      × (ordered_of after ≡ tail_of (ordered_of ns))
      × (cached_of after ≡ tail_of (cached_of ns))
unfolding remove_def look_up
remove_def-look_up (namespace a defs os cs ps) def d u k h = (
  namespace a (erase_def defs def.name) (tail_of os) (tail_of cs) ps,
  removed (is_overloaded def.kind) (find_key defs def.name) k h,
  λ n.
      or_def-none _
      ∙ find_key-erase_def defs def.name n u
      ∙ ap (λ r. if bytes_eq def.name n then none else r) (sym (or_def-none (find_key defs n))),
  refl,
  refl,
)
  where
    removed :
        (b : Bool) (r : Option VarDef)
        → b ≡ false
        → r ≡ some d
        → (if b then fault assertion else elim r [
          | none ↦ fault assertion
          | some d ↦ ok (namespace a (erase_def defs def.name) (tail_of os) (tail_of cs) ps)
        ])
          ≡ ok (namespace a (erase_def defs def.name) (tail_of os) (tail_of cs) ps)
    removed b r e f = rw (e, f) refl
