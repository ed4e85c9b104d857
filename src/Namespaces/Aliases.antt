-- ===== src/Namespaces/Aliases.antt =====
-- aliasAll: what a namespace sees after it has taken over the names of another.
use crack.Prelude.Maps.{find_key, find_key-set_key}
use crack.Namespaces.Lookup.{all_defs, all_in, or-if}
use crack.Namespaces.{
  VarDef, VarDefMap, Namespace, namespace, Namespaces, no_namespaces, scope, or_def, look_up,
  look_up_in, address_of, alias_of, put_def, add_alias_as, keep_or_alias, alias_defs, if_owned,
  alias_from, alias_from_all, alias_all,
}
use crack.Prelude.{
  ℕ, Bool, true, false, if◌then◌else◌, Option, some, none, [], ◌∷◌, ◌++◌, Bytes, bytes_eq,
  bytes_eq_iff, Outcome, ok, parse_error, fault, ◌>>=◌, ◌≡◌, refl, sym, ap, ◌∙◌, All,
}

abbrev pub has_owner : VarDef → Bool
has_owner def = elim def.owner [ none ↦ false | some o ↦ true ]

-- Every definition has an owner.
abbrev pub Owned : VarDefMap → Type 0
Owned ds = All (λ e. has_owner e.1 ≡ true) ds

Owned-left : (ds es : VarDefMap) → Owned (ds ++ es) → Owned ds
Owned-left [] es h = tt
Owned-left (d ∷ ds) es h = (h.0, Owned-left ds es h.1)

Owned-right : (ds es : VarDefMap) → Owned (ds ++ es) → Owned es
Owned-right [] es h = h
Owned-right (d ∷ ds) es h = Owned-right ds es h.1

module _ (fresh : Bytes → ℕ) where
  -- What an alias gives for a definition found.
  abbrev pub alias_found : ℕ → Bytes → Option VarDef → Option VarDef
  alias_found a n none = none
  alias_found a n (some def) = some (alias_of (fresh n) a n def)

  -- The namespace still has its address, and sees what it saw, and else the aliases.
  pub data Aliased (ns : Namespace) (look : Bytes → Option VarDef)
      : Outcome Namespace → Type 0 where
    aliased :
        {after : Namespace}
        → address_of after ≡ address_of ns
        → ((n : Bytes)
            → look_up true after n
              ≡ or_def (look_up true ns n) (alias_found (address_of ns) n (look n)))
        → Aliased ns look (ok after)

  or_def_assoc : (a b c : Option VarDef) → or_def (or_def a b) c ≡ or_def a (or_def b c)
  or_def_assoc none b c = refl
  or_def_assoc (some d) b c = refl

  or_def-none : (a : Option VarDef) → or_def a none ≡ a
  or_def-none none = refl
  or_def-none (some d) = refl

  alias_found-or_def :
      (a : ℕ) (n : Bytes) (x y : Option VarDef)
      → or_def (alias_found a n x) (alias_found a n y) ≡ alias_found a n (or_def x y)
  alias_found-or_def a n none y = refl
  alias_found-or_def a n (some d) y = refl

  after_then :
      (ns after : Namespace) (f g : Bytes → Option VarDef) (r : Outcome Namespace)
      → address_of after ≡ address_of ns
      → ((n : Bytes)
          → look_up true after n ≡ or_def (look_up true ns n) (alias_found (address_of ns) n (f n)))
      → Aliased after g r
      → Aliased ns (λ n. or_def (f n) (g n)) r
  after_then ns after f g (ok last) e h (aliased e' h') = aliased (e' ∙ e) (λ n.
      h' n
      ∙ ap (λ b. or_def (look_up true after n) (alias_found b n (g n))) e
      ∙ ap (λ r. or_def r (alias_found (address_of ns) n (g n))) (h n)
      ∙ or_def_assoc (look_up true ns n) (alias_found (address_of ns) n (f n)) _
      ∙ ap (or_def (look_up true ns n)) (alias_found-or_def (address_of ns) n (f n) (g n)))
  after_then ns after f g (parse_error l m) e h k = elim k [ ]
  after_then ns after f g (fault x) e h k = elim k [ ]

  then_Aliased :
      (ns : Namespace) (f g : Bytes → Option VarDef) (r : Outcome Namespace)
      (k : Namespace → Outcome Namespace)
      → Aliased ns f r
      → ((after : Namespace) → Aliased after g (k after))
      → Aliased ns (λ n. or_def (f n) (g n)) (r >>= k)
  then_Aliased ns f g (ok after) k (aliased e h) next =
      after_then ns after f g (k after) e h (next after)
  then_Aliased ns f g (parse_error l m) k h next = elim h [ ]
  then_Aliased ns f g (fault x) k h next = elim h [ ]

  look_again :
      (ns : Namespace) (f g : Bytes → Option VarDef) (r : Outcome Namespace)
      → ((n : Bytes) → f n ≡ g n)
      → Aliased ns f r
      → Aliased ns g r
  look_again ns f g (ok after) h (aliased e k) =
      aliased e
        (λ n. k n ∙ ap (λ d. or_def (look_up true ns n) (alias_found (address_of ns) n d)) (h n))
  look_again ns f g (parse_error l m) h k = elim k [ ]
  look_again ns f g (fault x) h k = elim k [ ]

  nothing_more : (ns : Namespace) → Aliased ns (λ n. none) (ok ns)
  nothing_more ns = aliased refl (λ n. sym (or_def-none (look_up true ns n)))

  put-look_up :
      (ns : Namespace) (n m : Bytes) (def : VarDef)
      → look_up true (put_def ns n def) m ≡ (if bytes_eq n m then some def else look_up true ns m)
  unfolding look_up
  put-look_up (namespace a defs os cs ps) n m def =
      ap (λ r. or_def r (look_up_in ps m)) (find_key-set_key defs n m def)
      ∙ or-if (bytes_eq n m) def (find_key defs m) (look_up_in ps m)

  address-put :
      (ns : Namespace) (n : Bytes) (def : VarDef) → address_of (put_def ns n def) ≡ address_of ns
  address-put (namespace a defs os cs ps) n def = refl

  -- A name that is in sight is kept, and one that is not gets the alias.
  kept :
      (ns : Namespace) (n m : Bytes) (b : Bool) (def : VarDef) (d : VarDef)
      → look_up true ns n ≡ some d
      → bytes_eq n m ≡ b
      → look_up true ns m
        ≡ or_def (look_up true ns m) (alias_found (address_of ns) m (if b then some def else none))
  kept ns n m true def d e h =
      let at_m = ap (look_up true ns) (sym ((bytes_eq_iff n m).0 h)) ∙ e in rw at_m refl
  kept ns n m false def d e h = sym (or_def-none (look_up true ns m))

  named :
      (ns : Namespace) (n m : Bytes) (b : Bool) (def : VarDef)
      → look_up true ns n ≡ none
      → bytes_eq n m ≡ b
      → (if b then some (alias_of (fresh n) (address_of ns) n def) else look_up true ns m)
        ≡ or_def (look_up true ns m) (alias_found (address_of ns) m (if b then some def else none))
  named ns n m true def e h =
      let same = (bytes_eq_iff n m).0 h in
      let at_m = ap (look_up true ns) (sym same) ∙ e in rw at_m (rw same refl)
  named ns n m false def e h = sym (or_def-none (look_up true ns m))

  owned_ok :
      (ns : Namespace) (look : Bytes → Option VarDef) (o : Option ℕ) (r : Outcome Namespace)
      → (elim o [ none ↦ false | some a ↦ true ]) ≡ true
      → Aliased ns look r
      → Aliased ns look (if_owned o r)
  owned_ok ns look none r e h = absurd (cc e)
  owned_ok ns look (some a) r e h = h

  -- One name of the loop.
  keep_or_alias-Aliased :
      (ns : Namespace) (n : Bytes) (def : VarDef) (r : Option VarDef)
      → look_up true ns n ≡ r
      → has_owner def ≡ true
      → Aliased ns (λ m. if bytes_eq n m then some def else none) (keep_or_alias fresh r ns n def)
  unfolding add_alias_as
  keep_or_alias-Aliased ns n def (some d) e h =
      aliased refl (λ m. kept ns n m (bytes_eq n m) def d e refl)
  keep_or_alias-Aliased ns n def none e h = owned_ok ns _ def.owner _ h (
      aliased (address-put ns n _)
        (λ m. put-look_up ns n m _ ∙ named ns n m (bytes_eq n m) def e refl))

  found_first :
      (n m : Bytes) (def : VarDef) (ds : VarDefMap)
      → or_def (if bytes_eq n m then some def else none) (find_key ds m)
        ≡ find_key ((n, def) ∷ ds) m
  unfolding find_key
  found_first n m def ds = or-if (bytes_eq n m) def none (find_key ds m)

  none_found : (n : Bytes) → none ≡ find_key {A = VarDef} [] n
  unfolding find_key
  none_found n = refl

  alias_defs-Aliased :
      (ns : Namespace) (ds : VarDefMap)
      → Owned ds
      → Aliased ns (find_key ds) (alias_defs fresh ns ds)
  unfolding alias_defs
  alias_defs-Aliased ns [] h = look_again ns _ _ _ none_found (nothing_more ns)
  alias_defs-Aliased ns ((n, def) ∷ ds) h =
      look_again ns _ _ _ (λ m. found_first n m def ds)
        (then_Aliased ns _ _ _ (λ after. alias_defs fresh after ds)
          (keep_or_alias-Aliased ns n def (look_up true ns n) refl h.0)
          (λ after. alias_defs-Aliased after ds h.1))

  mutual
    unfolding alias_from look_up all_defs

    from-Aliased :
        (other ns : Namespace)
        → Owned (all_defs other)
        → Aliased ns (look_up true other) (alias_from fresh other ns)
    from-Aliased (namespace a defs os cs ps) ns h =
        then_Aliased ns _ _ _ (alias_from_all fresh ps)
          (alias_defs-Aliased ns defs (Owned-left defs (all_in ps) h))
          (λ after. from_all-Aliased ps after (Owned-right defs (all_in ps) h))

    from_all-Aliased :
        (ps : Namespaces) (ns : Namespace)
        → Owned (all_in ps)
        → Aliased ns (look_up_in ps) (alias_from_all fresh ps ns)
    from_all-Aliased no_namespaces ns h = nothing_more ns
    from_all-Aliased (scope other ps) ns h =
        then_Aliased ns _ _ _ (alias_from_all fresh ps)
          (from-Aliased other ns (Owned-left (all_defs other) (all_in ps) h))
          (λ after. from_all-Aliased ps after (Owned-right (all_defs other) (all_in ps) h))

  -- Where every definition in sight of the other namespace has an owner, aliasAll succeeds: the
  -- namespace then sees under each name what it saw before, and else what the other one sees, of an
  -- overload a copy that the namespace owns and that is new under the name.
  pub alias_all-Aliased :
      (ns other : Namespace)
      → Owned (all_defs other)
      → Aliased ns (look_up true other) (alias_all fresh ns other)
  unfolding alias_all
  alias_all-Aliased ns other h = from-Aliased other ns h
