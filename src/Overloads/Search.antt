-- ===== src/Overloads/Search.antt =====
-- The searches of an overload against the flattened list of its functions.
use crack.Overloads.{
  Arg, FuncDef, Overload, Overloads, overload, no_overloads, delegate, flatten, flatten_all,
  find_func, or_else, local_or, search, search_all, Convert, Exprs, is_virtual_override,
  get_sig_match, same_args, create_alias,
}
use crack.Overloads.Matches.{match_args, match_funcs, chosen, next, get_match, match_parents}
use mathlib.Core.Path.{subst}
use crack.Prelude.{
  ℕ, Bool, true, false, not, ◌&&◌, Bool-cases, Option, some, none, List, [], ◌∷◌, ◌++◌, append-nil,
  ◌≡◌, refl, sym, ap, ◌∙◌, inl, inr, All,
}

-- No function of the list is deleted.
abbrev pub Live : List FuncDef → Type 0
Live fs = All (λ f. f.is_deleted ≡ false) fs

Live-left : (fs gs : List FuncDef) → Live (fs ++ gs) → Live fs
Live-left [] gs h = tt
Live-left (f ∷ fs) gs h = (h.0, Live-left fs gs h.1)

Live-right : (fs gs : List FuncDef) → Live (fs ++ gs) → Live gs
Live-right [] gs h = h
Live-right (f ∷ fs) gs h = Live-right fs gs h.1

find_func-append :
    (test : FuncDef → Bool) (fs gs : List FuncDef)
    → find_func test (fs ++ gs) ≡ or_else (find_func test fs) (find_func test gs)
unfolding find_func
find_func-append test [] gs = refl
find_func-append test (f ∷ fs) gs = elim (Bool-cases (test f)) [
  | inl e ↦ rw e refl
  | inr e ↦ rw e (find_func-append test fs gs)
]

find_func-Live :
    (test : FuncDef → Bool) (fs : List FuncDef) (up : Option FuncDef)
    → Live fs
    → local_or (find_func test fs) up ≡ or_else (find_func test fs) up
unfolding find_func
find_func-Live test [] up h = refl
find_func-Live test (f ∷ fs) up h = elim (Bool-cases (test f)) [
  | inl e ↦ rw e (rw (h.0) refl)
  | inr e ↦ rw e (find_func-Live test fs up h.1)
]

none_found : (test : FuncDef → Bool) → none ≡ find_func test []
unfolding find_func
none_found test = refl

-- A test that does not ask for the owner.
mutual
  unfolding search flatten

  search_flat :
      (test : FuncDef → Bool) (v : Overload)
      → Live (flatten v)
      → search (λ o. test) v ≡ find_func test (flatten v)
  search_flat test (overload a n o funcs ps) h =
      find_func-Live test funcs (search_all (λ o'. test) ps) (Live-left funcs (flatten_all ps) h)
      ∙ ap (or_else (find_func test funcs))
          (search_all_flat test ps (Live-right funcs (flatten_all ps) h))
      ∙ sym (find_func-append test funcs (flatten_all ps))

  search_all_flat :
      (test : FuncDef → Bool) (ps : Overloads)
      → Live (flatten_all ps)
      → search_all (λ o. test) ps ≡ find_func test (flatten_all ps)
  search_all_flat test no_overloads h = none_found test
  search_all_flat test (delegate v ps) h =
      ap (λ r. or_else r (search_all (λ o. test) ps))
        (search_flat test v (Live-left (flatten v) (flatten_all ps) h))
      ∙ ap (or_else (find_func test (flatten v)))
          (search_all_flat test ps (Live-right (flatten v) (flatten_all ps) h))
      ∙ sym (find_func-append test (flatten v) (flatten_all ps))

-- Where no function of an overload or of the overloads that it inherits is deleted: getSigMatch gives
-- the first function of the flattened list with the signature, names included if they count.
pub get_sig_match-flatten :
    (args : List Arg) (names : Bool) (v : Overload)
    → Live (flatten v)
    → get_sig_match args names v ≡ find_func (λ f. same_args names f.args args) (flatten v)
unfolding get_sig_match
get_sig_match-flatten args names v h = search_flat (λ f. same_args names f.args args) v h

module _ {E : Type 0} (x : Exprs E) (flag : Convert) (allow : Bool) where
  -- A function found, or else the others.
  abbrev pub or_funcs :
      Option (FuncDef × List E) → Option (FuncDef × List E) → Option (FuncDef × List E)
  or_funcs none other = other
  or_funcs (some r) other = some r

  by_match :
      (f : FuncDef) (r : Option (List E)) (a b c : Option (FuncDef × List E))
      → a ≡ or_funcs b c
      → (elim r [ none ↦ a | some news ↦ some (f, news) ])
        ≡ or_funcs (elim r [ none ↦ b | some news ↦ some (f, news) ]) c
  by_match f none a b c h = h
  by_match f (some news) a b c h = refl

  match_funcs-append :
      (vals : List E) (fs gs : List FuncDef)
      → match_funcs x flag allow vals (fs ++ gs)
        ≡ or_funcs (match_funcs x flag allow vals fs) (match_funcs x flag allow vals gs)
  unfolding match_funcs
  match_funcs-append vals [] gs = refl
  match_funcs-append vals (f ∷ fs) gs = elim (Bool-cases (not allow && is_virtual_override f)) [
    | inl e ↦ rw e (match_funcs-append vals fs gs)
    | inr e ↦
        rw e (by_match f (match_args x flag true vals f.args) _ _ _ (match_funcs-append vals fs gs))
  ]

  -- What a match gives to the caller, deleted or not.
  abbrev pub taken : Option (FuncDef × List E) → Option FuncDef × List E → Option FuncDef × List E
  taken none up = up
  taken (some (f, news)) up = (some f, news)

  live_match :
      (f : FuncDef) (r : Option (List E)) (a : Option (FuncDef × List E))
      (up : Option FuncDef × List E)
      → f.is_deleted ≡ false
      → chosen x a up ≡ taken a up
      → chosen x (elim r [ none ↦ a | some news ↦ some (f, news) ]) up
        ≡ taken (elim r [ none ↦ a | some news ↦ some (f, news) ]) up
  live_match f none a up d h = h
  live_match f (some news) a up d h = rw d refl

  match_funcs-Live :
      (vals : List E) (fs : List FuncDef) (up : Option FuncDef × List E)
      → Live fs
      → chosen x (match_funcs x flag allow vals fs) up ≡ taken (match_funcs x flag allow vals fs) up
  unfolding match_funcs
  match_funcs-Live vals [] up h = refl
  match_funcs-Live vals (f ∷ fs) up h = elim (Bool-cases (not allow && is_virtual_override f)) [
    | inl e ↦ rw e (match_funcs-Live vals fs up h.1)
    | inr e ↦ rw e (
        live_match f (match_args x flag true vals f.args) _ up h.0
          (match_funcs-Live vals fs up h.1))
  ]

  taken_next :
      (r q : Option (FuncDef × List E)) (vals : List E) (k : List E → Option FuncDef × List E)
      → k vals ≡ taken q (none, vals)
      → next x (taken r (none, vals)) k ≡ taken (or_funcs r q) (none, vals)
  taken_next none q vals k h = h
  taken_next (some (f, news)) q vals k h = refl

  taken_both :
      (r q : Option (FuncDef × List E)) (vals : List E)
      → taken r (taken q (none, vals)) ≡ taken (or_funcs r q) (none, vals)
  taken_both none q vals = refl
  taken_both (some (f, news)) q vals = refl

  none_matched :
      (vals : List E) → (none, vals) ≡ taken (match_funcs x flag allow vals []) (none, vals)
  unfolding match_funcs
  none_matched vals = refl

  mutual
    unfolding get_match flatten

    match_flat :
        (v : Overload) (vals : List E)
        → Live (flatten v)
        → get_match x flag allow v vals
          ≡ taken (match_funcs x flag allow vals (flatten v)) (none, vals)
    match_flat (overload a n o funcs ps) vals h =
        match_funcs-Live vals funcs _ (Live-left funcs (flatten_all ps) h)
        ∙ ap (taken (match_funcs x flag allow vals funcs))
            (match_all_flat ps vals (Live-right funcs (flatten_all ps) h))
        ∙ taken_both _ (match_funcs x flag allow vals (flatten_all ps)) vals
        ∙ ap (λ r. taken r (none, vals)) (sym (match_funcs-append vals funcs (flatten_all ps)))

    match_all_flat :
        (ps : Overloads) (vals : List E)
        → Live (flatten_all ps)
        → match_parents x flag allow ps vals
          ≡ taken (match_funcs x flag allow vals (flatten_all ps)) (none, vals)
    match_all_flat no_overloads vals h = none_matched vals
    match_all_flat (delegate v ps) vals h =
        ap (λ r. next x r (match_parents x flag allow ps))
          (match_flat v vals (Live-left (flatten v) (flatten_all ps) h))
        ∙ taken_next (match_funcs x flag allow vals (flatten v))
            (match_funcs x flag allow vals (flatten_all ps)) vals (match_parents x flag allow ps)
            (match_all_flat ps vals (Live-right (flatten v) (flatten_all ps) h))
        ∙ ap (λ r. taken r (none, vals))
            (sym (match_funcs-append vals (flatten v) (flatten_all ps)))

  -- Where no function of an overload or of the overloads that it inherits is deleted: getMatch gives
  -- the first function of the flattened list that matches the arguments, with the arguments that the
  -- match made, and null with the arguments as they were if there is none.
  pub get_match-flatten :
      (v : Overload) (vals : List E)
      → Live (flatten v)
      → get_match x flag allow v vals
        ≡ taken (match_funcs x flag allow vals (flatten v)) (none, vals)
  get_match-flatten v vals h = match_flat v vals h

  alias_flat : (a o : ℕ) (v : Overload) → flatten (create_alias a o v) ≡ flatten v
  unfolding create_alias flatten
  alias_flat a o (overload b n q funcs ps) = append-nil (funcs ++ flatten_all ps)

  -- Where no function is deleted, an alias of an overload resolves every argument list as the overload
  -- does, to the same function with the same arguments.
  pub get_match-create_alias :
      (address owner : ℕ) (v : Overload) (vals : List E)
      → Live (flatten v)
      → get_match x flag allow (create_alias address owner v) vals ≡ get_match x flag allow v vals
  get_match-create_alias a o v vals h =
      match_flat (create_alias a o v) vals (subst Live (sym (alias_flat a o v)) h)
      ∙ ap (λ fs. taken (match_funcs x flag allow vals fs) (none, vals)) (alias_flat a o v)
      ∙ sym (match_flat v vals h)
