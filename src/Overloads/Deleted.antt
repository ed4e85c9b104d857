-- ===== src/Overloads/Deleted.antt =====
-- The function that a match of arguments gives, where some functions are deleted.
use crack.Overloads.{
  FuncDef, Overload, Overloads, overload, no_overloads, delegate, flatten, flatten_all, Convert,
  Exprs, is_virtual_override,
}
use crack.Overloads.Matches.{match_args, match_funcs, chosen, next, get_match, match_parents}
use crack.Prelude.{
  Bool, true, false, not, ◌&&◌, Bool-cases, if◌then◌else◌, Option, some, none, List, [], ◌∷◌, ◌++◌,
  ◌≡◌, refl, inl, inr, Member, here, there, Member-left, Member-right,
}

module _ {E : Type 0} (x : Exprs E) (flag : Convert) (allow : Bool) where
  -- A function of the list that takes arguments and gives the new ones.
  abbrev pub Takes : List FuncDef → FuncDef → List E → Type 0
  Takes fs f news =
      Member f fs
      × ((not allow && is_virtual_override f) ≡ false)
      × (vals : List E) × (match_args x flag true vals f.args ≡ some news)

  abbrev pub Sound : List FuncDef → Option FuncDef × List E → Type 0
  Sound fs (none, news) = Unit {0}
  Sound fs (some f, news) = (f.is_deleted ≡ false) × Takes fs f news

  abbrev TakesIf : List FuncDef → Option (FuncDef × List E) → Type 0
  TakesIf fs none = Unit {0}
  TakesIf fs (some (f, news)) = Takes fs f news

  grow :
      (f : FuncDef) (fs : List FuncDef) (r : Option (FuncDef × List E))
      → TakesIf fs r
      → TakesIf (f ∷ fs) r
  grow f fs none h = tt
  grow f fs (some (g, news)) (m, a, vals, e) = (there m, a, vals, e)

  by_match :
      (f : FuncDef) (fs : List FuncDef) (vals : List E) (r : Option (List E))
      (rest : Option (FuncDef × List E))
      → (not allow && is_virtual_override f) ≡ false
      → match_args x flag true vals f.args ≡ r
      → TakesIf fs rest
      → TakesIf (f ∷ fs) (elim r [ none ↦ rest | some news ↦ some (f, news) ])
  by_match f fs vals none rest a e h = grow f fs rest h
  by_match f fs vals (some news) rest a e h = (here, a, vals, e)

  funcs_takes : (vals : List E) (fs : List FuncDef) → TakesIf fs (match_funcs x flag allow vals fs)
  unfolding match_funcs
  funcs_takes vals [] = tt
  funcs_takes vals (f ∷ fs) = elim (Bool-cases (not allow && is_virtual_override f)) [
    | inl e ↦ rw e (grow f fs _ (funcs_takes vals fs))
    | inr e ↦
        rw e
          (by_match f fs vals (match_args x flag true vals f.args) _ e refl (funcs_takes vals fs))
  ]

  widen_left :
      (fs gs : List FuncDef) (r : Option FuncDef × List E) → Sound fs r → Sound (fs ++ gs) r
  widen_left fs gs (none, news) h = tt
  widen_left fs gs (some f, news) (d, (m, a, vals, e)) = (d, (Member-left gs m, a, vals, e))

  widen_right :
      (fs gs : List FuncDef) (r : Option FuncDef × List E) → Sound gs r → Sound (fs ++ gs) r
  widen_right fs gs (none, news) h = tt
  widen_right fs gs (some f, news) (d, (m, a, vals, e)) = (d, (Member-right fs m, a, vals, e))

  live_or_none :
      (fs : List FuncDef) (f : FuncDef) (news : List E) (b : Bool)
      → f.is_deleted ≡ b
      → Takes fs f news
      → Sound fs (if b then none else some f, news)
  live_or_none fs f news true d t = tt
  live_or_none fs f news false d t = (d, t)

  chosen-Sound :
      (fs gs : List FuncDef) (r : Option (FuncDef × List E)) (up : Option FuncDef × List E)
      → TakesIf fs r
      → Sound gs up
      → Sound (fs ++ gs) (chosen x r up)
  chosen-Sound fs gs none up h k = widen_right fs gs up k
  chosen-Sound fs gs (some (f, news)) up (m, a, vals, e) k =
      live_or_none (fs ++ gs) f news f.is_deleted refl (Member-left gs m, a, vals, e)

  next-Sound :
      (fs gs : List FuncDef) (r : Option FuncDef × List E) (k : List E → Option FuncDef × List E)
      → Sound fs r
      → ((vals : List E) → Sound gs (k vals))
      → Sound (fs ++ gs) (next x r k)
  next-Sound fs gs (some f, news) k h g = widen_left fs gs (some f, news) h
  next-Sound fs gs (none, news) k h g = widen_right fs gs (k news) (g news)

  mutual
    unfolding get_match flatten

    sound : (v : Overload) (vals : List E) → Sound (flatten v) (get_match x flag allow v vals)
    sound (overload a n o funcs ps) vals =
        chosen-Sound funcs (flatten_all ps) (match_funcs x flag allow vals funcs)
          (match_parents x flag allow ps vals) (funcs_takes vals funcs) (parents-Sound ps vals)

    parents-Sound :
        (ps : Overloads) (vals : List E)
        → Sound (flatten_all ps) (match_parents x flag allow ps vals)
    parents-Sound no_overloads vals = tt
    parents-Sound (delegate v ps) vals =
        next-Sound (flatten v) (flatten_all ps) (get_match x flag allow v vals)
          (match_parents x flag allow ps) (sound v vals) (parents-Sound ps)

  -- A function that getMatch gives, deleted functions being among the candidates or not, is one of the
  -- overload or of those that it inherits, is not deleted, is no virtual override unless those are
  -- asked for, and takes an argument list to the arguments that come back.
  pub get_match-Sound :
      (v : Overload) (vals : List E) → Sound (flatten v) (get_match x flag allow v vals)
  get_match-Sound v vals = sound v vals
