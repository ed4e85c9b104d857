-- ===== src/Overloads/Matches.antt =====
-- Resolution by arguments: FuncDef::matches, both getMatch of an argument list, and getFuncDef. The
-- virtual `matches` is FuncDef's own: the one of UnsafeCastDef (builder/llvm/Ops.h), which takes any
-- single argument, is left out.
use crack.Overloads.{
  Arg, FuncDef, Overload, Overloads, overload, no_overloads, delegate, null_if_deleted,
  is_virtual_override, Convert, no_convert, adapt, adapt_secondary, convert_all, Exprs,
  get_sig_match,
}
use crack.Prelude.{
  Bool, true, false, not, ◌&&◌, ◌||◌, if◌then◌else◌, Option, some, none, List, [], ◌∷◌,
}
use crack.Types.{TypeDef, matches}

module _ {E : Type 0} (x : Exprs E) where
  -- `(*val)->type && (*arg)->type->matches(*(*val)->type)`
  unfoldable pub type_matches : Option TypeDef → TypeDef → Bool
  unfolding matches
  type_matches none type = false
  type_matches (some t) type = matches type t

  unfoldable pub as_is : E → TypeDef → Option E
  unfolding type_matches
  as_is val type = if type_matches (x.type_of val) type then some val else none

  -- One argument: the flag says that it is the first.
  unfoldable pub convert_arg : Convert → Bool → E → TypeDef → Option E
  unfolding as_is
  convert_arg no_convert first val type = as_is val type
  convert_arg adapt first val type = if x.adaptive val then x.convert val type else as_is val type
  convert_arg adapt_secondary first val type =
      if not first && x.adaptive val then x.convert val type else as_is val type
  convert_arg convert_all first val type = x.convert val type

  -- The new values, which are the old ones where nothing is converted.
  unfoldable pub match_args : Convert → Bool → List E → List Arg → Option (List E)
  unfolding convert_arg
  match_args flag first [] [] = some []
  match_args flag first (val ∷ vals) (arg ∷ args) = elim (convert_arg flag first val arg.type) [
    | none ↦ none
    | some new ↦ elim (match_args flag false vals args) [
      | none ↦ none
      | some news ↦ some (new ∷ news)
    ]
  ]
  match_args flag first _ _ = none

  -- The first of the local functions that matches, with the new arguments.
  unfoldable pub match_funcs : Convert → Bool → List E → List FuncDef → Option (FuncDef × List E)
  unfolding match_args
  match_funcs flag allow vals [] = none
  match_funcs flag allow vals (f ∷ fs) =
      let rest = match_funcs flag allow vals fs in
      if not allow && is_virtual_override f
      then rest
      else elim (match_args flag true vals f.args) [ none ↦ rest | some news ↦ some (f, news) ]

  -- The arguments are replaced in place, also by a function that is deleted.
  abbrev pub chosen : Option (FuncDef × List E) → Option FuncDef × List E → Option FuncDef × List E
  chosen none up = up
  chosen (some (f, news)) up = (null_if_deleted f, news)

  abbrev pub next :
      Option FuncDef × List E → (List E → Option FuncDef × List E) → Option FuncDef × List E
  next (some f, vals) k = (some f, vals)
  next (none, vals) k = k vals

  unfoldable mutual
    unfolding match_funcs

    pub get_match : Convert → Bool → Overload → List E → Option FuncDef × List E
    get_match flag allow (overload a n o funcs ps) vals =
        chosen (match_funcs flag allow vals funcs) (match_parents flag allow ps vals)

    pub match_parents : Convert → Bool → Overloads → List E → Option FuncDef × List E
    match_parents flag allow no_overloads vals = (none, vals)
    match_parents flag allow (delegate v ps) vals =
        next (get_match flag allow v vals) (match_parents flag allow ps)

  unfoldable pub some_adaptive : List E → Bool
  some_adaptive [] = false
  some_adaptive (e ∷ es) = x.adaptive e || some_adaptive es

  unfoldable pub all_adaptive : List E → Bool
  all_adaptive [] = true
  all_adaptive (e ∷ es) = x.adaptive e && all_adaptive es

  -- The conversion of the first round.
  unfoldable pub first_flag : List E → Convert
  unfolding some_adaptive all_adaptive
  first_flag vals =
      if all_adaptive vals
      then adapt_secondary
      else if some_adaptive vals
      then adapt
      else no_convert

  -- The second round converts whatever it can.
  unfoldable pub get_best_match : Bool → Overload → List E → Option FuncDef × List E
  unfolding get_match first_flag
  get_best_match allow v vals =
      next (get_match (first_flag vals) allow v vals) (get_match convert_all allow v)

  -- getFuncDef: an abstract function is looked up again by its signature. The first `none` is the
  -- error that no method matches, the second one the null that the source may return.
  unfoldable pub get_func_def : Bool → Overload → List E → Option (Option FuncDef) × List E
  unfolding get_best_match get_sig_match
  get_func_def allow v vals =
      let (r, news) = get_best_match allow v vals in
      elim r [
        | none ↦ (none, news)
        | some f ↦ (some (if f.is_abstract then get_sig_match f.args true v else some f), news)
      ]
