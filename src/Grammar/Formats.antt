-- ===== src/Grammar/Formats.antt =====
-- parser/Parser.cc: the calls that parseIString puts around the parts of an interpolated string.
use crack.Grammar.{Parse, pure, act, error, or_fail, ◌>>=◌}
use crack.Grammar.Interface.{Language}
use crack.Prelude.{if◌then◌else◌, Option, some, none, List, [], ◌∷◌, ◌++◌, codes}
use crack.Token.{Token}

module _ (L : Language) where
  abbrev pub on_register : L.FuncDef → L.Expr → Option L.Expr
  on_register f reg = if L.is_method f then some reg else none

  -- The register of the formatter, and what comes before the first part.
  abbrev pub Opened : Type 0
  Opened = L.Expr × List L.Expr

  abbrev pub entered : Option L.FuncDef → L.Expr → Parse L.Context Opened
  entered none reg = pure (reg, [])
  entered (some f) reg = do
    call ← act (L.create_call f [] (on_register f reg))
    if L.is_void (L.return_type f) then pure (reg, call ∷ []) else do
      reg' ← act (L.get_register (L.return_type f))
      pure (reg', L.set_register reg' call ∷ [])

  -- `reg` and the sequence once "enter" is looked up in the type of `e`
  unfoldable pub open_format : L.Expr → L.Expr → Parse L.Context Opened
  open_format e reg = do
    func ← act (L.look_up_no_args (codes "enter") (L.type_of e))
    entered func reg

  unfoldable pub format_call : Token → L.Expr → L.Expr → Parse L.Context L.Expr
  format_call t arg reg = do
    func ← act (L.look_up_func (codes "format") (arg ∷ []) (some (L.type_of reg)))
    f ← or_fail func (
        error t
          (codes "No format method exists for objects of type " ++ L.type_name (L.type_of arg)))
    act (L.create_call f (arg ∷ []) (on_register f reg))

  abbrev pub left : Option L.FuncDef → List L.Expr → L.Expr → Parse L.Context L.Expr
  left none parts reg = pure (L.sequence (parts ++ reg ∷ []) (L.type_of reg))
  left (some f) parts reg = do
    call ← act (L.create_call f [] (on_register f reg))
    pure (L.sequence (parts ++ call ∷ []) (L.type_of call))

  abbrev pub false_clause : L.Expr → Option L.Expr
  false_clause e =
      if L.is_void (L.type_of e) then none else some (L.null_const (some (L.type_of e)))

  -- The end of the string, with the expression that sets the formatter's register.
  unfoldable pub close_format : L.Expr → List L.Expr → L.Expr → Parse L.Context L.Expr
  close_format formatter parts reg = do
    func ← act (L.look_up_no_args (codes "leave") (L.type_of reg))
    seq ← left func parts reg
    act (L.ternary formatter seq (false_clause seq))
