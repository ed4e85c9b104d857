-- ===== src/Grammar/Interface.antt =====
-- What the parser asks of its Context and of the builder (model/Context.cc, builder/), as an interface.
-- `Expr`, `Def`, `TypeDef`, `FuncDef` and `Namespace` are the pointers it holds. The state of the
-- context also stands for the parser's fields but the toker, and its operations for the helpers of the
-- parser that read no token and only ask the context.
use crack.Consts.Signed.{ℤ}
use crack.Location.{Location}
use crack.Prelude.{ℕ, Bool, Option, List, Bytes}
use crack.Token.{Token}

-- An operation of the context returns, or raises a ParseError.
pub data Acted (S A : Type 0) : Type 0 where
  done : A → S → Acted S A
  refused : Location → Bytes → Acted S A

pub record Language : Type 1 where
  pub Context : Type 0
  pub Expr : Type 0
  pub Def : Type 0
  pub TypeDef : Type 0
  pub FuncDef : Type 0
  pub Namespace : Type 0
  -- the parser's own `doc` and `identLoc`, and the context's location and error contexts
  pub add_doc : Bytes → Context → Context
  pub note_ident : Location → Context → Context
  pub to_ident : Context → Context
  pub set_location : Location → Context → Context
  pub location : Context → Location
  pub pop_error_context : Context → Context
  -- the inert subcontext of a typeof, and the way back to the outer one
  pub enter_inert : Context → Context
  pub leave_inert : Context → Context → Context
  -- what the pointers are
  pub type_of : Expr → TypeDef
  pub is_int_const : Expr → Bool
  pub is_float_const : Expr → Bool
  pub has_no_getter : Expr → Bool
  pub var_ref_def : Expr → Option Def
  pub def_type : Def → Option TypeDef
  pub def_namespace : Def → Option Namespace
  pub type_def : TypeDef → Def
  pub type_namespace : TypeDef → Namespace
  pub is_generic : TypeDef → Bool
  pub is_method : FuncDef → Bool
  pub is_reverse : FuncDef → Bool
  pub explicitly_scoped : Def → Def
  pub is_usable : Def → Context → Bool
  pub current_namespace : Context → Namespace
  pub is_in_method : Context → Bool
  -- their names in messages
  pub type_name : TypeDef → Bytes
  pub full_name : TypeDef → Bytes
  pub def_name : Def → Bytes
  pub namespace_name : Namespace → Bytes
  pub args_text : List Expr → Bytes
  -- lookups
  pub look_up : Bytes → Context → Acted Context (Option Def)
  pub look_up_in : Namespace → Bytes → Context → Acted Context (Option Def)
  pub look_up_func : Bytes → List Expr → Option TypeDef → Context → Acted Context (Option FuncDef)
  pub look_up_no_args : Bytes → TypeDef → Context → Acted Context (Option FuncDef)
  pub constructor_func : TypeDef → List Expr → Context → Acted Context FuncDef
  pub get_specialization : TypeDef → List TypeDef → Context → Acted Context TypeDef
  pub check_accessible : Option Def → Bytes → Context → Acted Context (Unit {0})
  pub check_for_redefine : Token → Def → Context → Acted Context (Unit {0})
  pub check_for_external_overload : Expr → Context → Acted Context (Unit {0})
  -- the C library's conversions of digits
  pub strtoull : Bytes → ℕ → ℕ
  pub strtoll : Bytes → ℕ → ℤ
  -- expressions; `fold` is `none` when DivZeroError is thrown
  pub null_const : Option TypeDef → Expr
  pub str_const : Bytes → Context → Acted Context Expr
  pub int_const : ℤ → Context → Acted Context Expr
  pub byte_const : ℤ → Context → Acted Context Expr
  pub uint_const : ℕ → Context → Acted Context Expr
  pub float_const : Bytes → Context → Acted Context Expr
  pub create_var_ref : Def → Context → Acted Context Expr
  pub ident_ref : Token → Context → Acted Context Expr
  pub name_ref : Def → Token → Context → Acted Context Expr
  pub make_this_ref : Bytes → Context → Acted Context (Option Expr)
  pub make_accessor : Expr → Bytes → Context → Acted Context (Option Expr)
  pub create_call : FuncDef → List Expr → Option Expr → Context → Acted Context Expr
  pub make_call : Expr → List Expr → Context → Acted Context Expr
  pub fold : Expr → Option Expr
  pub deref : Expr → Def → Expr
  pub get_register : TypeDef → Context → Acted Context Expr
  pub set_register : Expr → Expr → Expr
  pub safe_nav : Expr → Expr → Expr → Expr
  pub ternary : Expr → Expr → Option Expr → Context → Acted Context Expr
  pub sequence : List Expr → TypeDef → Expr
  pub const_sequence : TypeDef → List Expr → Context → Acted Context Expr
  pub assign : Expr → Token → Expr → Context → Acted Context Expr
  -- emitVarDef with the doc string that was collected, createAssign, and the l-values of makeAssign
  pub define : TypeDef → Token → Context → Acted Context Def
  pub assign_def : Token → Def → Expr → Context → Acted Context Expr
  pub return_type : FuncDef → TypeDef
  pub is_void : TypeDef → Bool
  -- a function's and a class's definition, which read that many tokens
  pub function_def : TypeDef → Token → List Token → Context → Acted Context (Def × ℕ)
  pub class_def : List Token → Context → Acted Context (TypeDef × ℕ)
