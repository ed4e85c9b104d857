-- ===== src/Tests/Model.antt =====
-- The theorems on types, overloads and constants at concrete inputs.
use crack.Consts.Convert.{blocks, to_int16, to_uint32, to_byte, to_uint16}
use crack.Consts.Exact.{fold_s_div-fold_s_rem}
use crack.Consts.Fold.{folded, fold_add, fold_sub, fold_mul, fold_s_div, fold_s_rem, fold_bit_not}
use crack.Consts.Range.{holds, between, blocks-holds, blocks_uneg}
use crack.Consts.Shifts.{Keeps, by_l_shr, run, run-Keeps}
use crack.Consts.Signed.{pos, negsuc, ◌+ℤ◌, ◌*ℤ◌, is_negative, magnitude}
use crack.Consts.Unmarked.{bit_not-bit_not}
use crack.Consts.Wraps.{
  unless, sum_overflows, difference_overflows, product_overflows, fold_add-fold_sub-fold_mul,
}
use crack.Consts.{IntConst, IsWell, create_s, create_u, sval, meaning}
use crack.Consts.Fold.{fold_neg}
use crack.Overloads.Deleted.{get_match-Sound, Sound}
use crack.Overloads.Matches.{get_match, match_funcs}
use crack.Overloads.Search.{
  get_sig_match-flatten, get_match-flatten, get_match-create_alias, taken, Live,
}
use crack.Overloads.{
  FuncDef, Overload, overload, no_overloads, delegate, flatten, find_func, same_args, get_sig_match,
  create_alias, Exprs, adapt,
}
use crack.Prelude.{
  ℕ, ◌+◌, ◌-◌, ◌*◌, ◌%◌, ◌^◌, ◌<◌, Bool, true, false, not, ◌&&◌, some, none, [], ◌∷◌, codes, ◌≡◌,
  ◌↔◌, refl, arith,
}
use crack.Types.Ancestors.{add_to_ancestors-Grown, Grown, Acyclic}
use crack.Types.Derivation.{
  is_derived_from_iff, is_derived_from_trans, matches-is_derived_from, Reaches, Above, itself, up,
  later, first,
}
use crack.Types.Paths.{get_path_to_ancestor-Leads, Found}
use crack.Types.{
  TypeDef, type_def, no_parents, base, address, is_appendage, is_derived_from, matches,
  get_path_to_ancestor, add_to_ancestors,
}

-- Object, a class, and one that is derived from both.
abbrev object : TypeDef
object = type_def 1 true false no_parents

abbrev shape : TypeDef
shape = type_def 2 true false (base object no_parents)

abbrev circle : TypeDef
circle = type_def 3 true false (base shape no_parents)

is_derived_from_iff_example : (is_derived_from circle object ≡ true) ↔ Reaches circle object
is_derived_from_iff_example = is_derived_from_iff circle object

matches-is_derived_from_example : matches object circle ≡ is_derived_from circle object
matches-is_derived_from_example = matches-is_derived_from object circle

Above-shape : (x : TypeDef) → Above x circle → address x ≡ address shape → x ≡ shape
Above-shape x itself e = absurd (omega arith)
Above-shape x (up first itself) e = refl
Above-shape x (up first (up first itself)) e = absurd (omega arith)
Above-shape x (up first (up first (up m k))) e = elim m [ ]
Above-shape x (up first (up (later m) k)) e = elim m [ ]
Above-shape x (up (later m) k) e = elim m [ ]

derived_to_shape : is_derived_from circle shape ≡ true
unfolding is_derived_from
derived_to_shape = refl

shape_to_object : is_derived_from shape object ≡ true
unfolding is_derived_from
shape_to_object = refl

is_derived_from_trans_example : is_derived_from circle object ≡ true
is_derived_from_trans_example =
    is_derived_from_trans circle shape object Above-shape derived_to_shape shape_to_object

get_path_to_ancestor-Leads_example : Found circle object (get_path_to_ancestor circle object)
get_path_to_ancestor-Leads_example = get_path_to_ancestor-Leads circle object

circle-Acyclic : Acyclic circle
unfolding Acyclic is_derived_from
circle-Acyclic = (refl, ((refl, ((refl, tt), tt)), tt))

add_to_ancestors-Grown_example :
    Grown (λ u. is_derived_from circle u ≡ true) [] (add_to_ancestors 0 1 circle [])
add_to_ancestors-Grown_example = add_to_ancestors-Grown 0 1 circle [] circle-Acyclic tt

-- Functions of one argument, and expressions that are their types; an appendage stands for an adaptive one.
abbrev taking : ℕ → TypeDef → Bool → FuncDef
taking self type is_deleted = record {
  self = self;
  name = codes "draw";
  args = record { type = type; name = codes "a" } ∷ [];
  is_method = false;
  is_virtual = false;
  is_abstract = false;
  is_deleted = is_deleted;
  receiver = 0;
  owner = 9;
  func_type = object;
}

abbrev exprs : Exprs TypeDef
exprs = record {
  type_of = λ t. some t;
  adaptive = λ t. is_appendage t;
  convert = λ t goal. some goal;
}

abbrev draw : Overload
draw =
    overload 5 (codes "draw") 9 (taking 1 circle false ∷ [])
      (delegate (overload 6 (codes "draw") 8 (taking 2 shape false ∷ []) no_overloads) no_overloads)

draw-Live : Live (flatten draw)
unfolding flatten
draw-Live = (refl, (refl, tt))

get_sig_match-flatten_example :
    get_sig_match (taking 2 shape false).args true draw
    ≡ find_func (λ f. same_args true f.args (taking 2 shape false).args) (flatten draw)
get_sig_match-flatten_example =
    get_sig_match-flatten (taking 2 shape false).args true draw draw-Live

get_match-flatten_example :
    get_match exprs adapt false draw (shape ∷ [])
    ≡ taken exprs adapt false
        (match_funcs exprs adapt false (shape ∷ []) (flatten draw))
        (none, shape ∷ [])
get_match-flatten_example = get_match-flatten exprs adapt false draw (shape ∷ []) draw-Live

get_match-create_alias_example :
    get_match exprs adapt false (create_alias 7 4 draw) (shape ∷ [])
    ≡ get_match exprs adapt false draw (shape ∷ [])
get_match-create_alias_example =
    get_match-create_alias exprs adapt false 7 4 draw (shape ∷ []) draw-Live

get_match-Sound_example :
    Sound exprs adapt false (flatten draw) (get_match exprs adapt false draw (shape ∷ []))
get_match-Sound_example = get_match-Sound exprs adapt false draw (shape ∷ [])

-- -3 as a word
abbrev three_below : ℕ
three_below = 2 ^ 64 - 3

abbrev minus_three : IntConst
minus_three = create_s (negsuc 2)

abbrev seven : IntConst
seven = create_s (pos 7)

fold_add-fold_sub-fold_mul_example :
    (fold_add minus_three (some seven)
      ≡ unless (sum_overflows three_below 7) ((three_below + 7) % 2 ^ 64))
    × (fold_sub minus_three (some seven)
        ≡ unless (difference_overflows three_below 7) ((three_below + 2 ^ 64 - 7) % 2 ^ 64))
    × (fold_mul minus_three (some seven)
        ≡ unless (product_overflows three_below 7) (three_below * 7 % 2 ^ 64))
fold_add-fold_sub-fold_mul_example =
    fold_add-fold_sub-fold_mul minus_three seven (omega arith) (omega arith)

fold_s_div-fold_s_rem_example :
    (q : IntConst) × (r : IntConst) × (fold_s_div (create_s (negsuc 6)) (some (create_s (pos 2)))
      ≡ folded q)
    × (fold_s_rem (create_s (negsuc 6)) (some (create_s (pos 2))) ≡ folded r)
    × ((sval q *ℤ sval (create_s (pos 2))) +ℤ sval r ≡ sval (create_s (negsuc 6)))
    × (magnitude (sval r) < magnitude (sval (create_s (pos 2))))
fold_s_div-fold_s_rem_example =
    fold_s_div-fold_s_rem (create_s (negsuc 6)) (create_s (pos 2)) (omega arith) (omega arith) refl
      refl

create-IsWell : IsWell (create_s (negsuc 6))
create-IsWell = record { fits = omega arith; needs = λ e. cc }

blocks-holds_example :
    blocks to_int16 (create_s (negsuc 6)) ≡ not (holds to_int16 (meaning (create_s (negsuc 6))))
blocks-holds_example = blocks-holds to_int16 (create_s (negsuc 6)) create-IsWell refl

abbrev complement_of_five : IntConst
complement_of_five = record { val = 2 ^ 64 - 6; req_unsigned = false; uneg = true }

blocks_uneg_example :
    (blocks to_byte complement_of_five
      ≡ not (between 256 0 (sval complement_of_five) && is_negative (sval complement_of_five)))
    × (blocks to_uint16 complement_of_five
        ≡ not (between 65536 0 (sval complement_of_five) && is_negative (sval complement_of_five)))
    × (blocks to_uint32 complement_of_five ≡ not (is_negative (sval complement_of_five)))
blocks_uneg_example = blocks_uneg complement_of_five (omega arith) refl

run-Keeps_example :
    Keeps (run by_l_shr (create_s (negsuc 6)) (some (create_s (pos 2))))
    × Keeps (fold_neg (create_s (negsuc 6)))
run-Keeps_example = run-Keeps by_l_shr (create_s (negsuc 6)) (some (create_s (pos 2))) create-IsWell

abbrev highest : IntConst
highest = create_u (2 ^ 64 - 1)

highest-IsWell : IsWell highest
highest-IsWell = record { fits = omega arith; needs = λ e. omega arith }

bit_not-bit_not_example :
    (fold_bit_not (fold_bit_not highest) ≡ highest)
    × (highest.req_unsigned ≡ true → ¬ IsWell (fold_bit_not highest))
bit_not-bit_not_example = bit_not-bit_not highest highest-IsWell
