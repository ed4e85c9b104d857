-- ===== src/Toker/Safety/Comments.antt =====
-- Comments and doc comments.
use crack.Prelude.{ℕ, ◌+◌, ◌*◌, ◌≤◌, ◌≡◌, refl, not, Bytes, arith, [], ◌∷◌, ◌++◌, ◌==◌}
use crack.Token.{type_code}
use crack.Toker.Safety.Rules.{pick, Written-Post, emit_here, go_on, stay}
use crack.Toker.Safety.{Got, Post, Written}
use crack.Toker.Scan.{Scan}
use crack.Toker.State.{Toker, left, st_comment, st_ccomment, st_ccomment2}
use crack.Toker.Step.Comments.{step_comment, step_ccomment, step_ccomment2, first_byte}

module _ {text : Bytes} {total n : ℕ} (tk : Toker) (sc : Scan) (c : ℕ)
    (enough : 2 * left tk + 2 ≤ n) where
  pub step_comment-Post :
      tk.state ≡ st_comment
      → Got text total st_comment tk sc c
      → Written sc.comment_char
      → Post text total n (step_comment tk sc c)
  unfolding step_comment type_code
  step_comment-Post s g w =
      pick (c == b'\n')
        (λ _. Written-Post sc.comment_char _ w λ mark.
          pick (first_byte (sc.buf ++ c ∷ []) == mark) (λ _. emit_here g _ _ _ refl refl refl)
            (λ _. go_on g _ _ refl (omega arith) tt enough))
        λ _. stay g _ _ refl s w enough

  pub step_ccomment-Post :
      tk.state ≡ st_ccomment
      → Got text total st_ccomment tk sc c
      → Post text total n (step_ccomment tk sc c)
  unfolding step_ccomment
  step_ccomment-Post s g =
      pick (c == b'*') (λ _. go_on g _ _ refl (omega arith) tt enough)
        λ _. stay g _ _ refl s tt enough

  pub step_ccomment2-Post :
      tk.state ≡ st_ccomment2
      → Got text total st_ccomment2 tk sc c
      → Post text total n (step_ccomment2 tk sc c)
  unfolding step_ccomment2 type_code
  step_ccomment2-Post s g =
      pick (c == b'/')
        (λ _.
          pick (first_byte sc.buf == b'*') (λ _. emit_here g _ _ _ refl refl refl)
            (λ _. go_on g _ _ refl (omega arith) tt enough))
        λ _.
          pick (not (c == b'*')) (λ _. go_on g _ _ refl (omega arith) tt enough)
            λ _. stay g _ _ refl s tt enough
