-- ===== src/Http/Parser/Rules.antt =====
-- Invariant rules for the two loops of src/http/HttpContext.cpp.
use jingjie_ar.Prelude.{ℕ, zero, suc}
use jingjie_ar.Prelude.{◌≡◌, refl, subst}
use jingjie_ar.Prelude.{Bool, Option, none, some}
use jingjie_ar.Prelude.{arith}
use jingjie_ar.Prelude.{some_inj}
use jingjie_ar.Prelude.{nat_eq, list_eq}
use jingjie_ar.Http.Context.{Context, ByteSource}
use jingjie_ar.Http.Parser.{Round, again, return, header_round, header_loop, round, parse_loop}

module _ {B : Type 0} (src : ByteSource B) (P : Context → Type 0)
    (Q : Context → Bool → Type 0) where
  -- `P` where the loop goes on, `Q` of the result.
  abbrev pub RoundOk : Round B → Type 0
  RoundOk (again c b) = P c
  RoundOk (return c b r) = Q c r

  header_loop_after :
      (fuel : ℕ) (c : Context) (b : B) (r : Round B) (p : Context × B × Bool)
      → header_round src c b ≡ r
      → RoundOk r
      → ((c' : Context) (b' : B) → P c' → header_loop src fuel c' b' ≡ some p → Q p.0 p.2)
      → header_loop src (suc fuel) c b ≡ some p
      → Q p.0 p.2
  unfolding header_loop
  header_loop_after fuel c b (again c' b') p e fine ih h = ih c' b' fine (rw (e, header_loop) at h)
  header_loop_after fuel c b (return c' b' r) p e fine ih h =
      subst (λ (o : Context × B × Bool). Q o.0 o.2) (some_inj (rw (e, header_loop) at h)) fine

  pub header_loop_rule :
      ((c : Context) (b : B) → P c → RoundOk (header_round src c b))
      → (fuel : ℕ) (c : Context) (b : B) (p : Context × B × Bool) → P c
      → header_loop src fuel c b ≡ some p
      → Q p.0 p.2
  header_loop_rule keep zero c b p inv h = unfold header_loop in cc
  header_loop_rule keep (suc fuel) c b p inv h =
      header_loop_after fuel c b (header_round src c b) p refl (keep c b inv)
        (λ c' b' inv'. header_loop_rule keep fuel c' b' p inv') h

  parse_loop_after :
      (fuel : ℕ) (c : Context) (b : B) (o : Option (Round B)) (p : Context × B × Bool)
      → round src c.state c b ≡ o
      → ((r : Round B) → o ≡ some r → RoundOk r)
      → ((c' : Context) (b' : B) → P c' → parse_loop src fuel c' b' ≡ some p → Q p.0 p.2)
      → parse_loop src (suc fuel) c b ≡ some p
      → Q p.0 p.2
  unfolding parse_loop
  parse_loop_after fuel c b none p e fine ih h = ground arith
  parse_loop_after fuel c b (some (again c' b')) p e fine ih h =
      ih c' b' (fine (again c' b') refl) (rw (e, parse_loop) at h)
  parse_loop_after fuel c b (some (return c' b' r)) p e fine ih h =
      subst (λ (o : Context × B × Bool). Q o.0 o.2) (some_inj (rw (e, parse_loop) at h))
        (fine (return c' b' r) refl)

  pub parse_loop_rule :
      ((c : Context) (b : B) → P c → (r : Round B) → round src c.state c b ≡ some r → RoundOk r)
      → (fuel : ℕ) (c : Context) (b : B) (p : Context × B × Bool) → P c
      → parse_loop src fuel c b ≡ some p
      → Q p.0 p.2
  parse_loop_rule keep zero c b p inv h = unfold parse_loop in cc
  parse_loop_rule keep (suc fuel) c b p inv h =
      parse_loop_after fuel c b (round src c.state c b) p refl (keep c b inv)
        (λ c' b' inv'. parse_loop_rule keep fuel c' b' p inv') h
