-- ===== src/Http/Context/Length.antt =====
-- parseContentLength of src/http/HttpContext.cpp against the value of a decimal text.
use jingjie_ar.Prelude.{ℕ, ◌+◌, ◌-◌, ◌*◌, ◌≤◌}
use jingjie_ar.Prelude.{◌≡◌, refl, ◌≢◌, ◌↔◌}
use jingjie_ar.Prelude.{true}
use jingjie_ar.Prelude.{[], ◌∷◌, arith}
use jingjie_ar.Prelude.{leb, if◌then◌else◌}
use jingjie_ar.Prelude.{nat_eq, list_eq}
use jingjie_ar.Text.{Bytes, is_digit}
use jingjie_ar.Http.Context.{
  content_length_ok, content_length_overflow, size_max, parse_digits, parse_content_length,
}

-- The number that the digits of a text stand for, read on from `n`.
abbrev pub decimal_from : ℕ → Bytes → ℕ
decimal_from n [] = n
decimal_from n (c ∷ cs) = decimal_from (n * 10 + (c - b'0')) cs

abbrev pub AllDigits : Bytes → Type 0
AllDigits [] = Unit {0}
AllDigits (c ∷ cs) = (is_digit c ≡ true) × AllDigits cs

pub le-decimal_from : (n : ℕ) (cs : Bytes) → n ≤ decimal_from n cs
le-decimal_from n [] = omega arith
le-decimal_from n (c ∷ cs) = omega (arith, le-decimal_from (n * 10 + (c - b'0')) cs)

parse_digits_lem :
    (n : ℕ) (cs : Bytes)
    → n ≤ size_max
    → AllDigits cs
    → parse_digits n cs ≡ (
        if leb (decimal_from n cs) size_max
        then content_length_ok (decimal_from n cs)
        else content_length_overflow)
unfolding parse_digits
parse_digits_lem n [] h d = ground arith
parse_digits_lem n (c ∷ cs) h d =
    ground
      (arith, parse_digits_lem (n * 10 + (c - b'0')) cs, le-decimal_from (n * 10 + (c - b'0')) cs)

parse_digits-AllDigits :
    (n : ℕ) (cs : Bytes) (v : ℕ) → parse_digits n cs ≡ content_length_ok v → AllDigits cs
unfolding parse_digits
parse_digits-AllDigits n [] v h = tt
parse_digits-AllDigits n (c ∷ cs) v h =
    ground (arith, parse_digits-AllDigits (n * 10 + (c - b'0')) cs v)

-- A Content-Length is accepted with the value v exactly if its text is not empty, holds digits
-- alone (no sign, space or comma), and stands for v, which is at most 2 ^ 64 - 1.
pub parse_content_length-eq-ok_iff :
    (s : Bytes) (v : ℕ)
    → (parse_content_length s ≡ content_length_ok v)
      ↔ ((s ≢ []) × AllDigits s × (decimal_from 0 s ≡ v) × (v ≤ size_max))
unfolding parse_content_length
parse_content_length-eq-ok_iff [] v = ((λ h. cc), (λ h. absurd (h.0 refl)))
parse_content_length-eq-ok_iff (c ∷ cs) v =
    (accepted, λ h. ground (arith, parse_digits_lem 0 (c ∷ cs) (omega arith) h.1))
  where
    accepted :
        parse_content_length (c ∷ cs) ≡ content_length_ok v
        → (((c ∷ cs) ≢ []) × AllDigits (c ∷ cs) × (decimal_from 0 (c ∷ cs) ≡ v) × (v ≤ size_max))
    accepted h =
        let d = parse_digits-AllDigits 0 (c ∷ cs) v h in
        let e = parse_digits_lem 0 (c ∷ cs) (omega arith) d in
        ((λ z. cc), d, ground arith, ground arith)
