-- ===== src/Services/Utf8/Tests.antt =====
-- Texts on which the theorems on UTF-8 apply.
use jingjie_ar.Services.Utf8.Codec.{encode_scalar}
use jingjie_ar.Services.Utf8.{
  unicode_whitespace, in_range, continue, after_lead, lead_of, next_code_point, utf8_loop,
  valid_non_blank_utf8,
}
use jingjie_ar.Services.Utf8.Accepts.{valid_non_blank_utf8_iff, not_blank, encode_all, AllScalars}
use jingjie_ar.Text.{Bytes}
use jingjie_ar.Prelude.{ℕ, ◌≡◌, refl, ◌↔◌, true, false, List, [], ◌∷◌, arith, nat_eq, list_eq}

program : Unit {0}
unfolding valid_non_blank_utf8 utf8_loop next_code_point lead_of after_lead continue in_range
    unicode_whitespace encode_all encode_scalar not_blank
program = tt

-- U+3000, which is white space, and U+4F60.
abbrev greeting : Bytes
greeting = 227 ∷ 128 ∷ 128 ∷ 228 ∷ 189 ∷ 160 ∷ []

greeting_valid : valid_non_blank_utf8 greeting ≡ true
unfolding program
greeting_valid = refl

overlong_refused : valid_non_blank_utf8 (0xc0 ∷ 0xaf ∷ []) ≡ false
unfolding program
overlong_refused = refl

surrogate_refused : valid_non_blank_utf8 (0xed ∷ 0xa0 ∷ 0x80 ∷ []) ≡ false
unfolding program
surrogate_refused = refl

blank_refused : valid_non_blank_utf8 (227 ∷ 128 ∷ 128 ∷ 32 ∷ []) ≡ false
unfolding program
blank_refused = refl

valid_non_blank_utf8_iff_example :
    (valid_non_blank_utf8 greeting ≡ true)
    ↔ ((cs : List ℕ) × AllScalars cs × (greeting ≡ encode_all cs) × (not_blank cs ≡ true))
valid_non_blank_utf8_iff_example =
    valid_non_blank_utf8_iff greeting
      (omega arith, (omega arith, (omega arith, (omega arith, (omega arith, (omega arith, tt))))))
