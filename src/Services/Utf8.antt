-- ===== src/Services/Utf8.antt =====
-- The UTF-8 reader of WebApps/ARServer/src/services/ArtworkInteractionService.cpp. The masks and
-- shifts of bytes are written as remainders, quotients and products.
pub mod Codec
pub mod Accepts
mod Tests
use jingjie_ar.Text.{Bytes}
use jingjie_ar.Prelude.{
  ℕ, zero, suc, ◌+◌, ◌-◌, ◌*◌, ◌/◌, ◌%◌, ◌^◌, ◌≤◌, ◌<◌, min, max, ◌≡◌, refl, sym, ap, ap₂, ◌∙◌,
  subst, ◌≢◌, ◌↔◌, ◌⊎◌, inl, inr, Bool, true, false, not, ◌&&◌, ◌||◌, Option, none, some, List, [],
  ◌∷◌, ◌++◌, map, reverse, append-nil, append_assoc, reverse-cons, arith, ltb, leb, if◌then◌else◌,
  ltb→lt, lt→ltb, leb→le, nat_beq_iff, tests, Bool-cases, if_ind, Option-cases, some_inj, Eq, ◌==◌,
  ==_iff, ==_refl, nat_eq, list_eq, lookup, insert, erase, has_key, lookup-insert,
  lookup-insert_self, lookup-erase, has_key-insert, IsMap, insert-IsMap, insert_new, AreApart,
  AreApart-insert, AreApart-nil, length, get_elem?, set, get_or, take, drop, replicate,
  length-append, length-take, length-drop, length-replicate, length-map, take-append-drop,
  drop_of_length-le, take_of_length-le, drop_nil, take_nil, drop-drop, drop-take, take-take_le,
  drop-append_le, take-append_le, take-append_ge, drop-append_ge, take-append_length,
  drop-append_length,
}

-- What a lead byte asks for: how many continuation bytes, the bits it gives, the least code point.
pub record Lead : Type 0 where
  pub count : ℕ
  pub bits : ℕ
  pub minimum : ℕ

-- The classes of lead bytes above 0x7f; `none` for a byte that leads nothing.
unfoldable pub lead_of : ℕ → Option Lead
lead_of lead =
    if leb 0xc2 lead && leb lead 0xdf
    then some (record { count = 1; bits = lead % 32; minimum = 0x80 })
    else if leb 0xe0 lead && leb lead 0xef
    then some (record { count = 2; bits = lead % 16; minimum = 0x800 })
    else if leb 0xf0 lead && leb lead 0xf4
    then some (record { count = 3; bits = lead % 8; minimum = 0x10000 })
    else none

-- The loop over the continuation bytes, which the test of the size precedes.
unfoldable pub continue : ℕ → ℕ → Bytes → Option (ℕ × Bytes)
continue zero value s = some (value, s)
continue (suc n) value [] = none
continue (suc n) value (byte ∷ s) =
    let more = continue n (value * 64 + byte % 64) s in if byte / 64 == 2 then more else none

-- The last test: no overlong form, nothing above the range, no surrogate.
unfoldable pub in_range : ℕ → Option (ℕ × Bytes) → Option (ℕ × Bytes)
in_range minimum none = none
in_range minimum (some (value, s)) =
    if ltb value minimum || ltb 0x10ffff value || leb 0xd800 value && leb value 0xdfff
    then none
    else some (value, s)

unfoldable pub after_lead : Option Lead → Bytes → Option (ℕ × Bytes)
unfolding continue in_range
after_lead none s = none
after_lead (some l) s = in_range l.minimum (continue l.count l.bits s)

-- nextCodePoint, on what stands from the position on; the text is not empty.
unfoldable pub next_code_point : Bytes → Option (ℕ × Bytes)
unfolding lead_of after_lead
next_code_point [] = none
next_code_point (lead ∷ s) = if leb lead 0x7f then some (lead, s) else after_lead (lead_of lead) s

-- unicodeWhitespace
unfoldable pub unicode_whitespace : ℕ → Bool
unicode_whitespace c =
    leb 0x9 c && leb c 0xd
    || c == 0x20
    || c == 0x85
    || c == 0xa0
    || c == 0x1680
    || leb 0x2000 c && leb c 0x200a
    || c == 0x2028
    || c == 0x2029
    || c == 0x202f
    || c == 0x205f
    || c == 0x3000

-- The loop of validNonBlankUtf8; a round consumes a byte at least, so that as many rounds as there
-- are bytes are enough.
unfoldable pub utf8_loop : ℕ → Bool → Bytes → Bool
utf8_loop fuel has_content [] = has_content
utf8_loop zero has_content (c ∷ s) = false
utf8_loop (suc fuel) has_content (c ∷ s) = elim (next_code_point (c ∷ s)) [
  | none ↦ false
  | some (value, rest) ↦
      utf8_loop fuel (if unicode_whitespace value then has_content else true) rest
]

-- ArtworkInteractionService::validNonBlankUtf8
unfoldable pub valid_non_blank_utf8 : Bytes → Bool
unfolding utf8_loop
valid_non_blank_utf8 content = utf8_loop (length content) false content
