-- ===== src/Text/Split.antt =====
-- Splitting at a byte, trimming and %-decoding: std::getline, `trim` and `urlDecode` of
-- src/http/HttpRequest.cpp.
use jingjie_ar.Prelude.{ℕ, ◌+◌, ◌-◌, ◌*◌, ◌≤◌}
use jingjie_ar.Prelude.{inl, inr}
use jingjie_ar.Prelude.{Bool, ◌&&◌, ◌||◌, Option, none, some}
use jingjie_ar.Prelude.{List, [], ◌∷◌, reverse, arith}
use jingjie_ar.Prelude.{leb, if◌then◌else◌, Option-cases}
use jingjie_ar.Prelude.{◌==◌, nat_eq, list_eq}
use jingjie_ar.Prelude.{length}
use jingjie_ar.Text.Scans.{Bytes, is_digit, skip_while}

-- The pieces that std::getline(stream, piece, c) yields one after the other; the loop over
-- `find(c, begin)` of HttpRequest::cookie walks the same ones. Nothing follows a closing `c`.
unfoldable pub segments : ℕ → Bytes → List Bytes
segments c [] = []
segments c (x ∷ xs) =
    if x == c
    then [] ∷ segments c xs
    else elim (segments c xs) [ [] ↦ (x ∷ []) ∷ [] | s ∷ ss ↦ (x ∷ s) ∷ ss ]

-- std::isspace of the "C" locale.
abbrev pub is_space : ℕ → Bool
is_space c = c == 32 || leb 9 c && leb c 13

unfoldable pub trim : Bytes → Bytes
unfolding skip_while
trim s = reverse (skip_while is_space (reverse (skip_while is_space s)))

-- `none` for the source's -1.
unfoldable pub hex_digit_value : ℕ → Option ℕ
hex_digit_value c =
    if is_digit c
    then some (c - b'0')
    else if leb b'A' c && leb c b'F'
    then some (c - b'A' + 10)
    else if leb b'a' c && leb c b'f'
    then some (c - b'a' + 10)
    else none

-- The byte that `%hl` stands for.
unfoldable pub escaped : ℕ → ℕ → ℕ → Option ℕ
unfolding hex_digit_value
escaped c h l =
    if c == b'%'
    then elim (hex_digit_value h) [
      | none ↦ none
      | some high ↦ elim (hex_digit_value l) [ none ↦ none | some low ↦ some (high * 16 + low) ]
    ]
    else none

abbrev pub plain : ℕ → ℕ
plain c = if c == b'+' then 32 else c

unfoldable pub url_decode : Bytes → Bytes
unfolding escaped
url_decode [] = []
url_decode (c ∷ []) = plain c ∷ []
url_decode (c ∷ d ∷ []) = plain c ∷ plain d ∷ []
url_decode (c ∷ h ∷ l ∷ xs) =
    let short = url_decode xs in
    let long = url_decode (h ∷ l ∷ xs) in
    elim (escaped c h l) [ none ↦ plain c ∷ long | some v ↦ v ∷ short ]

-- Decoding never makes a text longer.
pub length-url_decode-le : (s : Bytes) → length (url_decode s) ≤ length s
unfolding url_decode
length-url_decode-le [] = omega arith
length-url_decode-le (c ∷ []) = omega arith
length-url_decode-le (c ∷ d ∷ []) = omega arith
length-url_decode-le (c ∷ h ∷ l ∷ xs) = elim (Option-cases (escaped c h l)) [
  | inl e ↦ rw (e, url_decode) (omega (arith, length-url_decode-le (h ∷ l ∷ xs)))
  | inr (v, e) ↦ rw (e, url_decode) (omega (arith, length-url_decode-le xs))
]
