-- ===== src/Services/Json/Reading.antt =====
-- What a reader of JSON gets back from the texts of WebApps/ARServer/src/utils/JsonUtil.cpp.
use jingjie_ar.Services.Json.{escape, escape_character}
use jingjie_ar.Prelude.{
  ℕ, zero, suc, ◌+◌, ◌*◌, ◌/◌, ◌%◌, ◌<◌, ◌≡◌, refl, ap, ◌∙◌, false, ◌||◌, Option, none, some, [],
  ◌∷◌, ◌++◌, append_assoc, arith, ltb, if◌then◌else◌, ◌==◌, nat_eq, list_eq, length,
}
use jingjie_ar.Session.Token.{hex_digit}
use jingjie_ar.Text.{Bytes, hex_digit_value}

abbrev digits4 : Option ℕ → Option ℕ → Option ℕ → Option ℕ → Bytes → Option (ℕ × Bytes)
digits4 (some a) (some b) (some c) (some d) rest = some (((a * 16 + b) * 16 + c) * 16 + d, rest)
digits4 a b c d rest = none

-- The four digits after \u.
unfoldable pub read_code : Bytes → Option (ℕ × Bytes)
read_code (a ∷ b ∷ c ∷ d ∷ rest) =
    digits4 (hex_digit_value a) (hex_digit_value b) (hex_digit_value c) (hex_digit_value d) rest
read_code s = none

-- What follows a backslash.
unfoldable pub read_escape : Bytes → Option (ℕ × Bytes)
read_escape [] = none
read_escape (c ∷ cs) =
    let code = read_code cs in
    if c == b'"'
    then some (b'"', cs)
    else if c == b'\\'
    then some (b'\\', cs)
    else if c == b'/'
    then some (b'/', cs)
    else if c == b'b'
    then some (8, cs)
    else if c == b'f'
    then some (12, cs)
    else if c == b'n'
    then some (10, cs)
    else if c == b'r'
    then some (13, cs)
    else if c == b't'
    then some (9, cs)
    else if c == b'u'
    then code
    else none

-- A character of a string of RFC 8259, section 7, and what follows it; bytes of a character above
-- 127 stand for themselves.
unfoldable pub read_character : Bytes → Option (ℕ × Bytes)
read_character [] = none
read_character (c ∷ cs) =
    let special = read_escape cs in
    if c == b'\\' then special else if c == b'"' || ltb c 0x20 then none else some (c, cs)

abbrev push_front : ℕ → Option (Bytes × Bytes) → Option (Bytes × Bytes)
push_front c none = none
push_front c (some (s, rest)) = some (c ∷ s, rest)

-- The characters up to the closing quotation mark, and what follows it.
unfoldable pub read_string : ℕ → Bytes → Option (Bytes × Bytes)
read_string fuel [] = none
read_string zero (x ∷ xs) = none
read_string (suc fuel) (x ∷ xs) =
    if x == b'"' then some ([], xs) else elim (read_character (x ∷ xs)) [
      | none ↦ none
      | some (c, rest) ↦ push_front c (read_string fuel rest)
    ]

hex_digit_value-hex_digit : (d : ℕ) → d < 16 → hex_digit_value (hex_digit d) ≡ some d
unfolding hex_digit_value hex_digit
hex_digit_value-hex_digit d h = ground arith

read_control :
    (c : ℕ) (rest : Bytes)
    → c < 0x20
    → read_code (b'0' ∷ b'0' ∷ hex_digit (c / 16 % 16) ∷ hex_digit (c % 16) ∷ rest) ≡ some (c, rest)
unfolding read_code
read_control c rest h =
    rw
      (
        hex_digit_value-hex_digit (c / 16 % 16) (omega arith),
        hex_digit_value-hex_digit (c % 16) (omega arith),
        zero_digit,
      )
      (ap (λ x. some (x, rest)) (omega (arith, h)))
  where
    zero_digit : hex_digit_value b'0' ≡ some 0
    zero_digit = unfold hex_digit_value in refl

read_character-escape_character :
    (c : ℕ) (rest : Bytes) → read_character (escape_character c ++ rest) ≡ some (c, rest)
unfolding read_character escape_character read_escape
read_character-escape_character c rest = ground (arith, read_control c rest)

-- A quotation mark is no character of a string.
not_quote :
    (x : ℕ) (xs : Bytes) (r : ℕ × Bytes) → read_character (x ∷ xs) ≡ some r → (x == b'"') ≡ false
unfolding read_character
not_quote x xs r h = ground (arith, h)

read_character_nil : read_character [] ≡ none
unfolding read_character
read_character_nil = refl

read_string-step :
    (fuel : ℕ) (s : Bytes) (c : ℕ) (rest : Bytes)
    → read_character s ≡ some (c, rest)
    → read_string (suc fuel) s ≡ push_front c (read_string fuel rest)
unfolding read_string
read_string-step fuel [] c rest h = ground (arith, read_character_nil, h)
read_string-step fuel (x ∷ xs) c rest h = rw (not_quote x xs (c, rest) h, h) refl

-- The text that `escape` gives for any bytes is read, between quotation marks, as those bytes, and
-- the string ends at the quotation mark that was put after the text.
pub read_string-escape :
    (fuel : ℕ) (s rest : Bytes)
    → length s < fuel
    → read_string fuel (escape s ++ b'"' ∷ rest) ≡ some (s, rest)
unfolding escape
read_string-escape zero s rest h = ground (arith, h)
read_string-escape (suc fuel) [] rest h = unfold read_string in refl
read_string-escape (suc fuel) (c ∷ cs) rest h =
    ap (read_string (suc fuel)) (append_assoc (escape_character c) (escape cs) (b'"' ∷ rest))
    ∙ read_string-step fuel (escape_character c ++ (escape cs ++ b'"' ∷ rest)) c
        (escape cs ++ b'"' ∷ rest) (read_character-escape_character c (escape cs ++ b'"' ∷ rest))
    ∙ ap (push_front c) (read_string-escape fuel cs rest (omega (arith, h)))
