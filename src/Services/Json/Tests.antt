-- ===== src/Services/Json/Tests.antt =====
-- Texts in JSON on which the theorem on `escape` applies.
use jingjie_ar.Prelude.{◌≡◌, refl, some, [], ◌∷◌, ◌++◌, arith, nat_eq, list_eq}
use jingjie_ar.Services.Json.{escape_character, escape}
use jingjie_ar.Services.Json.Reading.{read_string, read_string-escape}
use jingjie_ar.Text.{Bytes, bytes}

program : Unit {0}
unfolding escape_character escape
program = tt

abbrev name : Bytes
name = bytes "a" ++ b'"' ∷ b'\\' ∷ 1 ∷ 10 ∷ 228 ∷ []

escape-name :
    escape name ≡ bytes "a" ++ b'\\' ∷ b'"' ∷ b'\\' ∷ b'\\' ∷ bytes "\\u0001\\n" ++ 228 ∷ []
unfolding program
escape-name = refl

read_string-escape_example :
    read_string 7 (escape name ++ b'"' ∷ bytes ",") ≡ some (name, bytes ",")
read_string-escape_example = read_string-escape 7 name (bytes ",") (omega arith)
