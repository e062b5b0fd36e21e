-- ===== src/Services/Scene/Reading.antt =====
-- Which comments jsonStringField of WebApps/ARServer/src/handlers/SceneInteractionHandlers.cpp reads.
use jingjie_ar.Text.{behind, find, skip_while, Bytes, bytes}
use jingjie_ar.Services.Scene.Field.{
  is_blank, string_value, behind_key, json_string_field, unescaped, push_back, string_loop,
}
use jingjie_ar.Prelude.{
  ℕ, ◌≡◌, refl, ap, ◌∙◌, subst, Bool, true, false, not, ◌&&◌, ◌||◌, none, some, [], ◌∷◌, ◌++◌,
  append_assoc, arith, leb, ◌==◌, nat_eq, list_eq, length, take, drop, drop-append_length,
}
use jingjie_ar.Services.Json.{escape_character, escape}
use jingjie_ar.Services.Api.{quoted}

-- The characters that JSON writes without \u.
abbrev pub is_plain : ℕ → Bool
is_plain c = leb 0x20 c || c == 8 || c == 12 || c == 10 || c == 13 || c == 9

abbrev pub all_plain : Bytes → Bool
all_plain [] = true
all_plain (c ∷ cs) = is_plain c && all_plain cs

-- The body of a comment whose content is written by JsonUtil::escape.
abbrev pub comment_request_body : Bytes → Bytes → Bytes
comment_request_body s rest =
    b'{' ∷ (quoted (bytes "content") ++ b':' ∷ b'"' ∷ (escape s ++ b'"' ∷ rest))

string_loop-escape_character :
    (c : ℕ) (tail : Bytes)
    → is_plain c ≡ true
    → string_loop false (escape_character c ++ tail) ≡ push_back c (string_loop false tail)
unfolding string_loop unescaped escape_character
string_loop-escape_character c tail h = ground (arith, h)

string_loop-escape :
    (s rest : Bytes) → all_plain s ≡ true → string_loop false (escape s ++ b'"' ∷ rest) ≡ some s
unfolding escape string_loop
string_loop-escape [] rest h = refl
string_loop-escape (c ∷ cs) rest h =
    let both : (is_plain c ≡ true) × (all_plain cs ≡ true) = ground (arith, h) in
    ap (string_loop false) (append_assoc (escape_character c) (escape cs) (b'"' ∷ rest))
    ∙ string_loop-escape_character c (escape cs ++ b'"' ∷ rest) both.0
    ∙ ap (push_back c) (string_loop-escape cs rest both.1)

abbrev content_key : Bytes
content_key = quoted (bytes "content")

-- A body with the key `content` behind what stands before it, white space before and behind the
-- colon, and a text that is written by JsonUtil::escape.
abbrev pub body_with_content : Bytes → Bytes → Bytes → Bytes → Bytes → Bytes
body_with_content before gap gap' s rest =
    before ++ (content_key ++ (gap ++ b':' ∷ (gap' ++ b'"' ∷ (escape s ++ b'"' ∷ rest))))

-- Whether no occurrence of the key starts in the first text, when the second follows it.
abbrev pub no_key_in : Bytes → Bytes → Bool
no_key_in [] tail = true
no_key_in (c ∷ cs) tail =
    not (take (length content_key) (c ∷ (cs ++ tail)) == content_key) && no_key_in cs tail

abbrev pub all_blank : Bytes → Bool
all_blank [] = true
all_blank (c ∷ cs) = is_blank c && all_blank cs

behind_key-first :
    (before tail : Bytes)
    → no_key_in before (content_key ++ tail) ≡ true
    → behind_key content_key (before ++ (content_key ++ tail)) ≡ some tail
unfolding behind_key
behind_key-first [] tail h = refl
behind_key-first (c ∷ cs) tail h =
    let both : ((take (length content_key) (c ∷ (cs ++ (content_key ++ tail))) == content_key)
          ≡ false)
        × (no_key_in cs (content_key ++ tail) ≡ true) =
      ground (arith, h) in
    rw (both.0) (behind_key-first cs tail both.1)

find-colon :
    (gap tail : Bytes) → all_blank gap ≡ true → find b':' (gap ++ b':' ∷ tail) ≡ some (length gap)
unfolding find
find-colon [] tail h = refl
find-colon (c ∷ cs) tail h =
    let both : ((c == b':') ≡ false) × (all_blank cs ≡ true) = ground (arith, h) in
    rw (both.0, find-colon cs tail both.1) refl

behind-colon : (gap tail : Bytes) → behind (length gap) (gap ++ b':' ∷ tail) ≡ tail
behind-colon [] tail = refl
behind-colon (c ∷ cs) tail = behind-colon cs tail

skip_blanks :
    (gap tail : Bytes)
    → all_blank gap ≡ true
    → skip_while is_blank (gap ++ b'"' ∷ tail) ≡ b'"' ∷ tail
unfolding skip_while
skip_blanks [] tail h = refl
skip_blanks (c ∷ cs) tail h =
    let both : (is_blank c ≡ true) × (all_blank cs ≡ true) = ground (arith, h) in
    rw (both.0) (skip_blanks cs tail both.1)

-- From a body that has the key "content" for the first time behind `before`, then a colon with any
-- white space around it, and the text as JsonUtil::escape writes it between quotes, whatever follows,
-- jsonStringField reads the text back as the content, for every text without the control characters
-- that JSON writes with \u.
pub json_string_field-escape :
    (before gap gap' s rest : Bytes)
    → no_key_in before (drop (length before) (body_with_content before gap gap' s rest)) ≡ true
    → all_blank gap ≡ true
    → all_blank gap' ≡ true
    → all_plain s ≡ true
    → json_string_field (body_with_content before gap gap' s rest) (bytes "content") ≡ some s
unfolding json_string_field string_value
json_string_field-escape before gap gap' s rest first blank blank' h =
    let text = b'"' ∷ (escape s ++ b'"' ∷ rest) in
    let tail = gap ++ b':' ∷ (gap' ++ text) in
    let alone : no_key_in before (content_key ++ tail) ≡ true =
      subst (λ t. no_key_in before t ≡ true) (drop-append_length before (content_key ++ tail))
        first in
    rw
      (
        json_string_field,
        behind_key-first before tail alone,
        find-colon gap (gap' ++ text) blank,
        behind-colon gap (gap' ++ text),
        skip_blanks gap' (escape s ++ b'"' ∷ rest) blank',
      )
      (string_loop-escape s rest h)

-- A content that starts with a control character which JSON writes with \u is not read.
pub json_string_field_control :
    (c : ℕ) (s rest : Bytes)
    → is_plain c ≡ false
    → json_string_field (comment_request_body (c ∷ s) rest) (bytes "content") ≡ none
unfolding json_string_field behind_key string_value find skip_while string_loop escape
    escape_character unescaped
json_string_field_control c s rest h = ground (arith, h)
