-- ===== src/Services/Scene/Field.antt =====
-- jsonStringField of WebApps/ARServer/src/handlers/SceneInteractionHandlers.cpp, which reads a text of a
-- JSON object.
use jingjie_ar.Prelude.{
  ℕ, Bool, true, false, ◌||◌, Option, none, some, [], ◌∷◌, if◌then◌else◌, ◌==◌, nat_eq, list_eq,
  length, take, drop,
}
use jingjie_ar.Services.Api.{quoted}
use jingjie_ar.Text.{Bytes, find, behind, skip_while}

-- What stands behind the first occurrence of a key that is not empty.
unfoldable pub behind_key : Bytes → Bytes → Option Bytes
behind_key key [] = none
behind_key key (c ∷ cs) =
    let rest = behind_key key cs in
    if take (length key) (c ∷ cs) == key then some (drop (length key) (c ∷ cs)) else rest

abbrev pub is_blank : ℕ → Bool
is_blank c = c == 32 || c == 9 || c == 10 || c == 13

-- The switch on the character behind a backslash.
unfoldable pub unescaped : ℕ → Option ℕ
unescaped c =
    if c == b'"'
    then some b'"'
    else if c == b'\\'
    then some b'\\'
    else if c == b'/'
    then some b'/'
    else if c == b'b'
    then some 8
    else if c == b'f'
    then some 12
    else if c == b'n'
    then some 10
    else if c == b'r'
    then some 13
    else if c == b't'
    then some 9
    else none

-- What the loop of jsonStringField does with a character.
pub data Turn : Type 0 where
  ends : Turn
  escapes : Turn
  takes : Turn

abbrev pub turn_of : ℕ → Turn
turn_of c = if c == b'"' then ends else if c == b'\\' then escapes else takes

abbrev pub push_back : ℕ → Option Bytes → Option Bytes
push_back c none = none
push_back c (some s) = some (c ∷ s)

-- The loop, with whether a backslash was read before.
unfoldable pub string_loop : Bool → Bytes → Option Bytes
string_loop escaping [] = none
string_loop true (c ∷ cs) = elim (unescaped c) [
  | none ↦ none
  | some d ↦ push_back d (string_loop false cs)
]
string_loop false (c ∷ cs) = elim (turn_of c) [
  | ends ↦ some []
  | escapes ↦ string_loop true cs
  | takes ↦ push_back c (string_loop false cs)
]

-- The text behind the colon and the white space.
unfoldable pub string_value : Bytes → Option Bytes
string_value [] = none
string_value (c ∷ cs) = let text = string_loop false cs in if c == b'"' then text else none

-- jsonStringField
unfoldable pub json_string_field : Bytes → Bytes → Option Bytes
json_string_field body field = elim (behind_key (quoted field) body) [
  | none ↦ none
  | some rest ↦ elim (find b':' rest) [
    | none ↦ none
    | some i ↦ string_value (skip_while is_blank (behind i rest))
  ]
]
