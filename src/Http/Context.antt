-- ===== src/Http/Context.antt =====
-- include/http/HttpContext.h and src/http/HttpContext.cpp: the incremental request parser.
-- The buffer is a parameter (ByteSource below, which Net/Buffer.antt meets in Context/Source.antt).
-- `while` loops take fuel: `none` says that it ran out. Context/Returns.antt has how much is enough.
pub mod Length
use jingjie_ar.Prelude.{ℕ, zero, suc, ◌+◌, ◌-◌, ◌*◌, ◌/◌, ◌%◌, ◌^◌, ◌≤◌, ◌<◌, min, max}
use jingjie_ar.Prelude.{◌≡◌, refl, sym, ap, ◌∙◌, ◌≢◌, ◌↔◌, ◌⊎◌, inl, inr}
use jingjie_ar.Prelude.{Bool, true, false, not, ◌&&◌, ◌||◌, Option, none, some}
use jingjie_ar.Prelude.{List, [], ◌∷◌, ◌++◌, map, reverse, append-nil, append_assoc, arith}
use jingjie_ar.Prelude.{
  ltb, leb, if◌then◌else◌, ltb→lt, lt→ltb, leb→le, tests, Bool-cases, Option-cases,
}
use jingjie_ar.Prelude.{Eq, ◌==◌, ==_iff, ==_refl, nat_eq, list_eq}
use jingjie_ar.Prelude.{
  lookup, insert, erase, has_key, lookup-insert, lookup-insert_self, lookup-erase, has_key-insert,
  IsMap, insert-IsMap,
}
use jingjie_ar.Prelude.{
  length, get_elem?, set, get_or, take, drop, replicate, length-append, length-take, length-drop,
  length-replicate, length-map, take-append-drop,
}
use jingjie_ar.Prelude.{
  drop_of_length-le, take_of_length-le, drop_nil, take_nil, drop-drop, drop-take, take-take_le,
  drop-append_le, take-append_le, take-append_ge, drop-append_ge, take-append_length,
  drop-append_length,
}
use jingjie_ar.Text.{Bytes, bytes, to_lower, find, before, behind, is_empty, is_digit, skip_while}
use jingjie_ar.Http.Request.{
  Method, invalid, Fields, Request, empty_request, set_query, add_header, get_header,
  string_to_method, method_eq,
}

-- include/http/HttpLimits.h
pub record Limits : Type 0 where
  pub max_request_line_bytes : ℕ
  pub max_header_bytes : ℕ
  pub max_body_bytes : ℕ

abbrev pub default_limits : Limits
default_limits = record {
  max_request_line_bytes = 8192;
  max_header_bytes = 32768;
  max_body_bytes = 1024 * 1024;
}

pub data ParseState : Type 0 where
  expect_request_line expect_headers expect_body got_complete_request : ParseState

pub data ParseError : Type 0 where
  parse_ok bad_request request_line_too_large headers_too_large : ParseError
  body_too_large unsupported_transfer_encoding : ParseError

pub record Context : Type 0 where
  pub state : ParseState
  pub request : Request
  pub content_length : ℕ
  pub header_bytes : ℕ
  pub limits : Limits
  pub error : ParseError

abbrev pub make_context : Limits → Context
make_context l = record {
  state = expect_request_line;
  request = empty_request;
  content_length = 0;
  header_bytes = 0;
  limits = l;
  error = parse_ok;
}

abbrev pub got_all : Context → Bool
got_all c = elim c.state [ got_complete_request ↦ true | _ ↦ false ]

abbrev pub set_limits : Limits → Context → Context
set_limits l c = record c { limits = l }

-- HttpContext::reset keeps the limits.
unfoldable pub reset : Context → Context
reset c = record c {
  request = empty_request;
  state = expect_request_line;
  content_length = 0;
  header_bytes = 0;
  error = parse_ok;
}

-- The greatest std::size_t.
abbrev pub size_max : ℕ
size_max = 2 ^ 64 - 1

pub data LengthResult : Type 0 where
  content_length_ok : ℕ → LengthResult
  content_length_invalid content_length_overflow : LengthResult

-- The loop of parseContentLength, with the value read so far.
unfoldable pub parse_digits : ℕ → Bytes → LengthResult
parse_digits result [] = content_length_ok result
parse_digits result (c ∷ cs) =
    let digit = c - b'0' in
    let rest = parse_digits (result * 10 + digit) cs in
    if not (is_digit c)
    then content_length_invalid
    else if ltb ((size_max - digit) / 10) result
    then content_length_overflow
    else rest

unfoldable pub parse_content_length : Bytes → LengthResult
unfolding parse_digits
parse_content_length [] = content_length_invalid
parse_content_length (c ∷ cs) = parse_digits 0 (c ∷ cs)

unfoldable pub exceeds_limit : ℕ → ℕ → ℕ → Bool
exceeds_limit current additional limit = ltb limit current || ltb (limit - current) additional

-- The position of the first CR LF.
unfoldable pub find_crlf : Bytes → Option ℕ
find_crlf [] = none
find_crlf (x ∷ []) = none
find_crlf (x ∷ y ∷ ys) =
    if x == 13 && y == 10
    then some 0
    else elim (find_crlf (y ∷ ys)) [ none ↦ none | some i ↦ some (suc i) ]

-- The path and the query of a request target.
unfoldable pub set_target : Bytes → Request → Request
set_target url r = elim (find b'?' url) [
  | none ↦ record r { path = url }
  | some i ↦ set_query (behind i url) (record r { path = before i url })
]

-- METHOD SP TARGET SP VERSION; `none` for a line that is refused, which changes nothing.
unfoldable pub process_request_line : Bytes → Request → Option Request
unfolding set_target
process_request_line line r = elim (find b' ' line) [
  | none ↦ none
  | some i ↦ elim (find b' ' (behind i line)) [
    | none ↦ none
    | some j ↦
        let method = string_to_method (before i line) in
        if method == invalid
        then none
        else let r' = set_target (before j (behind i line)) (record r { method = method }) in
          some (record r' { version = behind j (behind i line) })
  ]
]

-- What the parser needs of its buffer: the readable bytes, and `retrieve`.
pub record ByteSource (B : Type 0) : Type 1 where
  pub IsReady : B → Type 0
  pub view : B → Bytes
  pub consume : ℕ → B → B
  pub consume-IsReady : (n : ℕ) (b : B) → IsReady b → IsReady (consume n b)
  pub view-consume : (n : ℕ) (b : B) → IsReady b → view (consume n b) ≡ drop n (view b)
