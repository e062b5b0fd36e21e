-- ===== src/Http/Parser.antt =====
-- parseRequest, parseHeaders and parseBody of src/http/HttpContext.cpp. Each call returns the new
-- context, the buffer with what was consumed gone, and the source's Boolean result.
pub mod Headers
pub mod Returns
pub mod Split
pub mod Rules
pub mod Limits
pub mod Bounds
pub mod Errors
use jingjie_ar.Prelude.{ℕ, zero, suc, ◌+◌}
use jingjie_ar.Prelude.{Bool, true, false, not, ◌&&◌, Option, none, some}
use jingjie_ar.Prelude.{ltb, if◌then◌else◌}
use jingjie_ar.Prelude.{◌==◌, nat_eq, list_eq}
use jingjie_ar.Prelude.{lookup}
use jingjie_ar.Prelude.{length, take}
use jingjie_ar.Text.{Bytes, bytes, to_lower, find, before, behind, is_empty, skip_while}
use jingjie_ar.Http.Request.{add_header, get_header}
use jingjie_ar.Http.Context.{
  ParseState, expect_request_line, expect_headers, expect_body, got_complete_request, ParseError,
  parse_ok, bad_request, request_line_too_large, headers_too_large, body_too_large,
  unsupported_transfer_encoding, Context, LengthResult, content_length_ok, content_length_invalid,
  content_length_overflow, parse_content_length, exceeds_limit, find_crlf, process_request_line,
  ByteSource,
}

abbrev pub set_error : ParseError → Context → Context
set_error e c = record c { error = e }

-- `if (error_ == kParseOk) error_ = kBadRequest;`
abbrev pub or_bad_request : Context → Context
or_bad_request c = elim c.error [ parse_ok ↦ set_error bad_request c | _ ↦ c ]

-- What the blank line decides about the body, by the parsed Content-Length.
unfoldable pub accept_length : LengthResult → Context → Context × Bool
accept_length content_length_invalid c = (set_error bad_request c, false)
accept_length content_length_overflow c = (set_error body_too_large c, false)
accept_length (content_length_ok n) c =
    let c' = record c { content_length = n } in
    if ltb c.limits.max_body_bytes n
    then (set_error body_too_large c', false)
    else if ltb 0 n
    then (record c' { state = expect_body }, true)
    else (record c' { state = got_complete_request }, true)

-- The same, by the value of the header, if there is one.
unfoldable pub accept_body : Option Bytes → Context → Context × Bool
accept_body none c = (record c { state = got_complete_request }, true)
accept_body (some text) c = accept_length (parse_content_length text) c

-- The blank line: the context, and whether the headers are acceptable.
unfoldable pub end_headers : Context → Context × Bool
end_headers c =
    if not (is_empty (get_header (bytes "transfer-encoding") c.request))
    then (set_error unsupported_transfer_encoding c, false)
    else accept_body (lookup (bytes "content-length") c.request.headers) c

-- The name and the value of a header line; `none` for a line with no colon.
unfoldable pub split_header : Bytes → Option (Bytes × Bytes)
split_header line = elim (find b':' line) [
  | none ↦ none
  | some i ↦ some (before i line, skip_while (λ x. x == b' ') (behind i line))
]

-- A header line that is not blank: the context, and whether the line is acceptable.
unfoldable pub header_line : Bytes → Context → Context × Bool
unfolding split_header
header_line line c = elim (split_header line) [
  | none ↦ (c, false)
  | some (key, value) ↦
      if to_lower key == bytes "transfer-encoding" && not (is_empty value)
      then (set_error unsupported_transfer_encoding c, false)
      else (
        record c {
          request = add_header key value c.request;
          header_bytes = c.header_bytes + (length line + 2);
        },
        true,
      )
]

-- Where one round of a loop leaves it.
pub data Round (B : Type 0) : Type 0 where
  again : Context → B → Round B
  return : Context → B → Bool → Round B

-- What the switch makes of a sub-parser's result: `false` is returned, after `true` the loop
-- tests the state once more.
abbrev pub after_part : {B : Type 0} → Context × B × Bool → Round B
after_part (c, b, true) = again c b
after_part (c, b, false) = return (or_bad_request c) b false

-- The receive time is noted as long as the request line is awaited.
abbrev pub stamp : ParseState → ℕ → Context → Context
stamp expect_request_line now c = record c { request = record (c.request) { receive_time = now } }
stamp _ now c = c

abbrev pub note_time : ℕ → Context → Context
note_time now c = stamp c.state now c

module _ {B : Type 0} (src : ByteSource B) where
  open src use {view, consume}

  -- A complete line within the limit, of the given length: the blank line or a header.
  unfoldable pub header_at : ℕ → Context → B → Round B
  header_at zero c b =
      let (c', fine) = end_headers (record c { header_bytes = c.header_bytes + 2 }) in
      return c' (consume 2 b) fine
  header_at (suc k) c b =
      let (c', fine) = header_line (take (suc k) (view b)) c in
      if fine then again c' (consume (suc k + 2) b) else return c' b false

  -- One round of the loop of parseHeaders, by the position of the line's end.
  unfoldable pub header_case : Option ℕ → Context → B → Round B
  header_case none c b =
      if exceeds_limit c.header_bytes (length (view b)) c.limits.max_header_bytes
      then return (set_error headers_too_large c) b false
      else return c b true
  header_case (some i) c b =
      if exceeds_limit c.header_bytes (i + 2) c.limits.max_header_bytes
      then return (set_error headers_too_large c) b false
      else header_at i c b

  unfoldable pub header_round : Context → B → Round B
  header_round c b = header_case (find_crlf (view b)) c b

  unfoldable pub header_loop : ℕ → Context → B → Option (Context × B × Bool)
  header_loop zero c b = none
  header_loop (suc fuel) c b = elim (header_round c b) [
    | again c' b' ↦ header_loop fuel c' b'
    | return c' b' r ↦ some (c', b', r)
  ]

  -- Every round but the last consumes bytes, so one more round than bytes is enough.
  unfoldable pub parse_headers : Context → B → Option (Context × B × Bool)
  parse_headers c b = header_loop (suc (length (view b))) c b

  unfoldable pub parse_body : Context → B → Context × B × Bool
  parse_body c b = if ltb (length (view b)) c.content_length then (c, b, true) else (
    record c {
      request = record (c.request) { body = take c.content_length (view b) };
      state = got_complete_request;
    },
    consume c.content_length b,
    true,
  )

  -- The case kExpectRequestLine of parseRequest, by the position of the line's end.
  unfoldable pub request_line_case : Option ℕ → Context → B → Round B
  request_line_case none c b =
      if ltb c.limits.max_request_line_bytes (length (view b))
      then return (set_error request_line_too_large c) b false
      else return c b true
  request_line_case (some i) c b =
      if ltb c.limits.max_request_line_bytes (i + 2)
      then return (set_error request_line_too_large c) b false
      else elim (process_request_line (take i (view b)) c.request) [
        | none ↦ return (set_error bad_request c) b false
        | some r ↦ again (record c { request = r; state = expect_headers }) (consume (i + 2) b)
      ]

  unfoldable pub request_line_round : Context → B → Round B
  request_line_round c b = request_line_case (find_crlf (view b)) c b

  -- One round of the loop of parseRequest, by the parser's state; `none` if parseHeaders runs out
  -- of fuel.
  unfoldable pub round : ParseState → Context → B → Option (Round B)
  round expect_request_line c b = some (request_line_round c b)
  round expect_headers c b = elim (parse_headers c b) [ none ↦ none | some p ↦ some (after_part p) ]
  round expect_body c b = some (after_part (parse_body c b))
  round got_complete_request c b = some (return c b true)

  unfoldable pub parse_loop : ℕ → Context → B → Option (Context × B × Bool)
  parse_loop zero c b = none
  parse_loop (suc fuel) c b = elim (round c.state c b) [
    | none ↦ none
    | some (again c' b') ↦ parse_loop fuel c' b'
    | some (return c' b' r) ↦ some (c', b', r)
  ]

  unfoldable pub parse_request : ℕ → ℕ → Context → B → Option (Context × B × Bool)
  parse_request fuel now c b = parse_loop fuel (note_time now c) b
