-- ===== src/Http/Parser/Errors.antt =====
-- The error codes of src/http/HttpContext.cpp: a refusal always has one, a success never.
use jingjie_ar.Http.Context.{
  content_length_overflow, content_length_invalid, got_complete_request, content_length_ok,
  expect_body, expect_headers, expect_request_line, find_crlf, exceeds_limit, parse_content_length,
  ParseState, process_request_line, LengthResult, ByteSource, parse_ok, Context,
}
use jingjie_ar.Text.{bytes, is_empty, Bytes}
use jingjie_ar.Http.Parser.{
  return, stamp, header_round, request_line_round, again, split_header, header_at, parse_body,
  after_part, round, request_line_case, note_time, Round, parse_request, header_case, parse_headers,
  accept_length, end_headers, header_line, accept_body, or_bad_request,
}
use jingjie_ar.Http.Request.{get_header}
use jingjie_ar.Prelude.{
  ℕ, zero, suc, ◌+◌, ◌≡◌, subst, ◌≢◌, inl, inr, Bool, true, false, Option, none, some, arith, ltb,
  if◌then◌else◌, Bool-cases, Option-cases, some_inj, nat_eq, list_eq, lookup, length, take,
}
use jingjie_ar.Http.Parser.Rules.{RoundOk, header_loop_rule, parse_loop_rule}

-- The error code that goes with a result.
abbrev pub Matches : Context → Bool → Type 0
Matches c true = c.error ≡ parse_ok
Matches c false = c.error ≢ parse_ok

-- Within parseHeaders a refusal may leave the code to its caller.
abbrev Loosely : Context → Bool → Type 0
Loosely c true = c.error ≡ parse_ok
Loosely c false = Unit {0}

abbrev NoError : Context → Type 0
NoError c = c.error ≡ parse_ok

or_bad_request-Matches : (c : Context) → Matches (or_bad_request c) false
or_bad_request-Matches c = ground arith

accept_length-Loosely :
    (l : LengthResult) (c : Context)
    → NoError c
    → Loosely (accept_length l c).0 (accept_length l c).1
unfolding accept_length
accept_length-Loosely content_length_invalid c h = tt
accept_length-Loosely content_length_overflow c h = tt
accept_length-Loosely (content_length_ok k) c h = ground arith

accept_body-Loosely :
    (o : Option Bytes) (c : Context) → NoError c → Loosely (accept_body o c).0 (accept_body o c).1
unfolding accept_body
accept_body-Loosely none c h = h
accept_body-Loosely (some text) c h = accept_length-Loosely (parse_content_length text) c h

end_headers-Loosely : (c : Context) → NoError c → Loosely (end_headers c).0 (end_headers c).1
unfolding end_headers
end_headers-Loosely c h =
    elim (Bool-cases (is_empty (get_header (bytes "transfer-encoding") c.request))) [
      | inl plain ↦
          rw (plain, end_headers)
            (accept_body-Loosely (lookup (bytes "content-length") c.request.headers) c h)
      | inr coded ↦ rw (coded, end_headers) tt
    ]

header_line-Loosely :
    (line : Bytes) (c : Context) → NoError c → Loosely (header_line line c).0 (header_line line c).1
unfolding header_line
header_line-Loosely line c h = elim (Option-cases (split_header line)) [
  | inl e ↦ rw (e, header_line) tt
  | inr ((key, value), e) ↦ rw (e, header_line) (ground arith)
]

module _ {B : Type 0} (src : ByteSource B) where
  open src use {view, consume}

  abbrev Noted : Round B → Type 0
  Noted = RoundOk src NoError Loosely

  header_at-Noted : (i : ℕ) (c : Context) (b : B) → NoError c → Noted (header_at src i c b)
  unfolding header_at
  header_at-Noted zero c b h =
      end_headers-Loosely (record c { header_bytes = c.header_bytes + 2 }) h
  header_at-Noted (suc k) c b h =
      go (header_line (take (suc k) (view b)) c).1 (header_line-Loosely (take (suc k) (view b)) c h)
    where
      go :
          (fine : Bool)
          → Loosely (header_line (take (suc k) (view b)) c).0 fine
          → Noted (
              if fine
              then again (header_line (take (suc k) (view b)) c).0 (consume (suc k + 2) b)
              else return (header_line (take (suc k) (view b)) c).0 b false)
      go true l = l
      go false l = tt

  header_case-Noted :
      (o : Option ℕ) (c : Context) (b : B) → NoError c → Noted (header_case src o c b)
  unfolding header_case
  header_case-Noted none c b h =
      elim (Bool-cases (exceeds_limit c.header_bytes (length (view b)) c.limits.max_header_bytes)) [
        | inl over ↦ rw over tt
        | inr fine ↦ rw fine h
      ]
  header_case-Noted (some i) c b h =
      elim (Bool-cases (exceeds_limit c.header_bytes (i + 2) c.limits.max_header_bytes)) [
        | inl over ↦ rw over tt
        | inr fine ↦ rw fine (header_at-Noted i c b h)
      ]

  parse_headers-Loosely :
      (c : Context) (b : B) (p : Context × B × Bool)
      → NoError c
      → parse_headers src c b ≡ some p
      → Loosely p.0 p.2
  unfolding parse_headers header_round
  parse_headers-Loosely c b p h =
      header_loop_rule src NoError Loosely (λ c b v. header_case-Noted (find_crlf (view b)) c b v)
        (suc (length (view b))) c b p h

  abbrev Judged : Round B → Type 0
  Judged = RoundOk src NoError Matches

  request_line_case-Judged :
      (o : Option ℕ) (c : Context) (b : B) → NoError c → Judged (request_line_case src o c b)
  unfolding request_line_case
  request_line_case-Judged none c b h =
      elim (Bool-cases (ltb c.limits.max_request_line_bytes (length (view b)))) [
        | inl over ↦ rw over (λ e. cc)
        | inr fine ↦ rw fine h
      ]
  request_line_case-Judged (some i) c b h =
      elim (Bool-cases (ltb c.limits.max_request_line_bytes (i + 2))) [
        | inl over ↦ rw over (λ e. cc)
        | inr fine ↦ elim (Option-cases (process_request_line (take i (view b)) c.request)) [
          | inl refused ↦ rw fine (rw (refused, request_line_case) (λ e. cc))
          | inr (r, parsed) ↦ rw fine (rw (parsed, request_line_case) h)
        ]
      ]

  after_part-Judged : (p : Context × B × Bool) → Loosely p.0 p.2 → Judged (after_part p)
  after_part-Judged (c, b, true) h = h
  after_part-Judged (c, b, false) h = or_bad_request-Matches c

  parse_body-Loosely :
      (c : Context) (b : B) → NoError c → Loosely (parse_body src c b).0 (parse_body src c b).2
  unfolding parse_body
  parse_body-Loosely c b h = elim (Bool-cases (ltb (length (view b)) c.content_length)) [
    | inl short ↦ rw short h
    | inr full ↦ rw full h
  ]

  round-Judged :
      (s : ParseState) (c : Context) (b : B) (r : Round B)
      → NoError c
      → round src s c b ≡ some r
      → Judged r
  unfolding round request_line_round
  round-Judged expect_request_line c b r v h =
      subst Judged (some_inj h) (request_line_case-Judged (find_crlf (view b)) c b v)
  round-Judged expect_headers c b r v h = elim (Option-cases (parse_headers src c b)) [
    | inl stuck ↦ ground arith
    | inr (p, found) ↦
        subst Judged (some_inj (rw (found, round) at h))
          (after_part-Judged p (parse_headers-Loosely c b p v found))
  ]
  round-Judged expect_body c b r v h =
      subst Judged (some_inj h) (after_part-Judged (parse_body src c b) (parse_body-Loosely c b v))
  round-Judged got_complete_request c b r v h = subst Judged (some_inj h) v

  note_time-NoError : (now : ℕ) (c : Context) → NoError c → NoError (note_time now c)
  note_time-NoError now c v = go c.state
    where
      go : (s : ParseState) → NoError (stamp s now c)
      go expect_request_line = v
      go _ = v

  -- From a context with no error: where parseRequest returns `true` there still is none, and where
  -- it returns `false` the error is set, so that the server never answers a refusal without a code.
  pub parse_request-Matches :
      (fuel now : ℕ) (c : Context) (b : B) (p : Context × B × Bool)
      → c.error ≡ parse_ok
      → parse_request src fuel now c b ≡ some p
      → Matches p.0 p.2
  unfolding parse_request
  parse_request-Matches fuel now c b p v h =
      parse_loop_rule src NoError Matches (λ c b v r. round-Judged c.state c b r v) fuel
        (note_time now c) b p (note_time-NoError now c v) h
