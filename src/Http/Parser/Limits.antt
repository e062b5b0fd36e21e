-- ===== src/Http/Parser/Limits.antt =====
-- The limits of include/http/HttpLimits.h and the refusal of transfer encodings, line by line of the
-- header section: src/http/HttpContext.cpp.
use jingjie_ar.Http.Request.{string_to_method, Request, set_query, get_header, add_header}
use jingjie_ar.Text.{before, behind, find, Bytes, bytes, is_empty}
use jingjie_ar.Http.Context.{
  set_target, process_request_line, parse_ok, ParseError, exceeds_limit, expect_request_line,
  expect_headers, expect_body, got_complete_request, bad_request, body_too_large, Context,
  unsupported_transfer_encoding, LengthResult, content_length_ok, content_length_invalid,
  content_length_overflow, parse_content_length,
}
use jingjie_ar.Http.Parser.{
  or_bad_request, set_error, accept_length, accept_body, end_headers, split_header, header_line,
}
use jingjie_ar.Prelude.{
  ℕ, ◌+◌, ◌≤◌, ◌≡◌, refl, ap, ◌≢◌, ◌⊎◌, inl, inr, Bool, true, false, Option, none, some, [], arith,
  ltb, if◌then◌else◌, Bool-cases, Option-cases, nat_eq, list_eq, lookup, length,
}

abbrev pub NoEncoding : Context → Type 0
NoEncoding c = is_empty (get_header (bytes "transfer-encoding") c.request) ≡ true

-- What a parser that is to be called again, or is done, keeps to.
pub record IsBounded (c : Context) : Type 0 where
  pub headers_within : c.header_bytes ≤ c.limits.max_header_bytes
  pub unread : c.state ≢ got_complete_request → c.request.body ≡ []
  pub announced :
      c.state ≡ expect_body → (c.content_length ≤ c.limits.max_body_bytes) × NoEncoding c
  pub complete :
      c.state ≡ got_complete_request
      → (length c.request.body ≤ c.limits.max_body_bytes) × NoEncoding c

-- While header lines are read, and the request line before them.
pub record IsReading (c : Context) : Type 0 where
  pub headers_within : c.header_bytes ≤ c.limits.max_header_bytes
  pub unread : c.request.body ≡ []
  pub reading : (c.state ≡ expect_request_line) ⊎ (c.state ≡ expect_headers)

pub IsReading-IsBounded : (c : Context) → IsReading c → IsBounded c
IsReading-IsBounded c v = record {
  headers_within = v.headers_within;
  unread = λ _. v.unread;
  announced = λ h. ground arith;
  complete = λ h. ground arith;
}

accept_length-IsBounded :
    (l : LengthResult) (c : Context) → IsReading c → NoEncoding c → IsBounded (accept_length l c).0
unfolding accept_length
accept_length-IsBounded content_length_invalid c v n =
    IsReading-IsBounded (set_error bad_request c) (ground arith)
accept_length-IsBounded content_length_overflow c v n =
    IsReading-IsBounded (set_error body_too_large c) (ground arith)
accept_length-IsBounded (content_length_ok k) c v n =
    elim (Bool-cases (ltb c.limits.max_body_bytes k)) [
      | inl over ↦ rw over (
          IsReading-IsBounded (set_error body_too_large (record c { content_length = k }))
            (ground arith))
      | inr fits ↦
          rw fits
            (accepted (ltb 0 k) (let within : k ≤ c.limits.max_body_bytes = ground arith in within))
    ]
  where
    accepted :
        (more : Bool)
        → k ≤ c.limits.max_body_bytes
        → IsBounded
            (if◌then◌else◌ {A = Context × Bool} more
              (record c { content_length = k; state = expect_body }, true)
              (record c { content_length = k; state = got_complete_request }, true)).0
    accepted true h = record {
      headers_within = v.headers_within;
      unread = λ _. v.unread;
      announced = λ _. (h, n);
      complete = λ e. absurd (ground arith);
    }
    accepted false h = record {
      headers_within = v.headers_within;
      unread = λ e. absurd (e refl);
      announced = λ e. absurd (ground arith);
      complete = λ _. (omega (arith, ap length v.unread), n);
    }

accept_body-IsBounded :
    (o : Option Bytes) (c : Context) → IsReading c → NoEncoding c → IsBounded (accept_body o c).0
unfolding accept_body
accept_body-IsBounded none c v n = record {
  headers_within = v.headers_within;
  unread = λ e. absurd (e refl);
  announced = λ e. absurd (ground arith);
  complete = λ _. (omega (arith, ap length v.unread), n);
}
accept_body-IsBounded (some text) c v n = accept_length-IsBounded (parse_content_length text) c v n

pub end_headers-IsBounded : (c : Context) → IsReading c → IsBounded (end_headers c).0
unfolding end_headers
end_headers-IsBounded c v =
    elim (Bool-cases (is_empty (get_header (bytes "transfer-encoding") c.request))) [
      | inl plain ↦
          rw (plain, end_headers)
            (accept_body-IsBounded (lookup (bytes "content-length") c.request.headers) c v plain)
      | inr coded ↦
          rw (coded, end_headers)
            (IsReading-IsBounded (set_error unsupported_transfer_encoding c) (ground arith))
    ]

-- A header line that fits keeps the parser reading headers.
pub header_line-IsReading :
    (line : Bytes) (c : Context)
    → IsReading c
    → c.header_bytes + (length line + 2) ≤ c.limits.max_header_bytes
    → IsReading (header_line line c).0
unfolding header_line add_header
header_line-IsReading line c v h = elim (Option-cases (split_header line)) [
  | inl e ↦ rw (e, header_line) v
  | inr ((key, value), e) ↦ rw (e, header_line) (ground arith)
]

pub exceeds_limit-false : (n m limit : ℕ) → exceeds_limit n m limit ≡ false → n + m ≤ limit
unfolding exceeds_limit
exceeds_limit-false n m limit h = ground arith

pub set_error-IsBounded : (e : ParseError) (c : Context) → IsBounded c → IsBounded (set_error e c)
set_error-IsBounded e c v = record {
  headers_within = v.headers_within;
  unread = v.unread;
  announced = v.announced;
  complete = v.complete;
}

pub or_bad_request-IsBounded : (c : Context) → IsBounded c → IsBounded (or_bad_request c)
or_bad_request-IsBounded c v = go c.error
  where
    go :
        (e : ParseError)
        → IsBounded (elim e as (λ _. Context) [ parse_ok ↦ set_error bad_request c | _ ↦ c ])
    go parse_ok = set_error-IsBounded bad_request c v
    go _ = v

set_target-body : (url : Bytes) (r : Request) → (set_target url r).body ≡ r.body
unfolding set_target set_query
set_target-body url r = ground arith

-- The request line does not touch the body.
pub process_request_line-body :
    (line : Bytes) (r r' : Request) → process_request_line line r ≡ some r' → r'.body ≡ r.body
unfolding process_request_line
process_request_line-body line r r' h = elim (Option-cases (find b' ' line)) [
  | inl e ↦ ground arith
  | inr (i, e) ↦ elim (Option-cases (find b' ' (behind i line))) [
    | inl e' ↦ ground arith
    | inr (j, e') ↦ ground (
      arith,
      set_target-body (before j (behind i line))
          (record r { method = string_to_method (before i line) }),
    )
  ]
]
