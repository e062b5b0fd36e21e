-- ===== src/Http/Parser/Split.antt =====
-- A request whose header lines arrive after its request line: src/http/HttpContext.cpp.
use jingjie_ar.Prelude.{ℕ, zero, suc, ◌+◌, ◌≤◌}
use jingjie_ar.Prelude.{◌≡◌, refl, ap, inl}
use jingjie_ar.Prelude.{false, none, some}
use jingjie_ar.Prelude.{arith}
use jingjie_ar.Prelude.{ltb}
use jingjie_ar.Prelude.{nat_eq, list_eq}
use jingjie_ar.Prelude.{length, take, drop}
use jingjie_ar.Http.Request.{Request}
use jingjie_ar.Http.Context.{
  expect_request_line, expect_headers, Context, find_crlf, process_request_line, exceeds_limit,
  ByteSource,
}
use jingjie_ar.Http.Parser.{
  again, request_line_round, request_line_case, round, parse_loop, note_time, stamp, parse_request,
}
use jingjie_ar.Http.Parser.Headers.{AwaitsHeaders}
use jingjie_ar.Http.Parser.Returns.{parse_loop_incomplete}

module _ {B : Type 0} (src : ByteSource B) where
  open src use {IsReady, view, consume, view-consume}

  exceeds_limit_within : (n m limit : ℕ) → n + m ≤ limit → exceeds_limit n m limit ≡ false
  unfolding exceeds_limit
  exceeds_limit_within n m limit h = ground arith

  awaits_rest :
      (c : Context) (b : B) (n : ℕ)
      → IsReady b
      → find_crlf (drop n (view b)) ≡ none
      → c.header_bytes + length (drop n (view b)) ≤ c.limits.max_header_bytes
      → AwaitsHeaders src c (consume n b)
  awaits_rest c b n ready no_line fits = record {
    no_line = rw (view-consume n b ready) no_line;
    within = rw (view-consume n b ready) (
        exceeds_limit_within c.header_bytes (length (drop n (view b))) c.limits.max_header_bytes
          fits);
  }

  note_time_start :
      (now : ℕ) (c : Context)
      → c.state ≡ expect_request_line
      → note_time now c ≡ record c { request = record (c.request) { receive_time = now } }
  note_time_start now c e = ap (λ s. stamp s now c) e

  -- The round that reads a good request line.
  first_round :
      (c : Context) (b : B) (i : ℕ) (r : Request)
      → c.state ≡ expect_request_line
      → find_crlf (view b) ≡ some i
      → i + 2 ≤ c.limits.max_request_line_bytes
      → process_request_line (take i (view b)) c.request ≡ some r
      → round src c.state c b
        ≡ some (again (record c { request = r; state = expect_headers }) (consume (i + 2) b))
  unfolding round request_line_round request_line_case
  first_round c b i r e line short parsed =
      let fits : ltb c.limits.max_request_line_bytes (i + 2) ≡ false = ground arith in
      simp e (rw (line, request_line_case) (rw fits (rw (parsed, request_line_case))))

  -- Given a good request line, within its limit, and behind it only bytes that hold no CRLF and keep
  -- within the limit of the header section (nothing, or the start of the first header line),
  -- parseRequest does not return and wait for more bytes: its loop goes on for ever, whatever the
  -- fuel.
  pub parse_request_split :
      (now : ℕ) (c : Context) (b : B) (i : ℕ) (r : Request)
      → IsReady b
      → c.state ≡ expect_request_line
      → find_crlf (view b) ≡ some i
      → i + 2 ≤ c.limits.max_request_line_bytes
      → process_request_line (take i (view b)) (record (c.request) { receive_time = now }) ≡ some r
      → find_crlf (drop (i + 2) (view b)) ≡ none
      → c.header_bytes + length (drop (i + 2) (view b)) ≤ c.limits.max_header_bytes
      → (fuel : ℕ) → parse_request src fuel now c b ≡ none
  unfolding parse_request
  parse_request_split now c b i r ready start line short parsed no_line fits fuel =
      rw (note_time_start now c start) (
        go fuel (
          first_round (record c { request = record (c.request) { receive_time = now } }) b i r start
            line short parsed))
    where
      c' : Context
      c' = record c { request = r; state = expect_headers }

      go :
          (fuel : ℕ)
          → round src c.state (record c { request = record (c.request) { receive_time = now } }) b
            ≡ some (again c' (consume (i + 2) b))
          → parse_loop src fuel (record c { request = record (c.request) { receive_time = now } }) b
            ≡ none
      go zero e = unfold parse_loop in refl
      go (suc fuel) e =
          unfold parse_loop in
          rw (e, parse_loop)
            (parse_loop_incomplete src fuel c' (consume (i + 2) b)
              (inl (refl, awaits_rest c' b (i + 2) ready no_line fits)))
