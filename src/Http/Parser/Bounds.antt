-- ===== src/Http/Parser/Bounds.antt =====
-- What whole runs of parseRequest keep of the limits of include/http/HttpLimits.h and of the refusal
-- of transfer encodings: src/http/HttpContext.cpp.
use jingjie_ar.Http.Request.{get_header}
use jingjie_ar.Http.Parser.Limits.{
  process_request_line-body, exceeds_limit-false, IsReading-IsBounded, or_bad_request-IsBounded,
  header_line-IsReading, set_error-IsBounded, end_headers-IsBounded, IsBounded, IsReading,
}
use jingjie_ar.Http.Parser.{
  return, again, stamp, request_line_round, parse_request, header_line, after_part, note_time,
  round, header_round, Round, request_line_case, header_at, parse_body, header_case, parse_headers,
}
use jingjie_ar.Http.Context.{
  bad_request, got_complete_request, process_request_line, expect_headers, ParseState,
  headers_too_large, request_line_too_large, find_crlf, exceeds_limit, expect_request_line,
  expect_body, Context, ByteSource,
}
use jingjie_ar.Prelude.{
  ℕ, zero, suc, ◌+◌, ◌≤◌, ◌≡◌, refl, ◌∙◌, subst, inl, inr, Bool, true, false, Option, none, some,
  arith, ltb, if◌then◌else◌, Bool-cases, Option-cases, some_inj, nat_eq, list_eq, length, take,
  length-take,
}
use jingjie_ar.Http.Parser.Rules.{RoundOk, header_loop_rule, parse_loop_rule}

module _ {B : Type 0} (src : ByteSource B) where
  open src use {view, consume}

  abbrev Kept : Round B → Type 0
  Kept = RoundOk src IsReading (λ c _. IsBounded c)

  header_at-Kept :
      (i : ℕ) (c : Context) (b : B)
      → IsReading c
      → c.header_bytes + (i + 2) ≤ c.limits.max_header_bytes
      → Kept (header_at src i c b)
  unfolding header_at
  header_at-Kept zero c b v h =
      end_headers-IsBounded (record c { header_bytes = c.header_bytes + 2 })
        (record { headers_within = omega arith; unread = v.unread; reading = v.reading })
  header_at-Kept (suc k) c b v h = go (header_line (take (suc k) (view b)) c).1
    where
      c' : Context
      c' = (header_line (take (suc k) (view b)) c).0

      v' : IsReading c'
      v' =
          header_line-IsReading (take (suc k) (view b)) c v
            (omega (arith, length-take (suc k) (view b)))

      go :
          (fine : Bool)
          → Kept (if fine then again c' (consume (suc k + 2) b) else return c' b false)
      go true = v'
      go false = IsReading-IsBounded c' v'

  header_case-Kept :
      (o : Option ℕ) (c : Context) (b : B) → IsReading c → Kept (header_case src o c b)
  unfolding header_case
  header_case-Kept none c b v =
      elim (Bool-cases (exceeds_limit c.header_bytes (length (view b)) c.limits.max_header_bytes)) [
        | inl over ↦ rw over (set_error-IsBounded headers_too_large c (IsReading-IsBounded c v))
        | inr fine ↦ rw fine (IsReading-IsBounded c v)
      ]
  header_case-Kept (some i) c b v =
      elim (Bool-cases (exceeds_limit c.header_bytes (i + 2) c.limits.max_header_bytes)) [
        | inl over ↦ rw over (set_error-IsBounded headers_too_large c (IsReading-IsBounded c v))
        | inr fine ↦ rw fine (header_at-Kept i c b v (exceeds_limit-false _ _ _ fine))
      ]

  parse_headers-IsBounded :
      (c : Context) (b : B) (p : Context × B × Bool)
      → IsReading c
      → parse_headers src c b ≡ some p
      → IsBounded p.0
  unfolding parse_headers header_round
  parse_headers-IsBounded c b p v h =
      header_loop_rule src IsReading (λ c _. IsBounded c)
        (λ c b v. header_case-Kept (find_crlf (view b)) c b v) (suc (length (view b))) c b p v h

  request_line_case-Kept :
      (o : Option ℕ) (c : Context) (b : B)
      → IsBounded c
      → c.state ≡ expect_request_line
      → RoundOk src IsBounded (λ c _. IsBounded c) (request_line_case src o c b)
  unfolding request_line_case
  request_line_case-Kept none c b v e =
      elim (Bool-cases (ltb c.limits.max_request_line_bytes (length (view b)))) [
        | inl over ↦ rw over (set_error-IsBounded request_line_too_large c v)
        | inr fine ↦ rw fine v
      ]
  request_line_case-Kept (some i) c b v e =
      elim (Bool-cases (ltb c.limits.max_request_line_bytes (i + 2))) [
        | inl over ↦ rw over (set_error-IsBounded request_line_too_large c v)
        | inr fine ↦ elim (Option-cases (process_request_line (take i (view b)) c.request)) [
          | inl refused ↦
              rw fine (rw (refused, request_line_case) (set_error-IsBounded bad_request c v))
          | inr (r, parsed) ↦ rw fine (
              rw (parsed, request_line_case)
                (IsReading-IsBounded (record c { request = r; state = expect_headers })
                  (record {
                    headers_within = v.headers_within;
                    unread =
                        process_request_line-body (take i (view b)) c.request r parsed
                        ∙ v.unread (λ h. ground arith);
                    reading = inr refl;
                  })))
        ]
      ]

  parse_body-IsBounded :
      (c : Context) (b : B) → IsBounded c → c.state ≡ expect_body → IsBounded (parse_body src c b).0
  unfolding parse_body get_header
  parse_body-IsBounded c b v e = elim (Bool-cases (ltb (length (view b)) c.content_length)) [
    | inl short ↦ rw short v
    | inr full ↦ rw full (record {
      headers_within = v.headers_within;
      unread = λ h. absurd (h refl);
      announced = λ h. absurd (ground arith);
      complete = λ _. (
        omega (arith, (v.announced e).0, length-take c.content_length (view b)),
        (v.announced e).1,
      );
    })
  ]

  after_part-Kept :
      (p : Context × B × Bool)
      → IsBounded p.0
      → RoundOk src IsBounded (λ c _. IsBounded c) (after_part p)
  after_part-Kept (c, b, true) v = v
  after_part-Kept (c, b, false) v = or_bad_request-IsBounded c v

  round-Kept :
      (s : ParseState) (c : Context) (b : B) (r : Round B)
      → IsBounded c
      → c.state ≡ s
      → round src s c b ≡ some r
      → RoundOk src IsBounded (λ c _. IsBounded c) r
  unfolding round request_line_round
  round-Kept expect_request_line c b r v e h =
      subst (RoundOk src IsBounded (λ c _. IsBounded c)) (some_inj h)
        (request_line_case-Kept (find_crlf (view b)) c b v e)
  round-Kept expect_headers c b r v e h = elim (Option-cases (parse_headers src c b)) [
    | inl stuck ↦ ground arith
    | inr (p, found) ↦
        subst (RoundOk src IsBounded (λ c _. IsBounded c)) (some_inj (rw (found, round) at h))
          (after_part-Kept p (parse_headers-IsBounded c b p (reading v e) found))
  ]
    where
      reading : IsBounded c → c.state ≡ expect_headers → IsReading c
      reading v e = record {
        headers_within = v.headers_within;
        unread = v.unread (λ h. ground arith);
        reading = inr e;
      }
  round-Kept expect_body c b r v e h =
      subst (RoundOk src IsBounded (λ c _. IsBounded c)) (some_inj h)
        (after_part-Kept (parse_body src c b) (parse_body-IsBounded c b v e))
  round-Kept got_complete_request c b r v e h =
      subst (RoundOk src IsBounded (λ c _. IsBounded c)) (some_inj h) v

  note_time-IsBounded : (now : ℕ) (c : Context) → IsBounded c → IsBounded (note_time now c)
  unfolding get_header
  note_time-IsBounded now c v = go c.state
    where
      go : (s : ParseState) → IsBounded (stamp s now c)
      go expect_request_line = record {
        headers_within = v.headers_within;
        unread = v.unread;
        announced = v.announced;
        complete = v.complete;
      }
      go _ = v

  -- However parseRequest returns, from a new, reset or earlier context: the header bytes counted
  -- are within their limit; a body that is awaited is announced within its limit; and a complete
  -- request has a body within that limit and no transfer encoding.
  pub parse_request-IsBounded :
      (fuel now : ℕ) (c : Context) (b : B) (p : Context × B × Bool)
      → IsBounded c
      → parse_request src fuel now c b ≡ some p
      → IsBounded p.0
  unfolding parse_request
  parse_request-IsBounded fuel now c b p v h =
      parse_loop_rule src IsBounded (λ c _. IsBounded c)
        (λ c b v r. round-Kept c.state c b r v refl) fuel (note_time now c) b p
        (note_time-IsBounded now c v) h
