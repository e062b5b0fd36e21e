-- ===== src/Http/Parser/Returns.antt =====
-- When parseRequest of src/http/HttpContext.cpp returns. The outer loop spins where the headers or
-- the body have not arrived in full: the sub-parser answers `true` and leaves the state, and the loop
-- calls it again on the same bytes.
use jingjie_ar.Prelude.{ℕ, zero, suc, ◌+◌, ◌<◌}
use jingjie_ar.Prelude.{◌≡◌, refl, ap, ◌∙◌, ◌⊎◌, inl, inr}
use jingjie_ar.Prelude.{Bool, true, false, Option, none, some}
use jingjie_ar.Prelude.{ltb, ltb→lt, lt→ltb, Bool-cases, Option-cases}
use jingjie_ar.Prelude.{nat_eq, list_eq}
use jingjie_ar.Prelude.{length, take}
use jingjie_ar.Http.Context.{
  ParseState, expect_request_line, expect_headers, expect_body, got_complete_request, Context,
  request_line_too_large, bad_request, find_crlf, process_request_line, ByteSource,
}
use jingjie_ar.Http.Parser.{
  Round, again, return, set_error, or_bad_request, header_round, header_loop, header_case,
  parse_headers, parse_body, request_line_case, request_line_round, round, parse_loop, note_time,
  parse_request,
}
use jingjie_ar.Http.Parser.Headers.{Ended, AwaitsHeaders, Stops, parse_headers-Stops}

module _ {B : Type 0} (src : ByteSource B) where
  open src use {IsReady, view, consume, consume-IsReady, view-consume}

  -- The states in which parseRequest does not come back: a header line or the body is incomplete.
  abbrev pub IsIncomplete : Context → B → Type 0
  IsIncomplete c b =
      ((c.state ≡ expect_headers) × AwaitsHeaders src c b)
      ⊎ ((c.state ≡ expect_body) × (length (view b) < c.content_length))

  header_round_awaits :
      (c : Context) (b : B) → AwaitsHeaders src c b → header_round src c b ≡ return c b true
  unfolding header_round header_case
  header_round_awaits c b w = rw (w.no_line, header_case) (rw w.within)

  parse_headers_awaits :
      (c : Context) (b : B) → AwaitsHeaders src c b → parse_headers src c b ≡ some (c, b, true)
  unfolding parse_headers header_loop
  parse_headers_awaits c b w = rw (header_round_awaits c b w, header_loop)

  round_incomplete :
      (c : Context) (b : B) → IsIncomplete c b → round src c.state c b ≡ some (again c b)
  unfolding round parse_body
  round_incomplete c b (inl (e, w)) = simp e (rw (parse_headers_awaits c b w, round))
  round_incomplete c b (inr (e, short)) = simp e (rw (lt→ltb _ _ short, parse_body))

  -- On an incomplete request parse_loop never returns, whatever the fuel.
  pub parse_loop_incomplete :
      (fuel : ℕ) (c : Context) (b : B) → IsIncomplete c b → parse_loop src fuel c b ≡ none
  unfolding parse_loop
  parse_loop_incomplete zero c b w = refl
  parse_loop_incomplete (suc fuel) c b w =
      rw (round_incomplete c b w, parse_loop) (parse_loop_incomplete fuel c b w)

  -- A result `true` says that a request is complete, or that its first line is not.
  abbrev pub IsSettled : Context × B × Bool → Type 0
  IsSettled (c, b, true) =
      (c.state ≡ got_complete_request)
      ⊎ ((c.state ≡ expect_request_line) × (find_crlf (view b) ≡ none))
  IsSettled (c, b, false) = Unit {0}

  -- With this fuel the loop returns, or it never does.
  abbrev pub Decides : ℕ → Context → B → Type 0
  Decides n c b =
      ((p : Context × B × Bool) × (parse_loop src n c b ≡ some p) × IsSettled p)
      ⊎ ((fuel : ℕ) → parse_loop src fuel c b ≡ none)

  Decides-return :
      (n : ℕ) (c : Context) (b : B) (p : Context × B × Bool)
      → round src c.state c b ≡ some (return p.0 p.1 p.2)
      → IsSettled p
      → Decides (suc n) c b
  unfolding parse_loop
  Decides-return n c b p e settled = inl (p, rw (e, parse_loop), settled)

  Decides-again :
      (n : ℕ) (c : Context) (b : B) (c' : Context) (b' : B)
      → round src c.state c b ≡ some (again c' b')
      → Decides n c' b'
      → Decides (suc n) c b
  unfolding parse_loop
  Decides-again n c b c' b' e (inl (p, found, settled)) = inl (p, rw (e, parse_loop) found, settled)
  Decides-again n c b c' b' e (inr never) = inr (never_more never)
    where
      never_more :
          ((fuel : ℕ) → parse_loop src fuel c' b' ≡ none)
          → (fuel : ℕ) → parse_loop src fuel c b ≡ none
      never_more h zero = refl
      never_more h (suc fuel) = rw (e, parse_loop) (h fuel)

  Decides-got : (n : ℕ) (c : Context) (b : B) → c.state ≡ got_complete_request → Decides (suc n) c b
  unfolding round
  Decides-got n c b e = Decides-return n c b (c, b, true) (simp e) (inl e)

  Decides-body : (n : ℕ) (c : Context) (b : B) → c.state ≡ expect_body → Decides (suc (suc n)) c b
  unfolding round parse_body
  Decides-body n c b e = elim (Bool-cases (ltb (length (view b)) c.content_length)) [
    | inl short ↦ inr (λ fuel. parse_loop_incomplete fuel c b (inr (e, ltb→lt _ _ short)))
    | inr full ↦
        Decides-again (suc n) c b (parse_body src c b).0 (parse_body src c b).1
          (simp e (rw (full, parse_body)))
          (Decides-got n (parse_body src c b).0 (parse_body src c b).1 (rw (full, parse_body)))
  ]

  Decides-Ended : (n : ℕ) (c : Context) (b : B) → Ended c → Decides (suc (suc n)) c b
  Decides-Ended n c b (inl e) = Decides-body n c b e
  Decides-Ended n c b (inr e) = Decides-got (suc n) c b e

  Decides-headers :
      (n : ℕ) (c : Context) (b : B)
      → c.state ≡ expect_headers
      → IsReady b
      → Decides (suc (suc (suc n))) c b
  unfolding round
  Decides-headers n c b e ready =
      let (p, found, stops) = parse_headers-Stops src c b ready in go p found stops
    where
      go :
          (p : Context × B × Bool)
          → parse_headers src c b ≡ some p
          → Stops src c.state p
          → Decides (suc (suc (suc n))) c b
      go (c', b', true) found (_, inl ended) =
          Decides-again (suc (suc n)) c b c' b' (simp e (rw (found, round)))
            (Decides-Ended n c' b' ended)
      go (c', b', true) found (_, inr (same, waits)) =
          Decides-again (suc (suc n)) c b c' b' (simp e (rw (found, round)))
            (inr (λ fuel. parse_loop_incomplete fuel c' b' (inl (same ∙ e, waits))))
      go (c', b', false) found _ =
          Decides-return (suc (suc n)) c b (or_bad_request c', b', false)
            (simp e (rw (found, round))) tt

  Decides-line :
      (n : ℕ) (c : Context) (b : B)
      → c.state ≡ expect_request_line
      → IsReady b
      → Decides (suc (suc (suc (suc n)))) c b
  unfolding round request_line_round request_line_case
  Decides-line n c b e ready = go (find_crlf (view b)) refl
    where
      stays : {r : Round B} → request_line_round src c b ≡ r → round src c.state c b ≡ some r
      stays h = simp e (ap (λ q. some q) h)

      go : (o : Option ℕ) → find_crlf (view b) ≡ o → Decides (suc (suc (suc (suc n)))) c b
      go none f = elim (Bool-cases (ltb c.limits.max_request_line_bytes (length (view b)))) [
        | inl over ↦
            Decides-return (suc (suc (suc n))) c b (set_error request_line_too_large c, b, false)
              (stays (rw (f, request_line_case) (rw over))) tt
        | inr fine ↦
            Decides-return (suc (suc (suc n))) c b (c, b, true)
              (stays (rw (f, request_line_case) (rw fine))) (inr (e, f))
      ]
      go (some i) f = elim (Bool-cases (ltb c.limits.max_request_line_bytes (i + 2))) [
        | inl over ↦
            Decides-return (suc (suc (suc n))) c b (set_error request_line_too_large c, b, false)
              (stays (rw (f, request_line_case) (rw over))) tt
        | inr fine ↦ elim (Option-cases (process_request_line (take i (view b)) c.request)) [
          | inl refused ↦
              Decides-return (suc (suc (suc n))) c b (set_error bad_request c, b, false)
                (stays (rw (f, request_line_case) (rw fine (rw (refused, request_line_case))))) tt
          | inr (r, parsed) ↦
              Decides-again (suc (suc (suc n))) c b
                (record c { request = r; state = expect_headers }) (consume (i + 2) b)
                (stays (rw (f, request_line_case) (rw fine (rw (parsed, request_line_case)))))
                (Decides-headers n (record c { request = r; state = expect_headers })
                  (consume (i + 2) b) refl (consume-IsReady (i + 2) b ready))
        ]
      ]

  Decides-context : (c : Context) (b : B) (s : ParseState) → c.state ≡ s → IsReady b → Decides 4 c b
  Decides-context c b expect_request_line e ready = Decides-line 0 c b e ready
  Decides-context c b expect_headers e ready = Decides-headers 1 c b e ready
  Decides-context c b expect_body e ready = Decides-body 2 c b e
  Decides-context c b got_complete_request e ready = Decides-got 3 c b e

  -- Four rounds decide: by then parseRequest has returned, settled, or it never returns.
  pub parse_request-Decides :
      (now : ℕ) (c : Context) (b : B)
      → IsReady b
      → ((p : Context × B × Bool) × (parse_request src 4 now c b ≡ some p) × IsSettled p)
        ⊎ ((fuel : ℕ) → parse_request src fuel now c b ≡ none)
  unfolding parse_request
  parse_request-Decides now c b ready =
      Decides-context (note_time now c) b (note_time now c).state refl ready
