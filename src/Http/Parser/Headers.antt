-- ===== src/Http/Parser/Headers.antt =====
-- parseHeaders of src/http/HttpContext.cpp, round by round: it consumes whole lines, and returns.
use jingjie_ar.Prelude.{ℕ, zero, suc, ◌+◌, ◌≤◌, ◌<◌}
use jingjie_ar.Prelude.{◌≡◌, refl, ap, subst, ◌⊎◌, inl, inr}
use jingjie_ar.Prelude.{Bool, true, false, not, ◌&&◌, Option, none, some}
use jingjie_ar.Prelude.{[], ◌∷◌, arith}
use jingjie_ar.Prelude.{if◌then◌else◌, Bool-cases, Option-cases}
use jingjie_ar.Prelude.{◌==◌, nat_eq, list_eq}
use jingjie_ar.Prelude.{lookup}
use jingjie_ar.Prelude.{length, take, length-drop}
use jingjie_ar.Text.{Bytes, bytes, is_empty}
use jingjie_ar.Http.Request.{get_header}
use jingjie_ar.Http.Context.{
  ParseState, expect_body, got_complete_request, Context, find_crlf, exceeds_limit, ByteSource,
  parse_content_length, LengthResult, content_length_ok, content_length_invalid,
  content_length_overflow,
}
use jingjie_ar.Http.Parser.{
  Round, again, return, end_headers, accept_body, accept_length, header_line, split_header,
  header_round, header_at, header_case, header_loop, parse_headers,
}

pub find_crlf-lt : (s : Bytes) (i : ℕ) → find_crlf s ≡ some i → i + 2 ≤ length s
unfolding find_crlf
find_crlf-lt [] i h = cc
find_crlf-lt (x ∷ []) i h = cc
find_crlf-lt (x ∷ y ∷ ys) i h = elim (Bool-cases (x == 13 && y == 10)) [
  | inl e ↦ ground arith
  | inr e ↦ elim (Option-cases (find_crlf (y ∷ ys))) [
    | inl none_left ↦ ground arith
    | inr (j, found) ↦ ground (arith, find_crlf-lt (y ∷ ys) j found)
  ]
]

-- A header line keeps the state and the limits.
header_line_keeps :
    (line : Bytes) (c : Context)
    → ((header_line line c).0.state ≡ c.state) × ((header_line line c).0.limits ≡ c.limits)
unfolding header_line
header_line_keeps line c = elim (Option-cases (split_header line)) [
  | inl e ↦ rw (e, header_line) (refl, refl)
  | inr ((key, value), e) ↦ rw (e, header_line) (ground arith)
]

-- The blank line is accepted only by a parser that goes on to the body or is done.
abbrev pub Ended : Context → Type 0
Ended c = (c.state ≡ expect_body) ⊎ (c.state ≡ got_complete_request)

accept_length-Ended :
    (l : LengthResult) (c : Context) → (accept_length l c).1 ≡ true → Ended (accept_length l c).0
unfolding accept_length
accept_length-Ended content_length_invalid c h = cc
accept_length-Ended content_length_overflow c h = cc
accept_length-Ended (content_length_ok n) c h = ground arith

end_headers-Ended : (c : Context) → (end_headers c).1 ≡ true → Ended (end_headers c).0
unfolding end_headers
end_headers-Ended c =
    elim (Bool-cases (not (is_empty (get_header (bytes "transfer-encoding") c.request)))) [
      | inl e ↦ rw (e, end_headers) (λ h. cc)
      | inr e ↦ rw (e, end_headers) (go (lookup (bytes "content-length") c.request.headers))
    ]
  where
    go : (o : Option Bytes) → (accept_body o c).1 ≡ true → Ended (accept_body o c).0
    go none h = unfold accept_body in inr refl
    go (some text) h = unfold accept_body in accept_length-Ended (parse_content_length text) c h

module _ {B : Type 0} (src : ByteSource B) where
  open src use {IsReady, view, consume, consume-IsReady, view-consume}

  -- No header line is complete, and what there is of one is within the limit.
  pub record AwaitsHeaders (c : Context) (b : B) : Type 0 where
    pub no_line : find_crlf (view b) ≡ none
    pub within : exceeds_limit c.header_bytes (length (view b)) c.limits.max_header_bytes ≡ false

  abbrev pub Stops : ParseState → Context × B × Bool → Type 0
  Stops s (c', b', true) = IsReady b' × (Ended c' ⊎ ((c'.state ≡ s) × AwaitsHeaders c' b'))
  Stops s (c', b', false) = Unit {0}

  -- What a round of parseHeaders leaves: fewer bytes, or a result.
  abbrev Progress : Context → B → Round B → Type 0
  Progress c b (again c' b') =
      (c'.state ≡ c.state) × IsReady b' × (length (view b') < length (view b))
  Progress c b (return c' b' r) = Stops c.state (c', b', r)

  shorter :
      (n : ℕ) (b : B)
      → IsReady b
      → n + 2 ≤ length (view b)
      → length (view (consume (n + 2) b)) < length (view b)
  shorter n b ready h =
      omega (arith, ap length (view-consume (n + 2) b ready), length-drop (n + 2) (view b))

  end-Stops :
      (s : ParseState) (c : Context) (b : B)
      → IsReady b
      → Stops s ((end_headers c).0, consume 2 b, (end_headers c).1)
  end-Stops s c b ready = go (end_headers c).1 (end_headers-Ended c)
    where
      go :
          (r : Bool)
          → (r ≡ true → Ended (end_headers c).0)
          → Stops s ((end_headers c).0, consume 2 b, r)
      go true h = (consume-IsReady 2 b ready, inl (h refl))
      go false h = tt

  Progress-header :
      (k : ℕ) (c : Context) (b : B)
      → IsReady b
      → suc k + 2 ≤ length (view b)
      → Progress c b (header_at src (suc k) c b)
  unfolding header_at
  Progress-header k c b ready fits = go (header_line (take (suc k) (view b)) c).1
    where
      c' : Context
      c' = (header_line (take (suc k) (view b)) c).0

      go :
          (fine : Bool)
          → Progress c b (if fine then again c' (consume (suc k + 2) b) else return c' b false)
      go true = (
        (header_line_keeps (take (suc k) (view b)) c).0,
        consume-IsReady (suc k + 2) b ready,
        shorter (suc k) b ready fits,
      )
      go false = tt

  Progress-at :
      (i : ℕ) (c : Context) (b : B)
      → IsReady b
      → i + 2 ≤ length (view b)
      → Progress c b (header_at src i c b)
  Progress-at zero c b ready fits =
      unfold header_at in end-Stops c.state (record c { header_bytes = c.header_bytes + 2 }) b ready
  Progress-at (suc k) c b ready fits = Progress-header k c b ready fits

  Progress-case :
      (o : Option ℕ) (c : Context) (b : B)
      → IsReady b
      → find_crlf (view b) ≡ o
      → Progress c b (header_case src o c b)
  unfolding header_case
  Progress-case none c b ready e =
      elim (Bool-cases (exceeds_limit c.header_bytes (length (view b)) c.limits.max_header_bytes)) [
        | inl over ↦ rw over tt
        | inr fine ↦ rw fine (ready, inr (refl, record { no_line = e; within = fine }))
      ]
  Progress-case (some i) c b ready e =
      elim (Bool-cases (exceeds_limit c.header_bytes (i + 2) c.limits.max_header_bytes)) [
        | inl over ↦ rw over tt
        | inr fine ↦ rw fine (Progress-at i c b ready (find_crlf-lt (view b) i e))
      ]

  header_round-Progress : (c : Context) (b : B) → IsReady b → Progress c b (header_round src c b)
  unfolding header_round
  header_round-Progress c b ready = Progress-case (find_crlf (view b)) c b ready refl

  abbrev LoopStops : ℕ → Context → B → Type 0
  LoopStops fuel c b =
      (p : Context × B × Bool) × (header_loop src fuel c b ≡ some p) × Stops c.state p

  header_loop-next :
      (fuel : ℕ) (c : Context) (b : B) (r : Round B)
      → header_round src c b ≡ r
      → Progress c b r
      → ((c' : Context) (b' : B)
          → IsReady b'
          → length (view b') < length (view b)
          → LoopStops fuel c' b')
      → LoopStops (suc fuel) c b
  unfolding header_loop
  header_loop-next fuel c b (again c' b') e (same, ready, less) ih =
      let (p, found, st) = ih c' b' ready less in
      (p, rw (e, header_loop) found, subst (λ s. Stops s p) same st)
  header_loop-next fuel c b (return c' b' res) e st ih = ((c', b', res), rw (e, header_loop), st)

  -- parseHeaders returns, with any fuel above the number of readable bytes.
  header_loop-Stops :
      (fuel : ℕ) (c : Context) (b : B) → IsReady b → length (view b) < fuel → LoopStops fuel c b
  header_loop-Stops zero c b ready h = absurd (omega arith)
  header_loop-Stops (suc fuel) c b ready h =
      header_loop-next fuel c b (header_round src c b) refl (header_round-Progress c b ready)
        (λ c' b' ready' less. header_loop-Stops fuel c' b' ready' (omega arith))

  pub parse_headers-Stops :
      (c : Context) (b : B)
      → IsReady b
      → (p : Context × B × Bool) × (parse_headers src c b ≡ some p) × Stops c.state p
  unfolding parse_headers
  parse_headers-Stops c b ready = header_loop-Stops (suc (length (view b))) c b ready (omega arith)
