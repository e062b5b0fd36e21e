-- ===== src/Middleware.antt =====
-- include/middleware/Middleware.h and src/middleware: the chain of middleware around a handler and
-- the cross-origin policy. A middleware is a record of its two functions; an exception that one
-- throws is a value of what it returns.
pub mod Cors
mod Tests
use jingjie_ar.Http.Response.{Response}
use jingjie_ar.Text.{find, Bytes}
use jingjie_ar.Http.Request.{Request}
use jingjie_ar.Prelude.{
  ℕ, zero, suc, ◌+◌, ◌-◌, ◌*◌, ◌/◌, ◌%◌, ◌^◌, ◌≤◌, ◌<◌, min, max, ◌≡◌, refl, sym, ap, ap₂, ◌∙◌,
  subst, ◌≢◌, ◌↔◌, ◌⊎◌, inl, inr, Bool, true, false, not, ◌&&◌, ◌||◌, Option, none, some, List, [],
  ◌∷◌, ◌++◌, map, reverse, append-nil, append_assoc, reverse-cons, arith, ltb, leb, if◌then◌else◌,
  ltb→lt, lt→ltb, leb→le, tests, Bool-cases, Option-cases, some_inj, Eq, ◌==◌, ==_iff, ==_refl,
  nat_eq, list_eq, lookup, insert, erase, has_key, lookup-insert, lookup-insert_self, lookup-erase,
  has_key-insert, IsMap, insert-IsMap, insert_new, AreApart, AreApart-insert, AreApart-nil, length,
  get_elem?, set, get_or, take, drop, replicate, length-append, length-take, length-drop,
  length-replicate, length-map, take-append-drop, drop_of_length-le, take_of_length-le, drop_nil,
  take_nil, drop-drop, drop-take, take-take_le, drop-append_le, take-append_le, take-append_ge,
  drop-append_ge, take-append_length, drop-append_length,
}

-- How a `before` ends: it returns true or false, or throws.
pub data Verdict : Type 0 where
  goes_on stops throws : Verdict

pub record Entered : Type 0 where
  pub request : Request
  pub response : Response
  pub verdict : Verdict

-- `after` returns the response and whether it threw.
pub record Middleware : Type 0 where
  pub enter : Request → Response → Entered
  pub leave : Request → Response → Response × Bool

pub record Progress : Type 0 where
  pub entered : Entered
  pub executed : List Middleware

-- MiddlewareChain::processBefore: one that throws is not among the executed.
unfoldable pub process_before : List Middleware → Request → Response → Progress
process_before [] request response = record {
  entered = record { request = request; response = response; verdict = goes_on };
  executed = [];
}
process_before (m ∷ ms) request response =
    let e : Entered = m.enter request response in
    let rest = process_before ms e.request e.response in
    elim e.verdict [
      | throws ↦ record { entered = e; executed = [] }
      | stops ↦ record { entered = e; executed = m ∷ [] }
      | goes_on ↦ record { entered = rest.entered; executed = m ∷ rest.executed }
    ]

unfoldable pub leave_each : List Middleware → Request → Response → Response × Bool
leave_each [] request response = (response, false)
leave_each (m ∷ ms) request response =
    let left : Response × Bool = m.leave request response in
    let rest = leave_each ms request left.0 in (rest.0, left.1 || rest.1)

-- MiddlewareChain::processAfter: the first exception is thrown again when all have run.
unfoldable pub process_after : List Middleware → Request → Response → Response × Bool
unfolding leave_each
process_after executed request response = leave_each (reverse executed) request response

-- AccessLogMiddleware::sanitizeTarget
unfoldable pub sanitize_target : Bytes → Bytes
sanitize_target target = elim (find 63 target) [ none ↦ target | some query ↦ take query target ]

find-take : (c : ℕ) (s : Bytes) (i : ℕ) → find c s ≡ some i → find c (take i s) ≡ none
unfolding find
find-take c [] i h = ground arith
find-take c (x ∷ xs) zero h = refl
find-take c (x ∷ xs) (suc i) h = ground (arith, find-take c xs i)

-- No query string reaches the access log: the logged target has no question mark.
pub find-sanitize_target : (target : Bytes) → find 63 (sanitize_target target) ≡ none
unfolding sanitize_target
find-sanitize_target target = go (find 63 target) refl
  where
    go : (o : Option ℕ) → find 63 target ≡ o → find 63 (sanitize_target target) ≡ none
    go none e = rw (sanitize_target, e) e
    go (some i) e = rw (sanitize_target, e) (find-take 63 target i e)

or_false : (b : Bool) → (b || false) ≡ b
or_false true = refl
or_false false = refl

or_assoc : (a b c : Bool) → (a || (b || c)) ≡ ((a || b) || c)
or_assoc true b c = refl
or_assoc false b c = refl

leave_each-append :
    (xs : List Middleware) (m : Middleware) (request : Request) (response : Response)
    → leave_each (xs ++ m ∷ []) request response ≡ (
      (m.leave request (leave_each xs request response).0).0,
      (leave_each xs request response).1 || (m.leave request (leave_each xs request response).0).1,
    )
unfolding leave_each
leave_each-append [] m request response =
    ap (λ b. ((m.leave request response).0, b)) (or_false (m.leave request response).1)
leave_each-append (x ∷ xs) m request response =
    rw (leave_each-append xs m request (x.leave request response).0) (
      ap (λ b. ((m.leave request (leave_each xs request (x.leave request response).0).0).0, b))
        (or_assoc (x.leave request response).1
          (leave_each xs request (x.leave request response).0).1
          (m.leave request (leave_each xs request (x.leave request response).0).0).1))

-- The response as it comes out of the middleware, the innermost one, which is last, first.
unfoldable pub unwind : List Middleware → Request → Response → Response
unwind [] request response = response
unwind (m ∷ ms) request response = (m.leave request (unwind ms request response)).0

-- Whether one of them throws on the way.
unfoldable pub any_throws : List Middleware → Request → Response → Bool
unfolding unwind
any_throws [] request response = false
any_throws (m ∷ ms) request response =
    any_throws ms request response || (m.leave request (unwind ms request response)).1

-- The after phase undoes the before phase in opposite order: the last to have run is the first to
-- leave, each of them leaves exactly once though others throw, and the phase throws in the end if
-- and only if one of them has thrown.
pub process_after-unwind :
    (executed : List Middleware) (request : Request) (response : Response)
    → process_after executed request response
      ≡ (unwind executed request response, any_throws executed request response)
unfolding process_after unwind any_throws leave_each
process_after-unwind [] request response = refl
process_after-unwind (m ∷ ms) request response =
    ap (λ l. leave_each l request response) (reverse-cons m ms)
    ∙ leave_each-append (reverse ms) m request response
    ∙ ap (λ p. ((m.leave request p.0).0, p.1 || (m.leave request p.0).1))
        (process_after-unwind ms request response)

-- Those whose after phase will run are the ones whose before phase ended without an exception: a
-- prefix of the chain, and the whole chain when the request goes on.
pub process_before-prefix :
    (chain : List Middleware) (request : Request) (response : Response)
    → (rest : List Middleware) × (chain ≡ (process_before chain request response).executed ++ rest)
unfolding process_before
process_before-prefix [] request response = ([], refl)
process_before-prefix (m ∷ ms) request response = go (m.enter request response).verdict refl (
    process_before-prefix ms (m.enter request response).request (m.enter request response).response)
  where
    e : Entered
    e = m.enter request response

    go :
        (v : Verdict)
        → e.verdict ≡ v
        → (rest : List Middleware) × (ms
            ≡ (process_before ms e.request e.response).executed ++ rest)
        → (rest : List Middleware) × (m ∷ ms
            ≡ (process_before (m ∷ ms) request response).executed ++ rest)
    go throws h rest = (m ∷ ms, rw (process_before, h) refl)
    go stops h rest = (ms, rw (process_before, h) refl)
    go goes_on h rest = (rest.0, rw (process_before, h) (ap (λ l. m ∷ l) rest.1))
