-- ===== src/Dispatcher/Runs.antt =====
-- What a run of dispatch of src/http/HttpDispatcher.cpp comes to.
use jingjie_ar.Router.Table.Dispatch.{route-add, IsTable}
use jingjie_ar.Middleware.{throws, stops, Verdict, goes_on, process_before, Middleware}
use jingjie_ar.Router.Table.{add, Router, route, handled, is_registered, Outcome, Regex}
use jingjie_ar.Router.Pattern.{is_dynamic_pattern}
use jingjie_ar.Dispatcher.{complete, Dispatcher, call_sync, answer, register, dispatch}
use jingjie_ar.Http.Response.{Response}
use jingjie_ar.Http.Request.{Request}
use jingjie_ar.Prelude.{
  ℕ, ◌≡◌, refl, ap, ◌∙◌, ◌≢◌, Bool, true, false, some, List, [], ◌∷◌, nat_eq, list_eq,
}

dispatch-answer :
    (regex : Regex) (run : ℕ → Request → Response → Response × Bool) (start : ℕ → Request → Bool)
    (d : Dispatcher) (request : Request) (response : Response)
    → let p = process_before d.middleware request response in
      p.entered.verdict ≡ goes_on
      → dispatch regex run start d request response
        ≡ answer regex run start d p.executed
            (route regex true d.router p.entered.request)
            p.entered.response
unfolding dispatch
dispatch-answer regex run start d request response e = rw (dispatch, e) refl

call_once :
    (regex : Regex) (run : ℕ → Request → Response → Response × Bool) (start : ℕ → Request → Bool)
    (d : Dispatcher) (executed : List Middleware) (o : Outcome) (response : Response) (handler : ℕ)
    (given : Request)
    → o.result ≡ handled
    → o.called ≡ some (handler, given)
    → (answer regex run start d executed o response).calls ≡ (handler, given) ∷ []
unfolding answer call_sync
call_once regex run start d executed o response handler given h c =
    ap (λ k. (answer regex run start d executed k response).calls) (shape h c)
  where
    shape :
        o.result ≡ handled
        → o.called ≡ some (handler, given)
        → o ≡ record o { result = handled; called = some (handler, given) }
    shape h c = cc

-- When every `before` goes on, a handler that was registered for a static path and a method that
-- had none is called for a request of that method and path: it alone, once, with the request as the
-- middleware left it, whether or not it throws.
pub dispatch-register :
    (regex : Regex) (run : ℕ → Request → Response → Response × Bool) (start : ℕ → Request → Bool)
    (d : Dispatcher) (handler : ℕ) (request : Request) (response : Response)
    → IsTable d.router
    → let e = (process_before d.middleware request response).entered in
      e.verdict ≡ goes_on
      → is_registered e.request.method e.request.path d.router.registered_patterns ≡ false
      → is_dynamic_pattern e.request.path ≡ false
      → (dispatch regex run start
          (register e.request.method e.request.path handler d).0
          request
          response).calls
        ≡ (handler, e.request) ∷ []
unfolding register
dispatch-register regex run start d handler request response v goes new static =
    let p = process_before d.middleware request response in
    let r : Router = (add p.entered.request.method p.entered.request.path handler d.router).0 in
    let found = route-add regex true d.router handler p.entered.request v new static in
    ap (λ x. x.calls)
      (dispatch-answer regex run start (record d { router = r }) request response goes)
    ∙ call_once regex run start (record d { router = r }) p.executed
        (route regex true r p.entered.request) p.entered.response handler p.entered.request found.0
        found.1

-- A request that a middleware stops, or whose middleware throws, reaches no callback, and is
-- answered at once.
pub dispatch-stopped :
    (regex : Regex) (run : ℕ → Request → Response → Response × Bool) (start : ℕ → Request → Bool)
    (d : Dispatcher) (request : Request) (response : Response)
    → (process_before d.middleware request response).entered.verdict ≢ goes_on
    → let o = dispatch regex run start d request response in (o.calls ≡ []) × (o.result ≡ complete)
unfolding dispatch
dispatch-stopped regex run start d request response h =
    go (process_before d.middleware request response).entered.verdict refl
  where
    go :
        (v : Verdict)
        → (process_before d.middleware request response).entered.verdict ≡ v
        → let o = dispatch regex run start d request response in
          (o.calls ≡ []) × (o.result ≡ complete)
    go goes_on e = absurd (h e)
    go stops e = rw (dispatch, e) (refl, refl)
    go throws e = rw (dispatch, e) (refl, refl)
