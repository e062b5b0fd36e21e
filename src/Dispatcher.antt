-- ===== src/Dispatcher.antt =====
-- include/http/HttpDispatcher.h and src/http/HttpDispatcher.cpp: middleware, routing, fallbacks and
-- exceptions. What the application's callbacks do is a parameter: for a handler's number, the
-- response it leaves and whether it throws.
pub mod Runs
mod Tests
use jingjie_ar.Router.Table.{
  method_not_allowed, not_found, async_pending, route, handled, add, Outcome, add_async, Router,
  Regex,
}
use jingjie_ar.Middleware.{
  goes_on, stops, throws, Entered, process_before, Progress, process_after, Middleware,
}
use jingjie_ar.Http.Response.{
  internal_server_error, set_status_code, set_content_type, set_body, Response, add_header,
  not_found_404, method_not_allowed_405,
}
use jingjie_ar.Http.Request.{method_string, Request, Method}
use jingjie_ar.Text.{is_empty, bytes, Bytes}
use jingjie_ar.Prelude.{
  ℕ, zero, suc, ◌+◌, ◌-◌, ◌*◌, ◌/◌, ◌%◌, ◌^◌, ◌≤◌, ◌<◌, min, max, ◌≡◌, refl, sym, ap, ap₂, ◌∙◌,
  subst, ◌≢◌, ◌↔◌, ◌⊎◌, inl, inr, Bool, true, false, not, ◌&&◌, ◌||◌, Option, none, some, List, [],
  ◌∷◌, ◌++◌, map, reverse, append-nil, append_assoc, reverse-cons, arith, ltb, leb, if◌then◌else◌,
  ltb→lt, lt→ltb, leb→le, tests, Bool-cases, Option-cases, some_inj, Eq, ◌==◌, ==_iff, ==_refl,
  nat_eq, list_eq, lookup, insert, erase, has_key, lookup-insert, lookup-insert_self, lookup-erase,
  has_key-insert, IsMap, insert-IsMap, insert_new, AreApart, AreApart-insert, AreApart-nil, length,
  get_elem?, set, get_or, take, drop, replicate, length-append, length-take, length-drop,
  length-replicate, length-map, take-append-drop, drop_of_length-le, take_of_length-le, drop_nil,
  take_nil, drop-drop, drop-take, take-take_le, drop-append_le, take-append_le, take-append_ge,
  drop-append_ge, take-append_length, drop-append_length,
}

pub record Dispatcher : Type 0 where
  pub middleware : List Middleware
  pub router : Router
  pub fallback : Option ℕ
  pub async_fallback : Option ℕ

-- kComplete and kAsyncPending
pub data Result : Type 0 where
  complete pending : Result

-- What a call of `dispatch` comes to, and the callbacks it made.
pub record Dispatched : Type 0 where
  pub result : Result
  pub response : Response
  pub calls : List (ℕ × Request)

-- HttpDispatcher::Get, Post, Put, Delete and Options
unfoldable pub register : Method → Bytes → ℕ → Dispatcher → Dispatcher × Bool
register m pattern handler d =
    let added : Router × Bool = add m pattern handler d.router in
    (record d { router = added.0 }, added.1)

-- HttpDispatcher::GetAsync, PostAsync and DeleteAsync
unfoldable pub register_async : Method → Bytes → ℕ → Dispatcher → Dispatcher × Bool
register_async m pattern handler d =
    let added : Router × Bool = add_async m pattern handler d.router in
    (record d { router = added.0 }, added.1)

unfoldable pub add_middleware : Middleware → Dispatcher → Dispatcher
add_middleware m d = record d { middleware = d.middleware ++ m ∷ [] }

unfoldable pub set_fallback : ℕ → Dispatcher → Dispatcher
set_fallback handler d = record d { fallback = some handler }

unfoldable pub set_async_fallback : ℕ → Dispatcher → Dispatcher
set_async_fallback handler d = record d { async_fallback = some handler }

unfoldable pub list_methods : Bytes → List Method → Bytes
list_methods value [] = value
list_methods value (m ∷ ms) =
    list_methods ((if is_empty value then [] else value ++ bytes ", ") ++ method_string m) ms

-- HttpDispatcher::allowedMethods
unfoldable pub allowed_methods : List Method → Bytes
unfolding list_methods
allowed_methods ms = list_methods [] ms

abbrev pub internal_error_body : Bytes
internal_error_body = bytes "{\"error\":\"Internal Server Error\"}"

unfoldable pub set_internal_error : Response → Response
set_internal_error response =
    set_body internal_error_body
      (set_content_type (bytes "application/json") (set_status_code internal_server_error response))

-- HttpDispatcher::completeAsync
unfoldable pub complete_async : List Middleware → Request → Response → Response
complete_async executed request response =
    let after : Response × Bool = process_after executed request response in
    if after.1 then set_internal_error after.0 else after.0

-- The end of dispatch for a result that is not pending.
abbrev pub finish : List Middleware → Request → Response → List (ℕ × Request) → Dispatched
finish executed request response calls = record {
  result = complete;
  response = complete_async executed request response;
  calls = calls;
}

module _ (regex : Regex) (run : ℕ → Request → Response → Response × Bool)
    (start : ℕ → Request → Bool) where
  unfoldable pub call_sync : List Middleware → Request → Response → ℕ → Request → Dispatched
  call_sync executed request response handler given =
      let ran : Response × Bool = run handler given response in
      finish executed request (if ran.1 then set_internal_error ran.0 else ran.0)
        ((handler, given) ∷ [])

  -- An asynchronous callback that throws is answered at once.
  unfoldable pub call_async : List Middleware → Request → Response → ℕ → Request → Dispatched
  call_async executed request response handler given =
      if start handler given
      then finish executed request (set_internal_error response) ((handler, given) ∷ [])
      else record { result = pending; response = response; calls = (handler, given) ∷ [] }

  unfoldable pub call_fallback : Dispatcher → List Middleware → Request → Response → Dispatched
  call_fallback d executed request response =
      let unanswered = finish executed request (set_status_code not_found_404 response) [] in
      let answered : Dispatched = elim d.fallback [
        | none ↦ unanswered
        | some handler ↦ call_sync executed request response handler request
      ] in
      elim d.async_fallback [
        | none ↦ answered
        | some handler ↦ call_async executed request response handler request
      ]

  abbrev call_routed :
      (List Middleware → Request → Response → ℕ → Request → Dispatched)
      → List Middleware
      → Outcome
      → Response
      → Dispatched
  call_routed call executed o response = elim o.called [
    | none ↦ finish executed o.request response []
    | some callee ↦ call executed o.request response callee.0 callee.1
  ]

  unfoldable pub answer : Dispatcher → List Middleware → Outcome → Response → Dispatched
  answer d executed o response = elim o.result [
    | handled ↦ call_routed call_sync executed o response
    | async_pending ↦ call_routed call_async executed o response
    | not_found ↦ call_fallback d executed o.request response
    | method_not_allowed ↦
        finish executed o.request
          (add_header (bytes "Allow") (allowed_methods o.allowed)
            (set_status_code method_not_allowed_405 response))
          []
  ]

  unfoldable pub dispatch : Dispatcher → Request → Response → Dispatched
  dispatch d request response =
      let p : Progress = process_before d.middleware request response in
      let e : Entered = p.entered in
      elim e.verdict [
        | throws ↦ finish p.executed e.request (set_internal_error e.response) []
        | stops ↦ finish p.executed e.request e.response []
        | goes_on ↦ answer d p.executed (route regex true d.router e.request) e.response
      ]
