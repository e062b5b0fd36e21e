-- ===== src/Dispatcher/Tests.antt =====
-- The theorems on the dispatcher at inputs that meet their hypotheses.
use jingjie_ar.Router.Table.Dispatch.{empty_router-IsTable, add_route-IsTable, IsTable}
use jingjie_ar.Router.Table.{empty_router, add_route, Regex, is_registered, add, Router}
use jingjie_ar.Dispatcher.Runs.{dispatch-register}
use jingjie_ar.Http.Request.{get, empty_request, post, Request}
use jingjie_ar.Dispatcher.{register, dispatch, Dispatcher}
use jingjie_ar.Router.Pattern.{dynamic_from, is_dynamic_pattern}
use jingjie_ar.Text.{bytes}
use jingjie_ar.Http.Response.{set_body, make_response, Response, add_header}
use jingjie_ar.Middleware.{stops, goes_on, process_before, Middleware}
use jingjie_ar.Prelude.{ℕ, ◌≡◌, refl, ◌≢◌, Bool, true, false, none, some, [], ◌∷◌, nat_eq, list_eq}

program : Unit {0}
unfolding is_registered is_dynamic_pattern dynamic_from process_before add add_route
program = tt

abbrev any_path : Regex
any_path expression path = some (path ∷ [])

-- Every handler answers with its path; none throws, and the asynchronous ones start.
abbrev echo : ℕ → Request → Response → Response × Bool
echo handler request response = (set_body request.path response, false)

abbrev begin : ℕ → Request → Bool
begin handler request = false

abbrev passing : Middleware
passing = record {
  enter = λ request response. record { request = request; response = response; verdict = goes_on };
  leave = λ request response. (add_header (bytes "X-Seen") (bytes "1") response, false);
}

abbrev closed : Middleware
closed = record {
  enter = λ request response. record { request = request; response = response; verdict = stops };
  leave = λ request response. (response, true);
}

abbrev hello : Request
hello = record empty_request { method = get; path = bytes "/hello" }

abbrev table : Router
table = (add post (bytes "/hello") 3 empty_router).0

table-IsTable : IsTable table
unfolding add
table-IsTable = add_route-IsTable post (bytes "/hello") 3 false empty_router empty_router-IsTable

abbrev open_dispatcher : Dispatcher
open_dispatcher = record {
  middleware = passing ∷ [];
  router = table;
  fallback = none;
  async_fallback = some 4;
}

abbrev closed_dispatcher : Dispatcher
closed_dispatcher = record open_dispatcher { middleware = passing ∷ closed ∷ [] }

dispatch-register_example :
    (dispatch any_path echo begin
      (register get (bytes "/hello") 7 open_dispatcher).0
      hello
      (make_response false)).calls
    ≡ (7, hello) ∷ []
unfolding program
dispatch-register_example =
    dispatch-register any_path echo begin open_dispatcher 7 hello (make_response false)
      table-IsTable refl refl refl

closed_stops :
    (process_before closed_dispatcher.middleware hello (make_response false)).entered.verdict
    ≢ goes_on
unfolding program
closed_stops h = cc
