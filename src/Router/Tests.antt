-- ===== src/Router/Tests.antt =====
-- The theorems on the route table at inputs that meet their hypotheses.
use jingjie_ar.Router.Pattern.{
  segment, after_segment, compile_from, dynamic_from, compile, is_dynamic_pattern,
}
use jingjie_ar.Router.Table.Dispatch.{empty_router-IsTable, route-add, add_route-IsTable, IsTable}
use jingjie_ar.Router.Table.{
  empty_router, make_route, handled, add_async, Regex, is_registered, route, add, Router, add_route,
}
use jingjie_ar.Http.Request.{post, get, put, empty_request, Request}
use jingjie_ar.Router.Table.Resolution.{route-Answers, first_match, is_known, Answers}
use jingjie_ar.Text.{bytes}
use jingjie_ar.Prelude.{◌≡◌, refl, true, false, some, [], ◌∷◌, nat_eq, list_eq, lookup, insert}

program : Unit {0}
unfolding is_registered is_dynamic_pattern dynamic_from add add_route add_async make_route compile
    compile_from insert lookup after_segment segment
program = tt

-- An expression that captures the whole path, whatever it is.
abbrev any_path : Regex
any_path expression path = some (path ∷ [])

abbrev hello : Request
hello = record empty_request { method = get; path = bytes "/hello" }

-- A table with a handler for another method of the same path, and a dynamic route.
abbrev table : Router
table = (add put (bytes "/user/:id") 5 (add post (bytes "/hello") 3 empty_router).0).0

table-IsTable : IsTable table
unfolding add
table-IsTable =
    add_route-IsTable put (bytes "/user/:id") 5 false (add post (bytes "/hello") 3 empty_router).0
      (add_route-IsTable post (bytes "/hello") 3 false empty_router empty_router-IsTable)

route-add_example :
    let o = route any_path true (add get (bytes "/hello") 7 table).0 hello in
    (o.result ≡ handled) × (o.called ≡ some (7, hello))
unfolding program
route-add_example = route-add any_path true table 7 hello table-IsTable refl refl

abbrev user : Request
user = record empty_request { method = get; path = bytes "/user/9" }

route-Answers_example :
    Answers true user
      (is_known any_path user table.dynamic_routes)
      (first_match any_path user table.dynamic_routes)
      (route any_path true table user)
unfolding program
route-Answers_example = route-Answers any_path true table user refl
