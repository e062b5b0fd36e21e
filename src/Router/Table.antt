-- ===== src/Router/Table.antt =====
-- The route table: add, addAsync and route of src/router/Router.cpp.
pub mod Dispatch
pub mod Injection
pub mod Resolution
use jingjie_ar.Http.Request.{method_eq, set_path_parameter, Method, Request}
use jingjie_ar.Router.Pattern.{compile, is_dynamic_pattern, Compiled}
use jingjie_ar.Text.{is_empty, Bytes}
use jingjie_ar.Prelude.{
  ℕ, zero, suc, ◌+◌, ◌-◌, ◌*◌, ◌/◌, ◌%◌, ◌^◌, ◌≤◌, ◌<◌, min, max, ◌≡◌, refl, sym, ap, ap₂, ◌∙◌,
  subst, ◌≢◌, ◌↔◌, ◌⊎◌, inl, inr, Bool, true, false, not, ◌&&◌, ◌||◌, Option, none, some, List, [],
  ◌∷◌, ◌++◌, map, reverse, append-nil, append_assoc, reverse-cons, arith, ltb, leb, if◌then◌else◌,
  ltb→lt, lt→ltb, leb→le, nat_beq_iff, tests, Bool-cases, if_ind, Option-cases, some_inj, Eq, ◌==◌,
  ==_iff, ==_refl, nat_eq, list_eq, lookup, insert, erase, has_key, lookup-insert,
  lookup-insert_self, lookup-erase, has_key-insert, IsMap, insert-IsMap, insert_new, AreApart,
  AreApart-insert, AreApart-nil, length, get_elem?, set, get_or, take, drop, replicate,
  length-append, length-take, length-drop, length-replicate, length-map, take-append-drop,
  drop_of_length-le, take_of_length-le, drop_nil, take_nil, drop-drop, drop-take, take-take_le,
  drop-append_le, take-append_le, take-append_ge, drop-append_ge, take-append_length,
  drop-append_length,
}

-- std::regex_match: the texts of the groups, if the whole path matches the expression.
abbrev pub Regex : Type 0
Regex = Bytes → Bytes → Option (List Bytes)

-- A handler is known by its number.
pub record Route : Type 0 where
  pub method : Method
  pub pattern : Bytes
  pub expression : Bytes
  pub parameter_names : List Bytes
  pub handler : ℕ
  pub is_async : Bool

pub record Router : Type 0 where
  pub exact_routes : List (Bytes × List Route)
  pub dynamic_routes : List Route
  pub registered_patterns : List (Method × Bytes)

abbrev pub empty_router : Router
empty_router = record { exact_routes = []; dynamic_routes = []; registered_patterns = [] }

-- The constructors of Route.
unfoldable pub make_route : Method → Bytes → ℕ → Bool → Route
make_route m p h async =
    let c : Compiled = elim (compile p) [
      | none ↦ record { expression = []; names = [] }
      | some c ↦ c
    ] in
    record {
      method = m;
      pattern = p;
      expression = c.expression;
      parameter_names = c.names;
      handler = h;
      is_async = async;
    }

-- registeredPatterns_.find(key) != end()
unfoldable pub is_registered : Method → Bytes → List (Method × Bytes) → Bool
is_registered m p [] = false
is_registered m p ((n, q) ∷ rest) = if n == m && q == p then true else is_registered m p rest

abbrev pub routes_at : Bytes → List (Bytes × List Route) → List Route
routes_at p m = elim (lookup p m) [ none ↦ [] | some rs ↦ rs ]

unfoldable pub add_route : Method → Bytes → ℕ → Bool → Router → Router × Bool
add_route m p h async r =
    if is_registered m p r.registered_patterns
    then (r, false)
    else let route = make_route m p h async in
      let keys = (m, p) ∷ r.registered_patterns in
      if is_dynamic_pattern p
      then (
        record r { registered_patterns = keys; dynamic_routes = r.dynamic_routes ++ route ∷ [] },
        true,
      )
      else (
        record r {
          registered_patterns = keys;
          exact_routes = insert p (routes_at p r.exact_routes ++ route ∷ []) r.exact_routes;
        },
        true,
      )

unfoldable pub add : Method → Bytes → ℕ → Router → Router × Bool
unfolding add_route
add m p h r = add_route m p h false r

unfoldable pub add_async : Method → Bytes → ℕ → Router → Router × Bool
unfolding add_route
add_async m p h r = add_route m p h true r

pub data MatchResult : Type 0 where
  handled async_pending not_found method_not_allowed : MatchResult

-- What a call of `route` comes to: its result, the handler that is called (none for an asynchronous
-- one without a responder) with the request it is given, and the two out-parameters.
pub record Outcome : Type 0 where
  pub result : MatchResult
  pub called : Option (ℕ × Request)
  pub request : Request
  pub allowed : List Method

unfoldable pub invoke : Bool → Route → Request → List Method → Outcome
invoke responder route request allowed =
    if route.is_async
    then record {
      result = async_pending;
      called = if responder then some (route.handler, request) else none;
      request = request;
      allowed = allowed;
    }
    else record {
      result = handled;
      called = some (route.handler, request);
      request = request;
      allowed = allowed;
    }

unfoldable pub contains_method : Method → List Method → Bool
contains_method m [] = false
contains_method m (n ∷ ns) = if n == m then true else contains_method m ns

unfoldable pub add_allowed_method : Method → List Method → List Method
add_allowed_method m ms = if contains_method m ms then ms else ms ++ m ∷ []

-- match[index + 1].str(), which is empty where there is no such group.
unfoldable pub inject_parameters : List Bytes → List Bytes → Request → Request
inject_parameters [] groups r = r
inject_parameters (n ∷ ns) [] r = inject_parameters ns [] (set_path_parameter n [] r)
inject_parameters (n ∷ ns) (g ∷ gs) r = inject_parameters ns gs (set_path_parameter n g r)

abbrev pub refused : MatchResult → Request → List Method → Outcome
refused result request allowed = record {
  result = result;
  called = none;
  request = request;
  allowed = allowed;
}

-- The loop over the routes of an exact path.
unfoldable pub route_exact : Bool → List Route → Request → List Method → Outcome
route_exact responder [] request allowed = refused method_not_allowed request allowed
route_exact responder (x ∷ xs) request allowed =
    if x.method == request.method
    then invoke responder x request allowed
    else route_exact responder xs request (add_allowed_method x.method allowed)

module _ (regex : Regex) where
  -- The loop over the dynamic routes.
  unfoldable pub route_dynamic : Bool → List Route → Request → List Method → Outcome
  route_dynamic responder [] request allowed =
      refused (if is_empty allowed then not_found else method_not_allowed) request allowed
  route_dynamic responder (x ∷ xs) request allowed =
      let skipped = route_dynamic responder xs request allowed in
      let noted = route_dynamic responder xs request (add_allowed_method x.method allowed) in
      elim (regex x.expression request.path) [
        | none ↦ skipped
        | some groups ↦
            if x.method == request.method
            then invoke responder x (inject_parameters x.parameter_names groups request) allowed
            else noted
      ]

  unfoldable pub route : Bool → Router → Request → Outcome
  route responder r request = elim (lookup request.path r.exact_routes) [
    | none ↦ route_dynamic responder r.dynamic_routes request []
    | some routes ↦ route_exact responder routes request []
  ]
