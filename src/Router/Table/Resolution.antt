-- ===== src/Router/Table/Resolution.antt =====
-- Which of the dynamic routes answers a request: the loop of route in src/router/Router.cpp against
-- a description that does not mention the order of its tests.
use jingjie_ar.Router.Table.Injection.{IsInjected, inject_parameters-IsInjected}
use jingjie_ar.Router.Table.Dispatch.{
  route-of_dynamic, route_dynamic-other, route_dynamic-here, route_dynamic-skip,
}
use jingjie_ar.Router.Table.{
  route, Router, handled, async_pending, not_found, method_not_allowed, Outcome, inject_parameters,
  Route, contains_method, add_allowed_method, Regex, route_dynamic, invoke,
}
use jingjie_ar.Http.Request.{method_beq, method_eq, Method, Request}
use jingjie_ar.Text.{is_empty, Bytes}
use jingjie_ar.Prelude.{
  ◌≡◌, refl, subst, inl, inr, Bool, true, false, not, ◌&&◌, ◌||◌, Option, none, some, List, [], ◌∷◌,
  arith, if◌then◌else◌, Bool-cases, Option-cases, ◌==◌, nat_eq, list_eq, lookup,
}

-- The first route that is for the request's method and whose expression matches its path.
unfoldable pub first_match : Regex → Request → List Route → Option (Route × List Bytes)
first_match regex request [] = none
first_match regex request (x ∷ xs) =
    let rest = first_match regex request xs in
    elim (regex x.expression request.path) [
      | none ↦ rest
      | some groups ↦ if x.method == request.method then some (x, groups) else rest
    ]

-- Whether some expression matches the path.
unfoldable pub is_known : Regex → Request → List Route → Bool
is_known regex request [] = false
is_known regex request (x ∷ xs) =
    let rest = is_known regex request xs in
    elim (regex x.expression request.path) [ none ↦ rest | some groups ↦ true ]

-- The answer for a first match, whose handler is called with the groups under the route's names, and for none with a path that is known or not.
abbrev pub Answers : Bool → Request → Bool → Option (Route × List Bytes) → Outcome → Type 0
Answers responder request known none o =
    (o.called ≡ none) × (o.result ≡ (if known then method_not_allowed else not_found))
Answers responder request known (some (x, groups)) o =
    (called : Request) × IsInjected x.parameter_names groups request called
    × (o.called ≡ (if x.is_async && not responder then none else some (x.handler, called)))
    × (o.result ≡ (if x.is_async then async_pending else handled))

Answers-invoke :
    (responder : Bool) (request : Request) (known : Bool) (x : Route) (groups : List Bytes)
    (allowed : List Method)
    → Answers responder request known
        (some (x, groups))
        (invoke responder x (inject_parameters x.parameter_names groups request) allowed)
unfolding invoke
Answers-invoke true request known x groups allowed = (
  inject_parameters x.parameter_names groups request,
  inject_parameters-IsInjected x.parameter_names groups request,
  ground arith,
  ground arith,
)
Answers-invoke false request known x groups allowed = (
  inject_parameters x.parameter_names groups request,
  inject_parameters-IsInjected x.parameter_names groups request,
  ground arith,
  ground arith,
)

is_empty-add_allowed : (m : Method) (ms : List Method) → is_empty (add_allowed_method m ms) ≡ false
unfolding add_allowed_method contains_method
is_empty-add_allowed m [] = refl
is_empty-add_allowed m (n ∷ ns) = ground arith

first_match-skip :
    (regex : Regex) (x : Route) (xs : List Route) (request : Request)
    → regex x.expression request.path ≡ none
    → first_match regex request (x ∷ xs) ≡ first_match regex request xs
unfolding first_match
first_match-skip regex x xs request e = rw (first_match, e) refl

first_match-match :
    (regex : Regex) (x : Route) (xs : List Route) (request : Request) (groups : List Bytes)
    (same : Bool)
    → regex x.expression request.path ≡ some groups
    → method_beq x.method request.method ≡ same
    → first_match regex request (x ∷ xs)
      ≡ (if same then some (x, groups) else first_match regex request xs)
unfolding first_match
first_match-match regex x xs request groups same e m = rw (first_match, e) (rw m refl)

is_known-skip :
    (regex : Regex) (x : Route) (xs : List Route) (request : Request)
    → regex x.expression request.path ≡ none
    → is_known regex request (x ∷ xs) ≡ is_known regex request xs
unfolding is_known
is_known-skip regex x xs request e = rw (is_known, e) refl

is_known-match :
    (regex : Regex) (x : Route) (xs : List Route) (request : Request) (groups : List Bytes)
    → regex x.expression request.path ≡ some groups
    → is_known regex request (x ∷ xs) ≡ true
unfolding is_known
is_known-match regex x xs request groups e = rw (is_known, e) refl

both_known :
    (m : Method) (allowed : List Method) (b : Bool)
    → (not (is_empty (add_allowed_method m allowed)) || b) ≡ (not (is_empty allowed) || true)
both_known m allowed b = rw (is_empty-add_allowed m allowed) (true_right (not (is_empty allowed)))
  where
    true_right : (b : Bool) → true ≡ (b || true)
    true_right true = refl
    true_right false = refl

route_dynamic-Answers :
    (regex : Regex) (responder : Bool) (xs : List Route) (request : Request) (allowed : List Method)
    → Answers responder request
        (not (is_empty allowed) || is_known regex request xs)
        (first_match regex request xs)
        (route_dynamic regex responder xs request allowed)
unfolding route_dynamic first_match is_known
route_dynamic-Answers regex responder [] request [] = (refl, refl)
route_dynamic-Answers regex responder [] request (m ∷ ms) = (refl, refl)
route_dynamic-Answers regex responder (x ∷ xs) request allowed =
    elim (Option-cases (regex x.expression request.path)) [
      | inl e ↦ rw (route_dynamic-skip regex responder x xs request allowed e) (
          rw (first_match-skip regex x xs request e) (
            rw (is_known-skip regex x xs request e)
              (route_dynamic-Answers regex responder xs request allowed)))
      | inr (groups, e) ↦ elim (Bool-cases (method_beq x.method request.method)) [
        | inl same ↦ rw (route_dynamic-here regex responder x xs request allowed groups e same) (
            rw (first_match-match regex x xs request groups true e same) (
              Answers-invoke responder request
                (not (is_empty allowed) || is_known regex request (x ∷ xs)) x groups allowed))
        | inr other ↦ rw (route_dynamic-other regex responder x xs request allowed groups e other) (
            rw (first_match-match regex x xs request groups false e other) (
              rw (is_known-match regex x xs request groups e) (
                subst
                  (λ b. Answers responder request b (first_match regex request xs) (
                    route_dynamic regex responder xs request (add_allowed_method x.method allowed)))
                  (both_known x.method allowed (is_known regex request xs))
                  (route_dynamic-Answers regex responder xs request
                    (add_allowed_method x.method allowed)))))
      ]
    ]

-- A request whose path no exact route has is answered by the first dynamic route, in the order of
-- registration, that is for its method and whose expression matches its path; the handler, which
-- is called unless it is asynchronous and no responder is given, gets the request with its path
-- parameters changed alone: each of the route's names has the group of the match at its last
-- position among them (the empty text, if there are fewer groups), and other names have what they
-- had. Without one the answer
-- is method_not_allowed if some expression matches the path, and not_found if none does.
pub route-Answers :
    (regex : Regex) (responder : Bool) (r : Router) (request : Request)
    → lookup request.path r.exact_routes ≡ none
    → Answers responder request
        (is_known regex request r.dynamic_routes)
        (first_match regex request r.dynamic_routes)
        (route regex responder r request)
route-Answers regex responder r request e =
    rw (route-of_dynamic regex responder r request e)
      (route_dynamic-Answers regex responder r.dynamic_routes request [])
