-- ===== src/Router/Table/Dispatch.antt =====
-- What route finds in a table that add filled: src/router/Router.cpp.
use jingjie_ar.Router.Table.{
  inject_parameters, route_dynamic, contains_method, Regex, add_allowed_method, route, add, handled,
  invoke, route_exact, Route, routes_at, Router, empty_router, make_route, add_route, is_registered,
}
use jingjie_ar.Http.Request.{method_beq, Request, Method, method_eq, method_beq_iff}
use jingjie_ar.Router.Pattern.{is_dynamic_pattern}
use jingjie_ar.Text.{Bytes}
use jingjie_ar.Prelude.{
  ℕ, ◌≡◌, refl, sym, subst, inl, inr, Bool, true, false, Option, none, some, List, [], ◌∷◌, ◌++◌,
  arith, if◌then◌else◌, Bool-cases, Option-cases, ◌==◌, ==_iff, ==_refl, nat_eq, list_eq, lookup,
  insert, lookup-insert, lookup-insert_self,
}

-- Every route of an exact path was registered with its method.
abbrev AllRegistered : Bytes → List (Method × Bytes) → List Route → Type 0
AllRegistered p keys [] = Unit {0}
AllRegistered p keys (x ∷ xs) = (is_registered x.method p keys ≡ true) × AllRegistered p keys xs

pub record IsTable (r : Router) : Type 0 where
  pub exact : (p : Bytes) → AllRegistered p r.registered_patterns (routes_at p r.exact_routes)

pub empty_router-IsTable : IsTable empty_router
unfolding lookup
empty_router-IsTable = record { exact = λ p. tt }

is_registered-cons :
    (m n : Method) (p q : Bytes) (keys : List (Method × Bytes))
    → is_registered m p keys ≡ true
    → is_registered m p ((n, q) ∷ keys) ≡ true
unfolding is_registered
is_registered-cons m n p q keys h = ground arith

is_registered_self :
    (m : Method) (p : Bytes) (keys : List (Method × Bytes))
    → is_registered m p ((m, p) ∷ keys) ≡ true
unfolding is_registered
is_registered_self m p keys = ground (arith, method_beq_iff m m, ==_refl p)

AllRegistered-cons :
    (p q : Bytes) (n : Method) (keys : List (Method × Bytes)) (xs : List Route)
    → AllRegistered p keys xs
    → AllRegistered p ((n, q) ∷ keys) xs
AllRegistered-cons p q n keys [] h = tt
AllRegistered-cons p q n keys (x ∷ xs) h =
    (is_registered-cons x.method n p q keys h.0, AllRegistered-cons p q n keys xs h.1)

AllRegistered-append :
    (p : Bytes) (keys : List (Method × Bytes)) (xs : List Route) (x : Route)
    → AllRegistered p keys xs
    → is_registered x.method p keys ≡ true
    → AllRegistered p keys (xs ++ x ∷ [])
AllRegistered-append p keys [] x h k = (k, tt)
AllRegistered-append p keys (y ∷ ys) x h k = (h.0, AllRegistered-append p keys ys x h.1 k)

routes_at-insert :
    (p q : Bytes) (xs : List Route) (m : List (Bytes × List Route))
    → routes_at q (insert p xs m) ≡ (if p == q then xs else routes_at q m)
routes_at-insert p q xs m = ground (arith, lookup-insert p q xs m)

make_route-method :
    (m : Method) (p : Bytes) (h : ℕ) (async : Bool) → (make_route m p h async).method ≡ m
unfolding make_route
make_route-method m p h async = refl

-- Registration, of whatever kind and whether it is refused or not, keeps the table in order.
pub add_route-IsTable :
    (m : Method) (p : Bytes) (h : ℕ) (async : Bool) (r : Router)
    → IsTable r
    → IsTable (add_route m p h async r).0
unfolding add_route make_route
add_route-IsTable m p h async r v = elim (Bool-cases (is_registered m p r.registered_patterns)) [
  | inl old ↦ rw old v
  | inr new ↦ rw new (kind (is_dynamic_pattern p))
]
  where
    keys : List (Method × Bytes)
    keys = (m, p) ∷ r.registered_patterns

    route : Route
    route = make_route m p h async

    placed :
        (q : Bytes)
        → (b : Bool) → (p == q) ≡ b
        → AllRegistered q keys
            (if b then routes_at p r.exact_routes ++ route ∷ [] else routes_at q r.exact_routes)
    placed q true e =
        subst (λ q'. AllRegistered q' keys (routes_at p r.exact_routes ++ route ∷ []))
          ((==_iff p q).0 e)
          (AllRegistered-append p keys (routes_at p r.exact_routes) route
            (AllRegistered-cons p p m r.registered_patterns (routes_at p r.exact_routes)
              (v.exact p))
            (is_registered_self m p r.registered_patterns))
    placed q false e =
        AllRegistered-cons q p m r.registered_patterns (routes_at q r.exact_routes) (v.exact q)

    kind :
        (dynamic : Bool)
        → IsTable
            (if◌then◌else◌ {A = Router × Bool} dynamic
              (
                record r {
                  registered_patterns = keys;
                  dynamic_routes = r.dynamic_routes ++ route ∷ [];
                },
                true,
              )
              (
                record r {
                  registered_patterns = keys;
                  exact_routes = insert p (routes_at p r.exact_routes ++ route ∷ []) r.exact_routes;
                },
                true,
              )).0
    kind true = record {
      exact = λ q.
          AllRegistered-cons q p m r.registered_patterns (routes_at q r.exact_routes) (v.exact q);
    }
    kind false = record {
      exact = λ q.
          rw (routes_at-insert p q (routes_at p r.exact_routes ++ route ∷ []) r.exact_routes)
            (placed q (p == q) refl);
    }

route_exact-append :
    (responder : Bool) (p : Bytes) (keys : List (Method × Bytes)) (xs : List Route) (x : Route)
    (request : Request) (allowed : List Method)
    → AllRegistered p keys xs
    → is_registered x.method p keys ≡ false
    → x.method ≡ request.method
    → x.is_async ≡ false
    → let o = route_exact responder (xs ++ x ∷ []) request allowed in
      (o.result ≡ handled) × (o.called ≡ some (x.handler, request))
unfolding route_exact invoke
route_exact-append responder p keys [] x request allowed all new same sync =
    ground (arith, method_beq_iff x.method request.method)
route_exact-append responder p keys (y ∷ ys) x request allowed all new same sync =
    elim (Bool-cases (method_beq y.method request.method)) [
      | inl e ↦ absurd (other e)
      | inr e ↦ rw e (
          route_exact-append responder p keys ys x request (add_allowed_method y.method allowed)
            all.1 new same sync)
    ]
  where
    other : method_beq y.method request.method ≡ true → ⊥
    other e =
        let h : y.method ≡ request.method = (method_beq_iff y.method request.method).0 e in
        let here : is_registered request.method p keys ≡ true =
          subst (λ m. is_registered m p keys ≡ true) h all.0 in
        ground (arith, here, new, same)

route-of_exact :
    (regex : Regex) (responder : Bool) (r : Router) (routes : List Route) (request : Request)
    → lookup request.path r.exact_routes ≡ some routes
    → route regex responder r request ≡ route_exact responder routes request []
unfolding route
route-of_exact regex responder r routes request e = rw (route, e) refl

pub route-of_dynamic :
    (regex : Regex) (responder : Bool) (r : Router) (request : Request)
    → lookup request.path r.exact_routes ≡ none
    → route regex responder r request ≡ route_dynamic regex responder r.dynamic_routes request []
unfolding route
route-of_dynamic regex responder r request e = rw (route, e) refl

add_route-static :
    (m : Method) (p : Bytes) (h : ℕ) (async : Bool) (r : Router)
    → is_registered m p r.registered_patterns ≡ false
    → is_dynamic_pattern p ≡ false
    → (add_route m p h async r).0.exact_routes
      ≡ insert p (routes_at p r.exact_routes ++ make_route m p h async ∷ []) r.exact_routes
unfolding add_route
add_route-static m p h async r new static = rw new (rw static refl)

-- A handler that add registers for a static path and a method with no handler yet is the one that
-- `route` calls for a request of that method and path, whatever was registered before: the result
-- is `handled` and the handler is given the request as it came.
pub route-add :
    (regex : Regex) (responder : Bool) (r : Router) (h : ℕ) (request : Request)
    → IsTable r
    → is_registered request.method request.path r.registered_patterns ≡ false
    → is_dynamic_pattern request.path ≡ false
    → let o = route regex responder (add request.method request.path h r).0 request in
      (o.result ≡ handled) × (o.called ≡ some (h, request))
unfolding add make_route
route-add regex responder r h request v new static =
    subst (λ o. (o.result ≡ handled) × (o.called ≡ some (h, request)))
      (sym (
        route-of_exact regex responder (add_route request.method request.path h false r).0
          (routes_at request.path r.exact_routes ++ x ∷ []) request
          (rw (add_route-static request.method request.path h false r new static) (
            lookup-insert_self request.path (routes_at request.path r.exact_routes ++ x ∷ [])
              r.exact_routes))))
      (route_exact-append responder request.path r.registered_patterns
        (routes_at request.path r.exact_routes) x request [] (v.exact request.path) new refl refl)
  where
    x : Route
    x = make_route request.method request.path h false

-- A second registration of a method and pattern is refused and changes nothing, also when it is
-- for the other kind of handler.
pub add-twice :
    (m : Method) (p : Bytes) (h k : ℕ) (async : Bool) (r : Router)
    → add_route m p k async (add m p h r).0 ≡ ((add m p h r).0, false)
unfolding add add_route
add-twice m p h k async r = elim (Bool-cases (is_registered m p r.registered_patterns)) [
  | inl old ↦ rw old (rw old refl)
  | inr new ↦ rw new (elim (Bool-cases (is_dynamic_pattern p)) [
    | inl d ↦ rw d (rw (is_registered_self m p r.registered_patterns) refl)
    | inr d ↦ rw d (rw (is_registered_self m p r.registered_patterns) refl)
  ])
]

contains_method-append :
    (m n : Method) (ms : List Method)
    → method_beq n m ≡ false
    → contains_method m ms ≡ false
    → contains_method m (ms ++ n ∷ []) ≡ false
unfolding contains_method
contains_method-append m n [] other h = rw other refl
contains_method-append m n (k ∷ ks) other h = elim (Bool-cases (method_beq k m)) [
  | inl e ↦ ground (arith, e)
  | inr e ↦ ground (arith, e, contains_method-append m n ks other)
]

contains_method-add_other :
    (m n : Method) (ms : List Method)
    → method_beq n m ≡ false
    → contains_method m ms ≡ false
    → contains_method m (add_allowed_method n ms) ≡ false
unfolding add_allowed_method
contains_method-add_other m n ms other h = elim (Bool-cases (contains_method n ms)) [
  | inl e ↦ rw e h
  | inr e ↦ rw e (contains_method-append m n ms other h)
]

invoke-allowed :
    (responder : Bool) (x : Route) (request : Request) (allowed : List Method) (m : Method)
    → contains_method m allowed ≡ false
    → contains_method m (invoke responder x request allowed).allowed ≡ false
unfolding invoke
invoke-allowed responder x request allowed m h = ground arith

route_exact-allowed :
    (responder : Bool) (xs : List Route) (request : Request) (allowed : List Method)
    → contains_method request.method allowed ≡ false
    → contains_method request.method (route_exact responder xs request allowed).allowed ≡ false
unfolding route_exact
route_exact-allowed responder [] request allowed h = h
route_exact-allowed responder (x ∷ xs) request allowed h =
    elim (Bool-cases (method_beq x.method request.method)) [
      | inl e ↦ rw e (invoke-allowed responder x request allowed request.method h)
      | inr e ↦ rw e (
          route_exact-allowed responder xs request (add_allowed_method x.method allowed)
            (contains_method-add_other request.method x.method allowed e h))
    ]

pub route_dynamic-skip :
    (regex : Regex) (responder : Bool) (x : Route) (xs : List Route) (request : Request)
    (allowed : List Method)
    → regex x.expression request.path ≡ none
    → route_dynamic regex responder (x ∷ xs) request allowed
      ≡ route_dynamic regex responder xs request allowed
unfolding route_dynamic
route_dynamic-skip regex responder x xs request allowed e = rw (route_dynamic, e) refl

pub route_dynamic-other :
    (regex : Regex) (responder : Bool) (x : Route) (xs : List Route) (request : Request)
    (allowed : List Method) (groups : List Bytes)
    → regex x.expression request.path ≡ some groups
    → method_beq x.method request.method ≡ false
    → route_dynamic regex responder (x ∷ xs) request allowed
      ≡ route_dynamic regex responder xs request (add_allowed_method x.method allowed)
unfolding route_dynamic
route_dynamic-other regex responder x xs request allowed groups e other =
    rw (route_dynamic, e) (rw other refl)

pub route_dynamic-here :
    (regex : Regex) (responder : Bool) (x : Route) (xs : List Route) (request : Request)
    (allowed : List Method) (groups : List Bytes)
    → regex x.expression request.path ≡ some groups
    → method_beq x.method request.method ≡ true
    → route_dynamic regex responder (x ∷ xs) request allowed
      ≡ invoke responder x (inject_parameters x.parameter_names groups request) allowed
unfolding route_dynamic
route_dynamic-here regex responder x xs request allowed groups e same =
    rw (route_dynamic, e) (rw same refl)

route_dynamic-allowed :
    (regex : Regex) (responder : Bool) (xs : List Route) (request : Request) (allowed : List Method)
    → contains_method request.method allowed ≡ false
    → contains_method request.method (route_dynamic regex responder xs request allowed).allowed
      ≡ false
unfolding route_dynamic
route_dynamic-allowed regex responder [] request allowed h = h
route_dynamic-allowed regex responder (x ∷ xs) request allowed h =
    elim (Option-cases (regex x.expression request.path)) [
      | inl e ↦
          rw (route_dynamic-skip regex responder x xs request allowed e)
            (route_dynamic-allowed regex responder xs request allowed h)
      | inr (groups, e) ↦ elim (Bool-cases (method_beq x.method request.method)) [
        | inl same ↦ rw (route_dynamic-here regex responder x xs request allowed groups e same) (
            invoke-allowed responder x (inject_parameters x.parameter_names groups request) allowed
              request.method h)
        | inr other ↦ rw (route_dynamic-other regex responder x xs request allowed groups e other) (
            route_dynamic-allowed regex responder xs request (add_allowed_method x.method allowed)
              (contains_method-add_other request.method x.method allowed other h))
      ]
    ]

-- The list of allowed methods that `route` leaves for an Allow header never names the method of
-- the request itself.
pub contains_method-route :
    (regex : Regex) (responder : Bool) (r : Router) (request : Request)
    → contains_method request.method (route regex responder r request).allowed ≡ false
unfolding contains_method
contains_method-route regex responder r request = go (lookup request.path r.exact_routes) refl
  where
    none_yet : contains_method request.method [] ≡ false
    none_yet = refl

    go :
        (o : Option (List Route))
        → lookup request.path r.exact_routes ≡ o
        → contains_method request.method (route regex responder r request).allowed ≡ false
    go none e =
        rw (route-of_dynamic regex responder r request e)
          (route_dynamic-allowed regex responder r.dynamic_routes request [] none_yet)
    go (some routes) e =
        rw (route-of_exact regex responder r routes request e)
          (route_exact-allowed responder routes request [] none_yet)
