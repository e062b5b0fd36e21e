-- ===== src/Middleware/Cors/Safety.antt =====
-- To whom the cross-origin policy grants credentials: src/middleware/cors/CorsMiddleware.cpp.
use jingjie_ar.Http.Response.{no_content, decimal, set_status_code, add_header, header, Response}
use jingjie_ar.Middleware.Cors.{
  are_headers_allowed, is_method_allowed, join, preflight_headers, cors_before, CorsConfig,
  add_cors_headers, is_origin_allowed, cors_after, split_comma_separated, contains, when,
  add_vary_origin,
}
use jingjie_ar.Http.Request.{options, get_header, Request, method_eq}
use jingjie_ar.Middleware.{Entered}
use jingjie_ar.Http.Response.Fields.{lookup-add_header, lookup-add_header_other}
use jingjie_ar.Text.{is_empty, bytes, Bytes}
use jingjie_ar.Prelude.{
  ◌≡◌, refl, ◌∙◌, ◌⊎◌, inl, inr, Bool, true, false, not, ◌&&◌, ◌||◌, none, some, ◌++◌, arith,
  if◌then◌else◌, Bool-cases, if_ind, ◌==◌, nat_eq, list_eq, lookup,
}

abbrev pub allow_origin : Bytes
allow_origin = bytes "Access-Control-Allow-Origin"

abbrev pub allow_credentials_name : Bytes
allow_credentials_name = bytes "Access-Control-Allow-Credentials"

lookup-add_vary_origin :
    (j : Bytes) (r : Response)
    → (bytes "Vary" == j) ≡ false
    → lookup j (add_vary_origin r).headers ≡ lookup j r.headers
unfolding add_vary_origin
lookup-add_vary_origin j r e =
    let plain = lookup-add_header_other (bytes "Vary") j (bytes "Origin") r e in
    let longer =
      lookup-add_header_other (bytes "Vary") j (header (bytes "Vary") r ++ bytes ", Origin") r e in
    elim (Bool-cases (is_empty (header (bytes "Vary") r))) [
      | inl none_yet ↦ rw none_yet plain
      | inr some_yet ↦
          rw some_yet
            (elim (Bool-cases (
              not (
                contains (split_comma_separated (header (bytes "Vary") r)) (bytes "Origin")
                  true))) [ inl absent ↦ rw absent longer | inr present ↦ rw present refl ])
    ]

lookup-when_vary :
    (c : Bool) (j : Bytes) (r : Response)
    → (bytes "Vary" == j) ≡ false
    → lookup j (when c add_vary_origin r).headers ≡ lookup j r.headers
lookup-when_vary true j r e = lookup-add_vary_origin j r e
lookup-when_vary false j r e = refl

lookup-preflight_headers :
    (config : CorsConfig) (j : Bytes) (r : Response)
    → (bytes "Access-Control-Allow-Methods" == j) ≡ false
    → (bytes "Access-Control-Allow-Headers" == j) ≡ false
    → (bytes "Access-Control-Max-Age" == j) ≡ false
    → lookup j (preflight_headers config r).headers ≡ lookup j r.headers
unfolding preflight_headers
lookup-preflight_headers config j r m h a =
    let named = add_header (bytes "Access-Control-Allow-Methods") (join config.allowed_methods) r in
    let methods =
      lookup-add_header_other (bytes "Access-Control-Allow-Methods") j (join config.allowed_methods)
        r m in
    elim (Bool-cases (not (is_empty config.allowed_headers))) [
      | inl some_named ↦ rw some_named (
          lookup-add_header_other (bytes "Access-Control-Max-Age") j (decimal config.max_age)
            (add_header (bytes "Access-Control-Allow-Headers") (join config.allowed_headers) named)
            a
          ∙ lookup-add_header_other (bytes "Access-Control-Allow-Headers") j
              (join config.allowed_headers) named h
          ∙ methods)
      | inr none_named ↦ rw none_named (
          lookup-add_header_other (bytes "Access-Control-Max-Age") j (decimal config.max_age) named
            a
          ∙ methods)
    ]

lookup-when_preflight :
    (preflight : Bool) (config : CorsConfig) (j : Bytes) (r : Response)
    → (bytes "Access-Control-Allow-Methods" == j) ≡ false
    → (bytes "Access-Control-Allow-Headers" == j) ≡ false
    → (bytes "Access-Control-Max-Age" == j) ≡ false
    → lookup j (when preflight (preflight_headers config) r).headers ≡ lookup j r.headers
lookup-when_preflight true config j r m h a = lookup-preflight_headers config j r m h a
lookup-when_preflight false config j r m h a = refl

origin_named :
    (config : CorsConfig) (origin : Bytes) (preflight : Bool) (r : Response)
    → config.allow_credentials ≡ true
    → lookup allow_origin (add_cors_headers config origin preflight r).headers ≡ some origin
unfolding add_cors_headers preflight_headers
origin_named config origin preflight r e = rw e (
    lookup-when_preflight preflight config allow_origin
      (add_header allow_credentials_name (bytes "true")
        (add_vary_origin (add_header allow_origin origin r)))
      refl refl refl
    ∙ lookup-add_header_other allow_credentials_name allow_origin (bytes "true")
        (add_vary_origin (add_header allow_origin origin r)) refl
    ∙ lookup-add_vary_origin allow_origin (add_header allow_origin origin r) refl
    ∙ lookup-add_header allow_origin origin r)

credentials_kept :
    (config : CorsConfig) (origin : Bytes) (preflight : Bool) (r : Response)
    → config.allow_credentials ≡ false
    → lookup allow_credentials_name (add_cors_headers config origin preflight r).headers
      ≡ lookup allow_credentials_name r.headers
unfolding add_cors_headers preflight_headers
credentials_kept config origin preflight r e =
    let any : Bool = contains config.allowed_origins (bytes "*") false in
    let named : Response = add_header allow_origin (if any then bytes "*" else origin) r in
    rw e (
      lookup-when_preflight preflight config allow_credentials_name
        (when (not any) add_vary_origin named) refl refl refl
      ∙ lookup-when_vary (not any) allow_credentials_name named refl
      ∙ lookup-add_header_other allow_origin allow_credentials_name
          (if any then bytes "*" else origin) r refl)

listed :
    (config : CorsConfig) (origin : Bytes)
    → config.allow_credentials ≡ true
    → is_origin_allowed config origin ≡ true
    → contains config.allowed_origins origin false ≡ true
unfolding is_origin_allowed
listed config origin e h = ground arith

-- A response grants no credentials, or names the request's own origin, which is one of the
-- configured origins, letter by letter.
abbrev pub IsTrusting : CorsConfig → Request → Response → Type 0
IsTrusting config request out =
    (lookup allow_credentials_name out.headers ≡ none)
    ⊎ ((contains config.allowed_origins (get_header (bytes "Origin") request) false ≡ true)
        × (lookup allow_origin out.headers ≡ some (get_header (bytes "Origin") request)))

add_cors_headers-IsTrusting :
    (config : CorsConfig) (request : Request) (preflight : Bool) (response : Response)
    → is_origin_allowed config (get_header (bytes "Origin") request) ≡ true
    → lookup allow_credentials_name response.headers ≡ none
    → IsTrusting config request
        (add_cors_headers config (get_header (bytes "Origin") request) preflight response)
add_cors_headers-IsTrusting config request preflight response allowed before =
    let origin : Bytes = get_header (bytes "Origin") request in
    elim (Bool-cases config.allow_credentials) [
      | inl c ↦
          inr (listed config origin c allowed, origin_named config origin preflight response c)
      | inr c ↦ inl (credentials_kept config origin preflight response c ∙ before)
    ]

cors_before-IsTrusting :
    (config : CorsConfig) (request : Request) (response : Response)
    → lookup allow_credentials_name response.headers ≡ none
    → IsTrusting config request (cors_before config request response).response
unfolding cors_before set_status_code
cors_before-IsTrusting config request response before =
    let origin : Bytes = get_header (bytes "Origin") request in
    let asked : Bytes = get_header (bytes "Access-Control-Request-Method") request in
    if_ind (λ (e : Entered). IsTrusting config request e.response)
      (not (request.method == options) || is_empty origin && is_empty asked) (λ other. inl before)
      (λ preflight.
        if_ind (λ (e : Entered). IsTrusting config request e.response)
          ((is_empty origin || is_empty asked)
            || (not (is_origin_allowed config origin) || not (is_method_allowed config asked))
            || not (
                are_headers_allowed config
                  (get_header (bytes "Access-Control-Request-Headers") request)))
          (λ refused. inl before)
          (λ fine.
            add_cors_headers-IsTrusting config request true (set_status_code no_content response)
              (ground (arith, fine)) before))

cors_after-IsTrusting :
    (config : CorsConfig) (request : Request) (response : Response)
    → lookup allow_credentials_name response.headers ≡ none
    → IsTrusting config request (cors_after config request response).0
unfolding cors_after
cors_after-IsTrusting config request response before =
    let origin : Bytes = get_header (bytes "Origin") request in
    if_ind (IsTrusting config request) (not (is_empty origin) && is_origin_allowed config origin)
      (λ fine.
        add_cors_headers-IsTrusting config request false response (ground (arith, fine)) before)
      (λ refused. inl before)

-- To a response without Access-Control-Allow-Credentials, the middleware adds it neither before the
-- handlers (in the answer to a preflight request) nor after them, unless the request's own origin
-- is literally one of the allowed origins and is the one that the response names. A configured *
-- alone grants credentials to no other origin than the text * itself.
pub cors-IsTrusting :
    (config : CorsConfig) (request : Request) (response : Response)
    → lookup allow_credentials_name response.headers ≡ none
    → IsTrusting config request (cors_before config request response).response
      × IsTrusting config request (cors_after config request response).0
cors-IsTrusting config request response before = (
  cors_before-IsTrusting config request response before,
  cors_after-IsTrusting config request response before,
)
