-- ===== src/Middleware/Cors.antt =====
-- src/middleware/cors/CorsMiddleware.cpp and include/middleware/cors/CorsConfig.h.
pub mod Safety
use jingjie_ar.Http.Request.{options, get_header, Request, method_eq}
use jingjie_ar.Http.Response.{
  add_header, no_content, forbidden, set_status_code, decimal, header, Response,
}
use jingjie_ar.Middleware.{stops, goes_on, Entered, Middleware}
use jingjie_ar.Text.{skip_while, segments, to_lower, is_empty, Bytes, bytes}
use jingjie_ar.Prelude.{
  ℕ, zero, suc, ◌+◌, ◌-◌, ◌*◌, ◌/◌, ◌%◌, ◌^◌, ◌≤◌, ◌<◌, min, max, ◌≡◌, refl, sym, ap, ap₂, ◌∙◌,
  subst, ◌≢◌, ◌↔◌, ◌⊎◌, inl, inr, Bool, true, false, not, ◌&&◌, ◌||◌, Option, none, some, List, [],
  ◌∷◌, ◌++◌, map, reverse, append-nil, append_assoc, reverse-cons, arith, ltb, leb, if◌then◌else◌,
  ltb→lt, lt→ltb, leb→le, nat_beq_iff, tests, Bool-cases, if_ind, Option-cases, some_inj, Eq, ◌==◌,
  ==_iff, ==_refl, nat_eq, list_eq, lookup, insert, erase, has_key, lookup-insert,
  lookup-insert_self, lookup-erase, has_key-insert, IsMap, insert-IsMap, insert_new, AreApart,
  AreApart-insert, AreApart-nil, length, get_elem?, set, get_or, take, drop, replicate,
  length-append, length-take, length-drop, length-replicate, length-map, take-append-drop,
  drop_of_length-le, take_of_length-le, drop_nil, take_nil, drop-drop, drop-take, take-take_le,
  drop-append_le, take-append_le, take-append_ge, drop-append_ge, take-append_length,
  drop-append_length,
}

pub record CorsConfig : Type 0 where
  pub allowed_origins : List Bytes
  pub allowed_methods : List Bytes
  pub allowed_headers : List Bytes
  pub allow_credentials : Bool
  pub max_age : ℕ

abbrev pub folded : Bool → Bytes → Bytes
folded case_insensitive s = if case_insensitive then to_lower s else s

unfoldable pub contains : List Bytes → Bytes → Bool → Bool
contains [] value case_insensitive = false
contains (x ∷ xs) value case_insensitive =
    if folded case_insensitive x == folded case_insensitive value
    then true
    else contains xs value case_insensitive

unfoldable pub join : List Bytes → Bytes
join [] = []
join (x ∷ []) = x
join (x ∷ y ∷ rest) = x ++ (bytes ", " ++ join (y ∷ rest))

abbrev is_blank : ℕ → Bool
is_blank c = c == 32 || c == 9

abbrev pub trim_blanks : Bytes → Bytes
trim_blanks s = reverse (skip_while is_blank (reverse (skip_while is_blank s)))

-- A token of blanks alone is left out.
unfoldable pub keep_tokens : List Bytes → List Bytes
keep_tokens [] = []
keep_tokens (t ∷ ts) =
    let rest = keep_tokens ts in
    let token = trim_blanks t in if is_empty token then rest else token ∷ rest

unfoldable pub split_comma_separated : Bytes → List Bytes
unfolding keep_tokens
split_comma_separated value = keep_tokens (segments 44 value)

unfoldable pub add_vary_origin : Response → Response
add_vary_origin response =
    let vary = header (bytes "Vary") response in
    if is_empty vary
    then add_header (bytes "Vary") (bytes "Origin") response
    else if not (contains (split_comma_separated vary) (bytes "Origin") true)
    then add_header (bytes "Vary") (vary ++ bytes ", Origin") response
    else response

unfoldable pub is_origin_allowed : CorsConfig → Bytes → Bool
is_origin_allowed config origin =
    if is_empty origin
    then false
    else if contains config.allowed_origins origin false
    then true
    else not config.allow_credentials && contains config.allowed_origins (bytes "*") false

unfoldable pub is_method_allowed : CorsConfig → Bytes → Bool
is_method_allowed config method = contains config.allowed_methods method false

unfoldable pub all_contained : List Bytes → List Bytes → Bool
all_contained values [] = true
all_contained values (x ∷ xs) =
    if not (contains values x true) then false else all_contained values xs

unfoldable pub are_headers_allowed : CorsConfig → Bytes → Bool
are_headers_allowed config headers =
    let requested = split_comma_separated headers in
    if is_empty requested
    then true
    else if contains config.allowed_headers (bytes "*") true
    then true
    else all_contained config.allowed_headers requested

abbrev pub is_wildcard : CorsConfig → Bool
is_wildcard config =
    not config.allow_credentials && contains config.allowed_origins (bytes "*") false

abbrev pub when : Bool → (Response → Response) → Response → Response
when c f response = if c then f response else response

unfoldable pub preflight_headers : CorsConfig → Response → Response
preflight_headers config response =
    let methods_named =
      add_header (bytes "Access-Control-Allow-Methods") (join config.allowed_methods) response in
    let headers_named =
      when (not (is_empty config.allowed_headers))
        (add_header (bytes "Access-Control-Allow-Headers") (join config.allowed_headers))
        methods_named in
    add_header (bytes "Access-Control-Max-Age") (decimal config.max_age) headers_named

unfoldable pub add_cors_headers : CorsConfig → Bytes → Bool → Response → Response
add_cors_headers config origin preflight response =
    let wildcard = is_wildcard config in
    let named =
      add_header (bytes "Access-Control-Allow-Origin") (if wildcard then bytes "*" else origin)
        response in
    let varied = when (not wildcard) add_vary_origin named in
    let trusted =
      when config.allow_credentials
        (add_header (bytes "Access-Control-Allow-Credentials") (bytes "true")) varied in
    when preflight (preflight_headers config) trusted

unfoldable pub cors_before : CorsConfig → Request → Response → Entered
cors_before config request response =
    let origin = get_header (bytes "Origin") request in
    let requested_method = get_header (bytes "Access-Control-Request-Method") request in
    if not (request.method == options) || is_empty origin && is_empty requested_method
    then record { request = request; response = response; verdict = goes_on }
    else if (is_empty origin || is_empty requested_method)
        || (not (is_origin_allowed config origin)
            || not (is_method_allowed config requested_method))
        || not (
            are_headers_allowed config
              (get_header (bytes "Access-Control-Request-Headers") request))
    then record {
      request = request;
      response = set_status_code forbidden response;
      verdict = stops;
    }
    else record {
      request = request;
      response = add_cors_headers config origin true (set_status_code no_content response);
      verdict = stops;
    }

unfoldable pub cors_after : CorsConfig → Request → Response → Response × Bool
cors_after config request response =
    let origin = get_header (bytes "Origin") request in
    (
      if not (is_empty origin) && is_origin_allowed config origin
          then add_cors_headers config origin false response
          else response,
      false,
    )

abbrev pub cors : CorsConfig → Middleware
cors config = record { enter = cors_before config; leave = cors_after config }
