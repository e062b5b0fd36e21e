-- ===== src/Middleware/Tests.antt =====
-- The theorems on the middleware at inputs that meet their hypotheses.
use jingjie_ar.Http.Response.{
  set_status_code, digits_within, comes_before, set_field, header, make_response, add_header,
}
use jingjie_ar.Middleware.Cors.{
  join, keep_tokens, split_comma_separated, is_method_allowed, are_headers_allowed,
  preflight_headers, cors_before, add_vary_origin, is_origin_allowed, add_cors_headers, contains,
  CorsConfig, cors_after,
}
use jingjie_ar.Text.{segments, lower, bytes}
use jingjie_ar.Http.Request.{options, value_or_empty, get_header, get, empty_request, Request}
use jingjie_ar.Middleware.Cors.Safety.{IsTrusting, cors-IsTrusting, allow_credentials_name}
use jingjie_ar.Middleware.{stops, goes_on, Middleware}
use jingjie_ar.Prelude.{◌≡◌, refl, true, false, some, List, [], ◌∷◌, ◌++◌, nat_eq, list_eq, lookup}

-- One middleware that stamps the response, and one that stops the request and throws on its way out.
abbrev stamping : Middleware
stamping = record {
  enter = λ request response. record { request = request; response = response; verdict = goes_on };
  leave = λ request response. (add_header (bytes "X-Seen") (bytes "1") response, false);
}

abbrev stopping : Middleware
stopping = record {
  enter = λ request response. record { request = request; response = response; verdict = stops };
  leave = λ request response. (response, true);
}

abbrev chain : List Middleware
chain = stamping ∷ stopping ∷ stamping ∷ []

abbrev asked : Request
asked = record empty_request { method = get; path = bytes "/" }

abbrev trusting : CorsConfig
trusting = record {
  allowed_origins = bytes "http://a" ∷ [];
  allowed_methods = bytes "GET" ∷ [];
  allowed_headers = [];
  allow_credentials = true;
  max_age = 60;
}

abbrev from_a : Request
from_a = record asked { headers = (bytes "origin", bytes "http://a") ∷ [] }

program : Unit {0}
unfolding cors_before cors_after add_cors_headers preflight_headers are_headers_allowed
    set_status_code is_method_allowed split_comma_separated keep_tokens segments digits_within join
    is_origin_allowed contains add_vary_origin header add_header set_field comes_before get_header
    value_or_empty lower lookup make_response
program = tt

abbrev asks_from_a : Request
asks_from_a = record from_a {
  method = options;
  headers = from_a.headers ++ (bytes "access-control-request-method", bytes "GET") ∷ [];
}

-- A preflight request of the trusted origin is granted credentials.
granted_to_a :
    lookup allow_credentials_name
      (cors_before trusting asks_from_a (make_response false)).response.headers
    ≡ some (bytes "true")
unfolding program
granted_to_a = refl

cors-IsTrusting_example :
    IsTrusting trusting asks_from_a
      (cors_before trusting asks_from_a (make_response false)).response
    × IsTrusting trusting asks_from_a (cors_after trusting asks_from_a (make_response false)).0
unfolding program
cors-IsTrusting_example = cors-IsTrusting trusting asks_from_a (make_response false) refl
