-- ===== src/Http/Tests.antt =====
-- Runs of the request and of the parser on concrete bytes, and the theorems at inputs that meet
-- their hypotheses.
use jingjie_ar.Http.Response.{
  make_response, Response, forbidden, make_error_response, append_to_buffer,
}
use jingjie_ar.Http.Context.Length.{parse_content_length-eq-ok_iff, decimal_from, AllDigits}
use jingjie_ar.Http.Response.Wire.{peek-append_to_buffer, printed}
use jingjie_ar.Http.Context.{
  size_max, content_length_ok, parse_ok, got_complete_request, find_crlf, exceeds_limit,
  parse_digits, parse_content_length, set_target, process_request_line, default_limits,
  make_context, Context,
}
use jingjie_ar.Text.{lower, skip_while, find, bytes, Bytes}
use jingjie_ar.Http.Request.{
  Method, empty_request, Request, value_or_empty, add_header, string_to_method, set_query,
  get_header,
}
use jingjie_ar.Http.Parser.Returns.{parse_request-Decides, IsSettled}
use jingjie_ar.Http.Parser.Errors.{parse_request-Matches}
use jingjie_ar.Http.Parser.Bounds.{parse_request-IsBounded}
use jingjie_ar.Http.Parser.Limits.{IsBounded}
use jingjie_ar.Http.Parser.Split.{parse_request_split}
use jingjie_ar.Http.Parser.{
  parse_body, accept_length, accept_body, end_headers, split_header, header_line, header_at,
  header_case, header_round, header_loop, parse_headers, request_line_case, request_line_round,
  round, parse_loop, parse_request,
}
use jingjie_ar.Net.Buffer.{
  retrieve_all, retrieve, peek, write_at, resize, make_space, ensure_writable_bytes, initial_size,
  append, Buffer, make_buffer,
}
use jingjie_ar.Net.Buffer.Invariant.{IsValid, append-IsValid, make_buffer-IsValid}
use jingjie_ar.Http.Source.{buffer_source}
use jingjie_ar.Prelude.{
  ℕ, ◌≤◌, ◌≡◌, refl, ◌≢◌, ◌↔◌, ◌⊎◌, Bool, true, Option, none, some, [], ◌∷◌, ◌++◌, arith, nat_eq,
  list_eq, lookup, insert,
}

program : Unit {0}
unfolding buffer_source make_buffer append ensure_writable_bytes make_space resize write_at peek
    retrieve retrieve_all parse_request parse_loop round request_line_round request_line_case
    process_request_line set_target set_query string_to_method parse_headers header_loop
    header_round header_case header_at header_line split_header end_headers accept_body
    accept_length parse_content_length parse_digits exceeds_limit find_crlf find skip_while
    add_header get_header value_or_empty lower parse_body insert lookup
program = tt

crlf : Bytes
crlf = 13 ∷ 10 ∷ []

abbrev received : Bytes → Buffer
received s = append s (make_buffer initial_size)

received-IsValid : (s : Bytes) → IsValid (received s)
received-IsValid s = append-IsValid s (make_buffer initial_size) (make_buffer-IsValid initial_size)

abbrev fresh : Context
fresh = make_context default_limits

get_root : Bytes
unfolding crlf
get_root = bytes "GET /a?b=1 HTTP/1.1" ++ (crlf ++ (bytes "Host: x" ++ (crlf ++ crlf)))

-- The path and the header of the request that a run returns.
seen : Option (Context × Buffer × Bool) → Option (Bytes × Bytes × Bool)
unfolding program
seen none = none
seen (some (c, b, r)) = some (c.request.path, get_header (bytes "host") c.request, r)

get_root_parsed :
    seen (parse_request buffer_source 4 7 fresh (received get_root))
    ≡ some (bytes "/a", bytes "x", true)
unfolding program seen get_root
get_root_parsed = refl

-- The request line alone, with a part of a header.
partial : Bytes
unfolding crlf
partial = bytes "GET /a HTTP/1.1" ++ (crlf ++ bytes "Hos")

abbrev parsed_line : Request
parsed_line = record empty_request {
  method = Method.get;
  path = bytes "/a";
  version = bytes "HTTP/1.1";
  receive_time = 7;
}

-- The parser spins on it.
parse_request_split_example : parse_request buffer_source 100 7 fresh (received partial) ≡ none
unfolding program partial
parse_request_split_example =
    parse_request_split buffer_source 7 fresh (received partial) 15 parsed_line
      (received-IsValid partial) refl refl (omega arith) refl refl (omega arith) 100

fresh-IsBounded : IsBounded fresh
fresh-IsBounded = record {
  headers_within = omega arith;
  unread = λ _. refl;
  announced = λ e. absurd (ground arith);
  complete = λ e. absurd (ground arith);
}

-- A request with a body, and the first bytes of the next one.
posted : Bytes
unfolding crlf
posted =
    bytes "POST /u HTTP/1.1"
    ++ (crlf ++ (bytes "Content-Length: 2" ++ (crlf ++ (crlf ++ bytes "okGET"))))

abbrev posted_request : Request
posted_request = record empty_request {
  method = Method.post;
  path = bytes "/u";
  version = bytes "HTTP/1.1";
  headers = (bytes "content-length", bytes "2") ∷ [];
  body = bytes "ok";
  receive_time = 7;
}

posted_context : Context
posted_context = record fresh {
  state = got_complete_request;
  request = posted_request;
  content_length = 2;
  header_bytes = 21;
}

posted_rest : Buffer
unfolding program posted
posted_rest = retrieve 41 (received posted)

posted_parsed :
    parse_request buffer_source 4 7 fresh (received posted)
    ≡ some (posted_context, posted_rest, true)
unfolding program posted posted_context posted_rest
posted_parsed = refl

parse_request-IsBounded_example : IsBounded posted_context
parse_request-IsBounded_example =
    parse_request-IsBounded buffer_source 4 7 fresh (received posted)
      (posted_context, posted_rest, true) fresh-IsBounded posted_parsed

parse_request-Matches_example : posted_context.error ≡ parse_ok
unfolding posted_context
parse_request-Matches_example =
    parse_request-Matches buffer_source 4 7 fresh (received posted)
      (posted_context, posted_rest, true) refl posted_parsed

parse_request-Decides_example :
    ((p : Context × Buffer × Bool) × (parse_request buffer_source 4 7 fresh (received partial)
        ≡ some p)
      × IsSettled buffer_source p)
    ⊎ ((fuel : ℕ) → parse_request buffer_source fuel 7 fresh (received partial) ≡ none)
unfolding buffer_source
parse_request-Decides_example =
    parse_request-Decides buffer_source 7 fresh (received partial) (received-IsValid partial)

peek-append_to_buffer_example :
    peek (append_to_buffer (make_error_response forbidden true []) (received (bytes "a")))
    ≡ peek (received (bytes "a")) ++ printed (make_error_response forbidden true [])
peek-append_to_buffer_example =
    peek-append_to_buffer (make_error_response forbidden true []) (received (bytes "a"))
      (received-IsValid (bytes "a"))

parse_content_length-eq-ok_iff_example :
    (parse_content_length (bytes "42") ≡ content_length_ok 42) ↔ (
      (bytes "42" ≢ [])
      × AllDigits (bytes "42")
      × (decimal_from 0 (bytes "42") ≡ 42)
      × (42 ≤ size_max))
parse_content_length-eq-ok_iff_example = parse_content_length-eq-ok_iff (bytes "42") 42

abbrev asked : Request
asked = set_query (bytes "a=1&b=2") empty_request

abbrev blank_page : Response
blank_page = make_response true
