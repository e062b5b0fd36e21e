-- ===== src/Server/Tests.antt =====
-- The theorems on the server at inputs that meet their hypotheses.
use jingjie_ar.Server.{wants_close, on_request, send_response, Served, on_message}
use jingjie_ar.Http.Parser.{
  parse_body, accept_length, accept_body, end_headers, split_header, header_line, header_at,
  header_case, header_round, header_loop, parse_headers, request_line_case, request_line_round,
  round, parse_loop, parse_request,
}
use jingjie_ar.Text.{lower, skip_while, find, bytes, Bytes}
use jingjie_ar.Http.Request.{
  value_or_empty, get_header, string_to_method, set_query, get, empty_request, Request,
}
use jingjie_ar.Http.Context.{
  find_crlf, exceeds_limit, parse_digits, parse_content_length, set_target, process_request_line,
  got_complete_request, default_limits, make_context, Context,
}
use jingjie_ar.Net.Buffer.{
  retrieve, peek, write_at, resize, retrieve_all, make_space, initial_size, ensure_writable_bytes,
  make_buffer, append, Buffer,
}
use jingjie_ar.Server.Runs.{on_message-replays}
use jingjie_ar.Dispatcher.{complete, Dispatched}
use jingjie_ar.Http.Response.{make_response, Response}
use jingjie_ar.Http.Source.{buffer_source}
use jingjie_ar.Prelude.{
  ◌≡◌, refl, Bool, true, false, Option, some, [], ◌∷◌, ◌++◌, arith, nat_eq, list_eq, lookup, insert,
}

program : Unit {0}
unfolding buffer_source make_buffer append ensure_writable_bytes make_space resize write_at peek
    retrieve retrieve_all parse_request parse_loop round request_line_round request_line_case
    process_request_line set_target set_query string_to_method parse_headers header_loop
    header_round header_case header_at header_line split_header end_headers accept_body
    accept_length parse_content_length parse_digits exceeds_limit find_crlf find skip_while
    get_header value_or_empty lower parse_body insert lookup on_request wants_close make_response
program = tt

-- A request of a client that does not keep the connection, and bytes that follow it.
abbrev old : Bytes
old = bytes "GET /a HTTP/1.0" ++ (13 ∷ 10 ∷ 13 ∷ 10 ∷ [])

abbrev received : Bytes → Buffer
received s = append s (make_buffer initial_size)

abbrev parsed_old : Context
parsed_old = record (make_context default_limits) {
  state = got_complete_request;
  header_bytes = 2;
  request = record empty_request {
    method = get;
    path = bytes "/a";
    version = bytes "HTTP/1.0";
    receive_time = 7;
  };
}

-- Every request is answered by handler 1, which leaves the response as it is.
abbrev plain : Request → Response → Dispatched
plain request response = record {
  result = complete;
  response = response;
  calls = (1, request) ∷ [];
}

abbrev no_file : Bytes → Bool
no_file path = false

abbrev answered : Buffer → Option Served
answered left = some (record {
  context = parsed_old;
  buffer = left;
  sent = send_response no_file (make_response true) ∷ [];
  calls = (1, parsed_old.request) ∷ [];
})

on_message-replays_example :
    (on_message plain no_file 1 4 7 (make_context default_limits) (received old)
      ≡ answered (retrieve_all (received old)))
    × (on_message plain no_file 1 1 9 parsed_old (received (bytes "x"))
        ≡ answered (received (bytes "x")))
unfolding program
on_message-replays_example =
    on_message-replays plain no_file 0 4 7 0 9 (make_context default_limits) parsed_old
      (received old) (retrieve_all (received old)) (received (bytes "x")) (omega arith) refl refl
      refl refl (omega arith)
