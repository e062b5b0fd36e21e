-- ===== src/Server.antt =====
-- include/http/HttpServer.h and src/http/HttpServer.cpp: what the server does with the bytes of one
-- connection. Opening a file is a parameter; what a connection is made to send is a value.
pub mod Runs
mod Tests
use jingjie_ar.Http.Context.{
  got_all, reset, ParseError, Context, request_line_too_large, headers_too_large, body_too_large,
  unsupported_transfer_encoding,
}
use jingjie_ar.Net.Buffer.{
  initial_size, make_buffer, readable_bytes, Buffer, retrieve_all_as_string,
}
use jingjie_ar.Http.Source.{buffer_source}
use jingjie_ar.Http.Parser.{parse_request}
use jingjie_ar.Http.Response.{
  make_error_response, make_response, append_to_buffer, has_file, Response, HttpStatusCode,
  not_found_404, payload_too_large, not_implemented,
}
use jingjie_ar.Dispatcher.{pending, Dispatched, complete, Result}
use jingjie_ar.Text.{bytes, Bytes}
use jingjie_ar.Http.Request.{get_header, Request}
use jingjie_ar.Prelude.{
  ℕ, zero, suc, ◌+◌, ◌-◌, ◌*◌, ◌/◌, ◌%◌, ◌^◌, ◌≤◌, ◌<◌, min, max, ◌≡◌, refl, sym, ap, ap₂, ◌∙◌,
  subst, ◌≢◌, ◌↔◌, ◌⊎◌, inl, inr, Bool, true, false, not, ◌&&◌, ◌||◌, Option, none, some, List, [],
  ◌∷◌, ◌++◌, map, reverse, append-nil, append_assoc, reverse-cons, arith, ltb, leb, if◌then◌else◌,
  ltb→lt, lt→ltb, leb→le, tests, Bool-cases, Option-cases, some_inj, Eq, ◌==◌, ==_iff, ==_refl,
  nat_eq, list_eq, lookup, insert, erase, has_key, lookup-insert, lookup-insert_self, lookup-erase,
  has_key-insert, IsMap, insert-IsMap, insert_new, AreApart, AreApart-insert, AreApart-nil, length,
  get_elem?, set, get_or, take, drop, replicate, length-append, length-take, length-drop,
  length-replicate, length-map, take-append-drop, drop_of_length-le, take_of_length-le, drop_nil,
  take_nil, drop-drop, drop-take, take-take_le, drop-append_le, take-append_le, take-append_ge,
  drop-append_ge, take-append_length, drop-append_length,
}

-- What one response makes the connection do: the bytes, the file region, and the shutdown.
pub record Sent : Type 0 where
  pub bytes_sent : Bytes
  pub file : Option (Bytes × ℕ × ℕ)
  pub shuts_down : Bool

-- HttpServer::sendResponse, by whether the file of the response, if it has one, can be opened.
unfoldable pub send_response : (Bytes → Bool) → Response → Sent
send_response opens r =
    let missing = has_file r && not (opens r.file_path) in
    let actual : Response =
      if missing then make_error_response not_found_404 r.close_connection [] else r in
    record {
      bytes_sent = (retrieve_all_as_string (append_to_buffer actual (make_buffer initial_size))).0;
      file =
          if has_file r && not missing
          then some (r.file_path, r.file_offset, r.file_count)
          else none;
      shuts_down = actual.close_connection;
    }

unfoldable pub parse_error_status : ParseError → HttpStatusCode
parse_error_status request_line_too_large = payload_too_large
parse_error_status headers_too_large = payload_too_large
parse_error_status body_too_large = payload_too_large
parse_error_status unsupported_transfer_encoding = not_implemented
parse_error_status _ = HttpStatusCode.bad_request

-- HttpServer::sendParseError
unfoldable pub send_parse_error : ParseError → Sent
send_parse_error error = record {
  bytes_sent =
      (retrieve_all_as_string (
        append_to_buffer
          (make_error_response (parse_error_status error) true (bytes "Failed to parse request"))
          (make_buffer initial_size))).0;
  file = none;
  shuts_down = true;
}

-- The decision of onRequest to close the connection.
unfoldable pub wants_close : Request → Bool
wants_close request =
    let connection = get_header (bytes "connection") request in
    if request.version == bytes "HTTP/1.0"
    then not (connection == bytes "keep-alive")
    else connection == bytes "close"

-- HttpServer::shouldContinueParsing
abbrev pub should_continue_parsing : Result → Bool → Bool
should_continue_parsing complete close = not close
should_continue_parsing pending close = false

-- What a run of onMessage leaves: the parser, the buffer, what was sent and the callbacks made.
pub record Served : Type 0 where
  pub context : Context
  pub buffer : Buffer
  pub sent : List Sent
  pub calls : List (ℕ × Request)

-- One request served before the rest.
abbrev pub and_then : Sent → List (ℕ × Request) → Option Served → Option Served
and_then first calls none = none
and_then first calls (some s) = some (record s { sent = first ∷ s.sent; calls = calls ++ s.calls })

module _ (dispatch_request : Request → Response → Dispatched) (opens : Bytes → Bool) where
  -- HttpServer::onRequest, up to the sending.
  unfoldable pub on_request : Request → Dispatched
  on_request request = dispatch_request request (make_response (wants_close request))

  -- What onMessage does with the result of onRequest; `rest` is the next round.
  unfoldable pub after_request : Dispatched → Context → Buffer → Option Served → Option Served
  after_request o c b rest = elim o.result [
    | pending ↦ some (record { context = reset c; buffer = b; sent = []; calls = o.calls })
    | complete ↦
        if should_continue_parsing complete o.response.close_connection
        then and_then (send_response opens o.response) o.calls rest
        else some (record {
          context = c;
          buffer = b;
          sent = send_response opens o.response ∷ [];
          calls = o.calls;
        })
  ]

  -- The loop of onMessage, with the fuel of its own rounds and that of the parser's.
  unfoldable pub on_message : ℕ → ℕ → ℕ → Context → Buffer → Option Served
  on_message zero parser_fuel now c b = none
  on_message (suc fuel) parser_fuel now c b =
      if not (ltb 0 (readable_bytes b))
      then some (record { context = c; buffer = b; sent = []; calls = [] })
      else elim (parse_request buffer_source parser_fuel now c b) [
        | none ↦ none
        | some (c', b', false) ↦ some (record {
          context = c';
          buffer = b';
          sent = send_parse_error c'.error ∷ [];
          calls = [];
        })
        | some (c', b', true) ↦
            let rest = on_message fuel parser_fuel now (reset c') b' in
            if not (got_all c')
            then some (record { context = c'; buffer = b'; sent = []; calls = [] })
            else after_request (on_request c'.request) c' b' rest
      ]
