-- ===== src/Http/Response.antt =====
-- include/http/HttpResponse.h and src/http/HttpResponse.cpp: the response that a handler fills and
-- its bytes on the wire.
pub mod Wire
pub mod Fields
use jingjie_ar.Text.{bytes, Bytes, is_empty}
use jingjie_ar.Net.Buffer.{append, Buffer}
use jingjie_ar.Prelude.{
  ℕ, zero, suc, ◌+◌, ◌-◌, ◌*◌, ◌/◌, ◌%◌, ◌^◌, ◌≤◌, ◌<◌, min, max, ◌≡◌, refl, sym, ap, ap₂, ◌∙◌,
  subst, ◌≢◌, ◌↔◌, ◌⊎◌, inl, inr, Bool, true, false, not, ◌&&◌, ◌||◌, Option, none, some, List, [],
  ◌∷◌, ◌++◌, map, reverse, append-nil, append_assoc, reverse-cons, arith, ltb, leb, if◌then◌else◌,
  ltb→lt, lt→ltb, leb→le, tests, Bool-cases, Option-cases, some_inj, Eq, ◌==◌, ==_iff, ==_refl,
  nat_eq, list_eq, lookup, insert, erase, has_key, lookup-insert, lookup-insert_self, lookup-erase,
  has_key-insert, IsMap, insert-IsMap, insert_new, AreApart, AreApart-insert, AreApart-nil, length,
  get_elem?, set, get_or, take, drop, replicate, length-append, length-take, length-drop,
  length-replicate, length-map, take-append-drop, drop_of_length-le, take_of_length-le, drop_nil,
  take_nil, drop-drop, drop-take, take-take_le, drop-append_le, take-append_le, take-append_ge,
  drop-append_ge, take-append_length, drop-append_length,
}

-- The enumerators of HttpStatusCode.
pub data HttpStatusCode : Type 0 where
  ok no_content partial_content moved_permanently not_modified bad_request unauthorized forbidden :
      HttpStatusCode
  not_found_404 method_not_allowed_405 conflict payload_too_large range_not_satisfiable
        internal_server_error not_implemented service_unavailable :
      HttpStatusCode

abbrev pub status_number : HttpStatusCode → ℕ
status_number ok = 200
status_number no_content = 204
status_number partial_content = 206
status_number moved_permanently = 301
status_number not_modified = 304
status_number bad_request = 400
status_number unauthorized = 401
status_number forbidden = 403
status_number not_found_404 = 404
status_number method_not_allowed_405 = 405
status_number conflict = 409
status_number payload_too_large = 413
status_number range_not_satisfiable = 416
status_number internal_server_error = 500
status_number not_implemented = 501
status_number service_unavailable = 503

-- HttpResponse::statusMessage
abbrev pub status_message : HttpStatusCode → Bytes
status_message ok = bytes "OK"
status_message no_content = bytes "No Content"
status_message partial_content = bytes "Partial Content"
status_message moved_permanently = bytes "Moved Permanently"
status_message not_modified = bytes "Not Modified"
status_message bad_request = bytes "Bad Request"
status_message unauthorized = bytes "Unauthorized"
status_message forbidden = bytes "Forbidden"
status_message not_found_404 = bytes "Not Found"
status_message method_not_allowed_405 = bytes "Method Not Allowed"
status_message conflict = bytes "Conflict"
status_message payload_too_large = bytes "Payload Too Large"
status_message range_not_satisfiable = bytes "Range Not Satisfiable"
status_message internal_server_error = bytes "Internal Server Error"
status_message not_implemented = bytes "Not Implemented"
status_message service_unavailable = bytes "Service Unavailable"

pub record Response : Type 0 where
  pub status_code : HttpStatusCode
  pub status_text : Bytes
  pub headers : List (Bytes × Bytes)
  pub body : Bytes
  pub file_path : Bytes
  pub file_offset : ℕ
  pub file_count : ℕ
  pub close_connection : Bool

unfoldable pub make_response : Bool → Response
make_response close = record {
  status_code = ok;
  status_text = [];
  headers = [];
  body = [];
  file_path = [];
  file_offset = 0;
  file_count = 0;
  close_connection = close;
}

-- operator< of std::string
unfoldable pub comes_before : Bytes → Bytes → Bool
comes_before s [] = false
comes_before [] (c ∷ t) = true
comes_before (b ∷ s) (c ∷ t) = let rest = comes_before s t in if b == c then rest else ltb b c

-- headers_[key] = value, on a map that is kept in the order of its keys
unfoldable pub set_field : Bytes → Bytes → List (Bytes × Bytes) → List (Bytes × Bytes)
set_field k v [] = (k, v) ∷ []
set_field k v ((k', v') ∷ rest) =
    let behind = set_field k v rest in
    if k == k'
    then (k, v) ∷ rest
    else if comes_before k k'
    then (k, v) ∷ (k', v') ∷ rest
    else (k', v') ∷ behind

unfoldable pub add_header : Bytes → Bytes → Response → Response
add_header key value r = record r { headers = set_field key value r.headers }

unfoldable pub set_status_code : HttpStatusCode → Response → Response
set_status_code code r = record r { status_code = code }

unfoldable pub set_close_connection : Bool → Response → Response
set_close_connection on r = record r { close_connection = on }

unfoldable pub set_content_type : Bytes → Response → Response
unfolding add_header
set_content_type content_type r = add_header (bytes "Content-Type") content_type r

unfoldable pub set_body : Bytes → Response → Response
set_body s r = record r { body = s }

abbrev pub has_file : Response → Bool
has_file r = not (is_empty r.file_path)

-- HttpResponse::header
unfoldable pub header : Bytes → Response → Bytes
header name r = elim (lookup name r.headers) [ none ↦ [] | some v ↦ v ]

-- The decimal digits of a number below 10 ^ fuel.
unfoldable pub digits_within : ℕ → ℕ → Bytes
digits_within zero n = []
digits_within (suc fuel) n =
    let front = digits_within fuel (n / 10) in
    if ltb n 10 then (48 + n) ∷ [] else front ++ (48 + n % 10) ∷ []

-- std::to_string and the %d and %zu of snprintf; 20 digits hold every 64-bit number.
abbrev pub decimal : ℕ → Bytes
decimal n = digits_within 20 n

abbrev pub crlf : Bytes
crlf = 13 ∷ 10 ∷ []

-- snprintf into buf[128], which keeps 127 bytes
abbrev pub snprintf_128 : Bytes → Bytes
snprintf_128 s = take 127 s

unfoldable pub status_line : Response → Bytes
status_line r =
    let text = if is_empty r.status_text then status_message r.status_code else r.status_text in
    snprintf_128
      (bytes "HTTP/1.1 " ++ (decimal (status_number r.status_code) ++ (32 ∷ text ++ crlf)))

unfoldable pub content_length_line : Response → Bytes
content_length_line r = snprintf_128 (
    bytes "Content-Length: "
    ++ (decimal (if has_file r then r.file_count else length r.body) ++ crlf))

unfoldable pub connection_line : Response → Bytes
connection_line r =
    if r.close_connection
    then bytes "Connection: close" ++ crlf
    else bytes "Connection: Keep-Alive" ++ crlf

-- The four appends of each header.
unfoldable pub append_headers : List (Bytes × Bytes) → Buffer → Buffer
append_headers [] b = b
append_headers ((k, v) ∷ rest) b =
    append_headers rest (append crlf (append v (append (bytes ": ") (append k b))))

abbrev pub append_if : Bool → Bytes → Buffer → Buffer
append_if c s b = if c then append s b else b

-- HttpResponse::appendToBuffer
unfoldable pub append_to_buffer : Response → Buffer → Buffer
append_to_buffer r b0 =
    let b1 = append (status_line r) b0 in
    let b2 = append (bytes "Server: webserver" ++ crlf) b1 in
    let b3 =
      append_if (not (has_key (bytes "Content-Type") r.headers))
        (bytes "Content-Type: text/html" ++ crlf) b2 in
    let b4 =
      append_if (not (has_key (bytes "Content-Length") r.headers)) (content_length_line r) b3 in
    let b5 = append_if (not (has_key (bytes "Connection") r.headers)) (connection_line r) b4 in
    let b6 = append_headers r.headers b5 in
    let b7 = append crlf b6 in append_if (not (has_file r) && not (is_empty r.body)) r.body b7

unfoldable pub error_body : HttpStatusCode → Bytes → Bytes
error_body code extra =
    let title = decimal (status_number code) ++ (32 ∷ status_message code) in
    bytes "<html><head><title>"
    ++ (title
        ++ (bytes "</title></head>"
            ++ (crlf
                ++ (bytes "<body><center><h1>"
                    ++ (title
                        ++ (bytes "</h1></center>"
                            ++ (crlf
                                ++ ((if is_empty extra
                                      then []
                                      else bytes "<center><p>"
                                        ++ (extra ++ (bytes "</p></center>" ++ crlf)))
                                    ++ (bytes "<hr><center>webserver</center>"
                                        ++ (crlf ++ (bytes "</body></html>" ++ crlf)))))))))))

-- HttpResponse::makeErrorResponse
unfoldable pub make_error_response : HttpStatusCode → Bool → Bytes → Response
make_error_response code close extra =
    set_body (error_body code extra)
      (set_content_type (bytes "text/html") (set_status_code code (make_response close)))
