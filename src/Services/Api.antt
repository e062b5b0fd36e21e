-- ===== src/Services/Api.antt =====
-- The envelopes of the answers: WebApps/ARServer/src/utils/ApiError.cpp and ApiResponse.cpp.
use jingjie_ar.Prelude.{false, [], ◌∷◌, ◌++◌, if◌then◌else◌, nat_eq, list_eq}
use jingjie_ar.Services.Json.{escape}
use jingjie_ar.Http.Response.{
  Response, HttpStatusCode, ok, bad_request, unauthorized, not_found_404, service_unavailable,
  internal_server_error, make_response, set_status_code, set_content_type, set_body,
}
use jingjie_ar.Text.{Bytes, bytes, is_empty}

-- A text between quotation marks.
abbrev pub quoted : Bytes → Bytes
quoted s = b'"' ∷ (s ++ b'"' ∷ [])

-- The codes that the handlers use.
abbrev pub http_ok : HttpStatusCode
http_ok = ok

abbrev pub http_bad_request : HttpStatusCode
http_bad_request = bad_request

abbrev pub http_unauthorized : HttpStatusCode
http_unauthorized = unauthorized

abbrev pub http_not_found : HttpStatusCode
http_not_found = not_found_404

abbrev pub http_unavailable : HttpStatusCode
http_unavailable = service_unavailable

abbrev pub http_internal_error : HttpStatusCode
http_internal_error = internal_server_error

-- makeApiError
unfoldable pub make_api_error : HttpStatusCode → Bytes → Bytes → Bytes → Response
make_api_error status code message request_id =
    set_body
      (b'{' ∷ quoted (bytes "success")
        ++ bytes ":false,"
        ++ quoted (bytes "data")
        ++ bytes ":null,"
        ++ quoted (bytes "message")
        ++ b':' ∷ quoted (escape message)
        ++ b',' ∷ quoted (bytes "code")
        ++ b':' ∷ quoted (escape code)
        ++ b',' ∷ quoted (bytes "requestId")
        ++ b':' ∷ quoted (escape request_id)
        ++ b'}' ∷ [])
      (set_content_type (bytes "application/json; charset=utf-8")
        (set_status_code status (make_response false)))

-- makeApiSuccess with its default message.
unfoldable pub make_api_success : Bytes → Bytes → Response
make_api_success payload message =
    set_body
      (b'{' ∷ quoted (bytes "success")
        ++ bytes ":true,"
        ++ quoted (bytes "data")
        ++ b':' ∷ (if is_empty payload then bytes "null" else payload)
        ++ b',' ∷ quoted (bytes "message")
        ++ b':' ∷ quoted (escape message)
        ++ b'}' ∷ [])
      (set_content_type (bytes "application/json; charset=utf-8")
        (set_status_code ok (make_response false)))
