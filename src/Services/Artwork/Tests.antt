-- ===== src/Services/Artwork/Tests.antt =====
-- Requests on which the theorems on artworks apply.
use jingjie_ar.Services.Artwork.{
  valid_content, artwork_exists, with_session, authenticate, leased, like_artwork, unlike_artwork,
  comment_request, comment,
}
use jingjie_ar.Services.Artwork.Writes.{active_session, service}
use jingjie_ar.Prelude.{
  ◌≡◌, refl, Bool, true, false, ◌&&◌, Option, some, List, [], ◌∷◌, ◌==◌, nat_eq, list_eq, lookup,
  insert,
}
use jingjie_ar.Database.SessionDao.Sample.{table_sql}
use jingjie_ar.Database.SessionDao.Table.{SessionRow, new_row}
use jingjie_ar.Database.SessionDao.{find_session_by_token, session_of}
use jingjie_ar.Database.{statement, bound_statement, MySql}
use jingjie_ar.Database.ArtworkDao.{
  create_comment, like, unlike, change_like, counted, query_summary, change_ok, summary_of,
}
use jingjie_ar.Services.Sessions.{SessionStore, get}
use jingjie_ar.Services.Sessions.Stores.{dao_session_store}
use jingjie_ar.Services.Utf8.{
  unicode_whitespace, in_range, continue, after_lead, lead_of, next_code_point, utf8_loop,
  valid_non_blank_utf8,
}
use jingjie_ar.Services.Artwork.Handlers.{failure, comment_handler, like_handler}
use jingjie_ar.Services.Artwork.Answers.{token_of, IsDeclined, comment_handler-IsDeclined}
use jingjie_ar.Services.Api.{make_api_error}
use jingjie_ar.Http.Request.{Request, empty_request, set_path_parameter, path_parameter, attribute}
use jingjie_ar.Http.Response.{status_number, set_status_code, set_content_type, set_body}
use jingjie_ar.Text.{Bytes, bytes}

program : Unit {0}
unfolding make_api_error failure comment_handler set_body set_content_type set_status_code
    set_path_parameter path_parameter attribute lookup insert find_session_by_token session_of
    statement bound_statement get artwork_exists with_session authenticate leased like_artwork
    unlike_artwork comment_request comment create_comment like unlike change_like counted
    query_summary change_ok summary_of valid_non_blank_utf8 utf8_loop next_code_point lead_of
    after_lead continue in_range unicode_whitespace
program = tt

abbrev known : Bytes → Bool
known a = a == bytes "vase"

abbrev open_row : List SessionRow
open_row = new_row 1 7 (bytes "tok1") (bytes "hall") ∷ []

abbrev store : Option (SessionStore (List SessionRow))
store = some (dao_session_store (some table_sql))

abbrev dao : Option (MySql (List SessionRow))
dao = some table_sql

abbrev always : List SessionRow → Bool
always w = true

-- A request to comment without a token.
abbrev anonymous : Request
anonymous = set_path_parameter (bytes "artworkId") (bytes "vase") empty_request

abbrev read_body : Bytes → Option Bytes
read_body body = some (bytes "hello")

anonymous_comment :
    status_number
      (comment_handler
        (some (service known store dao always))
        read_body
        anonymous
        open_row).0.status_code
    ≡ 401
unfolding program
anonymous_comment = refl

comment_handler-IsDeclined_example :
    ((known (path_parameter (bytes "artworkId") anonymous)
          && active_session (get store (token_of known store dao always anonymous) open_row).0
          && valid_content true (bytes "hello"))
        ≡ false
      → IsDeclined known store dao always anonymous open_row
          (comment_handler (some (service known store dao always)) read_body anonymous open_row))
    × ((known (path_parameter (bytes "artworkId") anonymous)
            && active_session (get store (token_of known store dao always anonymous) open_row).0)
          ≡ false
        → IsDeclined known store dao always anonymous open_row
            (like_handler (some (service known store dao always)) anonymous open_row))
comment_handler-IsDeclined_example =
    comment_handler-IsDeclined known store dao always read_body anonymous open_row
