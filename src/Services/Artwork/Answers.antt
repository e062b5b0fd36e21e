-- ===== src/Services/Artwork/Answers.antt =====
-- What the handlers of WebApps/ARServer/src/handlers/ArtworkInteractionHandlers.cpp answer to requests
-- that ArtworkInteractionService refuses.
use jingjie_ar.Prelude.{◌≡◌, refl, ◌⊎◌, Bool, false, ◌&&◌, Option, some, ◌==◌, nat_eq, list_eq}
use jingjie_ar.Services.Artwork.Handlers.{
  failure, reply, like_handler, comment_handler, or_nothing, is_some, comment_id_json,
  summary_of_result,
}
use jingjie_ar.Services.Artwork.Writes.{
  service, active_session, comment_request-IsUntouched, like_artwork-IsUntouched,
}
use jingjie_ar.Services.Artwork.{
  is_ok, Status, ok, unauthorized, bad_request, not_found, unavailable, ArtworkInteractionResult,
  valid_content, comment_request, like_artwork,
}
use jingjie_ar.Services.Api.{make_api_error}
use jingjie_ar.Services.Sessions.{SessionStore, get}
use jingjie_ar.Database.{MySql}
use jingjie_ar.Http.Request.{Request, attribute, path_parameter}
use jingjie_ar.Http.Response.{Response, status_number, set_status_code, set_content_type, set_body}
use jingjie_ar.Text.{Bytes, bytes}

-- A failure is never answered with 200.
failure_number :
    (r : ArtworkInteractionResult) (id : Bytes)
    → (status_number (failure r id).status_code == 200) ≡ false
unfolding failure make_api_error set_body set_content_type set_status_code
failure_number r id = of_status r.status
  where
    of_status :
        (s : Status)
        → (status_number (failure (record r { status = s }) id).status_code == 200) ≡ false
    of_status ok = refl
    of_status unauthorized = refl
    of_status bad_request = refl
    of_status not_found = refl
    of_status unavailable = refl

reply_number :
    (body : ArtworkInteractionResult → Bytes) (id : Bytes) (r : ArtworkInteractionResult)
    → is_ok r.status ≡ false
    → (status_number (reply body id r).status_code == 200) ≡ false
reply_number body id r h = rw h (failure_number r id)

module _ {W : Type 0} (known : Bytes → Bool) (store : Option (SessionStore W))
    (dao : Option (MySql W)) (valid : W → Bool) where
  abbrev pub token_of : Request → Bytes
  token_of request = attribute (bytes "auth.token") request

  -- An answer other than 200, with nothing done but for the search for the session.
  abbrev pub IsDeclined : Request → W → Response × W → Type 0
  IsDeclined request w out =
      ((status_number out.0.status_code == 200) ≡ false)
      × ((out.1 ≡ w) ⊎ (out.1 ≡ (get store (token_of request) w).1))

  -- A request to comment, or to like, an artwork that is not in the catalogue, or without the token of
  -- an active session, or to comment with a body that has no content or one that is not 1 to 1000
  -- bytes of UTF-8 with a visible character, is not answered with 200 and reaches no database but for
  -- the session.
  pub comment_handler-IsDeclined :
      (comment_content : Bytes → Option Bytes) (request : Request) (w : W)
      → ((known (path_parameter (bytes "artworkId") request)
              && active_session (get store (token_of request) w).0
              && valid_content
                  (is_some (comment_content request.body))
                  (or_nothing (comment_content request.body)))
            ≡ false
          → IsDeclined request w
              (comment_handler (some (service known store dao valid)) comment_content request w))
        × ((known (path_parameter (bytes "artworkId") request)
                && active_session (get store (token_of request) w).0)
              ≡ false
            → IsDeclined request w (like_handler (some (service known store dao valid)) request w))
  unfolding comment_handler like_handler
  comment_handler-IsDeclined comment_content request w = (
    λ h.
        let artwork : Bytes = path_parameter (bytes "artworkId") request in
        let content : Option Bytes = comment_content request.body in
        let u =
          comment_request-IsUntouched known store dao valid (token_of request) artwork
            (or_nothing content) (is_some content) w h in
        (
          reply_number comment_id_json (attribute (bytes "request_id") request)
              (comment_request (service known store dao valid) (token_of request) artwork
                (or_nothing content) (is_some content) w).0
              u.0,
          u.1,
        ),
    λ h.
        let artwork : Bytes = path_parameter (bytes "artworkId") request in
        let u = (like_artwork-IsUntouched known store dao valid (token_of request) artwork w h).0 in
        (
          reply_number summary_of_result (attribute (bytes "request_id") request)
              (like_artwork (service known store dao valid) (token_of request) artwork w).0 u.0,
          u.1,
        ),
  )
