-- ===== src/Services/Artwork/Handlers.antt =====
-- The HTTP handlers of artworks: WebApps/ARServer/src/handlers/ArtworkInteractionHandlers.cpp. A
-- handler gives what it sends. The JSON library, which reads the content of a comment, strtoull of the
-- C library, and the catalogue's artworks are parameters.
use jingjie_ar.Prelude.{
  ℕ, ◌-◌, ◌^◌, min, Bool, true, false, Option, none, some, List, [], ◌∷◌, ◌++◌, map, if◌then◌else◌,
  ◌==◌, nat_eq, list_eq, lookup,
}
use jingjie_ar.Services.Artwork.{
  is_ok, ok, unauthorized, bad_request, not_found, unavailable, ArtworkInteractionResult, result,
  ArtworkInteractionService, detail, like_artwork, unlike_artwork, list_artwork_comments,
  comment_request,
}
use jingjie_ar.Services.Api.{
  quoted, make_api_error, make_api_success, http_bad_request, http_unauthorized, http_not_found,
  http_unavailable, http_internal_error,
}
use jingjie_ar.Services.Json.{escape}
use jingjie_ar.Database.ArtworkDao.{ArtworkComment}
use jingjie_ar.Http.Request.{Request, attribute, path_parameter, query_parameters}
use jingjie_ar.Http.Response.{Response, decimal}
use jingjie_ar.Text.{Bytes, bytes}

-- The part of ArtworkInfo that is sent.
pub record ArtworkInfo : Type 0 where
  pub id : Bytes
  pub title : Bytes
  pub text : Bytes
  pub images : List Bytes

-- The switch of failure.
unfoldable pub failure : ArtworkInteractionResult → Bytes → Response
failure r id = elim r.status [
  | unauthorized ↦
      make_api_error http_unauthorized (bytes "UNAUTHORIZED")
        (bytes "authentication token is required") id
  | bad_request ↦
      make_api_error http_bad_request (bytes "INVALID_COMMENT")
        (bytes "comment content must contain 1 to 1000 bytes") id
  | not_found ↦
      make_api_error http_not_found (bytes "ARTWORK_NOT_FOUND") (bytes "artwork not found") id
  | unavailable ↦
      make_api_error http_unavailable (bytes "SERVICE_UNAVAILABLE")
        (bytes "artwork interaction service unavailable") id
  | ok ↦
      make_api_error http_internal_error (bytes "INTERNAL_ERROR")
        (bytes "unexpected artwork interaction result") id
]

-- writeString
abbrev pub written : Bytes → Bytes
written s = quoted (escape s)

abbrev pub show_bool : Bool → Bytes
show_bool true = bytes "true"
show_bool false = bytes "false"

-- A name of a JSON object.
abbrev pub name : Bytes → Bytes
name s = quoted s ++ b':' ∷ []

-- summaryJson
unfoldable pub summary_json : Bool → ℕ → Bytes
summary_json liked count =
    b'{' ∷ name (bytes "liked")
    ++ show_bool liked
    ++ b',' ∷ name (bytes "likeCount")
    ++ decimal count
    ++ b'}' ∷ []

-- The loops that write lists.
abbrev pub joined : List Bytes → Bytes
joined [] = []
joined (x ∷ []) = x
joined (x ∷ y ∷ xs) = let rest = joined (y ∷ xs) in x ++ b',' ∷ rest

-- artworkJson
unfoldable pub artwork_json : ArtworkInfo → ArtworkInteractionResult → Bytes
artwork_json a r =
    b'{' ∷ name (bytes "artworkId")
    ++ written a.id
    ++ b',' ∷ name (bytes "title")
    ++ written a.title
    ++ b',' ∷ name (bytes "text")
    ++ written a.text
    ++ b',' ∷ name (bytes "images")
    ++ b'[' ∷ joined (map written a.images)
    ++ b']' ∷ b',' ∷ name (bytes "likeCount")
    ++ decimal r.like_count
    ++ b',' ∷ name (bytes "commentCount")
    ++ decimal r.comment_count
    ++ b',' ∷ name (bytes "liked")
    ++ show_bool r.liked
    ++ b'}' ∷ []

abbrev pub comment_json : ArtworkComment → Bytes
comment_json c =
    b'{' ∷ name (bytes "id")
    ++ decimal c.id
    ++ b',' ∷ name (bytes "username")
    ++ written c.username
    ++ b',' ∷ name (bytes "content")
    ++ written c.content
    ++ b'}' ∷ []

-- commentsJson
unfoldable pub comments_json : ArtworkInteractionResult → Bytes
comments_json r =
    b'{' ∷ name (bytes "comments")
    ++ b'[' ∷ joined (map comment_json r.comments)
    ++ b']' ∷ b',' ∷ name (bytes "nextBefore")
    ++ decimal r.next_before
    ++ b'}' ∷ []

-- The callbacks that the handlers give to the service.
abbrev pub reply : (ArtworkInteractionResult → Bytes) → Bytes → ArtworkInteractionResult → Response
reply body id r = if is_ok r.status then make_api_success (body r) [] else failure r id

abbrev pub detail_reply : Option ArtworkInfo → Bytes → ArtworkInteractionResult → Response
detail_reply (some a) id r = reply (artwork_json a) id r
detail_reply none id r = if is_ok r.status then failure (result not_found) id else failure r id

-- The path of a null service_.
unfoldable pub unavailable_reply : Request → Response
unavailable_reply request = failure (result unavailable) (attribute (bytes "request_id") request)

abbrev pub or_nothing : Option Bytes → Bytes
or_nothing none = []
or_nothing (some s) = s

abbrev pub is_some : Option Bytes → Bool
is_some none = false
is_some (some s) = true

abbrev pub comment_id_json : ArtworkInteractionResult → Bytes
comment_id_json r = b'{' ∷ name (bytes "commentId") ++ decimal r.comment_id ++ b'}' ∷ []

abbrev pub summary_of_result : ArtworkInteractionResult → Bytes
summary_of_result r = summary_json r.liked r.like_count

module _ (strtoull : Bytes → Option ℕ) where
  -- The value of a text that is not negative, `none` where strtoull leaves the range or characters.
  abbrev pub unsigned_text : Bytes → Option ℕ
  unsigned_text [] = some 0
  unsigned_text (c ∷ cs) = let parsed = strtoull (c ∷ cs) in if c == b'-' then none else parsed

  -- unsignedParameter
  unfoldable pub unsigned_parameter : Request → Bytes → Option ℕ
  unsigned_parameter request key = elim (lookup key (query_parameters request).0) [
    | none ↦ some 0
    | some s ↦ unsigned_text s
  ]

  module _ {W : Type 0} (service : Option (ArtworkInteractionService W)) where
    -- ArtworkInteractionHandlers::comments
    unfoldable pub comments_handler : Request → W → Response × W
    comments_handler request w =
        let id : Bytes = attribute (bytes "request_id") request in
        elim service [
          | none ↦ (unavailable_reply request, w)
          | some s ↦ elim (unsigned_parameter request (bytes "before")) [
            | none ↦ (
              make_api_error http_bad_request (bytes "INVALID_PAGINATION")
                  (bytes "before and limit must be unsigned integers") id,
              w,
            )
            | some before ↦ elim (unsigned_parameter request (bytes "limit")) [
              | none ↦ (
                make_api_error http_bad_request (bytes "INVALID_PAGINATION")
                    (bytes "before and limit must be unsigned integers") id,
                w,
              )
              | some limit ↦
                  let out : ArtworkInteractionResult × W =
                    list_artwork_comments s (path_parameter (bytes "artworkId") request) before
                      (min limit (2 ^ 32 - 1)) w in
                  (reply comments_json id out.0, out.1)
            ]
          ]
        ]

module _ {W : Type 0} (service : Option (ArtworkInteractionService W)) where
  -- ArtworkInteractionHandlers::detail; `found` is what findArtwork finds.
  unfoldable pub detail_handler : (Bytes → Option ArtworkInfo) → Request → W → Response × W
  detail_handler found request w =
      let artwork : Bytes = path_parameter (bytes "artworkId") request in
      elim service [
        | none ↦ (unavailable_reply request, w)
        | some s ↦
            let out : ArtworkInteractionResult × W =
              detail s (attribute (bytes "auth.token") request) artwork w in
            (detail_reply (found artwork) (attribute (bytes "request_id") request) out.0, out.1)
      ]

  -- ArtworkInteractionHandlers::like
  unfoldable pub like_handler : Request → W → Response × W
  like_handler request w = elim service [
    | none ↦ (unavailable_reply request, w)
    | some s ↦
        let out : ArtworkInteractionResult × W =
          like_artwork s (attribute (bytes "auth.token") request)
            (path_parameter (bytes "artworkId") request) w in
        (reply summary_of_result (attribute (bytes "request_id") request) out.0, out.1)
  ]

  -- ArtworkInteractionHandlers::unlike
  unfoldable pub unlike_handler : Request → W → Response × W
  unlike_handler request w = elim service [
    | none ↦ (unavailable_reply request, w)
    | some s ↦
        let out : ArtworkInteractionResult × W =
          unlike_artwork s (attribute (bytes "auth.token") request)
            (path_parameter (bytes "artworkId") request) w in
        (reply summary_of_result (attribute (bytes "request_id") request) out.0, out.1)
  ]

  -- ArtworkInteractionHandlers::comment; `comment_content` is what the JSON library finds in the body.
  unfoldable pub comment_handler : (Bytes → Option Bytes) → Request → W → Response × W
  comment_handler comment_content request w =
      let content : Option Bytes = comment_content request.body in
      elim service [
        | none ↦ (unavailable_reply request, w)
        | some s ↦
            let out : ArtworkInteractionResult × W =
              comment_request s (attribute (bytes "auth.token") request)
                (path_parameter (bytes "artworkId") request) (or_nothing content) (is_some content)
                w in
            (reply comment_id_json (attribute (bytes "request_id") request) out.0, out.1)
      ]
