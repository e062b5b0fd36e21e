-- ===== src/Services/Scene/Handlers.antt =====
-- The HTTP handlers of scenes: WebApps/ARServer/src/handlers/SceneInteractionHandlers.cpp. A handler gives
-- what it sends; strtoull of the C library and the data of the catalogue are parameters.
use jingjie_ar.Services.Scene.Field.{json_string_field}
use jingjie_ar.Prelude.{
  ℕ, ◌%◌, ◌^◌, false, Option, none, some, [], ◌∷◌, ◌++◌, map, if◌then◌else◌, nat_eq, list_eq,
  lookup,
}
use jingjie_ar.Services.Scene.{
  SceneInteractionResult, scene_result, SceneInteractionService, detail_scene, like_scene,
  unlike_scene, comments_of_scene, comment_scene,
}
use jingjie_ar.Services.Artwork.{ok, unauthorized, bad_request, not_found, unavailable, is_ok}
use jingjie_ar.Services.Artwork.Handlers.{name, written, show_bool, joined, comment_json}
use jingjie_ar.Services.Api.{
  quoted, make_api_error, http_bad_request, http_unauthorized, http_not_found, http_unavailable,
}
use jingjie_ar.Http.Request.{Request, attribute, path_parameter, query_parameters}
use jingjie_ar.Http.Response.{Response, decimal, make_response, set_content_type, set_body}
use jingjie_ar.Text.{Bytes, bytes, is_empty}

-- The switch of failure.
unfoldable pub scene_failure : SceneInteractionResult → Bytes → Response
scene_failure r id = elim r.status [
  | unauthorized ↦
      make_api_error http_unauthorized (bytes "UNAUTHORIZED")
        (bytes "authentication token is required") id
  | bad_request ↦
      make_api_error http_bad_request (bytes "BAD_REQUEST") (bytes "invalid comment content") id
  | not_found ↦ make_api_error http_not_found (bytes "SCENE_NOT_FOUND") (bytes "scene not found") id
  | unavailable ↦
      make_api_error http_unavailable (bytes "SERVICE_UNAVAILABLE")
        (bytes "scene interaction service unavailable") id
  | ok ↦ make_response false
]

-- sendResult
unfoldable pub send_result : SceneInteractionResult → Bytes → Bytes → Response
send_result r id body =
    if is_ok r.status
    then set_body body
        (set_content_type (bytes "application/json; charset=utf-8") (make_response false))
    else scene_failure r id

-- A scene of the catalogue.
pub record SceneInfo : Type 0 where
  pub id : Bytes
  pub title : Bytes
  pub panorama_url : Bytes
  pub preview_url : Bytes
  pub thumbnail_url : Bytes
  pub music_url : Bytes

-- sceneJson
unfoldable pub scene_json : SceneInfo → ℕ → Bytes
scene_json s likes =
    b'{' ∷ name (bytes "id")
    ++ written s.id
    ++ b',' ∷ name (bytes "name")
    ++ written s.title
    ++ b',' ∷ name (bytes "panorama_url")
    ++ written s.panorama_url
    ++ b',' ∷ name (bytes "preview_url")
    ++ written s.preview_url
    ++ b',' ∷ name (bytes "thumbnail_url")
    ++ written s.thumbnail_url
    ++ b',' ∷ name (bytes "music_url")
    ++ (if is_empty s.music_url then bytes "null" else written s.music_url)
    ++ b',' ∷ name (bytes "like_count")
    ++ decimal likes
    ++ b'}' ∷ []

-- The bodies of the other answers.
unfoldable pub like_body : SceneInteractionResult → Bytes
like_body r =
    b'{' ∷ name (bytes "status")
    ++ quoted (bytes "ok")
    ++ b',' ∷ name (bytes "liked")
    ++ show_bool r.liked
    ++ b',' ∷ name (bytes "like_count")
    ++ decimal r.like_count
    ++ b'}' ∷ []

unfoldable pub comment_body : SceneInteractionResult → Bytes
comment_body r =
    b'{' ∷ name (bytes "status")
    ++ quoted (bytes "ok")
    ++ b',' ∷ name (bytes "comment_id")
    ++ decimal r.next_before
    ++ b'}' ∷ []

unfoldable pub comments_body : SceneInteractionResult → Bytes
comments_body r =
    b'{' ∷ name (bytes "comments")
    ++ b'[' ∷ joined (map comment_json r.comments)
    ++ b']' ∷ b',' ∷ name (bytes "next_before")
    ++ decimal r.next_before
    ++ b'}' ∷ []

module _ {W : Type 0} (service : Option (SceneInteractionService W)) where
  abbrev request_id : Request → Bytes
  request_id request = attribute (bytes "request_id") request

  abbrev without_service : Request → W → Response × W
  without_service request w = (scene_failure (scene_result unavailable) (request_id request), w)

  -- SceneInteractionHandlers::detail; `found` is what the catalogue finds.
  unfoldable pub scene_detail_handler : (Bytes → Option SceneInfo) → Request → W → Response × W
  scene_detail_handler found request w =
      let scene : Bytes = path_parameter (bytes "sceneId") request in
      elim (found scene) [
        | none ↦ (scene_failure (scene_result not_found) (request_id request), w)
        | some info ↦ elim service [
          | none ↦ without_service request w
          | some s ↦
              let out : SceneInteractionResult × W = detail_scene s scene w in
              (send_result out.0 (request_id request) (scene_json info out.0.like_count), out.1)
        ]
      ]

  -- SceneInteractionHandlers::like
  unfoldable pub scene_like_handler : Request → W → Response × W
  scene_like_handler request w = elim service [
    | none ↦ without_service request w
    | some s ↦
        let out : SceneInteractionResult × W =
          like_scene s (attribute (bytes "auth.token") request)
            (path_parameter (bytes "sceneId") request) w in
        (send_result out.0 (request_id request) (like_body out.0), out.1)
  ]

  -- SceneInteractionHandlers::unlike
  unfoldable pub scene_unlike_handler : Request → W → Response × W
  scene_unlike_handler request w = elim service [
    | none ↦ without_service request w
    | some s ↦
        let out : SceneInteractionResult × W =
          unlike_scene s (attribute (bytes "auth.token") request)
            (path_parameter (bytes "sceneId") request) w in
        (send_result out.0 (request_id request) (like_body out.0), out.1)
  ]

  -- SceneInteractionHandlers::comment
  unfoldable pub scene_comment_handler : Request → W → Response × W
  scene_comment_handler request w = elim (json_string_field request.body (bytes "content")) [
    | none ↦ (
      make_api_error http_bad_request (bytes "BAD_REQUEST") (bytes "invalid comment content")
          (request_id request),
      w,
    )
    | some content ↦ elim service [
      | none ↦ without_service request w
      | some s ↦
          let out : SceneInteractionResult × W =
            comment_scene s (attribute (bytes "auth.token") request)
              (path_parameter (bytes "sceneId") request) content w in
          (send_result out.0 (request_id request) (comment_body out.0), out.1)
    ]
  ]

  abbrev or_zero : Option ℕ → ℕ
  or_zero none = 0
  or_zero (some n) = n

  abbrev parsed : (Bytes → Option ℕ) → Option Bytes → ℕ
  parsed strtoull none = 0
  parsed strtoull (some []) = 0
  parsed strtoull (some (c ∷ cs)) = or_zero (strtoull (c ∷ cs))

  -- numberParameter; `strtoull` gives a value where it reads the whole text.
  unfoldable pub number_parameter : (Bytes → Option ℕ) → Request → Bytes → ℕ
  number_parameter strtoull request key = parsed strtoull (lookup key (query_parameters request).0)

  -- SceneInteractionHandlers::comments
  unfoldable pub scene_comments_handler : (Bytes → Option ℕ) → Request → W → Response × W
  scene_comments_handler strtoull request w = elim service [
    | none ↦ without_service request w
    | some s ↦
        let out : SceneInteractionResult × W =
          comments_of_scene s (path_parameter (bytes "sceneId") request)
            (number_parameter strtoull request (bytes "before"))
            (number_parameter strtoull request (bytes "limit") % 2 ^ 32) w in
        (send_result out.0 (request_id request) (comments_body out.0), out.1)
  ]
