-- ===== src/Services/Scene/Tests.antt =====
-- Requests on which the theorem on scenes applies.
use jingjie_ar.Prelude.{◌≡◌, refl, Option, some, List, [], ◌∷◌, ◌++◌, nat_eq, list_eq}
use jingjie_ar.Database.SessionDao.Sample.{table_sql}
use jingjie_ar.Database.SessionDao.Table.{SessionRow, new_row, ended}
use jingjie_ar.Database.SessionDao.{find_session_by_token, session_of}
use jingjie_ar.Database.{statement}
use jingjie_ar.Services.Sessions.{SessionStore, get}
use jingjie_ar.Services.Sessions.Stores.{dao_session_store}
use jingjie_ar.Services.Artwork.{unauthorized}
use jingjie_ar.Services.Scene.Field.{json_string_field}
use jingjie_ar.Services.Scene.Reading.{json_string_field-escape, body_with_content}
use jingjie_ar.Services.Scene.{
  scene_exists, scene_authenticate, scene_session, find_scene, comment_scene,
}
use jingjie_ar.Services.Scene.Writes.{service}
use jingjie_ar.Text.{bytes}

program : Unit {0}
unfolding find_session_by_token session_of statement get find_scene comment_scene scene_exists
    scene_authenticate scene_session
program = tt

abbrev closed_row : List SessionRow
closed_row = ended (new_row 1 7 (bytes "tok1") (bytes "vignaioli")) ∷ []

abbrev store : Option (SessionStore (List SessionRow))
store = some (dao_session_store (some table_sql))

-- A session that has ended comments nothing.
ended_comment :
    (comment_scene
      (service store (some table_sql))
      (bytes "tok1")
      (bytes "vignaioli")
      (bytes "hi")
      closed_row).0.status
    ≡ unauthorized
unfolding program
ended_comment = refl

json_string_field-escape_example :
    json_string_field
      (body_with_content (b'{' ∷ []) (b' ' ∷ []) (b' ' ∷ []) (bytes "a b" ++ 10 ∷ []) (b'}' ∷ []))
      (bytes "content")
    ≡ some (bytes "a b" ++ 10 ∷ [])
json_string_field-escape_example =
    json_string_field-escape (b'{' ∷ []) (b' ' ∷ []) (b' ' ∷ []) (bytes "a b" ++ 10 ∷ [])
      (b'}' ∷ []) refl refl refl refl
