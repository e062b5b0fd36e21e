-- ===== src/Database/SceneDao.antt =====
-- Likes and comments of scenes in MySQL: include/db/SceneInteractionDAO.h and
-- src/db/SceneInteractionDAO.cpp. The C interface of MySQL is a parameter.
use jingjie_ar.Prelude.{ℕ, Bool, true, false, List, [], ◌∷◌, ltb, if◌then◌else◌, nat_eq, list_eq}
use jingjie_ar.Database.ArtworkDao.{CommentsOutcome, comments_of, last_id, cursor, row_limit}
use jingjie_ar.Database.{
  Value, number, text, Answer, MySql, bound_statement, insert_id, affected_rows, rows_of, succeeded,
}
use jingjie_ar.Text.{Bytes, bytes}

abbrev pub like_count_sql : Bytes
like_count_sql = bytes "SELECT COUNT(*) FROM scene_likes WHERE scene_id = ?"

abbrev pub scene_like_sql : Bytes
scene_like_sql = bytes "INSERT IGNORE INTO scene_likes (scene_id, user_id) VALUES (?, ?)"

abbrev pub scene_unlike_sql : Bytes
scene_unlike_sql = bytes "DELETE FROM scene_likes WHERE scene_id = ? AND user_id = ?"

abbrev pub scene_comment_sql : Bytes
scene_comment_sql = bytes "INSERT INTO scene_comments (scene_id, user_id, content) VALUES (?, ?, ?)"

abbrev pub scene_comments_sql : Bytes
scene_comments_sql =
    bytes
      "SELECT c.id, u.username, c.content FROM scene_comments c JOIN users u ON u.id = c.user_id WHERE c.scene_id = ? AND c.id < ? ORDER BY c.id DESC LIMIT ?"

-- What LikeCallback receives.
pub record SceneLikeOutcome : Type 0 where
  pub ok : Bool
  pub changed : Bool
  pub count : ℕ

-- The count that is read of the one row.
unfoldable pub count_of : List (List Value) → Bool × ℕ
count_of ((number n ∷ []) ∷ rows) = (true, n)
count_of rows = (false, 0)

module _ {D : Type 0} (sql : MySql D) where
  -- likeCount
  unfoldable pub like_count : Bytes → D → (Bool × ℕ) × D
  like_count scene d =
      let out : Answer × D = bound_statement sql like_count_sql (text scene ∷ []) d in
      (count_of (rows_of out.0), out.1)

  -- changeLike
  unfoldable pub change_scene_like : Bytes → Bytes → ℕ → D → SceneLikeOutcome × D
  change_scene_like words scene user d =
      let out : Answer × D = bound_statement sql words (text scene ∷ number user ∷ []) d in
      let counted : (Bool × ℕ) × D = like_count scene out.1 in
      if succeeded out.0
      then (
        record {
          ok = counted.0.0;
          changed = ltb 0 (affected_rows out.0);
          count = (if counted.0.0 then counted.0.1 else 0);
        },
        counted.1,
      )
      else (record { ok = false; changed = false; count = 0 }, out.1)

  -- SceneInteractionDAO::like
  unfoldable pub scene_like : Bytes → ℕ → D → SceneLikeOutcome × D
  scene_like = change_scene_like scene_like_sql

  -- SceneInteractionDAO::unlike
  unfoldable pub scene_unlike : Bytes → ℕ → D → SceneLikeOutcome × D
  scene_unlike = change_scene_like scene_unlike_sql

  -- SceneInteractionDAO::createComment
  unfoldable pub create_scene_comment : Bytes → ℕ → Bytes → D → (Bool × ℕ) × D
  create_scene_comment scene user content d =
      let out : Answer × D =
        bound_statement sql scene_comment_sql (text scene ∷ number user ∷ text content ∷ []) d in
      ((succeeded out.0, insert_id out.0), out.1)

  -- SceneInteractionDAO::summary
  unfoldable pub scene_summary : Bytes → D → (Bool × ℕ) × D
  scene_summary = like_count

  -- SceneInteractionDAO::listComments; the rows are taken up to the first that cannot be fetched.
  unfoldable pub list_scene_comments : Bytes → ℕ → ℕ → D → CommentsOutcome × D
  list_scene_comments scene before_id limit d =
      let out : Answer × D =
        bound_statement sql scene_comments_sql
          (text scene ∷ number (cursor before_id) ∷ number (row_limit limit) ∷ []) d in
      if succeeded out.0
      then (
        record {
          ok = true;
          comments = comments_of (rows_of out.0);
          next_before = last_id (comments_of (rows_of out.0)) 0;
        },
        out.1,
      )
      else (record { ok = false; comments = []; next_before = 0 }, out.1)
