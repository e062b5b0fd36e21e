-- ===== src/Database/ArtworkDao.antt =====
-- Likes and comments of artworks in MySQL: include/db/ArtworkInteractionDAO.h and
-- src/db/ArtworkInteractionDAO.cpp. The C interface of MySQL is a parameter.
pub mod Likes
mod Tests
use jingjie_ar.Prelude.{
  ℕ, zero, suc, ◌+◌, ◌-◌, ◌*◌, ◌/◌, ◌%◌, ◌^◌, ◌≤◌, ◌<◌, min, max, ◌≡◌, refl, sym, ap, ap₂, ◌∙◌,
  subst, ◌≢◌, ◌↔◌, ◌⊎◌, inl, inr, Bool, true, false, not, ◌&&◌, ◌||◌, Option, none, some, List, [],
  ◌∷◌, ◌++◌, map, reverse, append-nil, append_assoc, reverse-cons, arith, ltb, leb, if◌then◌else◌,
  ltb→lt, lt→ltb, leb→le, nat_beq_iff, tests, Bool-cases, if_ind, Option-cases, some_inj, Eq, ◌==◌,
  ==_iff, ==_refl, nat_eq, list_eq, lookup, insert, erase, has_key, lookup-insert,
  lookup-insert_self, lookup-erase, has_key-insert, IsMap, insert-IsMap, insert_new, AreApart,
  AreApart-insert, AreApart-nil, length, get_elem?, set, get_or, take, drop, replicate,
  length-append, length-take, length-drop, length-replicate, length-map, take-append-drop,
  drop_of_length-le, take_of_length-le, drop_nil, take_nil, drop-drop, drop-take, take-take_le,
  drop-append_le, take-append_le, take-append_ge, drop-append_ge, take-append_length,
  drop-append_length,
}
use jingjie_ar.Database.{
  Value, number, text, Answer, failed, done, MySql, bound_statement, insert_id, affected_rows,
  rows_of, succeeded, ends_well,
}
use jingjie_ar.Text.{Bytes, bytes}

pub record ArtworkComment : Type 0 where
  pub id : ℕ
  pub username : Bytes
  pub content : Bytes

-- What LikeCallback receives.
pub record LikeOutcome : Type 0 where
  pub ok : Bool
  pub changed : Bool
  pub count : ℕ
  pub liked : Bool

-- What SummaryCallback receives.
pub record SummaryOutcome : Type 0 where
  pub ok : Bool
  pub like_count : ℕ
  pub liked : Bool
  pub comment_count : ℕ

-- What CommentsCallback receives.
pub record CommentsOutcome : Type 0 where
  pub ok : Bool
  pub comments : List ArtworkComment
  pub next_before : ℕ

abbrev pub summary_sql : Bytes
summary_sql =
    bytes
      "SELECT (SELECT COUNT(*) FROM artwork_likes WHERE artwork_id = ?), EXISTS(SELECT 1 FROM artwork_likes WHERE artwork_id = ? AND user_id = ?), (SELECT COUNT(*) FROM artwork_comments WHERE artwork_id = ?)"

abbrev pub like_sql : Bytes
like_sql = bytes "INSERT INTO artwork_likes (artwork_id, user_id) VALUES (?, ?)"

abbrev pub unlike_sql : Bytes
unlike_sql = bytes "DELETE FROM artwork_likes WHERE artwork_id = ? AND user_id = ?"

abbrev pub comment_sql : Bytes
comment_sql = bytes "INSERT INTO artwork_comments (artwork_id, user_id, content) VALUES (?, ?, ?)"

abbrev pub comments_sql : Bytes
comments_sql =
    bytes
      "SELECT c.id, u.username, c.content FROM artwork_comments c JOIN users u ON u.id = c.user_id WHERE c.artwork_id = ? AND c.id < ? ORDER BY c.id DESC LIMIT ?"

-- ER_DUP_ENTRY of mysqld_error.h
abbrev pub er_dup_entry : ℕ
er_dup_entry = 1062

abbrev no_summary : SummaryOutcome
no_summary = record { ok = false; like_count = 0; liked = false; comment_count = 0 }

-- What is read of the one row of the summary.
unfoldable pub summary_of : List (List Value) → SummaryOutcome
summary_of ((number n ∷ number l ∷ number c ∷ []) ∷ rows) = record {
  ok = true;
  like_count = n;
  liked = not (l == 0);
  comment_count = c;
}
summary_of rows = no_summary

-- The comment that the columns of a row bind.
unfoldable pub comment_of : List Value → Option ArtworkComment
comment_of (number id ∷ text name ∷ text content ∷ []) =
    some (record { id = id; username = name; content = content })
comment_of row = none

abbrev with_comment : Option ArtworkComment → List ArtworkComment → List ArtworkComment
with_comment none cs = cs
with_comment (some c) cs = c ∷ cs

-- The loop over the rows of listComments.
unfoldable pub comments_of : List (List Value) → List ArtworkComment
comments_of [] = []
comments_of (row ∷ rows) = with_comment (comment_of row) (comments_of rows)

-- The id of the last comment.
unfoldable pub last_id : List ArtworkComment → ℕ → ℕ
last_id [] next_before = next_before
last_id (c ∷ cs) next_before = last_id cs c.id

-- The row limit that is bound.
abbrev pub row_limit : ℕ → ℕ
row_limit limit = if ltb 20 limit then 20 else if limit == 0 then 20 else limit

-- The cursor that is bound.
abbrev pub cursor : ℕ → ℕ
cursor before_id = if before_id == 0 then 2 ^ 64 - 1 else before_id

-- Whether the change is followed by a reading of the counts.
unfoldable pub change_ok : Bool → Answer → Bool
change_ok duplicate_is_success (done n id rows e) = true
change_ok duplicate_is_success (failed e) = duplicate_is_success && (e == er_dup_entry)

module _ {D : Type 0} (sql : MySql D) where
  -- querySummary
  unfoldable pub query_summary : Bytes → ℕ → D → SummaryOutcome × D
  query_summary artwork user d =
      let out : Answer × D =
        bound_statement sql summary_sql
          (text artwork ∷ text artwork ∷ number user ∷ text artwork ∷ []) d in
      (summary_of (rows_of out.0), out.1)

  -- The counts that the callback of changeLike receives.
  unfoldable pub counted : Bool → Bytes → ℕ → D → LikeOutcome × D
  counted changed artwork user d =
      let out : SummaryOutcome × D = query_summary artwork user d in
      (
        record {
          ok = out.0.ok;
          changed = changed;
          count = (if out.0.ok then out.0.like_count else 0);
          liked = out.0.ok && out.0.liked;
        },
        out.1,
      )

  -- changeLike
  unfoldable pub change_like : Bytes → Bool → Bytes → ℕ → D → LikeOutcome × D
  change_like words duplicate_is_success artwork user d =
      let out : Answer × D = bound_statement sql words (text artwork ∷ number user ∷ []) d in
      if change_ok duplicate_is_success out.0
      then counted (succeeded out.0 && ltb 0 (affected_rows out.0)) artwork user out.1
      else (record { ok = false; changed = false; count = 0; liked = false }, out.1)

  -- ArtworkInteractionDAO::like
  unfoldable pub like : Bytes → ℕ → D → LikeOutcome × D
  like = change_like like_sql true

  -- ArtworkInteractionDAO::unlike
  unfoldable pub unlike : Bytes → ℕ → D → LikeOutcome × D
  unlike = change_like unlike_sql false

  -- ArtworkInteractionDAO::summary
  unfoldable pub summary : Bytes → ℕ → D → SummaryOutcome × D
  summary = query_summary

  -- ArtworkInteractionDAO::createComment
  unfoldable pub create_comment : Bytes → ℕ → Bytes → D → (Bool × ℕ) × D
  create_comment artwork user content d =
      let out : Answer × D =
        bound_statement sql comment_sql (text artwork ∷ number user ∷ text content ∷ []) d in
      ((succeeded out.0, insert_id out.0), out.1)

  -- ArtworkInteractionDAO::listComments
  unfoldable pub list_comments : Bytes → ℕ → ℕ → D → CommentsOutcome × D
  list_comments artwork before_id limit d =
      let out : Answer × D =
        bound_statement sql comments_sql
          (text artwork ∷ number (cursor before_id) ∷ number (row_limit limit) ∷ []) d in
      if ends_well out.0
      then (
        record {
          ok = true;
          comments = comments_of (rows_of out.0);
          next_before = last_id (comments_of (rows_of out.0)) 0;
        },
        out.1,
      )
      else (record { ok = false; comments = []; next_before = 0 }, out.1)
