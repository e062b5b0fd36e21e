-- ===== src/Database/ArtworkDao/Tests.antt =====
-- A table of likes on which the theorem on the DAO of src/db/ArtworkInteractionDAO.cpp applies.
use jingjie_ar.Prelude.{
  ℕ, ◌≡◌, refl, Bool, true, false, not, List, [], ◌∷◌, if◌then◌else◌, ◌==◌, nat_eq, list_eq,
}
use jingjie_ar.Database.ArtworkDao.Likes.{
  likes_it, likes_of, without, Inserted, IsLikeTable, IsReported, like-IsReported,
}
use jingjie_ar.Database.ArtworkDao.{
  like_sql, unlike_sql, summary_sql, summary_of, comment_of, comments_of, last_id, change_ok,
  counted, query_summary, change_like, like, unlike, list_comments, er_dup_entry,
}
use jingjie_ar.Database.{MySql, Value, number, text, Answer, failed, done, bound_statement}
use jingjie_ar.Text.{Bytes, bytes}

program : Unit {0}
unfolding like unlike change_like counted query_summary summary_of change_ok bound_statement
    comment_of comments_of last_id list_comments
program = tt

abbrev Likes : Type 0
Likes = List (Bytes × ℕ)

abbrev insert_like : Bytes → ℕ → Likes → Bool → Answer × Likes
insert_like a u ls true = (failed er_dup_entry, ls)
insert_like a u ls false = (done 1 0 [] true, (a, u) ∷ ls)

abbrev run_like : List Value → Likes → Answer × Likes
run_like (text a ∷ number u ∷ []) ls = insert_like a u ls (likes_it a u ls)
run_like ps ls = (failed 1, ls)

abbrev run_unlike : List Value → Likes → Answer × Likes
run_unlike (text a ∷ number u ∷ []) ls =
    (done (if likes_it a u ls then 1 else 0) 0 [] true, without a u ls)
run_unlike ps ls = (failed 1, ls)

abbrev flag : Bool → ℕ
flag true = 1
flag false = 0

abbrev run_summary : List Value → Likes → Answer × Likes
run_summary (text a ∷ text b ∷ number u ∷ text c ∷ []) ls = (
  done 0 0 ((number (likes_of a ls) ∷ number (flag (likes_it b u ls)) ∷ number 0 ∷ []) ∷ []) true,
  ls,
)
run_summary ps ls = (failed 1, ls)

-- Two comments, the second of which is older.
abbrev two_comments : List (List Value)
two_comments =
    (number 9 ∷ text (bytes "ann") ∷ text (bytes "hi") ∷ [])
    ∷ (number 4 ∷ text (bytes "bob") ∷ text (bytes "oh") ∷ [])
    ∷ []

abbrev likes_sql : MySql Likes
likes_sql = record {
  prepares = λ words d. true;
  binds = λ words ps d. true;
  execute = λ words ps d.
      if words == like_sql
      then run_like ps d
      else if words == unlike_sql
      then run_unlike ps d
      else if words == summary_sql
      then run_summary ps d
      else (done 0 0 two_comments true, d);
}

Inserted-insert_like :
    (a : Bytes) (u : ℕ) (ls : Likes) (b : Bool)
    → likes_it a u ls ≡ b
    → Inserted a u ls (insert_like a u ls b).0 (insert_like a u ls b).1
Inserted-insert_like a u ls true e = (refl, λ h. e)
Inserted-insert_like a u ls false e = (e, refl, refl)

flag_lem : (b : Bool) → not (flag b == 0) ≡ b
flag_lem true = refl
flag_lem false = refl

likes_sql-IsLikeTable : IsLikeTable likes_sql (λ d. d)
unfolding summary_of
likes_sql-IsLikeTable = record {
  inserts = λ a u d. Inserted-insert_like a u d (likes_it a u d) refl;
  deletes = λ a u d. (refl, refl);
  counts = λ a u d h. (refl, flag_lem (likes_it a u d));
  summary_keeps = λ a u d. refl;
}

abbrev some_likes : Likes
some_likes = (bytes "a1", 7) ∷ (bytes "a1", 8) ∷ (bytes "a2", 7) ∷ []

like_twice :
    (like likes_sql (bytes "a1") 7 some_likes).0
    ≡ record { ok = true; changed = false; count = 2; liked = true }
unfolding program
like_twice = refl

next_before_last : (list_comments likes_sql (bytes "a1") 0 0 some_likes).0.next_before ≡ 4
unfolding program
next_before_last = refl

like-IsReported_example :
    ((like likes_sql (bytes "a1") 9 some_likes).0.ok ≡ true
      → IsReported likes_sql
          (λ d. d)
          likes_sql-IsLikeTable
          (bytes "a1")
          9
          true
          true
          (like likes_sql (bytes "a1") 9 some_likes))
    × ((unlike likes_sql (bytes "a1") 9 some_likes).0.ok ≡ true
        → IsReported likes_sql
            (λ d. d)
            likes_sql-IsLikeTable
            (bytes "a1")
            9
            false
            false
            (unlike likes_sql (bytes "a1") 9 some_likes))
unfolding program
like-IsReported_example =
    like-IsReported likes_sql (λ d. d) likes_sql-IsLikeTable (bytes "a1") 9 some_likes
