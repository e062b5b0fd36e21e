-- ===== src/Database/ArtworkDao/Likes.antt =====
-- The likes behind src/db/ArtworkInteractionDAO.cpp as a set: the table `artwork_likes` of
-- sql/jingjie_ar_schema.sql, whose primary key is the artwork with the user.
use jingjie_ar.Database.{
  affected_rows, succeeded, MySql, number, text, Answer, failed, done, rows_of, bound_statement,
}
use jingjie_ar.Database.ArtworkDao.{
  unlike, change_ok, counted, change_like, like, LikeOutcome, like_sql, unlike_sql, summary_sql,
  summary_of, query_summary, er_dup_entry,
}
use jingjie_ar.Prelude.{
  ℕ, suc, ◌≡◌, refl, subst, inl, inr, Bool, true, false, not, ◌&&◌, ◌||◌, List, [], ◌∷◌, arith, ltb,
  if◌then◌else◌, Bool-cases, if_ind, ◌==◌, ==_refl, nat_eq, list_eq,
}
use jingjie_ar.Text.{Bytes}

-- Whether a user likes an artwork, and how many do.
abbrev pub likes_it : Bytes → ℕ → List (Bytes × ℕ) → Bool
likes_it a u [] = false
likes_it a u ((b, v) ∷ ls) = (b == a && v == u) || likes_it a u ls

abbrev pub likes_of : Bytes → List (Bytes × ℕ) → ℕ
likes_of a [] = 0
likes_of a ((b, v) ∷ ls) = let n = likes_of a ls in if b == a then suc n else n

abbrev pub without : Bytes → ℕ → List (Bytes × ℕ) → List (Bytes × ℕ)
without a u [] = []
without a u ((b, v) ∷ ls) =
    let rest = without a u ls in if b == a && v == u then rest else (b, v) ∷ rest

-- The effect of the three statements on the rows of the table.
abbrev pub Inserted : Bytes → ℕ → List (Bytes × ℕ) → Answer → List (Bytes × ℕ) → Type 0
Inserted a u before (done n id rows e) after =
    (likes_it a u before ≡ false) × (n ≡ 1) × (after ≡ (a, u) ∷ before)
Inserted a u before (failed e) after =
    (after ≡ before) × ((e == er_dup_entry) ≡ true → likes_it a u before ≡ true)

abbrev pub Deleted : Bytes → ℕ → List (Bytes × ℕ) → Answer → List (Bytes × ℕ) → Type 0
Deleted a u before (done n id rows e) after =
    (n ≡ (if likes_it a u before then 1 else 0)) × (after ≡ without a u before)
Deleted a u before (failed e) after = after ≡ before

pub record IsLikeTable {D : Type 0} (sql : MySql D) (likes : D → List (Bytes × ℕ)) : Type 0 where
  pub inserts :
      (a : Bytes) (u : ℕ) (d : D)
      → let out : Answer × D = sql.execute like_sql (text a ∷ number u ∷ []) d in
        Inserted a u (likes d) out.0 (likes out.1)
  pub deletes :
      (a : Bytes) (u : ℕ) (d : D)
      → let out : Answer × D = sql.execute unlike_sql (text a ∷ number u ∷ []) d in
        Deleted a u (likes d) out.0 (likes out.1)
  pub counts :
      (a : Bytes) (u : ℕ) (d : D)
      → (summary_of
          (rows_of (sql.execute summary_sql (text a ∷ text a ∷ number u ∷ text a ∷ []) d).0)).ok
        ≡ true
      → ((summary_of (
            rows_of
              (sql.execute summary_sql (text a ∷ text a ∷ number u ∷ text a ∷ []) d).0)).like_count
          ≡ likes_of a (likes d))
        × ((summary_of (
              rows_of
                (sql.execute summary_sql (text a ∷ text a ∷ number u ∷ text a ∷ []) d).0)).liked
            ≡ likes_it a u (likes d))
  pub summary_keeps :
      (a : Bytes) (u : ℕ) (d : D)
      → likes (sql.execute summary_sql (text a ∷ text a ∷ number u ∷ text a ∷ []) d).1 ≡ likes d

likes_it-without :
    (a : Bytes) (u : ℕ) (ls : List (Bytes × ℕ)) → likes_it a u (without a u ls) ≡ false
likes_it-without a u [] = refl
likes_it-without a u ((b, v) ∷ ls) = elim (Bool-cases (b == a && v == u)) [
  | inl e ↦ rw e (likes_it-without a u ls)
  | inr e ↦ rw e (rw e (likes_it-without a u ls))
]

no_rows : (summary_of []).ok ≡ false
unfolding summary_of
no_rows = refl

liked_after :
    (a : Bytes) (u : ℕ) (before after : List (Bytes × ℕ)) (answer : Answer)
    → Inserted a u before answer after
    → change_ok true answer ≡ true
    → (likes_it a u after ≡ true)
      × ((succeeded answer && ltb 0 (affected_rows answer)) ≡ not (likes_it a u before))
unfolding change_ok
liked_after a u before after (done n id rows e) (new, one, at) h =
    (rw at (rw (==_refl a, ==_refl u) refl), rw (new, one) refl)
liked_after a u before after (failed e) (at, had) h =
    (rw at (had (ground (arith, h))), rw (had (ground (arith, h))) refl)

unliked_after :
    (a : Bytes) (u : ℕ) (before after : List (Bytes × ℕ)) (answer : Answer)
    → Deleted a u before answer after
    → change_ok false answer ≡ true
    → (likes_it a u after ≡ false)
      × ((succeeded answer && ltb 0 (affected_rows answer)) ≡ likes_it a u before)
unfolding change_ok
unliked_after a u before after (done n id rows e) (count, at) h =
    (rw at (likes_it-without a u before), rw count (positive (likes_it a u before)))
  where
    positive : (b : Bool) → ltb 0 (if b then 1 else 0) ≡ b
    positive true = refl
    positive false = refl
unliked_after a u before after (failed e) at h = ground (arith, h)

module _ {D : Type 0} (sql : MySql D) (likes : D → List (Bytes × ℕ))
    (laws : IsLikeTable sql likes) where
  -- What a successful change reports, for the table after it.
  abbrev pub IsReported : Bytes → ℕ → Bool → Bool → LikeOutcome × D → Type 0
  IsReported a u liked changed out =
      (likes_it a u (likes out.1) ≡ liked)
      × (out.0.liked ≡ liked)
      × (out.0.count ≡ likes_of a (likes out.1))
      × (out.0.changed ≡ changed)

  query_summary_lem :
      (a : Bytes) (u : ℕ) (d : D)
      → (query_summary sql a u d).0.ok ≡ true
      → ((query_summary sql a u d).0.like_count ≡ likes_of a (likes d))
        × ((query_summary sql a u d).0.liked ≡ likes_it a u (likes d))
        × (likes (query_summary sql a u d).1 ≡ likes d)
  unfolding query_summary bound_statement
  query_summary_lem a u d =
      elim (Bool-cases (
        sql.prepares summary_sql d
        && sql.binds summary_sql (text a ∷ text a ∷ number u ∷ text a ∷ []) d)) [
          | inl e ↦
              rw e
                (λ h. ((laws.counts a u d h).0, (laws.counts a u d h).1, laws.summary_keeps a u d))
          | inr e ↦ rw e (λ h. ground (arith, no_rows, h))
        ]

  counted-IsReported :
      (changed : Bool) (a : Bytes) (u : ℕ) (d : D) (liked : Bool)
      → likes_it a u (likes d) ≡ liked
      → (counted sql changed a u d).0.ok ≡ true
      → IsReported a u liked changed (counted sql changed a u d)
  unfolding counted
  counted-IsReported changed a u d liked at h =
      let q = query_summary_lem a u d h in (rw q.2 at, rw (h, q.1) at, rw (h, q.2) q.0, refl)

  change_like-IsReported :
      (words : Bytes) (dup : Bool) (a : Bytes) (u : ℕ) (d : D) (liked changed : Bool)
      → (change_ok dup (bound_statement sql words (text a ∷ number u ∷ []) d).0 ≡ true
          → (likes_it a u (likes (bound_statement sql words (text a ∷ number u ∷ []) d).1) ≡ liked)
            × ((succeeded (bound_statement sql words (text a ∷ number u ∷ []) d).0
                  && ltb 0 (affected_rows (bound_statement sql words (text a ∷ number u ∷ []) d).0))
                ≡ changed))
      → (change_like sql words dup a u d).0.ok ≡ true
      → IsReported a u liked changed (change_like sql words dup a u d)
  unfolding change_like
  change_like-IsReported words dup a u d liked changed f =
      let out : Answer × D = bound_statement sql words (text a ∷ number u ∷ []) d in
      if_ind (λ (x : LikeOutcome × D). x.0.ok ≡ true → IsReported a u liked changed x)
        (change_ok dup out.0)
        (λ e h.
          subst
            (λ c.
              IsReported a u liked c
                (counted sql (succeeded out.0 && ltb 0 (affected_rows out.0)) a u out.1))
            (f e).1
            (counted-IsReported (succeeded out.0 && ltb 0 (affected_rows out.0)) a u out.1 liked
              (f e).0 h))
        (λ e h. ground (arith, h))

  like_statement :
      (a : Bytes) (u : ℕ) (d : D)
      → change_ok true (bound_statement sql like_sql (text a ∷ number u ∷ []) d).0 ≡ true
      → (likes_it a u (likes (bound_statement sql like_sql (text a ∷ number u ∷ []) d).1) ≡ true)
        × ((succeeded (bound_statement sql like_sql (text a ∷ number u ∷ []) d).0
              && ltb 0 (affected_rows (bound_statement sql like_sql (text a ∷ number u ∷ []) d).0))
            ≡ not (likes_it a u (likes d)))
  unfolding bound_statement change_ok
  like_statement a u d =
      elim (Bool-cases (sql.prepares like_sql d && sql.binds like_sql (text a ∷ number u ∷ []) d)) [
        | inl e ↦ rw e (
            liked_after a u (likes d) (likes (sql.execute like_sql (text a ∷ number u ∷ []) d).1)
              (sql.execute like_sql (text a ∷ number u ∷ []) d).0 (laws.inserts a u d))
        | inr e ↦ rw e (λ h. ground (arith, h))
      ]

  unlike_statement :
      (a : Bytes) (u : ℕ) (d : D)
      → change_ok false (bound_statement sql unlike_sql (text a ∷ number u ∷ []) d).0 ≡ true
      → (likes_it a u (likes (bound_statement sql unlike_sql (text a ∷ number u ∷ []) d).1) ≡ false)
        × ((succeeded (bound_statement sql unlike_sql (text a ∷ number u ∷ []) d).0
              && ltb 0
                  (affected_rows (bound_statement sql unlike_sql (text a ∷ number u ∷ []) d).0))
            ≡ likes_it a u (likes d))
  unfolding bound_statement change_ok
  unlike_statement a u d =
      elim (Bool-cases
        (sql.prepares unlike_sql d && sql.binds unlike_sql (text a ∷ number u ∷ []) d)) [
          | inl e ↦ rw e (
              unliked_after a u (likes d)
                (likes (sql.execute unlike_sql (text a ∷ number u ∷ []) d).1)
                (sql.execute unlike_sql (text a ∷ number u ∷ []) d).0 (laws.deletes a u d))
          | inr e ↦ rw e (λ h. ground (arith, h))
        ]

  -- A like that succeeds, and an unlike that succeeds, leave the user among those who like the artwork
  -- or not among them, report so, and report the number of likes of the artwork then and whether the
  -- call changed anything, so that a repeated like that succeeds reports no change.
  pub like-IsReported :
      (a : Bytes) (u : ℕ) (d : D)
      → ((like sql a u d).0.ok ≡ true
          → IsReported a u true (not (likes_it a u (likes d))) (like sql a u d))
        × ((unlike sql a u d).0.ok ≡ true
            → IsReported a u false (likes_it a u (likes d)) (unlike sql a u d))
  unfolding like unlike
  like-IsReported a u d = (
    change_like-IsReported like_sql true a u d true (not (likes_it a u (likes d)))
        (like_statement a u d),
    change_like-IsReported unlike_sql false a u d false (likes_it a u (likes d))
        (unlike_statement a u d),
  )
