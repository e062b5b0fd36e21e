-- ===== src/Database/SessionDao/Revoked.antt =====
-- What a revoked session is after further calls of the DAO of src/db/SessionDAO.cpp.
use jingjie_ar.Database.SessionDao.Rows.{
  Calms-revoked, inactive-revoked, inactive-some, Calms-ended_id, inactive-Changes, is_there,
  inactive_there, inactive,
}
use jingjie_ar.Database.SessionDao.{
  end_session_sql, active_by_user_sql, revoke_sql, session_by_token_sql, create_session_sql,
  find_session_by_token, create_session, end_session, revoke_session, find_active_sessions_by_user,
}
use jingjie_ar.Database.{number, Value, text, bound_statement, statement, MySql, Answer}
use jingjie_ar.Database.SessionDao.Table.{
  row_of, IsSessionTable, SessionRow, find_row, active, ended_id, revoked,
}
use jingjie_ar.Caches.SessionCache.{DbSession}
use jingjie_ar.Prelude.{
  ℕ, ◌≡◌, inl, inr, true, false, ◌&&◌, some, List, [], ◌∷◌, arith, Bool-cases, if_ind, ◌==◌, ==_iff,
  nat_eq, list_eq,
}
use jingjie_ar.Text.{Bytes}

-- The calls on sessions, but for updateSessionScene.
pub data Call : Type 0 where
  finding : Bytes → Call
  listing : ℕ → Call
  creating : ℕ → Bytes → Bytes → Call
  ending : ℕ → Call
  revoking : Bytes → Call

module _ {D : Type 0} (sql : MySql D) where
  unfoldable pub run_call : Call → D → D
  run_call (finding t) d = (find_session_by_token sql t d).1
  run_call (listing user) d = (find_active_sessions_by_user sql user d).1
  run_call (creating user t scene) d = (create_session sql user t scene d).1
  run_call (ending id) d = (end_session sql id d).1
  run_call (revoking t) d = (revoke_session sql t d).1

  unfoldable pub run_calls : List Call → D → D
  run_calls [] d = d
  run_calls (c ∷ cs) d = run_calls cs (run_call c d)

module _ {D : Type 0} (sql : MySql D) (rows : D → List SessionRow)
    (laws : IsSessionTable sql rows) where
  -- A statement, prepared or not, keeps what its execution keeps.
  statement_keeps :
      (P : D → Type 0) (words : Bytes) (ps : List Value) (d : D)
      → P d
      → P (sql.execute words ps d).1
      → P (statement sql words ps d).1
  unfolding statement
  statement_keeps P words ps d p q =
      if_ind (λ (x : Answer × D). P x.1) (sql.prepares words d) (λ e. q) (λ e. p)

  bound_keeps :
      (P : D → Type 0) (words : Bytes) (ps : List Value) (d : D)
      → P d
      → P (sql.execute words ps d).1
      → P (bound_statement sql words ps d).1
  unfolding bound_statement
  bound_keeps P words ps d p q =
      if_ind (λ (x : Answer × D). P x.1) (sql.prepares words d && sql.binds words ps d) (λ e. q)
        (λ e. p)

  abbrev Calm : Bytes → D → Type 0
  Calm t d = inactive (find_row t (rows d)) ≡ true

  create_session-Calm :
      (user : ℕ) (q scene : Bytes) (t : Bytes) (d : D)
      → Calm t d
      → Calm t (sql.execute create_session_sql (text q ∷ number user ∷ text scene ∷ []) d).1
  create_session-Calm user q scene t d h = elim (laws.creates user q scene d) [
    | inl e ↦ rw e h
    | inr e ↦ rw e.1.1 (elim (Bool-cases (q == t)) [
      | inl m ↦ absurd (inactive_there (find_row q (rows d)) (rw ((==_iff q t).0 m) h) e.0)
      | inr m ↦ rw m h
    ])
  ]

  run_call-Calm : (c : Call) (t : Bytes) (d : D) → Calm t d → Calm t (run_call sql c d)
  unfolding run_call find_session_by_token create_session end_session revoke_session
      find_active_sessions_by_user
  run_call-Calm (finding q) t d h =
      statement_keeps (Calm t) session_by_token_sql (text q ∷ []) d h (rw (laws.find_keeps q d) h)
  run_call-Calm (listing user) t d h =
      statement_keeps (Calm t) active_by_user_sql (number user ∷ []) d h
        (rw (laws.list_keeps user d) h)
  run_call-Calm (creating user q scene) t d h =
      statement_keeps (Calm t) create_session_sql (text q ∷ number user ∷ text scene ∷ []) d h
        (create_session-Calm user q scene t d h)
  run_call-Calm (ending id) t d h = statement_keeps (Calm t) end_session_sql (number id ∷ []) d h (
      inactive-Changes (sql.execute end_session_sql (number id ∷ []) d).0 (ended_id id)
        (Calms-ended_id id) t (rows d) (rows (sql.execute end_session_sql (number id ∷ []) d).1)
        (laws.ends id d) h)
  run_call-Calm (revoking []) t d h = h
  run_call-Calm (revoking (c ∷ q)) t d h = bound_keeps (Calm t) revoke_sql (text (c ∷ q) ∷ []) d h (
      inactive-Changes (sql.execute revoke_sql (text (c ∷ q) ∷ []) d).0 (revoked (c ∷ q))
        (Calms-revoked (c ∷ q)) t (rows d) (rows (sql.execute revoke_sql (text (c ∷ q) ∷ []) d).1)
        (laws.revokes (c ∷ q) d) h)

  run_calls-Calm : (cs : List Call) (t : Bytes) (d : D) → Calm t d → Calm t (run_calls sql cs d)
  unfolding run_calls
  run_calls-Calm [] t d h = h
  run_calls-Calm (c ∷ cs) t d h = run_calls-Calm cs t (run_call sql c d) (run_call-Calm c t d h)

  pub found_row :
      (t : Bytes) (d : D) (s : DbSession)
      → (find_session_by_token sql t d).0 ≡ some s
      → find_row t (rows d) ≡ some (row_of s)
  unfolding find_session_by_token statement
  found_row t d s = elim (Bool-cases (sql.prepares session_by_token_sql d)) [
    | inl e ↦ rw e (laws.found t d s)
    | inr e ↦ rw e (λ h. ground (arith, h))
  ]

  pub revoke_session-Calm :
      (t : Bytes) (d : D)
      → is_there (find_row t (rows d)) ≡ true
      → (revoke_session sql t d).0 ≡ true
      → Calm t (revoke_session sql t d).1
  unfolding revoke_session bound_statement
  revoke_session-Calm [] d there = λ h. ground (arith, h)
  revoke_session-Calm (c ∷ t) d there =
      elim (Bool-cases (sql.prepares revoke_sql d && sql.binds revoke_sql (text (c ∷ t) ∷ []) d)) [
        | inl e ↦
            rw e (λ h. rw ((laws.revokes (c ∷ t) d).1 h) (inactive-revoked (c ∷ t) (rows d) there))
        | inr e ↦ rw e (λ h. ground (arith, h))
      ]

  -- When revokeSession succeeds for the token of a stored session, then no sequence of calls of the
  -- DAO but updateSessionScene, the creation of sessions with any token included, lets
  -- findSessionByToken find an active session for that token.
  pub revoke_session-run_calls :
      (t : Bytes) (d : D) (cs : List Call) (s : DbSession)
      → is_there (find_row t (rows d)) ≡ true
      → (revoke_session sql t d).0 ≡ true
      → (find_session_by_token sql t (run_calls sql cs (revoke_session sql t d).1)).0 ≡ some s
      → active s.status ≡ false
  revoke_session-run_calls t d cs s there ok found =
      inactive-some (find_row t (rows (run_calls sql cs (revoke_session sql t d).1))) (row_of s)
        (run_calls-Calm cs t (revoke_session sql t d).1 (revoke_session-Calm t d there ok))
        (found_row t (run_calls sql cs (revoke_session sql t d).1) s found)
