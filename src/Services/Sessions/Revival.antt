-- ===== src/Services/Sessions/Revival.antt =====
-- A session that is entered after it was closed: WebApps/ARServer/src/services/SessionService.cpp
-- over WebApps/ARServer/src/services/DaoSessionStore.cpp and src/db/SessionDAO.cpp.
use jingjie_ar.Services.Sessions.{
  is_logout_ok, is_enter_ok, invalidated, SessionStore, get, enter_detailed, enter_found, logout,
  enter_ok, logout_ok,
}
use jingjie_ar.Prelude.{
  ℕ, ◌≡◌, refl, ap, inl, inr, Bool, true, false, Option, none, some, List, map, arith, Bool-cases,
  ==_refl, nat_eq, list_eq,
}
use jingjie_ar.Services.Sessions.Stores.{dao_session_store}
use jingjie_ar.Database.SessionDao.Table.{
  SessionRow, find_row, active, row_of, entered, IsSessionTable,
}
use jingjie_ar.Database.SessionDao.Rows.{inactive, is_there, find_row-entered}
use jingjie_ar.Database.SessionDao.Revoked.{revoke_session-Calm, found_row}
use jingjie_ar.Database.SessionDao.{
  revoke_session, find_session_by_token, update_session_scene, update_scene_sql,
  session_by_token_sql,
}
use jingjie_ar.Database.{MySql, statement}
use jingjie_ar.Caches.SessionCache.{DbSession}
use jingjie_ar.Text.{Bytes, is_empty}

abbrev pub row_active : Option SessionRow → Bool
row_active none = false
row_active (some r) = active r.status

entered_active :
    (id : ℕ) (scene : Bytes) (r : SessionRow)
    → r.id ≡ id
    → row_active (some (entered id scene r)) ≡ true
entered_active id scene r e = rw e (rw (==_refl id) refl)

module _ {D : Type 0} (sql : MySql D) (rows : D → List SessionRow)
    (laws : IsSessionTable sql rows) where
  abbrev store : Option (SessionStore D)
  store = some (dao_session_store (some sql))

  find_session_keeps : (t : Bytes) (d : D) → rows (find_session_by_token sql t d).1 ≡ rows d
  unfolding find_session_by_token statement
  find_session_keeps t d = elim (Bool-cases (sql.prepares session_by_token_sql d)) [
    | inl e ↦ rw e (laws.find_keeps t d)
    | inr e ↦ rw e refl
  ]

  update_scene_rows :
      (id : ℕ) (scene : Bytes) (d : D)
      → (update_session_scene sql id scene d).0 ≡ true
      → rows (update_session_scene sql id scene d).1 ≡ map (entered id scene) (rows d)
  unfolding update_session_scene statement
  update_scene_rows id scene d = elim (Bool-cases (sql.prepares update_scene_sql d)) [
    | inl e ↦ rw e (laws.enters id scene d).1
    | inr e ↦ rw e (λ h. ground (arith, h))
  ]

  dao_invalidated :
      (t : Bytes) (out : Bool × D) → invalidated (dao_session_store (some sql)) t out ≡ out.1
  dao_invalidated t (true, d) = refl
  dao_invalidated t (false, d) = refl

  entered_row :
      (t scene : Bytes) (d : D) (s : DbSession)
      → find_row t (rows d) ≡ some (row_of s)
      → is_enter_ok (enter_found store t scene (some s) d).0 ≡ true
      → row_active (find_row t (rows (enter_found store t scene (some s) d).1)) ≡ true
  unfolding enter_found
  entered_row t scene d s found = elim (Bool-cases (is_empty scene)) [
    | inl e ↦ rw e (λ h. ground (arith, h))
    | inr e ↦
        rw (e, dao_invalidated t (update_session_scene sql s.id scene d))
          (elim (Bool-cases (update_session_scene sql s.id scene d).0) [
            | inl ok ↦ λ h.
                rw
                  (
                    update_scene_rows s.id scene d ok,
                    find_row-entered s.id scene t (rows d) (row_of s) found,
                  )
                  (entered_active s.id scene (row_of s) refl)
            | inr e2 ↦ rw e2 (λ h. ground (arith, h))
          ])
  ]

  absurd_found :
      {A : Type 0} (t scene : Bytes) (d : D)
      → is_enter_ok (enter_found store t scene none d).0 ≡ true
      → A
  unfolding enter_found
  absurd_found t scene d h = ground (arith, h)

  after_found :
      (t scene : Bytes) (d : D) (o : Option DbSession)
      → ((s : DbSession) → o ≡ some s → find_row t (rows d) ≡ some (row_of s))
      → is_enter_ok (enter_found store t scene o d).0 ≡ true
      → row_active (find_row t (rows (enter_found store t scene o d).1)) ≡ true
  after_found t scene d none f = λ h. absurd_found t scene d h
  after_found t scene d (some s) f = entered_row t scene d s (f s refl)

  enter_detailed_active :
      (t scene : Bytes) (d : D)
      → is_enter_ok (enter_detailed store t scene d).0 ≡ true
      → row_active (find_row t (rows (enter_detailed store t scene d).1)) ≡ true
  unfolding enter_detailed get
  enter_detailed_active t scene d = elim (Bool-cases (is_empty t)) [
    | inl e ↦ rw e (λ h. absurd_found t scene d h)
    | inr e ↦ rw e (
        after_found t scene (find_session_by_token sql t d).1 (find_session_by_token sql t d).0
          (λ s h. rw (find_session_keeps t d) (found_row sql rows laws t d s h)))
  ]

  inactive-logout :
      (t : Bytes) (d : D)
      → is_there (find_row t (rows d)) ≡ true
      → is_logout_ok (logout store t d).0 ≡ true
      → inactive (find_row t (rows (logout store t d).1)) ≡ true
  unfolding logout
  inactive-logout t d there = elim (Bool-cases (is_empty t)) [
    | inl e ↦ rw e (λ h. ground (arith, h))
    | inr e ↦ rw e (elim (Bool-cases (revoke_session sql t d).0) [
      | inl ok ↦ λ h. revoke_session-Calm sql rows laws t d there ok
      | inr e2 ↦ rw e2 (λ h. ground (arith, h))
    ])
  ]

  -- Over the store of the DAO without a cache, for the token of a stored session: when logout has
  -- answered kLogoutOk the session is not active, and when enterDetailed then answers kEnterOk for
  -- the same token the session is active again.
  pub enter_detailed-logout :
      (t scene : Bytes) (d : D)
      → is_there (find_row t (rows d)) ≡ true
      → (logout store t d).0 ≡ logout_ok
      → (enter_detailed store t scene (logout store t d).1).0 ≡ enter_ok
      → (inactive (find_row t (rows (logout store t d).1)) ≡ true)
        × (row_active (find_row t (rows (enter_detailed store t scene (logout store t d).1).1))
            ≡ true)
  enter_detailed-logout t scene d there out ok = (
    inactive-logout t d there (ap is_logout_ok out),
    enter_detailed_active t scene (logout store t d).1 (ap is_enter_ok ok),
  )
