-- ===== src/Database/SessionDao/Tests.antt =====
-- Runs of the DAO of sessions, and the theorem on revoked sessions at one of them.
use jingjie_ar.Prelude.{◌≡◌, refl, false, List, [], ◌∷◌, nat_eq, list_eq, length}
use jingjie_ar.Database.SessionDao.Sample.{table_sql, table_sql-IsSessionTable}
use jingjie_ar.Database.SessionDao.Table.{SessionRow, new_row, active}
use jingjie_ar.Database.SessionDao.Revoked.{
  Call, finding, creating, ending, revoking, run_call, run_calls, revoke_session-run_calls,
}
use jingjie_ar.Database.SessionDao.{
  find_session_by_token, create_session, end_session, revoke_session, update_session_scene,
  find_active_sessions_by_user, session_of, sessions_of,
}
use jingjie_ar.Database.{statement, bound_statement}
use jingjie_ar.Caches.SessionCache.{DbSession}
use jingjie_ar.Text.{bytes}
use jingjie_ar.Int.{pos}

program : Unit {0}
unfolding find_session_by_token create_session end_session revoke_session update_session_scene
    find_active_sessions_by_user session_of sessions_of statement bound_statement run_call run_calls
program = tt

abbrev two_rows : List SessionRow
two_rows = new_row 2 8 (bytes "tok2") (bytes "hall") ∷ new_row 1 7 (bytes "tok1") (bytes "") ∷ []

abbrev later_calls : List Call
later_calls =
    creating 9 (bytes "tok1") (bytes "hall")
    ∷ ending 2
    ∷ finding (bytes "tok1")
    ∷ revoking (bytes "tok2")
    ∷ []

abbrev closed_session : DbSession
closed_session = record {
  id = 1;
  session_token = bytes "tok1";
  user_id = 7;
  scene_id = [];
  status = pos 0;
  created_at = [];
  updated_at = [];
}

-- The unique key refuses a second session with a token.
create_session_twice : (create_session table_sql 9 (bytes "tok1") [] two_rows).0 ≡ 0
unfolding program
create_session_twice = refl

active_after_create :
    length
      (find_active_sessions_by_user table_sql 8
        (create_session table_sql 8 (bytes "tok3") [] two_rows).1).0
    ≡ 2
unfolding program
active_after_create = refl

revoke_session-run_calls_example : active closed_session.status ≡ false
unfolding program
revoke_session-run_calls_example =
    revoke_session-run_calls table_sql (λ d. d) table_sql-IsSessionTable (bytes "tok1") two_rows
      later_calls closed_session refl refl refl
