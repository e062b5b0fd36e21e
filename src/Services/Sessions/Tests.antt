-- ===== src/Services/Sessions/Tests.antt =====
-- Runs of the sessions' service and stores, and the theorems about them at concrete sessions.
use jingjie_ar.Services.Sessions.Cached.{get-logout, IsDurable}
use jingjie_ar.Services.Sessions.Stores.{
  tombstone, SessionCachePort, dao_session_store, publish, bury, drop_copy, look, after_look,
  found_durable, after_revoke, cached_find, cached_revoke, cached_invalidate, session_cache_adapter,
}
use jingjie_ar.Services.Sessions.{is_status, SessionStore, get, enter_detailed, enter_found, logout}
use jingjie_ar.Services.Sessions.Tombstone.{
  looking, closed-run_tasks, dropping, publishing, none_open, burying, Task, run_task, run_tasks,
}
use jingjie_ar.Int.{pos}
use jingjie_ar.Services.Sessions.Cache.{IsSessionCache, closed}
use jingjie_ar.Prelude.{
  ◌≡◌, refl, sym, ap, ◌∙◌, ◌⊎◌, inl, inr, Bool, true, false, Option, none, some, List, [], ◌∷◌,
  arith, if◌then◌else◌, Bool-cases, ◌==◌, ==_iff, nat_eq, list_eq, lookup, insert, erase,
  lookup-insert, lookup-erase,
}
use jingjie_ar.Database.SessionDao.Sample.{table_sql, table_sql-IsSessionTable}
use jingjie_ar.Database.SessionDao.Table.{SessionRow, new_row, find_row}
use jingjie_ar.Database.SessionDao.Rows.{inactive}
use jingjie_ar.Database.SessionDao.{
  find_session_by_token, revoke_session, update_session_scene, session_of,
}
use jingjie_ar.Database.{statement, bound_statement}
use jingjie_ar.Services.Sessions.Revival.{row_active, enter_detailed-logout}
use jingjie_ar.Caches.SessionCache
use jingjie_ar.Caches.SessionCache.{DbSession, renewed, serialize, deserialize, of_fields}
use jingjie_ar.Caches.SessionCache.Roundtrip.{IsStorable}
use jingjie_ar.Services.Sessions.InRedis.{
  IsSessionRedis, copy_in, session_cache_adapter-IsSessionCache,
}
use jingjie_ar.Redis.{Redis, Reply, string, status, integer, nil_reply, refused}
use jingjie_ar.Numbers.{stoull, stoi}
use jingjie_ar.Text.{skip_while, segments, Bytes, bytes}
use jingjie_ar.Http.Response.{digits_within}

-- A Redis server that keeps its keys in an association list.
abbrev Keys : Type 0
Keys = List (Bytes × Bytes)

text_reply : Option Bytes → Option Reply
text_reply none = some nil_reply
text_reply (some v) = some (string v)

set_new : Bytes → Bytes → Option Bytes → Keys → Option Reply × Keys
set_new k v none keys = (some (status (bytes "OK")), insert k v keys)
set_new k v (some u) keys = (some nil_reply, keys)

-- GET and DEL, EXPIRE, SETEX, and SET with EX and NX.
small_run : List Bytes → Keys → Option Reply × Keys
unfolding text_reply set_new
small_run (word ∷ k ∷ []) keys =
    if word == bytes "GET"
    then (text_reply (lookup k keys), keys)
    else (some (integer 1), erase k keys)
small_run (word ∷ k ∷ ttl ∷ []) keys = (some (integer 1), keys)
small_run (word ∷ k ∷ ttl ∷ v ∷ []) keys = (some (status (bytes "OK")), insert k v keys)
small_run (word ∷ k ∷ v ∷ ex ∷ ttl ∷ nx ∷ []) keys = set_new k v (lookup k keys) keys
small_run words keys = (some refused, keys)

abbrev small_redis : Redis Keys
small_redis = record { lends = λ r. true; run = small_run }

program : Unit {0}
unfolding skip_while SessionCache.get SessionCache.put SessionCache.put_if_absent
    SessionCache.remove renewed serialize deserialize of_fields SessionCache.session_of segments
    stoull stoi digits_within small_run text_reply set_new find_session_by_token revoke_session
    update_session_scene session_of statement bound_statement get enter_detailed enter_found logout
    publish bury drop_copy look after_look found_durable after_revoke cached_find cached_revoke
    cached_invalidate run_task run_tasks lookup insert erase
program = tt

abbrev one_row : List SessionRow
one_row = new_row 1 7 (bytes "tok1") (bytes "hall") ∷ []

enter_detailed-logout_example :
    (inactive (
        find_row
          (bytes "tok1")
          (logout (some (dao_session_store (some table_sql))) (bytes "tok1") one_row).1)
      ≡ true)
    × (row_active (
          find_row
            (bytes "tok1")
            (enter_detailed
              (some (dao_session_store (some table_sql)))
              (bytes "tok1")
              (bytes "hall")
              (logout (some (dao_session_store (some table_sql))) (bytes "tok1") one_row).1).1)
        ≡ true)
unfolding program
enter_detailed-logout_example =
    enter_detailed-logout table_sql (λ d. d) table_sql-IsSessionTable (bytes "tok1") (bytes "hall")
      one_row refl refl refl

text_found : (o : Option Bytes) (v : Bytes) → text_reply o ≡ some (string v) → o ≡ some v
unfolding text_reply
text_found none v h = ground (arith, h)
text_found (some u) v h = ground (arith, h)

absent_free :
    (k v : Bytes) (o : Option Bytes) (keys : Keys)
    → SessionCache.is_status (set_new k v o keys).0 ≡ true
    → o ≡ none
unfolding set_new
absent_free k v none keys h = refl
absent_free k v (some u) keys h = ground (arith, h)

absurd_lookup :
    {A : Type 0} (k : Bytes) (m : Keys) (x : Bytes) → lookup k m ≡ none → lookup k m ≡ some x → A
absurd_lookup k m x a b = ground (arith, sym a ∙ b)

absent_kept :
    (k v q u : Bytes) (o : Option Bytes) (keys : Keys)
    → lookup k keys ≡ o
    → lookup q keys ≡ some u
    → lookup q (set_new k v o keys).1 ≡ some u
unfolding set_new
absent_kept k v q u (some old) keys e h = h
absent_kept k v q u none keys e h = elim (Bool-cases (k == q)) [
  | inl m ↦ absurd_lookup q keys u (ap (λ x. lookup x keys) (sym ((==_iff k q).0 m)) ∙ e) h
  | inr m ↦ rw (lookup-insert k q v keys, m) h
]

erase_some :
    (t q : Bytes) (w : Keys)
    → (lookup q (erase t w) ≡ lookup q w) ⊎ (((t == q) ≡ true) × (lookup q (erase t w) ≡ none))
erase_some t q w = elim (Bool-cases (t == q)) [
  | inl m ↦ inr (m, rw (lookup-erase t q w, m) refl)
  | inr m ↦ inl (rw (lookup-erase t q w, m) refl)
]

small_redis-IsSessionRedis : IsSessionRedis small_redis lookup
unfolding small_run
small_redis-IsSessionRedis = record {
  get_found = λ k v r h. text_found (lookup k r) v h;
  get_keeps = λ k q r. refl;
  expire_keeps = λ k q r. refl;
  setex_some = λ k v q r. inr (lookup-insert k q v r);
  setex_stores = λ k v q r h. lookup-insert k q v r;
  absent_was_free = λ k v r h. absent_free k v (lookup k r) r h;
  absent_keeps = λ k v q u r h. absent_kept k v q u (lookup k r) r refl h;
  del_some = erase_some;
}

-- The program's cache over this server.
abbrev cache : SessionCachePort Keys
cache = session_cache_adapter (some small_redis)

abbrev copy : Bytes → Keys → Option DbSession
copy = copy_in lookup

cache-IsSessionCache : IsSessionCache cache IsStorable copy
cache-IsSessionCache =
    session_cache_adapter-IsSessionCache small_redis lookup small_redis-IsSessionRedis

tombstone-IsStorable : IsStorable (tombstone (bytes "tok1"))
tombstone-IsStorable = record {
  id = omega arith;
  user_id = omega arith;
  status = omega arith;
  token = (refl, (refl, (refl, (refl, tt))));
  scene = tt;
  created = (refl, (refl, (refl, (refl, (refl, (refl, (refl, tt)))))));
  updated = (refl, (refl, (refl, (refl, (refl, (refl, (refl, tt)))))));
  is_updated = refl;
}

-- A copy that a find read from the database before the session was revoked.
abbrev stale : DbSession
stale = record {
  id = 1;
  session_token = bytes "tok1";
  user_id = 7;
  scene_id = bytes "hall";
  status = pos 1;
  created_at = [];
  updated_at = bytes "now";
}

stale-IsStorable : IsStorable stale
stale-IsStorable = record {
  id = omega arith;
  user_id = omega arith;
  status = omega arith;
  token = (refl, (refl, (refl, (refl, tt))));
  scene = (refl, (refl, (refl, (refl, tt))));
  created = tt;
  updated = (refl, (refl, (refl, tt)));
  is_updated = refl;
}

abbrev late_tasks : List Task
late_tasks =
    publishing stale
    ∷ looking (bytes "tok1")
    ∷ dropping (bytes "tok2")
    ∷ looking (bytes "tok1")
    ∷ []

closed-run_tasks_example :
    (closed (copy (bytes "tok1") (run_tasks cache late_tasks (bury cache (bytes "tok1") []).1).1)
      ≡ true)
    × (none_open (bytes "tok1") (run_tasks cache late_tasks (bury cache (bytes "tok1") []).1).0
        ≡ true)
unfolding program
closed-run_tasks_example =
    closed-run_tasks cache IsStorable copy cache-IsSessionCache late_tasks (bytes "tok1")
      (bury cache (bytes "tok1") []).1 (stale-IsStorable, (tt, (tt, (tt, tt)))) refl refl

-- A copy that is dropped after the revocation lets the stale one in.
stale_after_drop :
    closed (
      copy
        (bytes "tok1")
        (run_tasks cache
          (burying (bytes "tok1") ∷ dropping (bytes "tok1") ∷ publishing stale ∷ [])
          []).1)
    ≡ false
unfolding program
stale_after_drop = refl

-- A durable store that still finds the open row, over the cache above.
abbrev stubborn : SessionStore Keys
stubborn = record {
  find = λ t w. (
    some (record {
      id = 1;
      session_token = t;
      user_id = 7;
      scene_id = [];
      status = pos 1;
      created_at = [];
      updated_at = [];
    }),
    w,
  );
  enter = λ id scene w. (true, w);
  exit = λ id w. (true, w);
  revoke = λ t w. (true, w);
  invalidate = λ t w. w;
}

stubborn-IsDurable : IsDurable stubborn copy
stubborn-IsDurable = record {
  find_keeps = λ t q w. refl;
  finds_own = λ t w s e. sym (ap (λ (o : Option DbSession). token_or t o) e);
}
  where
    token_or : Bytes → Option DbSession → Bytes
    token_or t none = t
    token_or t (some s) = s.session_token

abbrev busy : Keys → Bool
busy w = true

get-logout_example : is_status 0 (tombstone (bytes "tok1")).status ≡ true
unfolding program
get-logout_example =
    get-logout stubborn cache busy IsStorable copy cache-IsSessionCache stubborn-IsDurable
      (bytes "tok1") [] (tombstone (bytes "tok1")) tombstone-IsStorable refl refl
