-- ===== src/Services/Sessions/Stores.antt =====
-- The stores behind the service: WebApps/ARServer/src/services/DaoSessionStore.cpp over the DAO and
-- WebApps/ARServer/src/services/CachedSessionStore.cpp, which puts a cache before another store.
use jingjie_ar.Prelude.{
  ℕ, Bool, true, false, not, ◌&&◌, Option, none, some, [], if◌then◌else◌, nat_eq, list_eq,
}
use jingjie_ar.Services.Sessions.{SessionStore, is_status}
use jingjie_ar.Database.{MySql}
use jingjie_ar.Database.SessionDao.{
  find_session_by_token, update_session_scene, end_session, revoke_session,
}
use jingjie_ar.Caches.SessionCache
use jingjie_ar.Caches.SessionCache.{DbSession}
use jingjie_ar.Redis.{Redis}
use jingjie_ar.Text.{Bytes, bytes, is_empty}
use jingjie_ar.Int.{pos}

-- DaoSessionStore, without a DAO if that is null.
abbrev pub dao_session_store : {D : Type 0} → Option (MySql D) → SessionStore D
dao_session_store none = record {
  find = λ token d. (none, d);
  enter = λ id scene d. (false, d);
  exit = λ id d. (false, d);
  revoke = λ token d. (false, d);
  invalidate = λ token d. d;
}
dao_session_store (some sql) = record {
  find = find_session_by_token sql;
  enter = update_session_scene sql;
  exit = end_session sql;
  revoke = revoke_session sql;
  invalidate = λ token d. d;
}

-- SessionCachePort
pub record SessionCachePort (W : Type 0) : Type 0 where
  pub get : Bytes → W → Option DbSession × W
  pub put : DbSession → W → Bool × W
  pub put_if_absent : DbSession → W → Bool × W
  pub remove : Bytes → W → Bool × W

-- SessionCacheAdapter over the sessions' cache in Redis, without one if that is null or the server is
-- built without Redis.
abbrev pub session_cache_adapter : {R : Type 0} → Option (Redis R) → SessionCachePort R
session_cache_adapter none = record {
  get = λ token r. (none, r);
  put = λ s r. (false, r);
  put_if_absent = λ s r. (false, r);
  remove = λ token r. (false, r);
}
session_cache_adapter (some redis) = record {
  get = SessionCache.get redis;
  put = SessionCache.put redis;
  put_if_absent = SessionCache.put_if_absent redis;
  remove = SessionCache.remove redis;
}

-- What a revoked token leaves in the cache.
abbrev pub tombstone : Bytes → DbSession
tombstone token = record {
  id = 0;
  session_token = token;
  user_id = 0;
  scene_id = [];
  status = pos 0;
  created_at = bytes "revoked";
  updated_at = bytes "revoked";
}

abbrev if_stored : DbSession → Bool → Option DbSession
if_stored s true = some s
if_stored s false = none

-- The tasks that CachedSessionStore gives to the workers.
module _ {W : Type 0} (cache : SessionCachePort W) where
  -- The task of find that publishes the copy of the durable row.
  unfoldable pub publish : Bytes → DbSession → W → Option DbSession × W
  publish token copy w =
      let stored : Bool × W = cache.put copy w in
      let first : Bool × W = cache.put_if_absent copy w in
      let winner : Option DbSession × W = cache.get token first.1 in
      if is_status 0 copy.status
      then (if_stored copy stored.0, stored.1)
      else if first.0
      then (some copy, first.1)
      else winner

  -- The task of revoke.
  unfoldable pub bury : Bytes → W → Bool × W
  bury token w = cache.put (tombstone token) w

  -- The task of invalidate.
  unfoldable pub drop_copy : Bytes → W → W
  drop_copy token w = (cache.remove token w).1

module _ {W : Type 0} (durable : SessionStore W) (cache : SessionCachePort W)
    (submits : W → Bool) where
  -- The callback that find gives to the durable store.
  unfoldable pub found_durable : Bytes → Option DbSession → W → Option DbSession × W
  found_durable token none w = (none, w)
  found_durable token (some s) w = if submits w then publish cache token s w else (none, w)

  -- The callback of a cache that has no copy.
  unfoldable pub after_look : Bytes → Option DbSession → W → Option DbSession × W
  after_look token (some s) w = (some s, w)
  after_look token none w =
      let out : Option DbSession × W = durable.find token w in found_durable token out.0 out.1

  -- The first task of find.
  unfoldable pub look : Bytes → W → Option DbSession × W
  look token w =
      let cached : Option DbSession × W = cache.get token w in after_look token cached.0 cached.1

  -- The callback that revoke gives to the durable store.
  unfoldable pub after_revoke : Bytes → Bool → W → Bool × W
  after_revoke token revoked w =
      let out : Bool × W = bury cache token w in if revoked && submits w then out else (false, w)

-- CachedSessionStore; without a cache or workers only the durable store is asked.
module _ {W : Type 0} where
  unfoldable pub cached_find :
      Option (SessionStore W)
      → Option (SessionCachePort W)
      → Option (W → Bool)
      → Bytes
      → W
      → Option DbSession × W
  cached_find none cache workers token w = (none, w)
  cached_find (some durable) (some cache) (some submits) token w =
      if is_empty token
      then (none, w)
      else if submits w
      then look durable cache submits token w
      else (none, w)
  cached_find (some durable) none workers token w =
      if is_empty token then (none, w) else durable.find token w
  cached_find (some durable) (some cache) none token w =
      if is_empty token then (none, w) else durable.find token w

  unfoldable pub cached_enter : Option (SessionStore W) → ℕ → Bytes → W → Bool × W
  cached_enter none id scene w = (false, w)
  cached_enter (some durable) id scene w = durable.enter id scene w

  unfoldable pub cached_exit : Option (SessionStore W) → ℕ → W → Bool × W
  cached_exit none id w = (false, w)
  cached_exit (some durable) id w = durable.exit id w

  unfoldable pub cached_revoke :
      Option (SessionStore W)
      → Option (SessionCachePort W)
      → Option (W → Bool)
      → Bytes
      → W
      → Bool × W
  cached_revoke none cache workers token w = (false, w)
  cached_revoke (some durable) (some cache) (some submits) token w =
      let out : Bool × W = durable.revoke token w in
      if is_empty token then (false, w) else after_revoke durable cache submits token out.0 out.1
  cached_revoke (some durable) none workers token w =
      if is_empty token then (false, w) else durable.revoke token w
  cached_revoke (some durable) (some cache) none token w =
      if is_empty token then (false, w) else durable.revoke token w

  unfoldable pub cached_invalidate : Option (SessionCachePort W) → Option (W → Bool) → Bytes → W → W
  cached_invalidate none workers token w = w
  cached_invalidate (some cache) none token w = w
  cached_invalidate (some cache) (some submits) token w =
      if not (is_empty token) && submits w then drop_copy cache token w else w

  abbrev pub cached_session_store :
      Option (SessionStore W) → Option (SessionCachePort W) → Option (W → Bool) → SessionStore W
  cached_session_store durable cache workers = record {
    find = cached_find durable cache workers;
    enter = cached_enter durable;
    exit = cached_exit durable;
    revoke = cached_revoke durable cache workers;
    invalidate = cached_invalidate cache workers;
  }
