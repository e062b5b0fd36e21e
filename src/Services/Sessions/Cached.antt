-- ===== src/Services/Sessions/Cached.antt =====
-- A session that was logged out over CachedSessionStore of
-- WebApps/ARServer/src/services/CachedSessionStore.cpp.
use jingjie_ar.Services.Sessions.{is_logout_ok, SessionStore, is_status, get, logout, logout_ok}
use jingjie_ar.Prelude.{
  ◌≡◌, refl, sym, ap, inl, inr, Bool, true, ◌&&◌, Option, none, some, arith, Bool-cases, ==_refl,
  nat_eq, list_eq,
}
use jingjie_ar.Services.Sessions.Cache.{
  IsSessionCache, closed, get_closed, get_keeps_closed, publish_reply,
}
use jingjie_ar.Services.Sessions.Stores.{
  SessionCachePort, bury, tombstone, found_durable, after_look, look, after_revoke, cached_find,
  cached_revoke, cached_session_store,
}
use jingjie_ar.Caches.SessionCache.{DbSession}
use jingjie_ar.Text.{Bytes, is_empty}

-- What the durable store does to the cache, and which session it finds.
pub record IsDurable {W : Type 0} (durable : SessionStore W) (copy : Bytes → W → Option DbSession)
    : Type 0 where
  pub find_keeps : (t q : Bytes) (w : W) → copy q (durable.find t w).1 ≡ copy q w
  pub finds_own :
      (t : Bytes) (w : W) (s : DbSession) → (durable.find t w).0 ≡ some s → s.session_token ≡ t

module _ {W : Type 0} (durable : SessionStore W) (cache : SessionCachePort W) (submits : W → Bool)
    (fits : DbSession → Type 0) (copy : Bytes → W → Option DbSession)
    (laws : IsSessionCache cache fits copy) (own : IsDurable durable copy) where
  abbrev layered : Option (SessionStore W)
  layered = some (cached_session_store (some durable) (some cache) (some submits))

  closed-found_durable :
      (t : Bytes) (o : Option DbSession) (w : W) (c : DbSession)
      → ((s : DbSession) → o ≡ some s → s.session_token ≡ t)
      → closed (copy t w) ≡ true
      → (found_durable durable cache submits t o w).0 ≡ some c
      → is_status 0 c.status ≡ true
  unfolding found_durable
  closed-found_durable t none w c f h = λ e. ground (arith, e)
  closed-found_durable t (some s) w c f h = elim (Bool-cases (submits w)) [
    | inl m ↦
        rw (m, sym (f s refl)) (λ e. publish_reply cache fits copy laws s c w (rw (f s refl) h) e)
    | inr m ↦ rw m (λ e. ground (arith, e))
  ]

  closed-after_look :
      (t : Bytes) (o : Option DbSession) (w : W) (c : DbSession)
      → ((s : DbSession) → o ≡ some s → is_status 0 s.status ≡ true)
      → closed (copy t w) ≡ true
      → (after_look durable cache submits t o w).0 ≡ some c
      → is_status 0 c.status ≡ true
  unfolding after_look
  closed-after_look t (some s) w c f h = f c
  closed-after_look t none w c f h =
      closed-found_durable t (durable.find t w).0 (durable.find t w).1 c
        (λ s e. own.finds_own t w s e) (rw (own.find_keeps t t w) h)

  cached_find_closed :
      (t : Bytes) (w : W) (c : DbSession)
      → closed (copy t w) ≡ true
      → (get layered t w).0 ≡ some c
      → is_status 0 c.status ≡ true
  unfolding get cached_find look
  cached_find_closed t w c h = elim (Bool-cases (is_empty t)) [
    | inl e ↦ rw e (λ k. ground (arith, k))
    | inr e ↦ rw e (elim (Bool-cases (submits w)) [
      | inl m ↦ rw m (
          closed-after_look t (cache.get t w).0 (cache.get t w).1 c
            (λ s k. get_closed cache fits copy laws t w s h k)
            (get_keeps_closed cache fits copy laws t t w h))
      | inr m ↦ rw m (λ k. ground (arith, k))
    ])
  ]

  buried :
      (t : Bytes) (w : W)
      → fits (tombstone t)
      → (bury cache t w).0 ≡ true
      → closed (copy t (bury cache t w).1) ≡ true
  unfolding bury
  buried t w f h = rw (laws.put_stores (tombstone t) t w f h, ==_refl t) refl

  closed-after_revoke :
      (t : Bytes) (b : Bool) (w : W)
      → fits (tombstone t)
      → (after_revoke durable cache submits t b w).0 ≡ true
      → closed (copy t (after_revoke durable cache submits t b w).1) ≡ true
  unfolding after_revoke
  closed-after_revoke t b w f = elim (Bool-cases (b && submits w)) [
    | inl m ↦ rw m (buried t w f)
    | inr m ↦ rw m (λ k. ground (arith, k))
  ]

  closed-cached_revoke :
      (t : Bytes) (w : W)
      → fits (tombstone t)
      → (cached_revoke (some durable) (some cache) (some submits) t w).0 ≡ true
      → closed (copy t (cached_revoke (some durable) (some cache) (some submits) t w).1) ≡ true
  unfolding cached_revoke
  closed-cached_revoke t w f = elim (Bool-cases (is_empty t)) [
    | inl m ↦ rw m (λ k. ground (arith, k))
    | inr m ↦ rw m (closed-after_revoke t (durable.revoke t w).0 (durable.revoke t w).1 f)
  ]

  closed-logout :
      (t : Bytes) (w : W)
      → fits (tombstone t)
      → is_logout_ok (logout layered t w).0 ≡ true
      → closed (copy t (logout layered t w).1) ≡ true
  unfolding logout
  closed-logout t w f = elim (Bool-cases (is_empty t)) [
    | inl m ↦ rw m (λ k. ground (arith, k))
    | inr m ↦
        rw m (elim (Bool-cases (cached_revoke (some durable) (some cache) (some submits) t w).0) [
          | inl e ↦ λ k. closed-cached_revoke t w f e
          | inr e ↦ rw e (λ k. ground (arith, k))
        ])
  ]

  -- When logout has answered kLogoutOk over a store with a cache that can hold the tombstone of the
  -- token, and workers, then the get of the same token that follows answers no open session, although
  -- the durable store may still find one: it answers a closed session, or none. Keys of the cache are
  -- taken not to expire between the two calls.
  pub get-logout :
      (t : Bytes) (w : W) (c : DbSession)
      → fits (tombstone t)
      → (logout layered t w).0 ≡ logout_ok
      → (get layered t (logout layered t w).1).0 ≡ some c
      → is_status 0 c.status ≡ true
  get-logout t w c f out =
      cached_find_closed t (logout layered t w).1 c (closed-logout t w f (ap is_logout_ok out))
