-- ===== src/Services/Sessions/Cache.antt =====
-- A cache of sessions as CachedSessionStore of WebApps/ARServer/src/services/CachedSessionStore.cpp
-- uses it: what its commands do, and what they and `publish` keep of a closed copy.
use jingjie_ar.Services.Sessions.Stores.{SessionCachePort, publish}
use jingjie_ar.Prelude.{
  ◌≡◌, refl, sym, ap, ◌∙◌, subst, ◌≢◌, ◌⊎◌, inl, inr, Bool, true, false, Option, none, some, arith,
  if◌then◌else◌, Bool-cases, some_inj, ◌==◌, nat_eq, list_eq,
}
use jingjie_ar.Services.Sessions.{is_status}
use jingjie_ar.Caches.SessionCache.{DbSession}
use jingjie_ar.Text.{Bytes}

-- What a put leaves at a token.
abbrev pub stored : DbSession → Bytes → Option DbSession → Option DbSession
stored s q old = if s.session_token == q then some s else old

-- What the commands of a cache do, for keys that do not expire meanwhile (the cache of the program
-- lets one expire 1800 s after it was last put or got): `copy` is what it holds for a token, and
-- `fits` says which sessions it can hold. A command that is not answered was executed or was not.
pub record IsSessionCache {W : Type 0} (cache : SessionCachePort W) (fits : DbSession → Type 0)
    (copy : Bytes → W → Option DbSession) : Type 0 where
  pub get_found :
      (t : Bytes) (w : W) (s : DbSession) → (cache.get t w).0 ≡ some s → copy t w ≡ some s
  pub get_keeps : (t q : Bytes) (w : W) → copy q (cache.get t w).1 ≡ copy q w
  pub put_some :
      (s : DbSession) (q : Bytes) (w : W)
      → fits s
      → (copy q (cache.put s w).1 ≡ copy q w) ⊎ (copy q (cache.put s w).1 ≡ stored s q (copy q w))
  pub put_stores :
      (s : DbSession) (q : Bytes) (w : W)
      → fits s
      → (cache.put s w).0 ≡ true
      → copy q (cache.put s w).1 ≡ stored s q (copy q w)
  pub absent_was_free :
      (s : DbSession) (w : W) → (cache.put_if_absent s w).0 ≡ true → copy s.session_token w ≡ none
  pub absent_keeps :
      (s c : DbSession) (q : Bytes) (w : W)
      → copy q w ≡ some c
      → copy q (cache.put_if_absent s w).1 ≡ some c
  pub remove_some :
      (t q : Bytes) (w : W)
      → (copy q (cache.remove t w).1 ≡ copy q w)
        ⊎ (((t == q) ≡ true) × (copy q (cache.remove t w).1 ≡ none))

abbrev pub closed : Option DbSession → Bool
closed none = false
closed (some s) = is_status 0 s.status

-- A copy that is put over a closed one leaves a closed one, if it is closed itself.
stored_closed :
    (s : DbSession) (t : Bytes) (old : Option DbSession)
    → is_status 0 s.status ≡ true
    → closed old ≡ true
    → closed (stored s t old) ≡ true
stored_closed s t old z h = elim (Bool-cases (s.session_token == t)) [
  | inl e ↦ rw e z
  | inr e ↦ rw e h
]

closed-some :
    (o : Option DbSession) (s : DbSession)
    → closed o ≡ true
    → o ≡ some s
    → is_status 0 s.status ≡ true
closed-some o s h e = sym (ap closed e) ∙ h

module _ {W : Type 0} (cache : SessionCachePort W) (fits : DbSession → Type 0)
    (copy : Bytes → W → Option DbSession) (laws : IsSessionCache cache fits copy) where
  pub put_closed :
      (s : DbSession) (t : Bytes) (w : W)
      → fits s
      → is_status 0 s.status ≡ true
      → closed (copy t w) ≡ true
      → closed (copy t (cache.put s w).1) ≡ true
  put_closed s t w f z h = elim (laws.put_some s t w f) [
    | inl e ↦ rw e h
    | inr e ↦ rw e (stored_closed s t (copy t w) z h)
  ]

  pub absent_closed :
      (s : DbSession) (t : Bytes) (w : W) (o : Option DbSession)
      → copy t w ≡ o
      → closed o ≡ true
      → closed (copy t (cache.put_if_absent s w).1) ≡ true
  absent_closed s t w none e h = ground (arith, h)
  absent_closed s t w (some c) e h = rw (laws.absent_keeps s c t w e) h

  pub get_closed :
      (t : Bytes) (w : W) (s : DbSession)
      → closed (copy t w) ≡ true
      → (cache.get t w).0 ≡ some s
      → is_status 0 s.status ≡ true
  get_closed t w s h e = closed-some (copy t w) s h (laws.get_found t w s e)

  pub get_keeps_closed :
      (q t : Bytes) (w : W) → closed (copy t w) ≡ true → closed (copy t (cache.get q w).1) ≡ true
  get_keeps_closed q t w h = rw (laws.get_keeps q t w) h

  pub closed-publish :
      (q : Bytes) (s : DbSession) (t : Bytes) (w : W)
      → fits s
      → closed (copy t w) ≡ true
      → closed (copy t (publish cache q s w).1) ≡ true
  unfolding publish
  closed-publish q s t w f h =
      let kept : closed (copy t (cache.put_if_absent s w).1) ≡ true =
        absent_closed s t w (copy t w) refl h in
      elim (Bool-cases (is_status 0 s.status)) [
        | inl z ↦ rw z (put_closed s t w f z h)
        | inr z ↦ elim (Bool-cases (cache.put_if_absent s w).0) [
          | inl e ↦ rw (z, e) kept
          | inr e ↦ rw (z, e) (get_keeps_closed q t (cache.put_if_absent s w).1 kept)
        ]
      ]

  pub not_free : (o : Option DbSession) → closed o ≡ true → o ≢ none
  not_free none h e = ground (arith, h)
  not_free (some s) h e = ground (arith, e)

  pub publish_reply :
      (s c : DbSession) (w : W)
      → closed (copy s.session_token w) ≡ true
      → (publish cache s.session_token s w).0 ≡ some c
      → is_status 0 c.status ≡ true
  unfolding publish
  publish_reply s c w h = elim (Bool-cases (is_status 0 s.status)) [
    | inl z ↦ elim (Bool-cases (cache.put s w).0) [
      | inl e ↦ rw (z, e) (λ r. subst (λ x. is_status 0 x.status ≡ true) (some_inj r) z)
      | inr e ↦ rw (z, e) (λ r. ground (arith, r))
    ]
    | inr z ↦ elim (Bool-cases (cache.put_if_absent s w).0) [
      | inl e ↦ absurd (not_free (copy s.session_token w) h (laws.absent_was_free s w e))
      | inr e ↦
          rw (z, e)
            (λ r.
              get_closed s.session_token (cache.put_if_absent s w).1 c
                (absent_closed s s.session_token w (copy s.session_token w) refl h) r)
    ]
  ]
