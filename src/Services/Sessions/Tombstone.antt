-- ===== src/Services/Sessions/Tombstone.antt =====
-- Why find publishes its copy by putIfAbsent: tasks of WebApps/ARServer/src/services/
-- CachedSessionStore.cpp that run in any order after a session was revoked.
use jingjie_ar.Services.Sessions.Cache.{
  IsSessionCache, closed, put_closed, get_closed, get_keeps_closed, closed-publish, publish_reply,
}
use jingjie_ar.Services.Sessions.Stores.{tombstone, SessionCachePort, publish, bury, drop_copy}
use jingjie_ar.Prelude.{
  ◌≡◌, refl, inl, inr, Bool, true, false, not, ◌&&◌, ◌||◌, Option, none, some, List, [], ◌∷◌, ◌++◌,
  arith, Bool-cases, ◌==◌, ==_iff, nat_eq, list_eq,
}
use jingjie_ar.Services.Sessions.{is_status}
use jingjie_ar.Caches.SessionCache.{DbSession}
use jingjie_ar.Text.{Bytes}

-- A task of the workers; `publishing s` has the copy of the row of its own token.
pub data Task : Type 0 where
  looking : Bytes → Task
  publishing : DbSession → Task
  burying : Bytes → Task
  dropping : Bytes → Task

-- An answer names the token that was asked.
abbrev pub Replies : Type 0
Replies = List (Bytes × Option DbSession)

module _ {W : Type 0} (cache : SessionCachePort W) where
  -- A task, and what it tells to the callback of a find.
  unfoldable pub run_task : Task → W → Replies × W
  run_task (looking t) w = ((t, (cache.get t w).0) ∷ [], (cache.get t w).1)
  run_task (publishing s) w = (
    (s.session_token, (publish cache s.session_token s w).0) ∷ [],
    (publish cache s.session_token s w).1,
  )
  run_task (burying t) w = ([], (bury cache t w).1)
  run_task (dropping t) w = ([], drop_copy cache t w)

  unfoldable pub run_tasks : List Task → W → Replies × W
  run_tasks [] w = ([], w)
  run_tasks (k ∷ ks) w =
      let first : Replies × W = run_task k w in
      let rest : Replies × W = run_tasks ks first.1 in (first.0 ++ rest.0, rest.1)

-- Whether a task leaves the copy of a token in the cache.
abbrev pub leaves : Bytes → Task → Bool
leaves t (dropping q) = not (q == t)
leaves t (looking q) = true
leaves t (publishing s) = true
leaves t (burying q) = true

abbrev pub all_leave : Bytes → List Task → Bool
all_leave t [] = true
all_leave t (k ∷ ks) = leaves t k && all_leave t ks

-- Whether no answer for a token is an open session.
abbrev pub none_open : Bytes → Replies → Bool
none_open t [] = true
none_open t ((q, none) ∷ rs) = none_open t rs
none_open t ((q, some s) ∷ rs) = (not (q == t) || is_status 0 s.status) && none_open t rs

-- An answer for a token that is closed, for another token, or none.
one_reply :
    (t q : Bytes) (o : Option DbSession)
    → ((s : DbSession) → o ≡ some s → (q == t) ≡ true → is_status 0 s.status ≡ true)
    → none_open t ((q, o) ∷ []) ≡ true
one_reply t q none h = refl
one_reply t q (some s) h = elim (Bool-cases (q == t)) [
  | inl e ↦ ground (arith, e, h s refl e)
  | inr e ↦ ground (arith, e)
]

none_open-append :
    (t : Bytes) (rs qs : Replies)
    → none_open t rs ≡ true
    → none_open t qs ≡ true
    → none_open t (rs ++ qs) ≡ true
none_open-append t [] qs h g = g
none_open-append t ((q, none) ∷ rs) qs h g = none_open-append t rs qs h g
none_open-append t ((q, some s) ∷ rs) qs h g =
    let both : ((not (q == t) || is_status 0 s.status) ≡ true) × (none_open t rs ≡ true) =
      ground (arith, h) in
    rw (both.0, none_open-append t rs qs both.1 g) refl

-- The sessions that a task may put are such as the cache can hold.
abbrev pub FitsTask : (DbSession → Type 0) → Task → Type 0
FitsTask fits (looking t) = Unit {0}
FitsTask fits (publishing s) = fits s
FitsTask fits (burying t) = fits (tombstone t)
FitsTask fits (dropping t) = Unit {0}

abbrev pub FitsTasks : (DbSession → Type 0) → List Task → Type 0
FitsTasks fits [] = Unit {0}
FitsTasks fits (k ∷ ks) = FitsTask fits k × FitsTasks fits ks

module _ {W : Type 0} (cache : SessionCachePort W) (fits : DbSession → Type 0)
    (copy : Bytes → W → Option DbSession) (laws : IsSessionCache cache fits copy) where
  drop_closed :
      (q t : Bytes) (w : W)
      → (q == t) ≡ false
      → closed (copy t w) ≡ true
      → closed (copy t (drop_copy cache q w)) ≡ true
  unfolding drop_copy
  drop_closed q t w n h = elim (laws.remove_some q t w) [
    | inl e ↦ rw e h
    | inr e ↦ ground (arith, e.0, n)
  ]

  closed-run_task :
      (k : Task) (t : Bytes) (w : W)
      → FitsTask fits k
      → leaves t k ≡ true
      → closed (copy t w) ≡ true
      → closed (copy t (run_task cache k w).1) ≡ true
  unfolding run_task bury
  closed-run_task (looking q) t w f l h = get_keeps_closed cache fits copy laws q t w h
  closed-run_task (publishing s) t w f l h =
      closed-publish cache fits copy laws s.session_token s t w f h
  closed-run_task (burying q) t w f l h = put_closed cache fits copy laws (tombstone q) t w f refl h
  closed-run_task (dropping q) t w f l h = drop_closed q t w (ground (arith, l)) h

  run_task_reply :
      (k : Task) (t : Bytes) (w : W)
      → closed (copy t w) ≡ true
      → none_open t (run_task cache k w).0 ≡ true
  unfolding run_task
  run_task_reply (looking q) t w h =
      one_reply t q (cache.get q w).0
        (λ s e m. get_closed cache fits copy laws q w s (rw ((==_iff q t).0 m) h) e)
  run_task_reply (publishing s) t w h =
      one_reply t s.session_token (publish cache s.session_token s w).0 (λ c e m.
        publish_reply cache fits copy laws s c w (rw ((==_iff s.session_token t).0 m) h) e)
  run_task_reply (burying q) t w h = refl
  run_task_reply (dropping q) t w h = refl

  -- Once the copy of a token in the cache is a closed session, such as the tombstone that a revoked
  -- token leaves, then over any sequence of tasks of the workers, the publication of copies read
  -- before the revocation included, that drops no copy of this token and puts only sessions that the
  -- cache can hold, the cache keeps a closed session for the token and no find of the token is
  -- answered with an open one. Keys of the cache are taken not to expire meanwhile.
  pub closed-run_tasks :
      (ks : List Task) (t : Bytes) (w : W)
      → FitsTasks fits ks
      → all_leave t ks ≡ true
      → closed (copy t w) ≡ true
      → (closed (copy t (run_tasks cache ks w).1) ≡ true)
        × (none_open t (run_tasks cache ks w).0 ≡ true)
  unfolding run_tasks
  closed-run_tasks [] t w f l h = (h, refl)
  closed-run_tasks (k ∷ ks) t w f l h =
      let both : (leaves t k ≡ true) × (all_leave t ks ≡ true) = ground (arith, l) in
      let rest : (closed (copy t (run_tasks cache ks (run_task cache k w).1).1) ≡ true)
          × (none_open t (run_tasks cache ks (run_task cache k w).1).0 ≡ true) =
        closed-run_tasks ks t (run_task cache k w).1 f.1 both.1
          (closed-run_task k t w f.0 both.0 h) in
      (
        rest.0,
        none_open-append t (run_task cache k w).0 (run_tasks cache ks (run_task cache k w).1).0
            (run_task_reply k t w h) rest.1,
      )
