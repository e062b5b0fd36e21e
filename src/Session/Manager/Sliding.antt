-- ===== src/Session/Manager/Sliding.antt =====
-- The life of a session over the storage in memory: src/session/SessionManager.cpp.
use jingjie_ar.Session.Value.{Session, expired, refresh, make_session}
use jingjie_ar.Session.Storage.{memory_remove, memory_save, memory_load, memory_storage, Memory}
use jingjie_ar.Session.Manager.{refresh_session, destroy, load_session, create, validate}
use jingjie_ar.Text.{is_empty, Bytes}
use jingjie_ar.Int.{pos, ◌*ℤ◌, ◌+ℤ◌, ltb_ℤ, ℤ}
use jingjie_ar.Prelude.{
  ◌≡◌, refl, ap, ◌∙◌, ◌≢◌, inl, inr, false, some, List, [], ◌∷◌, arith, Bool-cases, ==_refl, nat_eq,
  list_eq, lookup, insert, lookup-insert_self, lookup-erase,
}

not_empty {ℓ} : {A : Type ℓ} (xs : List A) → xs ≢ [] → is_empty xs ≡ false
not_empty [] h = absurd (h refl)
not_empty (x ∷ xs) h = refl

-- A stored session is accepted before its expiry and no longer.
validate-insert :
    (later : ℤ) (id : Bytes) (s : Session) (m : Memory)
    → id ≢ []
    → (validate memory_storage later id (some (insert id s m))).0 ≡ ltb_ℤ later s.expires_at
unfolding validate load_session memory_load expired
validate-insert later id s m h = rw (not_empty id h) (ground (arith, lookup-insert_self id s m))

create_lem :
    (ttl now : ℤ) (id : Bytes) (m : Memory)
    → id ≢ []
    → create memory_storage ttl now id (some m) ≡ (
      make_session id (now +ℤ ttl *ℤ pos 1000) ttl,
      some (insert id (make_session id (now +ℤ ttl *ℤ pos 1000) ttl) m),
    )
unfolding create memory_save
create_lem ttl now id m h = rw (not_empty id h)

-- A session that `create` made is validated before now + ttl seconds, and no longer.
pub validate-create :
    (ttl now later : ℤ) (id : Bytes) (m : Memory)
    → id ≢ []
    → (validate memory_storage later id (create memory_storage ttl now id (some m)).1).0
      ≡ ltb_ℤ later (now +ℤ ttl *ℤ pos 1000)
validate-create ttl now later id m h =
    rw (create_lem ttl now id m h)
      (validate-insert later id (make_session id (now +ℤ ttl *ℤ pos 1000) ttl) m h)

refresh_session_lem :
    (now : ℤ) (s : Session) (m : Memory)
    → s.id ≢ []
    → lookup s.id m ≡ some s
    → expired now s ≡ false
    → refresh_session memory_storage now s.id (some m)
      ≡ (some (refresh now s), some (insert s.id (refresh now s) m))
unfolding refresh_session memory_load memory_save refresh
refresh_session_lem now s m h stored alive = ground (arith, not_empty s.id h)

-- A session that is stored under its id and has not expired is refreshed: from then on it is
-- validated before the time of the refresh + ttl seconds, and no longer.
pub validate-refresh_session :
    (now later : ℤ) (s : Session) (m : Memory)
    → s.id ≢ []
    → lookup s.id m ≡ some s
    → expired now s ≡ false
    → (validate memory_storage later s.id (refresh_session memory_storage now s.id (some m)).1).0
      ≡ ltb_ℤ later (now +ℤ s.ttl_seconds *ℤ pos 1000)
validate-refresh_session now later s m h stored alive =
    ap (λ r. (validate memory_storage later s.id r.1).0)
      (refresh_session_lem now s m h stored alive)
    ∙ (validate-insert later s.id (refresh now s) m h ∙ expiry)
  where
    expiry : ltb_ℤ later (refresh now s).expires_at ≡ ltb_ℤ later (now +ℤ s.ttl_seconds *ℤ pos 1000)
    expiry = unfold refresh in refl

-- A destroyed session is not validated, at any time.
pub validate-destroy :
    (later : ℤ) (id : Bytes) (m : Memory)
    → (validate memory_storage later id (destroy memory_storage id (some m)).1).0 ≡ false
unfolding validate load_session destroy memory_load memory_remove
validate-destroy later id m = elim (Bool-cases (is_empty id)) [
  | inl e ↦ rw e
  | inr e ↦ rw e (ground (arith, lookup-erase id id m, ==_refl id))
]
