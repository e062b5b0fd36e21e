-- ===== src/Services/Sessions/InRedis.antt =====
-- The cache of sessions in Redis (src/cache/SessionCache.cpp, behind SessionCacheAdapter of
-- WebApps/ARServer/src/services/CachedSessionStore.cpp) under what CachedSessionStore relies on.
use jingjie_ar.Caches.SessionCache.{
  del_words, is_status, serialize, setex_words, set_absent_words, session_in, expire_words,
  make_key, renewed, DbSession,
}
use jingjie_ar.Caches.SessionCache.Roundtrip.{deserialize-serialize, IsStorable}
use jingjie_ar.Redis.{integer, text_of, get_words, string, Redis, Reply, status, refused, nil_reply}
use jingjie_ar.Text.{Bytes}
use jingjie_ar.Prelude.{
  ◌≡◌, refl, sym, ap, ◌∙◌, ◌⊎◌, inl, inr, Bool, true, Option, none, some, arith, if◌then◌else◌,
  Bool-cases, if_ind, some_inj, ◌==◌, nat_eq, list_eq,
}
use jingjie_ar.Caches.SessionCache
use jingjie_ar.Services.Sessions.Cache.{IsSessionCache, stored}
use jingjie_ar.Services.Sessions.Stores.{session_cache_adapter}

-- The documented answers of the commands on sessions, for keys that do not expire meanwhile: `value`
-- is what a key holds. A command without an answer, or with an error, was executed or was not.
pub record IsSessionRedis {R : Type 0} (redis : Redis R) (value : Bytes → R → Option Bytes)
    : Type 0 where
  pub get_found :
      (k v : Bytes) (r : R) → (redis.run (get_words k) r).0 ≡ some (string v) → value k r ≡ some v
  pub get_keeps : (k q : Bytes) (r : R) → value q (redis.run (get_words k) r).1 ≡ value q r
  pub expire_keeps : (k q : Bytes) (r : R) → value q (redis.run (expire_words k) r).1 ≡ value q r
  pub setex_some :
      (k v q : Bytes) (r : R)
      → (value q (redis.run (setex_words k v) r).1 ≡ value q r)
        ⊎ (value q (redis.run (setex_words k v) r).1 ≡ (if k == q then some v else value q r))
  pub setex_stores :
      (k v q : Bytes) (r : R)
      → is_status (redis.run (setex_words k v) r).0 ≡ true
      → value q (redis.run (setex_words k v) r).1 ≡ (if k == q then some v else value q r)
  pub absent_was_free :
      (k v : Bytes) (r : R)
      → is_status (redis.run (set_absent_words k v) r).0 ≡ true
      → value k r ≡ none
  pub absent_keeps :
      (k v q u : Bytes) (r : R)
      → value q r ≡ some u
      → value q (redis.run (set_absent_words k v) r).1 ≡ some u
  pub del_some :
      (k q : Bytes) (r : R)
      → (value q (redis.run (del_words k) r).1 ≡ value q r)
        ⊎ (((k == q) ≡ true) × (value q (redis.run (del_words k) r).1 ≡ none))

-- A copy is what the value under the token's key is read as.
abbrev pub copy_in : {R : Type 0} → (Bytes → R → Option Bytes) → Bytes → R → Option DbSession
copy_in value t r = session_in (value (make_key t) r)

string_reply : (o : Option Reply) (v : Bytes) → text_of o ≡ some v → o ≡ some (string v)
string_reply none v h = ground arith
string_reply (some (string s)) v h = ap (λ x. some (string x)) (some_inj h)
string_reply (some (status s)) v h = ground arith
string_reply (some (integer n)) v h = ground arith
string_reply (some nil_reply) v h = ground arith
string_reply (some refused) v h = ground arith

key-eq : (t q : Bytes) → (make_key t == make_key q) ≡ (t == q)
key-eq t q = refl

-- What a session that is put over a value reads as.
stored_in :
    (s : DbSession) (q : Bytes) (old : Option Bytes)
    → IsStorable s
    → session_in (if make_key s.session_token == make_key q then some (serialize s) else old)
      ≡ stored s q (session_in old)
stored_in s q old v = elim (Bool-cases (s.session_token == q)) [
  | inl e ↦ rw (key-eq s.session_token q, e) (deserialize-serialize s v)
  | inr e ↦ rw (key-eq s.session_token q, e) refl
]

module _ {R : Type 0} (redis : Redis R) (value : Bytes → R → Option Bytes)
    (law : IsSessionRedis redis value) where
  renewed_found : (t : Bytes) (o : Option DbSession) (r : R) → (renewed redis t o r).0 ≡ o
  unfolding renewed
  renewed_found t none r = refl
  renewed_found t (some s) r = refl

  renewed_keeps :
      (t k : Bytes) (o : Option DbSession) (r : R) → value k (renewed redis t o r).1 ≡ value k r
  unfolding renewed
  renewed_keeps t k none r = refl
  renewed_keeps t k (some s) r = law.expire_keeps (make_key t) k r

  read_some :
      (t : Bytes) (o : Option Bytes) (r : R) (s : DbSession)
      → text_of (redis.run (get_words (make_key t)) r).0 ≡ o
      → session_in o ≡ some s
      → copy_in value t r ≡ some s
  read_some t none r s e h = ground (arith, h)
  read_some t (some text) r s e h = rw (law.get_found (make_key t) text r (string_reply _ text e)) h

  get-finds :
      (t : Bytes) (r : R) (s : DbSession)
      → (SessionCache.get redis t r).0 ≡ some s
      → copy_in value t r ≡ some s
  unfolding SessionCache.get
  get-finds t r s =
      if_ind (λ (p : Option DbSession × R). p.0 ≡ some s → copy_in value t r ≡ some s)
        (redis.lends r) (λ e h. read_some t _ r s refl (sym (renewed_found t _ _) ∙ h))
        (λ e h. ground (arith, h))

  get-keeps : (t k : Bytes) (r : R) → value k (SessionCache.get redis t r).1 ≡ value k r
  unfolding SessionCache.get
  get-keeps t k r =
      if_ind (λ (p : Option DbSession × R). value k p.1 ≡ value k r) (redis.lends r)
        (λ e. renewed_keeps t k _ _ ∙ law.get_keeps (make_key t) k r) (λ e. refl)

  put-stores :
      (s : DbSession) (q : Bytes) (r : R)
      → IsStorable s
      → (SessionCache.put redis s r).0 ≡ true
      → copy_in value q (SessionCache.put redis s r).1 ≡ stored s q (copy_in value q r)
  unfolding SessionCache.put
  put-stores s q r v =
      if_ind (λ (p : Bool × R). p.0 ≡ true → copy_in value q p.1 ≡ stored s q (copy_in value q r))
        (redis.lends r)
        (λ e h.
          ap session_in (law.setex_stores (make_key s.session_token) (serialize s) (make_key q) r h)
          ∙ stored_in s q (value (make_key q) r) v)
        (λ e h. ground (arith, h))

  put_either :
      (s : DbSession) (q : Bytes) (r : R)
      → IsStorable s
      → (copy_in value q (SessionCache.put redis s r).1 ≡ copy_in value q r)
        ⊎ (copy_in value q (SessionCache.put redis s r).1 ≡ stored s q (copy_in value q r))
  unfolding SessionCache.put
  put_either s q r v =
      if_ind
        (λ (p : Bool × R).
          (copy_in value q p.1 ≡ copy_in value q r)
          ⊎ (copy_in value q p.1 ≡ stored s q (copy_in value q r)))
        (redis.lends r)
        (λ e. elim (law.setex_some (make_key s.session_token) (serialize s) (make_key q) r) [
          | inl same ↦ inl (ap session_in same)
          | inr put ↦ inr (ap session_in put ∙ stored_in s q (value (make_key q) r) v)
        ])
        (λ e. inl refl)

  put_if_absent-was_free :
      (s : DbSession) (r : R)
      → (SessionCache.put_if_absent redis s r).0 ≡ true
      → copy_in value s.session_token r ≡ none
  unfolding SessionCache.put_if_absent
  put_if_absent-was_free s r =
      if_ind (λ (p : Bool × R). p.0 ≡ true → copy_in value s.session_token r ≡ none) (redis.lends r)
        (λ e h. ap session_in (law.absent_was_free (make_key s.session_token) (serialize s) r h))
        (λ e h. ground (arith, h))

  kept_value :
      (k v q : Bytes) (o : Option Bytes) (c : DbSession) (r : R)
      → value q r ≡ o
      → session_in o ≡ some c
      → session_in (value q (redis.run (set_absent_words k v) r).1) ≡ some c
  kept_value k v q none c r e h = ground (arith, h)
  kept_value k v q (some u) c r e h = rw (law.absent_keeps k v q u r e) h

  put_if_absent-keeps :
      (s c : DbSession) (q : Bytes) (r : R)
      → copy_in value q r ≡ some c
      → copy_in value q (SessionCache.put_if_absent redis s r).1 ≡ some c
  unfolding SessionCache.put_if_absent
  put_if_absent-keeps s c q r h =
      if_ind (λ (p : Bool × R). copy_in value q p.1 ≡ some c) (redis.lends r)
        (λ e. kept_value (make_key s.session_token) (serialize s) (make_key q) _ c r refl h)
        (λ e. h)

  remove_either :
      (t q : Bytes) (r : R)
      → (copy_in value q (SessionCache.remove redis t r).1 ≡ copy_in value q r)
        ⊎ (((t == q) ≡ true) × (copy_in value q (SessionCache.remove redis t r).1 ≡ none))
  unfolding SessionCache.remove
  remove_either t q r =
      if_ind
        (λ (p : Bool × R).
          (copy_in value q p.1 ≡ copy_in value q r)
          ⊎ (((t == q) ≡ true) × (copy_in value q p.1 ≡ none)))
        (redis.lends r)
        (λ e. elim (law.del_some (make_key t) (make_key q) r) [
          | inl same ↦ inl (ap session_in same)
          | inr gone ↦ inr (sym (key-eq t q) ∙ gone.0, ap session_in gone.1)
        ])
        (λ e. inl refl)

  -- If the server answers its commands as documented, SessionCache keeps the laws of a session cache
  -- for the sessions that its text format can hold.
  pub session_cache_adapter-IsSessionCache :
      IsSessionCache (session_cache_adapter (some redis)) IsStorable (copy_in value)
  session_cache_adapter-IsSessionCache = record {
    get_found = get-finds;
    get_keeps = λ t q r. ap session_in (get-keeps t (make_key q) r);
    put_some = put_either;
    put_stores = put-stores;
    absent_was_free = put_if_absent-was_free;
    absent_keeps = put_if_absent-keeps;
    remove_some = remove_either;
  }
