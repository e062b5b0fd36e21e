-- ===== src/Caches/SessionCache.antt =====
-- The collaboration sessions kept in Redis: include/cache/SessionCache.h and
-- src/cache/SessionCache.cpp, with Session of include/db/SessionDAO.h. A pool that is null or has no
-- connection lends none.
pub mod Roundtrip
use jingjie_ar.Redis.{text_of, refused, nil_reply, string, get_words, integer, Redis, Reply, status}
use jingjie_ar.Text.{Bytes, segments, bytes}
use jingjie_ar.Int.{ℤ}
use jingjie_ar.Numbers.{show_int, stoi, stoull}
use jingjie_ar.Http.Response.{decimal}
use jingjie_ar.Prelude.{
  ℕ, zero, suc, ◌+◌, ◌-◌, ◌*◌, ◌/◌, ◌%◌, ◌^◌, ◌≤◌, ◌<◌, min, max, ◌≡◌, refl, sym, ap, ap₂, ◌∙◌,
  subst, ◌≢◌, ◌↔◌, ◌⊎◌, inl, inr, Bool, true, false, not, ◌&&◌, ◌||◌, Option, none, some, List, [],
  ◌∷◌, ◌++◌, map, reverse, append-nil, append_assoc, reverse-cons, arith, ltb, leb, if◌then◌else◌,
  ltb→lt, lt→ltb, leb→le, nat_beq_iff, tests, Bool-cases, if_ind, Option-cases, some_inj, Eq, ◌==◌,
  ==_iff, ==_refl, nat_eq, list_eq, lookup, insert, erase, has_key, lookup-insert,
  lookup-insert_self, lookup-erase, has_key-insert, IsMap, insert-IsMap, insert_new, AreApart,
  AreApart-insert, AreApart-nil, length, get_elem?, set, get_or, take, drop, replicate,
  length-append, length-take, length-drop, length-replicate, length-map, take-append-drop,
  drop_of_length-le, take_of_length-le, drop_nil, take_nil, drop-drop, drop-take, take-take_le,
  drop-append_le, take-append_le, take-append_ge, drop-append_ge, take-append_length,
  drop-append_length,
}

abbrev pub ttl_seconds : ℕ
ttl_seconds = 1800

pub record DbSession : Type 0 where
  pub id : ℕ
  pub session_token : Bytes
  pub user_id : ℕ
  pub scene_id : Bytes
  pub status : ℤ
  pub created_at : Bytes
  pub updated_at : Bytes

-- SessionCache::makeKey
abbrev pub make_key : Bytes → Bytes
make_key token = bytes "session:" ++ token

-- SessionCache::serialize
unfoldable pub serialize : DbSession → Bytes
serialize s =
    decimal s.id
    ++ b'|'
      ∷ (s.session_token
          ++ b'|'
            ∷ (decimal s.user_id
                ++ b'|'
                  ∷ (s.scene_id
                      ++ b'|'
                        ∷ (show_int s.status ++ b'|' ∷ (s.created_at ++ b'|' ∷ s.updated_at)))))

-- The conversions of deserialize; `none` where one throws.
unfoldable pub session_of :
    Option ℕ → Bytes → Option ℕ → Bytes → Option ℤ → Bytes → Bytes → Option DbSession
session_of (some id) token (some user) scene (some st) created updated = some (record {
  id = id;
  session_token = token;
  user_id = user;
  scene_id = scene;
  status = st;
  created_at = created;
  updated_at = updated;
})
session_of none token user scene st created updated = none
session_of (some id) token none scene st created updated = none
session_of (some id) token (some user) scene none created updated = none

unfoldable pub of_fields : List Bytes → Option DbSession
unfolding session_of
of_fields (f0 ∷ f1 ∷ f2 ∷ f3 ∷ f4 ∷ f5 ∷ f6 ∷ []) =
    session_of (stoull f0) f1 (stoull f2) f3 (stoi f4) f5 f6
of_fields fields = none

-- SessionCache::deserialize
unfoldable pub deserialize : Bytes → Option DbSession
unfolding of_fields
deserialize text = of_fields (segments b'|' text)

-- EXPIRE key seconds
abbrev pub expire_words : Bytes → List Bytes
expire_words k = bytes "EXPIRE" ∷ k ∷ decimal ttl_seconds ∷ []

-- SETEX key seconds value
abbrev pub setex_words : Bytes → Bytes → List Bytes
setex_words k v = bytes "SETEX" ∷ k ∷ decimal ttl_seconds ∷ v ∷ []

-- SET key value EX seconds NX
abbrev pub set_absent_words : Bytes → Bytes → List Bytes
set_absent_words k v = bytes "SET" ∷ k ∷ v ∷ bytes "EX" ∷ decimal ttl_seconds ∷ bytes "NX" ∷ []

-- DEL key
abbrev pub del_words : Bytes → List Bytes
del_words k = bytes "DEL" ∷ k ∷ []

abbrev pub is_status : Option Reply → Bool
is_status none = false
is_status (some (status s)) = true
is_status (some (integer n)) = false
is_status (some (string s)) = false
is_status (some nil_reply) = false
is_status (some refused) = false

abbrev pub is_integer : Option Reply → Bool
is_integer none = false
is_integer (some (integer n)) = true
is_integer (some (status s)) = false
is_integer (some (string s)) = false
is_integer (some nil_reply) = false
is_integer (some refused) = false

abbrev pub session_in : Option Bytes → Option DbSession
session_in none = none
session_in (some text) = deserialize text

module _ {R : Type 0} (redis : Redis R) where
  -- A command whose reply tells success by its type.
  abbrev pub succeeds : (Option Reply → Bool) → List Bytes → R → Bool × R
  succeeds test words r =
      if redis.lends r then (test (redis.run words r).0, (redis.run words r).1) else (false, r)

  -- The time to live is renewed only for a session that could be read.
  unfoldable pub renewed : Bytes → Option DbSession → R → Option DbSession × R
  renewed token none r = (none, r)
  renewed token (some s) r = (some s, (redis.run (expire_words (make_key token)) r).1)

  -- SessionCache::get
  unfoldable pub get : Bytes → R → Option DbSession × R
  unfolding renewed
  get token r =
      if redis.lends r
      then renewed token (session_in (text_of (redis.run (get_words (make_key token)) r).0))
          (redis.run (get_words (make_key token)) r).1
      else (none, r)

  -- SessionCache::put
  unfoldable pub put : DbSession → R → Bool × R
  put s = succeeds is_status (setex_words (make_key s.session_token) (serialize s))

  -- SessionCache::putIfAbsent
  unfoldable pub put_if_absent : DbSession → R → Bool × R
  put_if_absent s = succeeds is_status (set_absent_words (make_key s.session_token) (serialize s))

  -- SessionCache::refresh
  unfoldable pub refresh : Bytes → R → Bool × R
  refresh token = succeeds is_integer (expire_words (make_key token))

  -- SessionCache::remove
  unfoldable pub remove : Bytes → R → Bool × R
  remove token = succeeds is_integer (del_words (make_key token))
