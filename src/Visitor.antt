-- ===== src/Visitor.antt =====
-- Anonymous visitor sessions: WebApps/ARServer/include/services/VisitorSessionService.h and
-- WebApps/ARServer/src/services/VisitorSessionService.cpp. The service works on a VisitorStore;
-- RedisVisitorStore is the one over Redis. A null store is `none`. `valid_token_syntax` and
-- secureToken stand in Session.Token.
pub mod Store
pub mod Bootstrap
mod Tests
use jingjie_ar.Redis.{
  text_of, refused, set_words, exists_words, nil_reply, get_words, integer, set_new_words, string,
  status, Reply, Redis,
}
use jingjie_ar.Session.Token.{valid_token_syntax}
use jingjie_ar.Text.{is_upper, is_empty, bytes, Bytes, is_digit}
use jingjie_ar.Prelude.{
  ℕ, zero, suc, ◌+◌, ◌-◌, ◌*◌, ◌/◌, ◌%◌, ◌^◌, ◌≤◌, ◌<◌, min, max, ◌≡◌, refl, sym, ap, ap₂, ◌∙◌,
  subst, ◌≢◌, ◌↔◌, ◌⊎◌, inl, inr, Bool, true, false, not, ◌&&◌, ◌||◌, Option, none, some, List, [],
  ◌∷◌, ◌++◌, map, reverse, append-nil, append_assoc, reverse-cons, arith, ltb, leb, if◌then◌else◌,
  ltb→lt, lt→ltb, leb→le, nat_beq_iff, tests, Bool-cases, if_ind, Option-cases, some_inj, Eq, ◌==◌,
  ==_iff, ==_refl, nat_eq, list_eq, lookup, insert, erase, has_key, lookup-insert,
  lookup-insert_self, lookup-erase, has_key-insert, IsMap, insert-IsMap, insert_new, AreApart,
  AreApart-insert, AreApart-nil, length, get_elem?, set, get_or, take, drop, replicate,
  length-append, length-take, length-drop, length-replicate, length-map, take-append-drop,
  drop_of_length-le, take_of_length-le, drop_nil, take_nil, drop-drop, drop-take, take-take_le,
  drop-append_le, take-append_le, take-append_ge, drop-append_ge, take-append_length,
  drop-append_length,
}

abbrev pub visitor_ttl : ℕ
visitor_ttl = 1800

abbrev pub bootstrap_ttl : ℕ
bootstrap_ttl = 300

-- The virtual functions, over a state; a claim gives the resolved token, or `none` for false.
pub record VisitorStore (S : Type 0) : Type 0 where
  pub exists : Bytes → S → Bool × S
  pub save : Bytes → ℕ → S → Bool × S
  pub claim : Bytes → Bytes → ℕ → S → Option Bytes × S

pub data BootstrapStatus : Type 0 where
  ok bad_request unavailable : BootstrapStatus

pub record BootstrapResult : Type 0 where
  pub status : BootstrapStatus
  pub token : Bytes

abbrev pub failed : BootstrapStatus → BootstrapResult
failed s = record { status = s; token = [] }

-- std::isalnum of the "C" locale, and the four marks of validRequestId.
abbrev pub is_request_char : ℕ → Bool
is_request_char c =
    is_digit c
    || (leb b'a' c && leb c b'z')
    || is_upper c
    || c == b'-'
    || c == b'_'
    || c == b'.'
    || c == b':'

unfoldable pub all_request_chars : Bytes → Bool
all_request_chars [] = true
all_request_chars (c ∷ cs) = if is_request_char c then all_request_chars cs else false

-- VisitorSessionService::validRequestId
unfoldable pub valid_request_id : Bytes → Bool
unfolding all_request_chars
valid_request_id id = if is_empty id || ltb 128 (length id) then false else all_request_chars id

module _ {S : Type 0} where
  -- VisitorSessionService::valid
  unfoldable pub valid : Option (VisitorStore S) → Bytes → S → Bool × S
  valid none token s = (false, s)
  valid (some store) token s = if valid_token_syntax token then store.exists token s else (false, s)

  -- VisitorSessionService::refresh
  unfoldable pub refresh : Option (VisitorStore S) → Bytes → S → Bool × S
  refresh none token s = (false, s)
  refresh (some store) token s =
      if valid_token_syntax token then store.save token visitor_ttl s else (false, s)

  -- The last save of bootstrap, for the token that the claim resolved to.
  unfoldable pub finish : VisitorStore S → Option Bytes × S → BootstrapResult × S
  finish store (none, s) = (failed unavailable, s)
  finish store (some token, s) =
      if valid_token_syntax token
      then (if (store.save token visitor_ttl s).0
          then (record { status = ok; token = token }, (store.save token visitor_ttl s).1)
          else (failed unavailable, (store.save token visitor_ttl s).1))
      else (failed unavailable, s)

  -- The candidate is saved before it is claimed for the request.
  unfoldable pub claim_candidate : VisitorStore S → Bytes → Bytes → S → BootstrapResult × S
  unfolding finish
  claim_candidate store id candidate s =
      if valid_token_syntax candidate
      then (if (store.save candidate visitor_ttl s).0
          then finish store
              (store.claim id candidate bootstrap_ttl (store.save candidate visitor_ttl s).1)
          else (failed unavailable, (store.save candidate visitor_ttl s).1))
      else (failed unavailable, s)

  -- VisitorSessionService::bootstrap; `generated` is what the generator gives if it is called.
  unfoldable pub bootstrap :
      Option (VisitorStore S) → Bytes → Bytes → Bytes → S → BootstrapResult × S
  unfolding valid claim_candidate
  bootstrap none generated existing id s =
      if valid_request_id id then (failed unavailable, s) else (failed bad_request, s)
  bootstrap (some store) generated existing id s =
      if valid_request_id id
      then claim_candidate store id
          (if (valid (some store) existing s).0 then existing else generated)
          (valid (some store) existing s).1
      else (failed bad_request, s)

-- RedisVisitorStore::visitorKey
unfoldable pub visitor_key : Bytes → Bytes
visitor_key token = bytes "visitor:{" ++ token ++ bytes "}"

-- RedisVisitorStore::bootstrapKey
unfoldable pub bootstrap_key : Bytes → Bytes
bootstrap_key id = bytes "bootstrap:{" ++ id ++ bytes "}"

-- The reply that EXISTS gives for a key that is there.
abbrev pub is_one : Option Reply → Bool
is_one none = false
is_one (some (integer n)) = n == 1
is_one (some (status s)) = false
is_one (some (string s)) = false
is_one (some nil_reply) = false
is_one (some refused) = false

abbrev pub is_ok : Option Reply → Bool
is_ok none = false
is_ok (some (status s)) = s == bytes "OK"
is_ok (some (integer n)) = false
is_ok (some (string s)) = false
is_ok (some nil_reply) = false
is_ok (some refused) = false

abbrev pub is_nil : Option Reply → Bool
is_nil none = false
is_nil (some nil_reply) = true
is_nil (some (status s)) = false
is_nil (some (integer n)) = false
is_nil (some (string s)) = false
is_nil (some refused) = false

module _ {R : Type 0} (redis : Redis R) where
  -- RedisVisitorStore::exists
  unfoldable pub redis_exists : Bytes → R → Bool × R
  redis_exists token r = if is_empty token || not (redis.lends r) then (false, r) else (
    is_one (redis.run (exists_words (visitor_key token)) r).0,
    (redis.run (exists_words (visitor_key token)) r).1,
  )

  -- RedisVisitorStore::save
  unfoldable pub redis_save : Bytes → ℕ → R → Bool × R
  redis_save token ttl r =
      if is_empty token || ttl == 0 || not (redis.lends r) then (false, r) else (
        is_ok (redis.run (set_words (visitor_key token) (bytes "1") ttl) r).0,
        (redis.run (set_words (visitor_key token) (bytes "1") ttl) r).1,
      )

  -- The GET of claimBootstrap, after the SET with NX.
  unfoldable pub read_claim : Bytes → R → Option Bytes × R
  read_claim id r = (
    text_of (redis.run (get_words (bootstrap_key id)) r).0,
    (redis.run (get_words (bootstrap_key id)) r).1,
  )

  -- RedisVisitorStore::claimBootstrap
  unfoldable pub redis_claim : Bytes → Bytes → ℕ → R → Option Bytes × R
  unfolding read_claim
  redis_claim id candidate ttl r =
      let set = redis.run (set_new_words (bootstrap_key id) candidate ttl) r in
      if is_empty id || is_empty candidate || ttl == 0 || not (redis.lends r)
      then (none, r)
      else if is_ok set.0 || is_nil set.0
      then read_claim id set.1
      else (none, set.1)

  abbrev pub redis_store : VisitorStore R
  redis_store = record { exists = redis_exists; save = redis_save; claim = redis_claim }
