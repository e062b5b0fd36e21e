-- ===== src/Visitor/Tests.antt =====
-- A small server in memory that answers the commands as documented, and visitors that come twice.
use jingjie_ar.Session.Token.{all_lower_hex, valid_token_syntax}
use jingjie_ar.Visitor.{
  all_request_chars, valid_request_id, bootstrap_key, visitor_key, read_claim, redis_claim,
  redis_save, redis_exists, finish, claim_candidate, valid, ok, BootstrapResult, bootstrap, status,
  redis_store,
}
use jingjie_ar.Visitor.Bootstrap.{bootstrap-repeats}
use jingjie_ar.Redis.{integer, string, refused, has_value, nil_reply, Reply, Redis, IsRedis}
use jingjie_ar.Visitor.Store.{redis_store-IsVisitorStore, claimed_in, held_in, IsVisitorStore}
use jingjie_ar.Text.{bytes, Bytes}
use jingjie_ar.Prelude.{
  ◌≡◌, refl, ap, true, Option, none, some, List, [], ◌∷◌, arith, if◌then◌else◌, ◌==◌, nat_eq,
  list_eq, lookup, insert, lookup-insert, replicate,
}

abbrev Keys : Type 0
Keys = List (Bytes × Bytes)

-- EXISTS and GET, by the first word.
ask : Bytes → Bytes → Keys → Option Reply
ask word k keys =
    if word == bytes "GET"
    then elim (lookup k keys) [ none ↦ some nil_reply | some v ↦ some (string v) ]
    else some (integer (if has_value (lookup k keys) then 1 else 0))

-- A SET with NX by what the key held.
set_new : Bytes → Bytes → Option Bytes → Keys → Option Reply × Keys
set_new k v none keys = (some (status (bytes "OK")), insert k v keys)
set_new k v (some u) keys = (some nil_reply, keys)

-- SET with EX, and with NX and EX.
small_run : List Bytes → Keys → Option Reply × Keys
unfolding ask set_new
small_run (word ∷ k ∷ []) keys = (ask word k keys, keys)
small_run (word ∷ k ∷ v ∷ ex ∷ ttl ∷ []) keys = (some (status (bytes "OK")), insert k v keys)
small_run (word ∷ k ∷ v ∷ nx ∷ ex ∷ ttl ∷ []) keys = set_new k v (lookup k keys) keys
small_run words keys = (some refused, keys)

abbrev small_redis : Redis Keys
small_redis = record { lends = λ r. true; run = small_run }

abbrev value : Bytes → Keys → Option Bytes
value = lookup

one_found :
    (o : Option Bytes)
    → some (integer (if has_value o then 1 else 0)) ≡ some (integer 1)
    → has_value o ≡ true
one_found none h = ground (arith, h)
one_found (some v) h = refl

text_found :
    (o : Option Bytes) (v : Bytes)
    → elim o [ none ↦ some nil_reply | some u ↦ some (string u) ] ≡ some (string v)
    → o ≡ some v
text_found none v h = ground (arith, h)
text_found (some u) v h = ground (arith, h)

new_free :
    (k v : Bytes) (o : Option Bytes) (keys : Keys)
    → (set_new k v o keys).0 ≡ some (status (bytes "OK"))
    → o ≡ none
unfolding set_new
new_free k v none keys h = refl
new_free k v (some u) keys h = ground (arith, h)

new_stored :
    (k v q : Bytes) (o : Option Bytes) (keys : Keys)
    → (set_new k v o keys).0 ≡ some (status (bytes "OK"))
    → value q (set_new k v o keys).1 ≡ (if k == q then some v else value q keys)
unfolding set_new
new_stored k v q none keys h = lookup-insert k q v keys
new_stored k v q (some u) keys h = ground (arith, h)

new_taken :
    (k v q : Bytes) (o : Option Bytes) (keys : Keys)
    → (set_new k v o keys).0 ≡ some nil_reply
    → value q (set_new k v o keys).1 ≡ value q keys
unfolding set_new
new_taken k v q none keys h = ground (arith, h)
new_taken k v q (some u) keys h = refl

small_redis-IsRedis : IsRedis small_redis value
unfolding small_run ask
small_redis-IsRedis = record {
  exists_found = λ k r h. one_found (lookup k r) h;
  exists_keeps = λ k q r. refl;
  get_found = λ k v r h. text_found (lookup k r) v h;
  get_keeps = λ k q r. refl;
  set_stores = λ k v ttl q r h. lookup-insert k q v r;
  new_was_free = λ k v ttl r h. new_free k v (lookup k r) r h;
  new_stores = λ k v ttl q r h. new_stored k v q (lookup k r) r h;
  taken_keeps = λ k v ttl q r h. new_taken k v q (lookup k r) r h;
}

redis_store-IsVisitorStore_example :
    IsVisitorStore (redis_store small_redis) (held_in value) (claimed_in value)
redis_store-IsVisitorStore_example =
    redis_store-IsVisitorStore small_redis value small_redis-IsRedis

small_store_law : IsVisitorStore (redis_store small_redis) (held_in value) (claimed_in value)
small_store_law = redis_store-IsVisitorStore small_redis value small_redis-IsRedis

abbrev all_a : Bytes
all_a = replicate 64 97

abbrev all_b : Bytes
all_b = replicate 64 98

abbrev page_id : Bytes
page_id = bytes "r-1"

-- The visitor's first bootstrap, which brings no token.
abbrev first_visit : BootstrapResult × Keys
first_visit = bootstrap (some (redis_store small_redis)) all_a [] page_id []

-- The same page again, with another generated token.
abbrev second_visit : BootstrapResult × Keys
second_visit = bootstrap (some (redis_store small_redis)) all_b [] page_id first_visit.1

program : Unit {0}
unfolding bootstrap valid claim_candidate finish redis_exists redis_save redis_claim read_claim
    small_run ask set_new visitor_key bootstrap_key valid_request_id all_request_chars
    valid_token_syntax all_lower_hex lookup insert
program = tt

first_token : first_visit.0 ≡ record { status = ok; token = all_a }
unfolding program
first_token = refl

second_token : second_visit.0 ≡ record { status = ok; token = all_a }
unfolding program
second_token = refl

bootstrap-repeats_example : second_visit.0.token ≡ first_visit.0.token
bootstrap-repeats_example =
    bootstrap-repeats (redis_store small_redis) (held_in value) (claimed_in value) small_store_law
      all_a [] all_b [] page_id [] first_visit.1 (ap (λ x. x.status) first_token) refl
      (ap (λ x. x.status) second_token)
