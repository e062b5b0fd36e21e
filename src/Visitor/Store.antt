-- ===== src/Visitor/Store.antt =====
-- The contract of VisitorStore in WebApps/ARServer/include/services/VisitorSessionService.h, and
-- RedisVisitorStore under it.
use jingjie_ar.Redis.{
  text_of, set_new_words, refused, has_value, string, IsRedis, nil_reply, integer, Reply, Redis,
}
use jingjie_ar.Visitor.{
  redis_store, redis_exists, redis_claim, read_claim, redis_save, status, is_ok, bootstrap_key,
  is_one, is_nil, VisitorStore, visitor_key,
}
use jingjie_ar.Text.{is_empty, bytes, Bytes}
use jingjie_ar.Prelude.{
  ℕ, ◌≡◌, refl, sym, ap, ◌∙◌, inl, inr, Bool, true, false, not, ◌||◌, Option, none, some, arith,
  if◌then◌else◌, nat_beq_iff, Bool-cases, if_ind, some_inj, ◌==◌, ==_iff, ==_refl, nat_eq, list_eq,
  set,
}

-- What the service relies on, for keys that do not expire meanwhile: `held` says which tokens stand,
-- `claimed` which token a request has.
pub record IsVisitorStore {S : Type 0} (store : VisitorStore S) (held : Bytes → S → Bool)
    (claimed : Bytes → S → Option Bytes) : Type 0 where
  pub exists_held : (t : Bytes) (s : S) → (store.exists t s).0 ≡ true → held t s ≡ true
  pub exists_keeps : (t q : Bytes) (s : S) → held q (store.exists t s).1 ≡ held q s
  pub exists_keeps_claims : (t q : Bytes) (s : S) → claimed q (store.exists t s).1 ≡ claimed q s
  pub save_holds :
      (t : Bytes) (ttl : ℕ) (s : S)
      → (store.save t ttl s).0 ≡ true
      → held t (store.save t ttl s).1 ≡ true
  pub save_keeps :
      (t : Bytes) (ttl : ℕ) (q : Bytes) (s : S)
      → (store.save t ttl s).0 ≡ true
      → held q s ≡ true
      → held q (store.save t ttl s).1 ≡ true
  pub save_keeps_claims :
      (t : Bytes) (ttl : ℕ) (q : Bytes) (s : S)
      → (store.save t ttl s).0 ≡ true
      → claimed q (store.save t ttl s).1 ≡ claimed q s
  pub claim_stands :
      (id c : Bytes) (ttl : ℕ) (t : Bytes) (s : S)
      → (store.claim id c ttl s).0 ≡ some t
      → claimed id (store.claim id c ttl s).1 ≡ some t
  pub claim_first :
      (id c : Bytes) (ttl : ℕ) (t u : Bytes) (s : S)
      → (store.claim id c ttl s).0 ≡ some t
      → claimed id s ≡ some u
      → t ≡ u
  pub claim_keeps :
      (id c : Bytes) (ttl : ℕ) (t q : Bytes) (s : S)
      → (store.claim id c ttl s).0 ≡ some t
      → held q (store.claim id c ttl s).1 ≡ held q s

ok_reply : (o : Option Reply) → is_ok o ≡ true → o ≡ some (status (bytes "OK"))
ok_reply none h = ground arith
ok_reply (some (status s)) h = ap (λ x. some (status x)) ((==_iff s (bytes "OK")).0 h)
ok_reply (some (integer n)) h = ground arith
ok_reply (some (string s)) h = ground arith
ok_reply (some nil_reply) h = ground arith
ok_reply (some refused) h = ground arith

one_reply : (o : Option Reply) → is_one o ≡ true → o ≡ some (integer 1)
one_reply none h = ground arith
one_reply (some (integer n)) h = ap (λ x. some (integer x)) ((nat_beq_iff n 1).0 h)
one_reply (some (status s)) h = ground arith
one_reply (some (string s)) h = ground arith
one_reply (some nil_reply) h = ground arith
one_reply (some refused) h = ground arith

nil_is : (o : Option Reply) → is_nil o ≡ true → o ≡ some nil_reply
nil_is none h = ground arith
nil_is (some nil_reply) h = refl
nil_is (some (status s)) h = ground arith
nil_is (some (integer n)) h = ground arith
nil_is (some (string s)) h = ground arith
nil_is (some refused) h = ground arith

text_reply : (o : Option Reply) (v : Bytes) → text_of o ≡ some v → o ≡ some (string v)
text_reply none v h = ground arith
text_reply (some (string s)) v h = ap (λ x. some (string x)) (some_inj h)
text_reply (some (status s)) v h = ground arith
text_reply (some (integer n)) v h = ground arith
text_reply (some nil_reply) v h = ground arith
text_reply (some refused) v h = ground arith

has_self :
    (k : Bytes) (o : Option Bytes) → has_value (if k == k then some (bytes "1") else o) ≡ true
has_self k o = rw (==_refl k) refl

visitor_key-ne-bootstrap_key : (t id : Bytes) → (visitor_key t == bootstrap_key id) ≡ false
unfolding visitor_key bootstrap_key
visitor_key-ne-bootstrap_key t id = refl

bootstrap_key-ne-visitor_key : (t id : Bytes) → (bootstrap_key id == visitor_key t) ≡ false
unfolding visitor_key bootstrap_key
bootstrap_key-ne-visitor_key t id = refl

-- The tokens and claims that the keys of a server stand for.
module _ {R : Type 0} (value : Bytes → R → Option Bytes) where
  abbrev pub held_in : Bytes → R → Bool
  held_in t r = has_value (value (visitor_key t) r)

  abbrev pub claimed_in : Bytes → R → Option Bytes
  claimed_in id r = value (bootstrap_key id) r

module _ {R : Type 0} (redis : Redis R) (value : Bytes → R → Option Bytes)
    (law : IsRedis redis value) where
  -- A save that succeeds has stored its key.
  redis_save-stores :
      (t : Bytes) (ttl : ℕ) (k : Bytes) (r : R)
      → (redis_save redis t ttl r).0 ≡ true
      → value k (redis_save redis t ttl r).1
        ≡ (if visitor_key t == k then some (bytes "1") else value k r)
  unfolding redis_save
  redis_save-stores t ttl k r =
      if_ind
        (λ (p : Bool × R).
          p.0 ≡ true → value k p.1 ≡ (if visitor_key t == k then some (bytes "1") else value k r))
        (is_empty t || ttl == 0 || not (redis.lends r)) (λ refuses h. ground (arith, h))
        (λ goes h. law.set_stores (visitor_key t) (bytes "1") ttl k r (ok_reply _ h))

  redis_exists-finds :
      (t : Bytes) (r : R) → (redis_exists redis t r).0 ≡ true → held_in value t r ≡ true
  unfolding redis_exists
  redis_exists-finds t r =
      if_ind (λ (p : Bool × R). p.0 ≡ true → held_in value t r ≡ true)
        (is_empty t || not (redis.lends r)) (λ refuses h. ground (arith, h))
        (λ goes h. law.exists_found (visitor_key t) r (one_reply _ h))

  redis_exists-keeps : (t k : Bytes) (r : R) → value k (redis_exists redis t r).1 ≡ value k r
  unfolding redis_exists
  redis_exists-keeps t k r =
      if_ind (λ (p : Bool × R). value k p.1 ≡ value k r) (is_empty t || not (redis.lends r))
        (λ refuses. refl) (λ goes. law.exists_keeps (visitor_key t) k r)

  -- What a claim that gives a token says of the server before and after it.
  record IsClaimed (id t : Bytes) (r r' : R) : Type 0 where
    pub stands : claimed_in value id r' ≡ some t
    pub first : (u : Bytes) → claimed_in value id r ≡ some u → t ≡ u
    pub keeps : (q : Bytes) → held_in value q r' ≡ held_in value q r

  read_claim-reads :
      (id t : Bytes) (r : R) → (read_claim redis id r).0 ≡ some t → claimed_in value id r ≡ some t
  unfolding read_claim
  read_claim-reads id t r h = law.get_found (bootstrap_key id) t r (text_reply _ t h)

  read_claim-keeps : (id k : Bytes) (r : R) → value k (read_claim redis id r).1 ≡ value k r
  unfolding read_claim
  read_claim-keeps id k r = law.get_keeps (bootstrap_key id) k r

  new_claim :
      (id c : Bytes) (ttl : ℕ) (t : Bytes) (r : R)
      → is_ok (redis.run (set_new_words (bootstrap_key id) c ttl) r).0 ≡ true
      → (read_claim redis id (redis.run (set_new_words (bootstrap_key id) c ttl) r).1).0 ≡ some t
      → IsClaimed id t r
          (read_claim redis id (redis.run (set_new_words (bootstrap_key id) c ttl) r).1).1
  new_claim id c ttl t r set h =
      let r' = (redis.run (set_new_words (bootstrap_key id) c ttl) r).1 in
      let stored = law.new_stores (bootstrap_key id) c ttl in
      record {
        stands = read_claim-keeps id (bootstrap_key id) r' ∙ read_claim-reads id t r' h;
        first = λ u before.
            ground (arith, before, law.new_was_free (bootstrap_key id) c ttl r (ok_reply _ set));
        keeps = λ q. ap has_value (
            read_claim-keeps id (visitor_key q) r'
            ∙ stored (visitor_key q) r (ok_reply _ set)
            ∙ rw (bootstrap_key-ne-visitor_key q id) refl);
      }

  old_claim :
      (id c : Bytes) (ttl : ℕ) (t : Bytes) (r : R)
      → is_nil (redis.run (set_new_words (bootstrap_key id) c ttl) r).0 ≡ true
      → (read_claim redis id (redis.run (set_new_words (bootstrap_key id) c ttl) r).1).0 ≡ some t
      → IsClaimed id t r
          (read_claim redis id (redis.run (set_new_words (bootstrap_key id) c ttl) r).1).1
  old_claim id c ttl t r set h =
      let r' = (redis.run (set_new_words (bootstrap_key id) c ttl) r).1 in
      let same = λ (k : Bytes). law.taken_keeps (bootstrap_key id) c ttl k r (nil_is _ set) in
      record {
        stands = read_claim-keeps id (bootstrap_key id) r' ∙ read_claim-reads id t r' h;
        first = λ u before.
            some_inj (sym (read_claim-reads id t r' h) ∙ same (bootstrap_key id) ∙ before);
        keeps = λ q. ap has_value (read_claim-keeps id (visitor_key q) r' ∙ same (visitor_key q));
      }

  redis_claim-IsClaimed :
      (id c : Bytes) (ttl : ℕ) (t : Bytes) (r : R)
      → (redis_claim redis id c ttl r).0 ≡ some t
      → IsClaimed id t r (redis_claim redis id c ttl r).1
  unfolding redis_claim
  redis_claim-IsClaimed id c ttl t r =
      let set : Option Reply × R = redis.run (set_new_words (bootstrap_key id) c ttl) r in
      if_ind (λ (p : Option Bytes × R). p.0 ≡ some t → IsClaimed id t r p.1)
        (is_empty id || is_empty c || ttl == 0 || not (redis.lends r))
        (λ refuses h. ground (arith, h))
        (λ goes.
          if_ind (λ (p : Option Bytes × R). p.0 ≡ some t → IsClaimed id t r p.1)
            (is_ok set.0 || is_nil set.0)
            (λ either h. elim (Bool-cases (is_ok set.0)) [
              | inl anew ↦ new_claim id c ttl t r anew h
              | inr taken ↦ old_claim id c ttl t r (ground (arith, either, taken)) h
            ])
            (λ neither h. ground (arith, h)))

  -- If the server answers its commands as documented, RedisVisitorStore keeps the contract of a
  -- visitor store: a token stands from its save on, and the first token that is claimed for a
  -- request stays the one that every later claim gives.
  pub redis_store-IsVisitorStore :
      IsVisitorStore (redis_store redis) (held_in value) (claimed_in value)
  redis_store-IsVisitorStore = record {
    exists_held = redis_exists-finds;
    exists_keeps = λ t q r. ap has_value (redis_exists-keeps t (visitor_key q) r);
    exists_keeps_claims = λ t q r. redis_exists-keeps t (bootstrap_key q) r;
    save_holds = λ t ttl r h.
        ap has_value (redis_save-stores t ttl (visitor_key t) r h)
        ∙ has_self (visitor_key t) (value (visitor_key t) r);
    save_keeps = λ t ttl q r h before.
        ap has_value (redis_save-stores t ttl (visitor_key q) r h)
        ∙ if_ind (λ o. has_value o ≡ true) (visitor_key t == visitor_key q) (λ e. refl)
            (λ e. before);
    save_keeps_claims = λ t ttl q r h.
        redis_save-stores t ttl (bootstrap_key q) r h ∙ rw (visitor_key-ne-bootstrap_key t q) refl;
    claim_stands = λ id c ttl t r h. (redis_claim-IsClaimed id c ttl t r h).stands;
    claim_first = λ id c ttl t u r h. (redis_claim-IsClaimed id c ttl t r h).first u;
    claim_keeps = λ id c ttl t q r h. (redis_claim-IsClaimed id c ttl t r h).keeps q;
  }
