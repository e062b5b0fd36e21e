-- ===== src/Redis.antt =====
-- What the sources ask of hiredis, a library that is not part of the repository: the words of a
-- command, and the reply. Whether RedisConnectionPool has a connection to lend is part of it.
use jingjie_ar.Http.Response.{decimal}
use jingjie_ar.Text.{bytes, Bytes}
use jingjie_ar.Prelude.{
  ℕ, ◌≡◌, Bool, true, false, Option, none, some, List, [], ◌∷◌, if◌then◌else◌, ◌==◌, nat_eq,
  list_eq,
}

-- redisReply by its type; `refused` is an error or any type that no caller reads.
pub data Reply : Type 0 where
  status : Bytes → Reply
  integer : ℕ → Reply
  string : Bytes → Reply
  nil_reply : Reply
  refused : Reply

-- The text of a reply, if it is one.
abbrev pub text_of : Option Reply → Option Bytes
text_of none = none
text_of (some (string s)) = some s
text_of (some (status s)) = none
text_of (some (integer n)) = none
text_of (some nil_reply) = none
text_of (some refused) = none

-- A server with the pool before it, over its state; a command without an answer gives `none`.
pub record Redis (R : Type 0) : Type 0 where
  pub lends : R → Bool
  pub run : List Bytes → R → Option Reply × R

abbrev pub has_value : Option Bytes → Bool
has_value none = false
has_value (some v) = true

-- EXISTS key
abbrev pub exists_words : Bytes → List Bytes
exists_words k = bytes "EXISTS" ∷ k ∷ []

-- GET key
abbrev pub get_words : Bytes → List Bytes
get_words k = bytes "GET" ∷ k ∷ []

-- SET key value EX seconds
abbrev pub set_words : Bytes → Bytes → ℕ → List Bytes
set_words k v ttl = bytes "SET" ∷ k ∷ v ∷ bytes "EX" ∷ decimal ttl ∷ []

-- SET key value NX EX seconds
abbrev pub set_new_words : Bytes → Bytes → ℕ → List Bytes
set_new_words k v ttl = bytes "SET" ∷ k ∷ v ∷ bytes "NX" ∷ bytes "EX" ∷ decimal ttl ∷ []

-- The documented answers of the commands, for keys that do not expire meanwhile: `value` is what a
-- key holds. Nothing is said of a command that is refused or not answered.
pub record IsRedis {R : Type 0} (redis : Redis R) (value : Bytes → R → Option Bytes) : Type 0 where
  pub exists_found :
      (k : Bytes) (r : R)
      → (redis.run (exists_words k) r).0 ≡ some (integer 1)
      → has_value (value k r) ≡ true
  pub exists_keeps : (k q : Bytes) (r : R) → value q (redis.run (exists_words k) r).1 ≡ value q r
  pub get_found :
      (k v : Bytes) (r : R) → (redis.run (get_words k) r).0 ≡ some (string v) → value k r ≡ some v
  pub get_keeps : (k q : Bytes) (r : R) → value q (redis.run (get_words k) r).1 ≡ value q r
  pub set_stores :
      (k v : Bytes) (ttl : ℕ) (q : Bytes) (r : R)
      → (redis.run (set_words k v ttl) r).0 ≡ some (status (bytes "OK"))
      → value q (redis.run (set_words k v ttl) r).1 ≡ (if k == q then some v else value q r)
  pub new_was_free :
      (k v : Bytes) (ttl : ℕ) (r : R)
      → (redis.run (set_new_words k v ttl) r).0 ≡ some (status (bytes "OK"))
      → value k r ≡ none
  pub new_stores :
      (k v : Bytes) (ttl : ℕ) (q : Bytes) (r : R)
      → (redis.run (set_new_words k v ttl) r).0 ≡ some (status (bytes "OK"))
      → value q (redis.run (set_new_words k v ttl) r).1 ≡ (if k == q then some v else value q r)
  pub taken_keeps :
      (k v : Bytes) (ttl : ℕ) (q : Bytes) (r : R)
      → (redis.run (set_new_words k v ttl) r).0 ≡ some nil_reply
      → value q (redis.run (set_new_words k v ttl) r).1 ≡ value q r
