-- ===== src/Session/Codec.antt =====
-- src/session/SessionCodec.cpp: the binary text of a session. A cursor into the text is the rest of
-- the text behind it.
pub mod Roundtrip
use jingjie_ar.Text.{is_empty, Bytes}
use jingjie_ar.Http.Request.{Fields}
use jingjie_ar.Prelude.{
  ℕ, zero, suc, ◌+◌, ◌-◌, ◌*◌, ◌/◌, ◌%◌, ◌^◌, ◌≤◌, ◌<◌, min, max, ◌≡◌, refl, sym, ap, ◌∙◌, subst,
  ◌≢◌, ◌↔◌, ◌⊎◌, inl, inr, Bool, true, false, not, ◌&&◌, ◌||◌, Option, none, some, List, [], ◌∷◌,
  ◌++◌, map, reverse, append-nil, append_assoc, arith, ltb, leb, if◌then◌else◌, ltb→lt, lt→ltb,
  leb→le, tests, Bool-cases, Option-cases, some_inj, Eq, ◌==◌, ==_iff, ==_refl, nat_eq, list_eq,
  lookup, insert, erase, has_key, lookup-insert, lookup-insert_self, lookup-erase, has_key-insert,
  IsMap, insert-IsMap, length, get_elem?, set, get_or, take, drop, replicate, length-append,
  length-take, length-drop, length-replicate, length-map, take-append-drop, drop_of_length-le,
  take_of_length-le, drop_nil, take_nil, drop-drop, drop-take, take-take_le, drop-append_le,
  take-append_le, take-append_ge, drop-append_ge, take-append_length, drop-append_length,
}
use jingjie_ar.Int.{to_u64, from_u64}
use jingjie_ar.Session.Value.{Session, make_session}

abbrev pub u32_max : ℕ
u32_max = 2 ^ 32 - 1

-- The loops of put32 and put64 over the shifts 8 * (n - 1), ..., 8, 0.
unfoldable pub put_bytes : ℕ → ℕ → Bytes
put_bytes zero v = []
put_bytes (suc k) v = (v / 2 ^ (8 * k) % 256) ∷ put_bytes k v

unfoldable pub put32 : ℕ → Bytes
unfolding put_bytes
put32 v = put_bytes 4 v

unfoldable pub put64 : ℕ → Bytes
unfolding put_bytes
put64 v = put_bytes 8 v

-- The loops of get32 and get64: `(value << 8) | byte`, in a word of `modulus` values.
unfoldable pub get_bytes : ℕ → ℕ → ℕ → Bytes → ℕ
get_bytes modulus zero acc s = acc
get_bytes modulus (suc k) acc [] = acc
get_bytes modulus (suc k) acc (c ∷ cs) = get_bytes modulus k (acc * 256 % modulus + c) cs

unfoldable pub get32 : Bytes → Option (ℕ × Bytes)
unfolding get_bytes
get32 s = if ltb (length s) 4 then none else some (get_bytes (2 ^ 32) 4 0 s, drop 4 s)

unfoldable pub get64 : Bytes → Option (ℕ × Bytes)
unfolding get_bytes
get64 s = if ltb (length s) 8 then none else some (get_bytes (2 ^ 64) 8 0 s, drop 8 s)

infixl 5 ◌>>=◌
abbrev pub ◌>>=◌ {ℓ κ} : {A : Type ℓ} {B : Type κ} → Option A → (A → Option B) → Option B
none >>= k = none
some a >>= k = k a

-- `size > in.size() - p` refuses the length.
unfoldable pub take_string : ℕ × Bytes → Option (Bytes × Bytes)
take_string (size, rest) =
    if ltb (length rest) size then none else some (take size rest, drop size rest)

unfoldable pub get_string : Bytes → Option (Bytes × Bytes)
unfolding take_string
get_string s = get32 s >>= take_string

abbrev pub put_string : Bytes → Bytes
put_string s = put32 (length s) ++ s

-- The loop over the values; `none` where a key or a value is too long.
unfoldable pub encode_values : Fields → Option Bytes
encode_values [] = some []
encode_values ((k, v) ∷ m) =
    if ltb u32_max (length k) || ltb u32_max (length v)
    then none
    else do rest ← encode_values m; some (put_string k ++ (put_string v ++ rest))

-- RedisSessionStorage::encode; the empty text says that the session cannot be encoded.
unfoldable pub encode : Session → Bytes
unfolding encode_values
encode s =
    if ltb u32_max (length s.id) || ltb u32_max (length s.values)
    then []
    else elim (encode_values s.values) [
      | none ↦ []
      | some rest ↦
          put_string s.id
          ++ (put64 (to_u64 s.expires_at)
              ++ (put64 (to_u64 s.ttl_seconds) ++ (put32 (length s.values) ++ rest)))
    ]

-- The loop over `count` values; `none` for a text that is too short or names a key twice. The set
-- of the keys seen is that of the values decoded so far.
unfoldable pub decode_values : ℕ → Bytes → Fields → Option (Fields × Bytes)
decode_values zero s values = some (values, s)
decode_values (suc n) s values = do
  (key, s₁) ← get_string s
  (value, s₂) ← get_string s₁
  let rest = decode_values n s₂ (insert key value values)
  if has_key key values then none else rest

-- A text is decoded only as a whole.
abbrev pub if_consumed : Bytes → Session → Option Session
if_consumed rest s = if is_empty rest then some s else none

-- RedisSessionStorage::decode; `none` for its `false`, which leaves the session alone.
unfoldable pub decode : Bytes → Option Session
unfolding decode_values
decode s = do
  (id, s₁) ← get_string s
  (expires, s₂) ← get64 s₁
  (ttl, s₃) ← get64 s₂
  (count, s₄) ← get32 s₃
  (values, s₅) ← decode_values count s₄ []
  if_consumed s₅ (record (make_session id (from_u64 expires) (from_u64 ttl)) { values = values })
