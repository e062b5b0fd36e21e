-- ===== src/Session/Codec/Roundtrip.antt =====
-- Decoding after encoding, for src/session/SessionCodec.cpp.
use jingjie_ar.Int.{from_u64-to_u64, to_u64-lt, to_u64, IsInt64}
use jingjie_ar.Session.Codec.{
  encode, decode, put_string, decode_values, u32_max, take_string, get_string, encode_values, put64,
  get_bytes, put32, get64, get32,
}
use jingjie_ar.Session.Value.{Session}
use jingjie_ar.Http.Request.{Fields}
use jingjie_ar.Text.{Bytes}
use jingjie_ar.Prelude.{
  ℕ, ◌^◌, ◌≤◌, ◌<◌, ◌≡◌, refl, sym, ap, ap₂, ◌∙◌, subst, false, ◌||◌, some, [], ◌∷◌, ◌++◌, map,
  append-nil, append_assoc, arith, ltb, some_inj, nat_eq, list_eq, insert, IsMap, insert_new,
  AreApart, AreApart-insert, AreApart-nil, length, length-append, take-append_length,
  drop-append_length,
}

word32 : (v : ℕ) (rest : Bytes) → v < 2 ^ 32 → get_bytes (2 ^ 32) 4 0 (put32 v ++ rest) ≡ v
unfolding get_bytes put32
word32 v rest h = omega arith

word64 : (v : ℕ) (rest : Bytes) → v < 2 ^ 64 → get_bytes (2 ^ 64) 8 0 (put64 v ++ rest) ≡ v
unfolding get_bytes put64
word64 v rest h = omega arith

pub get32-put32 : (v : ℕ) (rest : Bytes) → v < 2 ^ 32 → get32 (put32 v ++ rest) ≡ some (v, rest)
unfolding get32 put32
get32-put32 v rest h =
    let long : ltb (length (put32 v ++ rest)) 4 ≡ false = ground arith in
    rw long (ap (λ n. some (n, rest)) (word32 v rest h))

pub get64-put64 : (v : ℕ) (rest : Bytes) → v < 2 ^ 64 → get64 (put64 v ++ rest) ≡ some (v, rest)
unfolding get64 put64
get64-put64 v rest h =
    let long : ltb (length (put64 v ++ rest)) 8 ≡ false = ground arith in
    rw long (ap (λ n. some (n, rest)) (word64 v rest h))

pub get_string-put_string :
    (s rest : Bytes) → length s ≤ u32_max → get_string (put_string s ++ rest) ≡ some (s, rest)
unfolding get_string take_string
get_string-put_string s rest h =
    rw (append_assoc (put32 (length s)) s rest, get32-put32 (length s) (s ++ rest) (omega arith))
      (let fits : ltb (length (s ++ rest)) (length s) ≡ false =
          ground (arith, length-append s rest) in
        rw fits (cc (take-append_length s rest, drop-append_length s rest)))

-- Every key and value is short enough for its length word.
abbrev pub AreShort : Fields → Type 0
AreShort [] = Unit {0}
AreShort ((k, v) ∷ m) = (length k ≤ u32_max) × (length v ≤ u32_max) × AreShort m

encode_values_total : (m : Fields) → AreShort m → (e : Bytes) × (encode_values m ≡ some e)
unfolding encode_values
encode_values_total [] h = ([], refl)
encode_values_total ((k, v) ∷ m) h =
    let (rest, found) = encode_values_total m h.2 in
    let fits : (ltb u32_max (length k) || ltb u32_max (length v)) ≡ false = ground arith in
    (put_string k ++ (put_string v ++ rest), rw fits (rw found refl))

decode_values-encode_values :
    (m : Fields) (e rest : Bytes) (acc : Fields)
    → encode_values m ≡ some e
    → AreShort m
    → IsMap m
    → AreApart acc m
    → decode_values (length m) (e ++ rest) acc ≡ some (acc ++ m, rest)
unfolding encode_values decode_values
decode_values-encode_values [] e rest acc h short map apart =
    let empty : e ≡ [] = sym (some_inj h) in rw (empty, append-nil) refl
decode_values-encode_values ((k, v) ∷ m) e rest acc h short map apart =
    let (tail, found) = encode_values_total m short.2 in
    let fits : (ltb u32_max (length k) || ltb u32_max (length v)) ≡ false = ground arith in
    let whole : e ≡ put_string k ++ (put_string v ++ tail) =
      sym (some_inj (rw (fits, found) at h)) in
    let ih =
      decode_values-encode_values m tail rest (insert k v acc) found short.2 map.1
        (AreApart-insert k v acc m apart.1 map.0) in
    let shape : e ++ rest ≡ put_string k ++ (put_string v ++ (tail ++ rest)) =
      ap (λ x. x ++ rest) whole
      ∙ (append_assoc (put_string k) (put_string v ++ tail) rest
          ∙ ap (◌++◌ (put_string k)) (append_assoc (put_string v) tail rest)) in
    let joined : insert k v acc ++ m ≡ acc ++ (k, v) ∷ m =
      ap (λ x. x ++ m) (insert_new k v acc apart.0) ∙ append_assoc acc ((k, v) ∷ []) m in
    rw (shape, get_string-put_string k (put_string v ++ (tail ++ rest)) short.0)
      (rw (get_string-put_string v (tail ++ rest) short.1)
        (rw apart.0 (ih ∙ ap (λ x. some (x, rest)) joined)))

-- What the encoder can write: lengths below 2 ^ 32, no key twice, times of 64 bits.
pub record IsEncodable (s : Session) : Type 0 where
  pub id_short : length s.id ≤ u32_max
  pub few : length s.values ≤ u32_max
  pub short : AreShort s.values
  pub distinct : IsMap s.values
  pub expires_fits : IsInt64 s.expires_at
  pub ttl_fits : IsInt64 s.ttl_seconds

-- Decoding what was encoded gives back the session: id, times, and the values in the order in
-- which they were written.
pub decode-encode : (s : Session) → IsEncodable s → decode (encode s) ≡ some s
unfolding decode encode
decode-encode s v =
    let (tail, found) = encode_values_total s.values v.short in
    let fits : (ltb u32_max (length s.id) || ltb u32_max (length s.values)) ≡ false =
      ground arith in
    let values_back : decode_values (length s.values) tail [] ≡ some (s.values, []) =
      subst (λ t. decode_values (length s.values) t [] ≡ some (s.values, [])) (append-nil tail)
        (decode_values-encode_values s.values tail [] [] found v.short v.distinct
          (AreApart-nil s.values)) in
    rw fits (
      rw (found, encode)
        (rw
          (get_string-put_string s.id
            (put64 (to_u64 s.expires_at)
              ++ (put64 (to_u64 s.ttl_seconds) ++ (put32 (length s.values) ++ tail)))
            v.id_short)
          (rw
            (get64-put64 (to_u64 s.expires_at)
              (put64 (to_u64 s.ttl_seconds) ++ (put32 (length s.values) ++ tail))
              (to_u64-lt s.expires_at))
            (rw
              (get64-put64 (to_u64 s.ttl_seconds) (put32 (length s.values) ++ tail)
                (to_u64-lt s.ttl_seconds))
              (rw (get32-put32 (length s.values) tail (omega arith)) (
                rw values_back (
                  ap₂ (λ e t. some (record s { expires_at = e; ttl_seconds = t }))
                    (from_u64-to_u64 s.expires_at v.expires_fits)
                    (from_u64-to_u64 s.ttl_seconds v.ttl_fits))))))))
