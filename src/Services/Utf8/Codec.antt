-- ===== src/Services/Utf8/Codec.antt =====
-- UTF-8 as RFC 3629 defines it, against nextCodePoint of
-- WebApps/ARServer/src/services/ArtworkInteractionService.cpp.
use jingjie_ar.Services.Utf8.{in_range, continue, after_lead, lead_of, next_code_point}
use jingjie_ar.Text.{Bytes}
use jingjie_ar.Prelude.{
  ℕ, ◌+◌, ◌/◌, ◌%◌, ◌≤◌, ◌<◌, ◌≡◌, ◌⊎◌, some, [], ◌∷◌, ◌++◌, arith, ltb, if◌then◌else◌, nat_eq,
  list_eq,
}

-- A code point that is no surrogate.
abbrev pub IsScalar : ℕ → Type 0
IsScalar c = (c < 0xd800) ⊎ ((0xdfff < c) × (c ≤ 0x10ffff))

abbrev pub IsBytes : Bytes → Type 0
IsBytes [] = Unit {0}
IsBytes (b ∷ s) = (b < 256) × IsBytes s

-- The bytes of a code point.
unfoldable pub encode_scalar : ℕ → Bytes
encode_scalar c =
    if ltb c 0x80
    then c ∷ []
    else if ltb c 0x800
    then (0xc0 + c / 64) ∷ (0x80 + c % 64) ∷ []
    else if ltb c 0x10000
    then (0xe0 + c / 4096) ∷ (0x80 + c / 64 % 64) ∷ (0x80 + c % 64) ∷ []
    else (0xf0 + c / 262144) ∷ (0x80 + c / 4096 % 64) ∷ (0x80 + c / 64 % 64) ∷ (0x80 + c % 64) ∷ []

-- Reading is the inverse of encoding on every scalar value, whatever follows.
pub next_code_point-encode_scalar :
    (c : ℕ) (rest : Bytes) → IsScalar c → next_code_point (encode_scalar c ++ rest) ≡ some (c, rest)
unfolding next_code_point encode_scalar lead_of after_lead continue in_range
next_code_point-encode_scalar c rest v = ground arith

-- What is read is a scalar value, and the bytes that were consumed are its encoding.
pub encode_scalar-next_code_point :
    (s : Bytes) (c : ℕ) (rest : Bytes)
    → IsBytes s
    → next_code_point s ≡ some (c, rest)
    → IsScalar c × (s ≡ encode_scalar c ++ rest)
unfolding next_code_point encode_scalar lead_of after_lead continue in_range
encode_scalar-next_code_point [] c rest b h = ground (arith, h)
encode_scalar-next_code_point (lead ∷ []) c rest b h = ground (arith, h, b)
encode_scalar-next_code_point (lead ∷ x ∷ []) c rest b h = ground (arith, h, b)
encode_scalar-next_code_point (lead ∷ x ∷ y ∷ []) c rest b h = ground (arith, h, b)
encode_scalar-next_code_point (lead ∷ x ∷ y ∷ z ∷ s) c rest b h = ground (arith, h, b)
