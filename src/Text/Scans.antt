-- ===== src/Text/Scans.antt =====
-- std::string operations: literals, case folding, search for one byte, substrings.
use Prim.Native.Char.{code}
use Prim.Native.String.{String}
use jingjie_ar.Prelude.{
  ℕ, suc, ◌+◌, ◌<◌, ◌≡◌, refl, Bool, true, false, ◌&&◌, List, [], ◌∷◌, map, Option, none, some,
  arith, leb, if◌then◌else◌, ◌==◌, nat_eq, length, take, drop,
}

-- A std::string: its bytes, each below 256.
abbrev pub Bytes : Type 0
Bytes = List ℕ

-- The bytes of an ASCII literal.
abbrev pub bytes : String → Bytes
bytes String.[] = []
bytes (String.◌∷◌ c s) = code c ∷ bytes s

abbrev pub is_empty {ℓ} : {A : Type ℓ} → List A → Bool
is_empty [] = true
is_empty (x ∷ xs) = false

abbrev pub is_upper : ℕ → Bool
is_upper c = leb b'A' c && leb c b'Z'

abbrev pub is_digit : ℕ → Bool
is_digit c = leb b'0' c && leb c b'9'

-- `tolower` of the "C" locale, which the process keeps.
unfoldable pub lower : ℕ → ℕ
lower c = if is_upper c then c + 32 else c

-- std::transform(..., ::tolower)
abbrev pub to_lower : Bytes → Bytes
to_lower = map lower

-- The position of the first byte equal to `c`; `none` for npos.
unfoldable pub find : ℕ → Bytes → Option ℕ
find c [] = none
find c (x ∷ xs) =
    if x == c then some 0 else elim (find c xs) [ none ↦ none | some i ↦ some (suc i) ]

-- Bytes before position `i`, and those behind it: `substr(0, i)` and `substr(i + 1)`.
abbrev pub before : ℕ → Bytes → Bytes
before = take

abbrev pub behind : ℕ → Bytes → Bytes
behind i = drop (suc i)

-- Drop the leading bytes that satisfy `p`.
unfoldable pub skip_while : (ℕ → Bool) → Bytes → Bytes
skip_while p [] = []
skip_while p (x ∷ xs) = if p x then skip_while p xs else x ∷ xs

pub lower_idem : (c : ℕ) → lower (lower c) ≡ lower c
unfolding lower
lower_idem c = ground arith

pub to_lower_idem : (s : Bytes) → to_lower (to_lower s) ≡ to_lower s
to_lower_idem [] = refl
to_lower_idem (c ∷ s) = rw (lower_idem c, to_lower_idem s)

-- A position that `find` reports is inside the text.
pub find-lt : (c : ℕ) (s : Bytes) {i : ℕ} → find c s ≡ some i → i < length s
unfolding find
find-lt c [] h = ground arith
find-lt c (x ∷ xs) {i} h = grind (arith, find-lt c xs)
