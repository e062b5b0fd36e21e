-- ===== src/Http/StaticFile/Range.antt =====
-- parseUnsignedSize and parseSingleRange of src/http/StaticFileHandler.cpp.
use jingjie_ar.Text.{before, behind, is_empty, find, is_digit, bytes, Bytes}
use jingjie_ar.Http.Context.{size_max}
use jingjie_ar.Prelude.{
  ℕ, ◌+◌, ◌-◌, ◌*◌, ◌/◌, not, ◌&&◌, ◌||◌, Option, none, some, [], ◌∷◌, ltb, leb, if◌then◌else◌,
  ◌==◌, nat_eq, list_eq, take, drop,
}

-- One digit of parseUnsignedSize.
unfoldable pub parse_size_from : ℕ → Bytes → Option ℕ
parse_size_from parsed [] = some parsed
parse_size_from parsed (c ∷ cs) =
    let digit = c - 48 in
    let rest = parse_size_from (parsed * 10 + digit) cs in
    if not (is_digit c) then none else if ltb ((size_max - digit) / 10) parsed then none else rest

-- parseUnsignedSize
unfoldable pub parse_unsigned_size : Bytes → Option ℕ
unfolding parse_size_from
parse_unsigned_size [] = none
parse_unsigned_size (c ∷ cs) = parse_size_from 0 (c ∷ cs)

-- A range that names the last bytes.
unfoldable pub suffix_range : ℕ → Option ℕ → Option (ℕ × ℕ)
suffix_range size none = none
suffix_range size (some suffix) =
    let count = if ltb suffix size then suffix else size in
    if suffix == 0 then none else some (size - count, count)

-- A range with a first byte, by the last one: `none` for a text that is no number.
unfoldable pub bounded_range : ℕ → ℕ → Option ℕ → Option (ℕ × ℕ)
bounded_range size start none = none
bounded_range size start (some last) =
    let end = if leb size last then size - 1 else last in
    if ltb last start then none else some (start, end - start + 1)

unfoldable pub from_range : ℕ → Option ℕ → Bytes → Option (ℕ × ℕ)
unfolding bounded_range
from_range size none last = none
from_range size (some start) last =
    if leb size start
    then none
    else bounded_range size start
        (if is_empty last then some (size - 1) else parse_unsigned_size last)

-- The texts before and after the dash; `none` unless there is exactly one dash and no comma.
unfoldable pub split_range : Bytes → Option (Bytes × Bytes)
split_range range = elim (find 44 range) [
  | some comma ↦ none
  | none ↦ elim (find 45 range) [
    | none ↦ none
    | some i ↦ elim (find 45 (behind i range)) [
      | some other ↦ none
      | none ↦ some (before i range, behind i range)
    ]
  ]
]

unfoldable pub range_of : ℕ → Option (Bytes × Bytes) → Option (ℕ × ℕ)
range_of size none = none
range_of size (some (first, last)) =
    if is_empty first && is_empty last
    then none
    else if is_empty first
    then suffix_range size (parse_unsigned_size last)
    else from_range size (parse_unsigned_size first) last

-- parseSingleRange: the offset and the count.
unfoldable pub parse_single_range : Bytes → ℕ → Option (ℕ × ℕ)
parse_single_range value size =
    if size == 0 || not (take 6 value == bytes "bytes=")
    then none
    else range_of size (split_range (drop 6 value))
