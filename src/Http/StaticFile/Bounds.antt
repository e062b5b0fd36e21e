-- ===== src/Http/StaticFile/Bounds.antt =====
-- The bounds of parseSingleRange: src/http/StaticFileHandler.cpp.
use jingjie_ar.Http.StaticFile.Range.{
  parse_unsigned_size, split_range, range_of, suffix_range, parse_single_range, bounded_range,
  from_range,
}
use jingjie_ar.Text.{bytes, is_empty, Bytes}
use jingjie_ar.Prelude.{
  ℕ, ◌+◌, ◌-◌, ◌≤◌, ◌<◌, not, ◌&&◌, ◌||◌, Option, none, some, arith, ltb, leb, if◌then◌else◌,
  nat_beq_iff, if_ind, ◌==◌, nat_eq, list_eq, take, drop,
}

-- A part of a file of the given size that is not empty.
abbrev pub IsPart : ℕ → ℕ × ℕ → Type 0
IsPart size (offset, count) = (0 < count) × (offset + count ≤ size)

-- A range, if there is one, is such a part.
abbrev pub IsPartIf : ℕ → Option (ℕ × ℕ) → Type 0
IsPartIf size none = Unit {0}
IsPartIf size (some r) = IsPart size r

suffix_range-IsPart : (size : ℕ) (o : Option ℕ) → 0 < size → IsPartIf size (suffix_range size o)
unfolding suffix_range
suffix_range-IsPart size none h = tt
suffix_range-IsPart size (some suffix) h =
    if_ind (IsPartIf size) (suffix == 0) (λ e. tt)
      (λ e. (ground (arith, nat_beq_iff suffix 0), ground arith))

bounded_range-IsPart :
    (size start : ℕ) (o : Option ℕ) → start < size → IsPartIf size (bounded_range size start o)
unfolding bounded_range
bounded_range-IsPart size start none h = tt
bounded_range-IsPart size start (some last) h =
    if_ind (IsPartIf size) (ltb last start) (λ e. tt) (λ e. (omega arith, ground arith))

from_range-IsPart :
    (size : ℕ) (o : Option ℕ) (last : Bytes) → IsPartIf size (from_range size o last)
unfolding from_range
from_range-IsPart size none last = tt
from_range-IsPart size (some start) last =
    if_ind (IsPartIf size) (leb size start) (λ e. tt)
      (λ e.
        bounded_range-IsPart size start
          (if is_empty last then some (size - 1) else parse_unsigned_size last) (ground arith))

range_of-IsPart :
    (size : ℕ) (o : Option (Bytes × Bytes)) → 0 < size → IsPartIf size (range_of size o)
unfolding range_of
range_of-IsPart size none h = tt
range_of-IsPart size (some (first, last)) h =
    if_ind (IsPartIf size) (is_empty first && is_empty last) (λ e. tt)
      (λ e.
        if_ind (IsPartIf size) (is_empty first)
          (λ f. suffix_range-IsPart size (parse_unsigned_size last) h)
          (λ f. from_range-IsPart size (parse_unsigned_size first) last))

-- A Range header that is accepted names a part of the file that is not empty and lies inside it,
-- whatever the text and the size.
pub parse_single_range-IsPart :
    (value : Bytes) (size : ℕ) → IsPartIf size (parse_single_range value size)
unfolding parse_single_range
parse_single_range-IsPart value size =
    if_ind (IsPartIf size) (size == 0 || not (take 6 value == bytes "bytes=")) (λ e. tt)
      (λ e. range_of-IsPart size (split_range (drop 6 value)) (ground (arith, nat_beq_iff size 0)))
