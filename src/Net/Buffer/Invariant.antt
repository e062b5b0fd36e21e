-- ===== src/Net/Buffer/Invariant.antt =====
-- The order of the cursors of net/Buffer.h, kept by every operation: the source's unsigned
-- differences do not wrap, and every copy stays inside the vector.
use jingjie_ar.Prelude.{ℕ, ◌+◌, ◌-◌, ◌≤◌}
use jingjie_ar.Prelude.{◌≡◌, inl, inr}
use jingjie_ar.Prelude.{Option, none, some}
use jingjie_ar.Prelude.{◌++◌, arith}
use jingjie_ar.Prelude.{leb, Bool-cases}
use jingjie_ar.Prelude.{nat_eq, list_eq}
use jingjie_ar.Prelude.{ℕ, ◌+◌, ◌-◌, ◌≤◌}
use jingjie_ar.Prelude.{◌≡◌, inl, inr}
use jingjie_ar.Prelude.{Option, none, some}
use jingjie_ar.Prelude.{◌++◌, arith}
use jingjie_ar.Prelude.{leb, leb→le, Bool-cases}
use jingjie_ar.Prelude.{nat_eq, list_eq}
use jingjie_ar.Prelude.{
  length, take, drop, replicate, length-append, length-take, length-drop, length-replicate,
}
use jingjie_ar.Text.{Bytes}
use jingjie_ar.Net.Buffer.{
  Buffer, cheap_prepend, make_buffer, readable_bytes, writable_bytes, peek, retrieve, resize,
  write_at, make_space, ensure_writable_bytes, write_here, append, read_fd,
}

pub record IsValid (b : Buffer) : Type 0 where
  pub prepend_kept : cheap_prepend ≤ b.reader_index
  pub ordered : b.reader_index ≤ b.writer_index
  pub inside : b.writer_index ≤ length b.store

pub length-resize : (n : ℕ) (s : Bytes) → length (resize n s) ≡ n
unfolding resize
length-resize n s = omega (
  arith,
  length-take n (s ++ replicate (n - length s) 0),
  length-append s (replicate (n - length s) 0),
  length-replicate (n - length s) (let z : ℕ = 0 in z),
)

pub length-write_at :
    (at : ℕ) (src s : Bytes) → at + length src ≤ length s → length (write_at at src s) ≡ length s
unfolding write_at
length-write_at at src s h = omega (
  arith,
  length-append (take at s) (src ++ drop (at + length src) s),
  length-append src (drop (at + length src) s),
  length-take at s,
  length-drop (at + length src) s,
)

pub length-peek : (b : Buffer) → IsValid b → length (peek b) ≡ readable_bytes b
unfolding peek
length-peek b v = omega (
  arith,
  length-take (readable_bytes b) (drop b.reader_index b.store),
  length-drop b.reader_index b.store,
)

pub make_buffer-IsValid : (size : ℕ) → IsValid (make_buffer size)
unfolding make_buffer
make_buffer-IsValid size = record {
  prepend_kept = omega arith;
  ordered = omega arith;
  inside = omega (arith, length-replicate (cheap_prepend + size) (let z : ℕ = 0 in z));
}

pub retrieve-IsValid : (len : ℕ) (b : Buffer) → IsValid b → IsValid (retrieve len b)
unfolding retrieve
retrieve-IsValid len b v = ground arith

-- After making room the cursors are in order and the room is there.
abbrev pub HasRoom : ℕ → Buffer → Type 0
HasRoom len b = len ≤ writable_bytes b

pub make_space-IsValid : (len : ℕ) (b : Buffer) → IsValid b → IsValid (make_space len b)
unfolding make_space
make_space-IsValid len b v = ground (
  arith,
  length-resize (b.writer_index + len) b.store,
  length-write_at cheap_prepend (peek b) b.store,
  length-peek b v,
)

make_space-HasRoom : (len : ℕ) (b : Buffer) → IsValid b → HasRoom len (make_space len b)
unfolding make_space
make_space-HasRoom len b v = ground (
  arith,
  length-resize (b.writer_index + len) b.store,
  length-write_at cheap_prepend (peek b) b.store,
  length-peek b v,
)

pub ensure_writable_bytes-IsValid :
    (len : ℕ) (b : Buffer) → IsValid b → IsValid (ensure_writable_bytes len b)
unfolding ensure_writable_bytes
ensure_writable_bytes-IsValid len b v = ground (arith, make_space-IsValid len b v)

pub ensure_writable_bytes-HasRoom :
    (len : ℕ) (b : Buffer) → IsValid b → HasRoom len (ensure_writable_bytes len b)
unfolding ensure_writable_bytes
ensure_writable_bytes-HasRoom len b v = ground (arith, make_space-HasRoom len b v)

pub write_here-IsValid :
    (s : Bytes) (b : Buffer) → IsValid b → HasRoom (length s) b → IsValid (write_here s b)
write_here-IsValid s b v room = omega (arith, length-write_at b.writer_index s b.store)

-- Appending keeps the indices in order, past the prepend area and inside the store.
pub append-IsValid : (s : Bytes) (b : Buffer) → IsValid b → IsValid (append s b)
unfolding append
append-IsValid s b v =
    write_here-IsValid s (ensure_writable_bytes (length s) b)
      (ensure_writable_bytes-IsValid (length s) b v) (ensure_writable_bytes-HasRoom (length s) b v)

-- The buffer between the two halves of a scattered read: the writable part is full.
abbrev pub filled : Bytes → Buffer → Buffer
filled s b = record b {
  store = write_at b.writer_index (take (writable_bytes b) s) b.store;
  writer_index = length b.store;
}

pub filled-IsValid :
    (s : Bytes) (b : Buffer) → IsValid b → writable_bytes b ≤ length s → IsValid (filled s b)
filled-IsValid s b v h = omega (
  arith,
  length-write_at b.writer_index (take (writable_bytes b) s) b.store,
  length-take (writable_bytes b) s,
)

-- A read, of whatever size it is and whether it fails or not, keeps the indices in order, past the
-- prepend area and inside the store.
pub read_fd-IsValid : (r : Option Bytes) (b : Buffer) → IsValid b → IsValid (read_fd r b)
unfolding read_fd
read_fd-IsValid none b v = v
read_fd-IsValid (some s) b v = elim (Bool-cases (leb (length s) (writable_bytes b))) [
  | inl fits ↦ rw fits (write_here-IsValid s b v (leb→le _ _ fits))
  | inr over ↦ rw over (
      append-IsValid (drop (writable_bytes b) s) (filled s b) (filled-IsValid s b v (ground arith)))
]
