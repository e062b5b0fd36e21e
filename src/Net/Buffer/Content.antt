-- ===== src/Net/Buffer/Content.antt =====
-- net/Buffer.h as a queue of bytes: what each operation does to the readable bytes.
use jingjie_ar.Prelude.{ℕ, ◌+◌, ◌-◌, ◌≤◌}
use jingjie_ar.Prelude.{◌≡◌, refl, sym, ap, ◌∙◌, inl, inr}
use jingjie_ar.Prelude.{some}
use jingjie_ar.Prelude.{[], ◌++◌, append_assoc, arith}
use jingjie_ar.Prelude.{ltb, leb, leb→le, Bool-cases}
use jingjie_ar.Prelude.{nat_eq, list_eq}
use jingjie_ar.Prelude.{length, take, drop, replicate, length-take, length-drop, take-append-drop}
use jingjie_ar.Prelude.{
  drop_of_length-le, drop-drop, drop-take, take-take_le, drop-append_le, take-append_le,
  take-append_ge, drop-append_ge, take-append_length,
}
use mathlib.Core.Path.{◌≡⟨◌⟩◌, ◌∎}
use jingjie_ar.Text.{Bytes}
use jingjie_ar.Net.Buffer.{
  Buffer, cheap_prepend, make_buffer, readable_bytes, writable_bytes, peek, retrieve_all, retrieve,
  retrieve_as_string, retrieve_all_as_string, resize, write_at, make_space, ensure_writable_bytes,
  write_here, append, read_fd,
}
use jingjie_ar.Net.Buffer.Invariant.{
  IsValid, HasRoom, length-peek, filled, filled-IsValid, ensure_writable_bytes-IsValid,
  ensure_writable_bytes-HasRoom,
}

-- A new buffer holds nothing.
pub peek-make_buffer : (size : ℕ) → peek (make_buffer size) ≡ []
unfolding peek make_buffer
peek-make_buffer size = refl

-- A window [r, w) of a vector whose bytes from `w` on are written anew, and then the written ones.
window_written :
    (r w : ℕ) (src rest st : Bytes)
    → r ≤ w
    → w ≤ length st
    → take (w + length src - r) (drop r (take w st ++ (src ++ rest)))
      ≡ take (w - r) (drop r st) ++ src
window_written r w src rest st h k =
    take (w + length src - r) (drop r (take w st ++ (src ++ rest)))
    ≡⟨ ap (take (w + length src - r)) (drop-append_le r (take w st) (src ++ rest) reaches) ⟩
      take (w + length src - r) (drop r (take w st) ++ (src ++ rest))
    ≡⟨ ap (λ p. take (w + length src - r) (p ++ (src ++ rest))) (drop-take r w st) ⟩
      take (w + length src - r) (old ++ (src ++ rest))
    ≡⟨ take-append_ge (w + length src - r) old (src ++ rest) (omega (arith, length_old)) ⟩
      old ++ take (w + length src - r - length old) (src ++ rest)
    ≡⟨ ap (λ n. old ++ take n (src ++ rest)) (omega (arith, length_old)) ⟩
      old ++ take (length src) (src ++ rest)
    ≡⟨ ap (◌++◌ old) (take-append_length src rest) ⟩ old ++ src ∎
  where
    old : Bytes
    old = take (w - r) (drop r st)

    length_old : length old ≡ w - r
    length_old = omega (arith, length-take (w - r) (drop r st), length-drop r st)

    reaches : r ≤ length (take w st)
    reaches = omega (arith, length-take w st)

-- The window of a vector that is cut or padded behind it.
window_resized :
    (r w m : ℕ) (pad st : Bytes)
    → r ≤ w
    → w ≤ length st
    → w ≤ m
    → take (w - r) (drop r (take m (st ++ pad))) ≡ take (w - r) (drop r st)
window_resized r w m pad st h k l =
    take (w - r) (drop r (take m (st ++ pad)))
    ≡⟨ ap (take (w - r)) (drop-take r m (st ++ pad)) ⟩
      take (w - r) (take (m - r) (drop r (st ++ pad)))
    ≡⟨ take-take_le (w - r) (m - r) (drop r (st ++ pad)) (omega arith) ⟩
      take (w - r) (drop r (st ++ pad))
    ≡⟨ ap (take (w - r)) (drop-append_le r st pad (omega arith)) ⟩ take (w - r) (drop r st ++ pad)
    ≡⟨ take-append_le (w - r) (drop r st) pad (omega (arith, length-drop r st)) ⟩
      take (w - r) (drop r st) ∎

-- The window of a vector after its bytes moved to the front of it.
window_moved :
    (at : ℕ) (src rest st : Bytes)
    → at ≤ length st
    → take (length src) (drop at (take at st ++ (src ++ rest))) ≡ src
window_moved at src rest st h =
    ap (take (length src)) (drop-append_ge at (take at st) (src ++ rest) (omega (arith, len)))
    ∙ (ap (λ n. take (length src) (drop n (src ++ rest)))
          (let e : at - length (take at st) ≡ 0 = omega (arith, len) in e)
        ∙ take-append_length src rest)
  where
    len : length (take at st) ≡ at
    len = omega (arith, length-take at st)

peek-advance :
    (len : ℕ) (b : Buffer)
    → peek (record b { reader_index = b.reader_index + len }) ≡ drop len (peek b)
unfolding peek
peek-advance len b =
    take (w - (r + len)) (drop (r + len) st)
    ≡⟨ ap (λ n. take n (drop (r + len) st))
        (let e : w - (r + len) ≡ w - r - len = omega arith in e) ⟩
      take (w - r - len) (drop (r + len) st)
    ≡⟨ ap (take (w - r - len)) (sym (drop-drop r len st)) ⟩
      take (w - r - len) (drop len (drop r st))
    ≡⟨ sym (drop-take len (w - r) (drop r st)) ⟩ drop len (take (w - r) (drop r st)) ∎
  where
    open b use {reader_index as r, writer_index as w, store as st}

peek-retrieve_all : (b : Buffer) → peek (retrieve_all b) ≡ []
unfolding peek retrieve_all
peek-retrieve_all b = refl

-- `retrieve` takes its count off the front, and empties the buffer for any larger count.
pub peek-retrieve : (len : ℕ) (b : Buffer) → IsValid b → peek (retrieve len b) ≡ drop len (peek b)
unfolding retrieve
peek-retrieve len b v = elim (Bool-cases (ltb len (readable_bytes b))) [
  | inl part ↦ rw part (peek-advance len b)
  | inr whole ↦
      rw whole (
        peek-retrieve_all b
        ∙ sym (drop_of_length-le len (peek b) (ground (arith, length-peek b v))))
]

peek-grown :
    (m : ℕ) (b : Buffer)
    → IsValid b
    → b.writer_index ≤ m
    → peek (record b { store = resize m b.store }) ≡ peek b
unfolding peek resize
peek-grown m b v h =
    window_resized b.reader_index b.writer_index m (replicate (m - length b.store) 0) b.store
      v.ordered v.inside h

peek-compacted :
    (b : Buffer)
    → IsValid b
    → peek (record {
      store = write_at cheap_prepend (peek b) b.store;
      reader_index = cheap_prepend;
      writer_index = cheap_prepend + readable_bytes b;
    })
      ≡ peek b
unfolding peek write_at
peek-compacted b v =
    ap (λ n. take n (drop cheap_prepend (take cheap_prepend b.store ++ (old ++ rest))))
      (let e : cheap_prepend + readable_bytes b - cheap_prepend ≡ length old =
          omega (arith, length-peek b v) in
        e)
    ∙ window_moved cheap_prepend old rest b.store (omega arith)
  where
    old : Bytes
    old = peek b

    rest : Bytes
    rest = drop (cheap_prepend + length old) b.store

peek-make_space : (len : ℕ) (b : Buffer) → IsValid b → peek (make_space len b) ≡ peek b
unfolding make_space
peek-make_space len b v =
    elim (Bool-cases (ltb (writable_bytes b + b.reader_index) (len + cheap_prepend))) [
      | inl tight ↦ rw tight (peek-grown (b.writer_index + len) b v (omega arith))
      | inr roomy ↦ rw roomy (peek-compacted b v)
    ]

pub peek-ensure_writable_bytes :
    (len : ℕ) (b : Buffer) → IsValid b → peek (ensure_writable_bytes len b) ≡ peek b
unfolding ensure_writable_bytes
peek-ensure_writable_bytes len b v = ground (arith, peek-make_space len b v)

pub peek-write_here :
    (s : Bytes) (b : Buffer)
    → IsValid b
    → HasRoom (length s) b
    → peek (write_here s b) ≡ peek b ++ s
unfolding peek write_at
peek-write_here s b v room =
    window_written b.reader_index b.writer_index s (drop (b.writer_index + length s) b.store)
      b.store v.ordered v.inside

-- `append` adds its bytes at the end, whether the vector has room, is compacted or grows.
pub peek-append : (s : Bytes) (b : Buffer) → IsValid b → peek (append s b) ≡ peek b ++ s
unfolding append
peek-append s b v =
    peek-write_here s (ensure_writable_bytes (length s) b)
      (ensure_writable_bytes-IsValid (length s) b v) (ensure_writable_bytes-HasRoom (length s) b v)
    ∙ ap (λ p. p ++ s) (peek-ensure_writable_bytes (length s) b v)

peek-filled :
    (s : Bytes) (b : Buffer)
    → IsValid b
    → writable_bytes b ≤ length s
    → peek (filled s b) ≡ peek b ++ take (writable_bytes b) s
unfolding peek
peek-filled s b v h =
    ap (λ w. peek (record b { store = write_at b.writer_index part b.store; writer_index = w }))
      (let e : length b.store ≡ b.writer_index + length part =
          omega (arith, part_length, v.inside) in
        e)
    ∙ peek-write_here part b v (omega (arith, part_length))
  where
    part : Bytes
    part = take (writable_bytes b) s

    part_length : length part ≡ writable_bytes b
    part_length = omega (arith, length-take (writable_bytes b) s)

-- Whatever readv delivers ends up behind the readable bytes, in order, also when a part of it
-- went to the stack buffer.
pub peek-read_fd : (s : Bytes) (b : Buffer) → IsValid b → peek (read_fd (some s) b) ≡ peek b ++ s
unfolding read_fd
peek-read_fd s b v = elim (Bool-cases (leb (length s) (writable_bytes b))) [
  | inl fits ↦ rw fits (peek-write_here s b v (leb→le _ _ fits))
  | inr over ↦ rw over (
      peek-append (drop (writable_bytes b) s) (filled s b) (filled-IsValid s b v (ground arith))
      ∙ (ap (λ p. p ++ drop (writable_bytes b) s) (peek-filled s b v (ground arith))
          ∙ (append_assoc (peek b) (take (writable_bytes b) s) (drop (writable_bytes b) s)
              ∙ ap (◌++◌ (peek b)) (take-append-drop (writable_bytes b) s))))
]

-- What is retrieved as a string leaves the buffer: its two results make up the readable bytes.
pub retrieve_as_string-splits :
    (len : ℕ) (b : Buffer)
    → IsValid b
    → len ≤ readable_bytes b
    → (retrieve_as_string len b).0 ++ peek (retrieve_as_string len b).1 ≡ peek b
unfolding retrieve_as_string
retrieve_as_string-splits len b v h =
    ap (◌++◌ (take len (drop b.reader_index b.store))) (peek-retrieve len b v)
    ∙ (ap (λ p. p ++ drop len (peek b)) (sym (first len b h)) ∙ take-append-drop len (peek b))
  where
    first :
        (len : ℕ) (b : Buffer)
        → len ≤ readable_bytes b
        → take len (peek b) ≡ take len (drop b.reader_index b.store)
    first len b h =
        unfold peek in take-take_le len (readable_bytes b) (drop b.reader_index b.store) h

-- Reading everything as a string gives the readable bytes and leaves an empty buffer.
pub retrieve_all_as_string_lem :
    (b : Buffer)
    → IsValid b
    → ((retrieve_all_as_string b).0 ≡ peek b) × (peek (retrieve_all_as_string b).1 ≡ [])
unfolding retrieve_all_as_string retrieve_as_string
retrieve_all_as_string_lem b v = (
  (unfold peek in refl),
  peek-retrieve (readable_bytes b) b v
      ∙ drop_of_length-le (readable_bytes b) (peek b) (omega (arith, length-peek b v)),
)
