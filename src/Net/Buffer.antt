-- ===== src/Net/Buffer.antt =====
-- include/net/Buffer.h and src/net/Buffer.cpp: the growable byte buffer of a TCP connection.
-- The vector is a list of bytes, the two cursors are numbers. The source's unsigned differences
-- are written with `-`; Buffer/Invariant.antt has the order of the cursors under which none wraps.
pub mod Invariant
pub mod Content
use jingjie_ar.Prelude.{
  ℕ, ◌+◌, ◌-◌, ◌≤◌, ◌<◌, List, [], ◌∷◌, ◌++◌, Option, none, some, Bool, ltb, leb, if◌then◌else◌,
  length, take, drop, replicate,
}
use jingjie_ar.Text.{Bytes}

abbrev pub cheap_prepend : ℕ
cheap_prepend = 8

abbrev pub initial_size : ℕ
initial_size = 1024

pub record Buffer : Type 0 where
  pub store : Bytes
  pub reader_index : ℕ
  pub writer_index : ℕ

unfoldable pub make_buffer : ℕ → Buffer
make_buffer size = record {
  store = replicate (cheap_prepend + size) 0;
  reader_index = cheap_prepend;
  writer_index = cheap_prepend;
}

abbrev pub readable_bytes : Buffer → ℕ
readable_bytes b = b.writer_index - b.reader_index

abbrev pub writable_bytes : Buffer → ℕ
writable_bytes b = length b.store - b.writer_index

abbrev pub prependable_bytes : Buffer → ℕ
prependable_bytes b = b.reader_index

-- The range [peek(), peek() + readableBytes()) that the parser and the senders read.
unfoldable pub peek : Buffer → Bytes
peek b = take (readable_bytes b) (drop b.reader_index b.store)

unfoldable pub retrieve_all : Buffer → Buffer
retrieve_all b = record b { reader_index = cheap_prepend; writer_index = cheap_prepend }

unfoldable pub retrieve : ℕ → Buffer → Buffer
unfolding retrieve_all
retrieve len b =
    if ltb len (readable_bytes b)
    then record b { reader_index = b.reader_index + len }
    else retrieve_all b

-- std::string(peek(), len), then retrieve(len). The source reads past the cursor for a larger
-- `len`; its callers never pass one, and here the result is cut at the stored bytes.
unfoldable pub retrieve_as_string : ℕ → Buffer → Bytes × Buffer
retrieve_as_string len b = (take len (drop b.reader_index b.store), retrieve len b)

unfoldable pub retrieve_all_as_string : Buffer → Bytes × Buffer
retrieve_all_as_string b = retrieve_as_string (readable_bytes b) b

-- std::vector::resize: cut, or padded with zero bytes.
unfoldable pub resize : ℕ → Bytes → Bytes
resize n s = take n (s ++ replicate (n - length s) 0)

-- std::copy(src, src + len, store + at), inside the vector.
unfoldable pub write_at : ℕ → Bytes → Bytes → Bytes
write_at at src s = take at s ++ (src ++ drop (at + length src) s)

unfoldable pub make_space : ℕ → Buffer → Buffer
make_space len b =
    if ltb (writable_bytes b + prependable_bytes b) (len + cheap_prepend)
    then record b { store = resize (b.writer_index + len) b.store }
    else record {
      store = write_at cheap_prepend (peek b) b.store;
      reader_index = cheap_prepend;
      writer_index = cheap_prepend + readable_bytes b;
    }

unfoldable pub ensure_writable_bytes : ℕ → Buffer → Buffer
ensure_writable_bytes len b = if ltb (writable_bytes b) len then make_space len b else b

-- The copy at beginWrite() and the advance of the write cursor.
abbrev pub write_here : Bytes → Buffer → Buffer
write_here s b = record b {
  store = write_at b.writer_index s b.store;
  writer_index = b.writer_index + length s;
}

unfoldable pub append : Bytes → Buffer → Buffer
append s b = write_here s (ensure_writable_bytes (length s) b)

abbrev pub extra_size : ℕ
extra_size = 65536

-- The room that readFd offers to readv: the writable part, and the stack buffer if that is small.
abbrev pub offered_bytes : Buffer → ℕ
offered_bytes b =
    if ltb (writable_bytes b) extra_size then writable_bytes b + extra_size else writable_bytes b

-- readFd: `none` is a failed readv; `some s` says that readv delivered `s`, at most
-- `offered_bytes b` bytes, first into the writable part and the rest into the stack buffer.
unfoldable pub read_fd : Option Bytes → Buffer → Buffer
read_fd none b = b
read_fd (some s) b =
    if leb (length s) (writable_bytes b)
    then write_here s b
    else append (drop (writable_bytes b) s) (record b {
      store = write_at b.writer_index (take (writable_bytes b) s) b.store;
      writer_index = length b.store;
    })
