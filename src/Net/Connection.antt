-- ===== src/Net/Connection.antt =====
-- include/net/TcpConnection.h and src/net/TcpConnection.cpp: the state machine of one connection
-- and the order in which its output reaches the kernel. Each method is one step on its loop's
-- thread; what write(2), sendfile(2) and read(2) answer is an argument. The pairing of a file
-- descriptor with its close, and the callbacks that are queued, are recorded as notices.
pub mod Stream
pub mod History
pub mod Files
use jingjie_ar.Net.Buffer.{
  append, retrieve, initial_size, read_fd, readable_bytes, make_buffer, peek, Buffer,
}
use jingjie_ar.Text.{is_empty, Bytes}
use jingjie_ar.Prelude.{
  ℕ, zero, suc, ◌+◌, ◌-◌, ◌*◌, ◌/◌, ◌%◌, ◌^◌, ◌≤◌, ◌<◌, min, max, ◌≡◌, refl, sym, ap, ap₂, ◌∙◌,
  subst, ◌≢◌, ◌↔◌, ◌⊎◌, inl, inr, Bool, true, false, not, ◌&&◌, ◌||◌, Option, none, some, List, [],
  ◌∷◌, ◌++◌, map, reverse, append-nil, append_assoc, reverse-cons, arith, ltb, leb, if◌then◌else◌,
  ltb→lt, lt→ltb, leb→le, tests, Bool-cases, if_ind, Option-cases, some_inj, Eq, ◌==◌, ==_iff,
  ==_refl, nat_eq, list_eq, lookup, insert, erase, has_key, lookup-insert, lookup-insert_self,
  lookup-erase, has_key-insert, IsMap, insert-IsMap, insert_new, AreApart, AreApart-insert,
  AreApart-nil, length, get_elem?, set, get_or, take, drop, replicate, length-append, length-take,
  length-drop, length-replicate, length-map, take-append-drop, drop_of_length-le, take_of_length-le,
  drop_nil, take_nil, drop-drop, drop-take, take-take_le, drop-append_le, take-append_le,
  take-append_ge, drop-append_ge, take-append_length, drop-append_length,
}

-- StateE
pub data ConnectionState : Type 0 where
  disconnected connecting connected disconnecting : ConnectionState

-- What write(2) answers: a count; EWOULDBLOCK; EPIPE or ECONNRESET; another error.
pub data Write : Type 0 where
  wrote : ℕ → Write
  write_blocked write_broken write_failed : Write

-- What sendfile(2) answers: a count; EAGAIN or EWOULDBLOCK; another error.
pub data SendFile : Type 0 where
  sent_bytes : ℕ → SendFile
  send_blocked send_failed : SendFile

pub data Notice : Type 0 where
  write_complete : Notice
  high_water : ℕ → Notice
  connection_changed : Notice
  close_notice : Notice
  message : Notice
  closed_file : ℕ → Notice

pub record PendingFile : Type 0 where
  pub descriptor : ℕ
  pub offset : ℕ
  pub remaining : ℕ

-- `wire` holds the bytes that write took, `regions` the file regions that sendfile took; `shut` says
-- that the sending half is closed. `writing` and `reading` are the channel's interests.
pub record Connection : Type 0 where
  pub state : ConnectionState
  pub writing : Bool
  pub reading : Bool
  pub input : Buffer
  pub output : Buffer
  pub high_water_mark : ℕ
  pub file : Option PendingFile
  pub wire : Bytes
  pub regions : List (ℕ × ℕ × ℕ)
  pub shut : Bool
  pub notices : List Notice

-- The constructor; the high-water mark is 64 MB.
unfoldable pub make_connection : Connection
make_connection = record {
  state = connecting;
  writing = false;
  reading = false;
  input = make_buffer initial_size;
  output = make_buffer initial_size;
  high_water_mark = 67108864;
  file = none;
  wire = [];
  regions = [];
  shut = false;
  notices = [];
}

abbrev pub notify : Notice → Connection → Connection
notify n c = record c { notices = c.notices ++ n ∷ [] }

abbrev pub noted_if : Bool → Notice → List Notice → List Notice
noted_if b n ns = if b then ns ++ n ∷ [] else ns

abbrev pub is_connected : ConnectionState → Bool
is_connected connected = true
is_connected _ = false

abbrev pub is_disconnected : ConnectionState → Bool
is_disconnected disconnected = true
is_disconnected _ = false

abbrev pub is_disconnecting : ConnectionState → Bool
is_disconnecting disconnecting = true
is_disconnecting _ = false

unfoldable pub close_file : Option PendingFile → Connection → Connection
close_file none c = c
close_file (some f) c = notify (closed_file f.descriptor) (record c { file = none })

-- TcpConnection::closePendingFile
abbrev pub close_pending_file : Connection → Connection
close_pending_file c = close_file c.file c

-- The rest that did not go out directly is kept for the channel's write event.
unfoldable pub keep_rest : Bytes → Connection → Connection
keep_rest rest c =
    if is_empty rest
    then c
    else let old = readable_bytes c.output in
      let crossed = leb c.high_water_mark (old + length rest) && ltb old c.high_water_mark in
      record c {
        notices = noted_if crossed (high_water (old + length rest)) c.notices;
        output = append rest c.output;
        writing = true;
      }

-- The answer of the direct write.
unfoldable pub direct_write : Bytes → Write → Connection → Connection
direct_write s (wrote n) c = keep_rest (drop n s) (record c {
  wire = c.wire ++ take n s;
  notices = noted_if (is_empty (drop n s)) write_complete c.notices;
})
direct_write s write_blocked c = keep_rest s c
direct_write s write_failed c = keep_rest s c
direct_write s write_broken c = c

abbrev pub writes_directly : Connection → Bool
writes_directly c = not c.writing && readable_bytes c.output == 0

-- TcpConnection::sendInLoop
unfoldable pub send_in_loop : Bytes → Write → Connection → Connection
send_in_loop s w c = if writes_directly c then direct_write s w c else keep_rest s c

-- TcpConnection::send, from the loop's thread
unfoldable pub send : Bytes → Write → Connection → Connection
unfolding send_in_loop
send s w c = if is_connected c.state then send_in_loop s w c else c

-- TcpConnection::shutdownInLoop
unfoldable pub shutdown_in_loop : Connection → Connection
shutdown_in_loop c = if c.writing then c else record c { shut = true }

-- TcpConnection::shutdown
unfoldable pub shutdown : Connection → Connection
shutdown c =
    if is_connected c.state then shutdown_in_loop (record c { state = disconnecting }) else c

-- The end of sendPendingFile, by the file that is still pending.
unfoldable pub stop_if_done : Option PendingFile → Connection → Connection
stop_if_done none c = if readable_bytes c.output == 0 then record c { writing = false } else c
stop_if_done (some f) c = c

-- The answer of sendfile for the pending file.
unfoldable pub file_answer : PendingFile → SendFile → Connection → Connection
file_answer f (sent_bytes n) c =
    let left = f.remaining - n in
    let taken = record c {
      regions = c.regions ++ (f.descriptor, f.offset, n) ∷ [];
      file = some (record f { offset = f.offset + n; remaining = left });
    } in
    if left == 0 then close_pending_file taken else taken
file_answer f send_blocked c = if f.remaining == 0 then close_pending_file c else c
file_answer f send_failed c = close_pending_file c

unfoldable pub send_part : Option PendingFile → SendFile → Connection → Connection
send_part none k c = c
send_part (some f) k c =
    let answered = file_answer f k c in
    if readable_bytes c.output == 0 then stop_if_done answered.file answered else c

-- TcpConnection::sendPendingFile
abbrev pub send_pending_file : SendFile → Connection → Connection
send_pending_file k c = send_part c.file k c

-- TcpConnection::sendFileInLoop
unfoldable pub send_file_in_loop : ℕ → ℕ → ℕ → SendFile → Connection → Connection
send_file_in_loop descriptor offset count k c =
    if is_disconnected c.state
    then notify (closed_file descriptor) c
    else let closed = close_pending_file c in
      let held = record closed {
        file = some (record { descriptor = descriptor; offset = offset; remaining = count });
        writing = true;
      } in
      if readable_bytes held.output == 0 then send_pending_file k held else held

-- TcpConnection::sendFile, from the loop's thread
unfoldable pub send_file : ℕ → ℕ → ℕ → SendFile → Connection → Connection
send_file descriptor offset count k c =
    if is_connected c.state
    then send_file_in_loop descriptor offset count k c
    else notify (closed_file descriptor) c

-- The branch of handleWrite for an output buffer that has run empty.
unfoldable pub drained : SendFile → Connection → Connection
drained k c =
    let c1 = send_pending_file k c in
    let idle = readable_bytes c1.output == 0 && not (is_some c1.file) in
    let c2 = record c1 {
      writing = if idle then false else c1.writing;
      notices = noted_if idle write_complete c1.notices;
    } in
    if is_disconnecting c2.state then shutdown_in_loop c2 else c2
  where
    is_some : Option PendingFile → Bool
    is_some none = false
    is_some (some f) = true

-- TcpConnection::handleWrite
unfoldable pub handle_write : Write → SendFile → Connection → Connection
handle_write (wrote n) k c =
    if not (c.writing && ltb 0 n)
    then c
    else let c1 = record c {
      wire = c.wire ++ take n (peek c.output);
      output = retrieve n c.output;
    } in
      if readable_bytes c1.output == 0 then drained k c1 else c1
handle_write _ k c = c

-- TcpConnection::handleClose
unfoldable pub handle_close : Connection → Connection
handle_close c =
    let closed = close_pending_file c in
    notify close_notice (
      notify connection_changed
        (record closed { state = disconnected; writing = false; reading = false }))

-- TcpConnection::handleRead, by what readFd answers: an error, the end, or bytes.
unfoldable pub handle_read : Option Bytes → Connection → Connection
handle_read none c = c
handle_read (some []) c = handle_close c
handle_read (some (x ∷ xs)) c =
    notify message (record c { input = read_fd (some (x ∷ xs)) c.input })

-- TcpConnection::connectEstablished
unfoldable pub connect_established : Connection → Connection
connect_established c = notify connection_changed (record c { state = connected; reading = true })

-- TcpConnection::connectDestroyed
unfoldable pub connect_destroyed : Connection → Connection
connect_destroyed c =
    let closed = close_pending_file c in
    if is_connected closed.state
    then notify connection_changed
        (record closed { state = disconnected; writing = false; reading = false })
    else closed
