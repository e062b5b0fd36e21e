-- ===== src/Net/Connection/Files.antt =====
-- File transfers of src/net/TcpConnection.cpp: sendFileInLoop, sendPendingFile and the write events
-- that should continue them.
use jingjie_ar.Net.Connection.{
  sent_bytes, connected, close_file, write_failed, write_broken, stop_if_done, file_answer,
  write_blocked, send_part, send_file_in_loop, SendFile, wrote, Connection, Write, handle_write,
  send_file,
}
use jingjie_ar.Net.Buffer.{readable_bytes}
use jingjie_ar.Prelude.{
  ℕ, ◌+◌, ◌-◌, ◌≤◌, ◌<◌, ◌≡◌, refl, ap, ◌∙◌, true, false, not, ◌&&◌, none, some, List, [], ◌∷◌,
  ◌++◌, arith, ltb, if_ind, ◌==◌, nat_eq, list_eq,
}

-- write(2) takes no more than it is offered.
abbrev pub Obeys : ℕ → Write → Type 0
Obeys len (wrote n) = n ≤ len
Obeys len _ = Unit {0}

-- A write event on an empty output buffer is a write of no bytes, and changes nothing.
handle_write_idle :
    (w : Write) (k : SendFile) (c : Connection)
    → readable_bytes c.output ≡ 0
    → Obeys (readable_bytes c.output) w
    → handle_write w k c ≡ c
unfolding handle_write
handle_write_idle (wrote n) k c e o =
    let none_taken : ltb 0 n ≡ false = ground arith in
    if_ind (λ d. d ≡ c) (not (c.writing && ltb 0 n)) (λ h. refl) (λ h. absurd (ground arith))
handle_write_idle write_blocked k c e o = refl
handle_write_idle write_broken k c e o = refl
handle_write_idle write_failed k c e o = refl

-- The write events that follow, each with what write and sendfile would answer.
unfoldable pub write_events : Connection → List (Write × SendFile) → Connection
write_events c [] = c
write_events c ((w, k) ∷ es) = write_events (handle_write w k c) es

abbrev pub AllObey : ℕ → List (Write × SendFile) → Type 0
AllObey len [] = Unit {0}
AllObey len ((w, k) ∷ es) = Obeys len w × AllObey len es

write_events_idle :
    (c : Connection) (es : List (Write × SendFile))
    → readable_bytes c.output ≡ 0
    → AllObey (readable_bytes c.output) es
    → write_events c es ≡ c
unfolding write_events
write_events_idle c [] e o = refl
write_events_idle c ((w, k) ∷ es) e o =
    ap (λ d. write_events d es) (handle_write_idle w k c e o.0) ∙ write_events_idle c es e o.1

-- What a connection with an empty output buffer and no pending file is after sendFile, when the
-- kernel takes only the first n bytes of the file region.
abbrev pub part_sent : ℕ → ℕ → ℕ → ℕ → Connection → Connection
part_sent descriptor offset count n c = record c {
  writing = true;
  regions = c.regions ++ (descriptor, offset, n) ∷ [];
  file = some (record { descriptor = descriptor; offset = offset + n; remaining = count - n });
}

send_file_part :
    (descriptor offset count n : ℕ) (c : Connection)
    → c.state ≡ connected
    → c.file ≡ none
    → readable_bytes c.output ≡ 0
    → n < count
    → send_file descriptor offset count (sent_bytes n) c ≡ part_sent descriptor offset count n c
unfolding send_file send_file_in_loop send_part file_answer stop_if_done close_file
send_file_part descriptor offset count n c open_yet no_file empty part =
    let nothing : (readable_bytes c.output == 0) ≡ true = ground arith in
    let more : (count - n == 0) ≡ false = ground arith in
    rw open_yet (rw no_file (rw nothing (rw more refl)))

-- A file that the kernel takes only in part is never finished: on a connection with nothing else to
-- send, whatever write events follow and whatever sendfile would answer then, the connection stays
-- as it is, with the channel asking for write events, the file open and its rest unsent. (write is
-- only known to take no more than it is offered, which is nothing.)
pub send_file-stalls :
    (descriptor offset count n : ℕ) (c : Connection) (es : List (Write × SendFile))
    → c.state ≡ connected
    → c.file ≡ none
    → readable_bytes c.output ≡ 0
    → n < count
    → AllObey (readable_bytes c.output) es
    → write_events (send_file descriptor offset count (sent_bytes n) c) es
      ≡ part_sent descriptor offset count n c
send_file-stalls descriptor offset count n c es open_yet no_file empty part o =
    ap (λ d. write_events d es)
      (send_file_part descriptor offset count n c open_yet no_file empty part)
    ∙ write_events_idle (part_sent descriptor offset count n c) es empty o
