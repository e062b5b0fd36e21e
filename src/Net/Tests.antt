-- ===== src/Net/Tests.antt =====
-- The buffer on concrete bytes, and its theorems at inputs that meet their hypotheses.
use jingjie_ar.Net.Connection.History.{
  half_closes, can_write, step, stream-run, sends, run, accepted_by, Event,
}
use jingjie_ar.Net.Connection.{
  shutdown_in_loop, shutdown, send_part, drained, handle_write, keep_rest, direct_write,
  send_in_loop, send_blocked, send, sent_bytes, write_blocked, send_file, wrote, connected,
  make_connection, Connection,
}
use jingjie_ar.Net.Connection.Files.{send_file-stalls, part_sent, write_events}
use jingjie_ar.Net.Connection.Stream.{accepted, stream}
use jingjie_ar.Net.Buffer.{
  initial_size, retrieve_all_as_string, retrieve_all, write_at, resize, make_space,
  ensure_writable_bytes, retrieve, append, retrieve_as_string, read_fd, make_buffer, peek, Buffer,
}
use jingjie_ar.Net.Buffer.Invariant.{IsValid, append-IsValid, make_buffer-IsValid}
use jingjie_ar.Text.{bytes}
use jingjie_ar.Prelude.{◌≡◌, refl, List, [], ◌∷◌, ◌++◌, arith, nat_eq, list_eq}

calls : Unit {0}
unfolding make_buffer append ensure_writable_bytes make_space resize write_at peek retrieve
    retrieve_all retrieve_as_string retrieve_all_as_string read_fd
calls = tt

small : Buffer
small = append (bytes "abc") (make_buffer 4)

small-IsValid : IsValid small
unfolding small
small-IsValid = append-IsValid (bytes "abc") (make_buffer 4) (make_buffer-IsValid 4)

-- Two bytes are read; the next write does not fit behind the rest, and moves it to the front.
compacts : append (bytes "wxy") (retrieve 2 small) ≡ record {
  store = 0 ∷ 0 ∷ 0 ∷ 0 ∷ 0 ∷ 0 ∷ 0 ∷ 0 ∷ bytes "cwxy";
  reader_index = 8;
  writer_index = 12;
}
unfolding calls small
compacts = refl

abbrev opened : Connection
opened = record (make_connection) { state = connected }

-- Two texts, of which the kernel takes the first in part.
abbrev history : List Event
history =
    sends (bytes "ab") (wrote 1)
    ∷ sends (bytes "cd") write_blocked
    ∷ can_write (wrote 2) send_blocked
    ∷ half_closes
    ∷ []

opened-IsValid : IsValid opened.output
unfolding make_connection
opened-IsValid = make_buffer-IsValid initial_size

stream-run_example : stream (run opened history) ≡ stream opened ++ accepted_by opened history
stream-run_example = stream-run opened history opened-IsValid

sent_in_order : accepted_by opened history ≡ bytes "abcd"
unfolding calls make_connection accepted_by accepted step send send_in_loop direct_write keep_rest
    handle_write drained send_part shutdown shutdown_in_loop
sent_in_order = refl

-- A file of a hundred bytes of which the socket takes forty, and two write events.
send_file-stalls_example :
    write_events
      (send_file 9 0 100 (sent_bytes 40) opened)
      ((wrote 0, sent_bytes 60) ∷ (write_blocked, send_blocked) ∷ [])
    ≡ part_sent 9 0 100 40 opened
unfolding make_connection make_buffer
send_file-stalls_example =
    send_file-stalls 9 0 100 40 opened
      ((wrote 0, sent_bytes 60) ∷ (write_blocked, send_blocked) ∷ []) refl refl refl (omega arith)
      (omega arith)
