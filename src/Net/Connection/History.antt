-- ===== src/Net/Connection/History.antt =====
-- Histories of a connection's sending side: src/net/TcpConnection.cpp.
use jingjie_ar.Net.Connection.Stream.{
  SameText-drained, SameText-send_part, SameText-same, SameText-shutdown_in_loop,
  SameText-close_file, SameText-trans, stream-handle_write, stream-send, stream-SameText, SameText,
  stream, accepted,
}
use jingjie_ar.Net.Connection.{
  write_broken, drained, write_failed, is_disconnected, write_blocked, disconnecting,
  writes_directly, wrote, close_pending_file, SendFile, is_connected, direct_write, send_in_loop,
  send_file_in_loop, Write, keep_rest, Connection, handle_write, send, send_file, shutdown,
}
use jingjie_ar.Net.Buffer.Invariant.{retrieve-IsValid, append-IsValid, IsValid}
use jingjie_ar.Net.Buffer.{readable_bytes, retrieve, peek}
use jingjie_ar.Text.{Bytes}
use jingjie_ar.Prelude.{
  ℕ, ◌≡◌, refl, sym, ap, ◌∙◌, subst, true, not, ◌&&◌, some, List, [], ◌∷◌, ◌++◌, append-nil,
  append_assoc, ltb, if_ind, ◌==◌, nat_eq, list_eq, take, drop,
}

-- What the application and the kernel do to the sending side of a connection, with the answers of
-- the kernel.
pub data Event : Type 0 where
  sends : Bytes → Write → Event
  sends_file : ℕ → ℕ → ℕ → SendFile → Event
  can_write : Write → SendFile → Event
  half_closes : Event

unfoldable pub step : Connection → Event → Connection
step c (sends s w) = send s w c
step c (sends_file descriptor offset count k) = send_file descriptor offset count k c
step c (can_write w k) = handle_write w k c
step c half_closes = shutdown c

unfoldable pub run : Connection → List Event → Connection
unfolding step
run c [] = c
run c (e ∷ es) = run (step c e) es

-- The texts that the sends of a history add to the stream, in their order.
unfoldable pub accepted_by : Connection → List Event → Bytes
unfolding step accepted
accepted_by c [] = []
accepted_by c (sends s w ∷ es) = accepted c s w ++ accepted_by (step c (sends s w)) es
accepted_by c (e ∷ es) = accepted_by (step c e) es

SameText-shutdown : (c : Connection) → SameText c (shutdown c)
unfolding shutdown
SameText-shutdown c =
    if_ind (SameText c) (is_connected c.state)
      (λ e.
        SameText-trans c (record c { state = disconnecting }) _
          (record { wire = refl; output = refl }) (SameText-shutdown_in_loop _))
      (λ e. SameText-same c)

SameText-send_file :
    (descriptor offset count : ℕ) (k : SendFile) (c : Connection)
    → SameText c (send_file descriptor offset count k c)
unfolding send_file send_file_in_loop
SameText-send_file descriptor offset count k c =
    if_ind (SameText c) (is_connected c.state)
      (λ e.
        if_ind (SameText c) (is_disconnected c.state) (λ d. record { wire = refl; output = refl })
          (λ d.
            if_ind (SameText c) (readable_bytes closed.output == 0)
              (λ h. SameText-trans c held _ same (SameText-send_part held.file k held))
              (λ h. same)))
      (λ e. record { wire = refl; output = refl })
  where
    closed : Connection
    closed = close_pending_file c

    held : Connection
    held = record closed {
      file = some (record { descriptor = descriptor; offset = offset; remaining = count });
      writing = true;
    }

    same : SameText c held
    same =
        SameText-trans c closed held (SameText-close_file c.file c)
          (record { wire = refl; output = refl })

SameText-IsValid : (c d : Connection) → SameText c d → IsValid c.output → IsValid d.output
SameText-IsValid c d h v = subst IsValid (sym h.output) v

IsValid-keep_rest : (s : Bytes) (c : Connection) → IsValid c.output → IsValid (keep_rest s c).output
unfolding keep_rest
IsValid-keep_rest [] c v = v
IsValid-keep_rest (x ∷ xs) c v = append-IsValid (x ∷ xs) c.output v

IsValid-send :
    (s : Bytes) (w : Write) (c : Connection) → IsValid c.output → IsValid (send s w c).output
unfolding send send_in_loop direct_write
IsValid-send s w c v =
    if_ind (λ (d : Connection). IsValid d.output) (is_connected c.state)
      (λ e.
        if_ind (λ (d : Connection). IsValid d.output) (writes_directly c) (λ d. direct w)
          (λ d. IsValid-keep_rest s c v))
      (λ e. v)
  where
    direct : (w : Write) → IsValid (direct_write s w c).output
    direct (wrote n) = IsValid-keep_rest (drop n s) _ v
    direct write_blocked = IsValid-keep_rest s c v
    direct write_failed = IsValid-keep_rest s c v
    direct write_broken = v

IsValid-handle_write :
    (w : Write) (k : SendFile) (c : Connection)
    → IsValid c.output
    → IsValid (handle_write w k c).output
unfolding handle_write
IsValid-handle_write (wrote n) k c v =
    if_ind (λ (d : Connection). IsValid d.output) (not (c.writing && ltb 0 n)) (λ e. v)
      (λ e.
        if_ind (λ (d : Connection). IsValid d.output) (readable_bytes c1.output == 0)
          (λ h. SameText-IsValid c1 (drained k c1) (SameText-drained k c1) kept) (λ h. kept))
  where
    c1 : Connection
    c1 = record c { wire = c.wire ++ take n (peek c.output); output = retrieve n c.output }

    kept : IsValid c1.output
    kept = retrieve-IsValid n c.output v
IsValid-handle_write write_blocked k c v = v
IsValid-handle_write write_broken k c v = v
IsValid-handle_write write_failed k c v = v

step-IsValid : (c : Connection) (e : Event) → IsValid c.output → IsValid (step c e).output
unfolding step
step-IsValid c (sends s w) v = IsValid-send s w c v
step-IsValid c (sends_file descriptor offset count k) v =
    SameText-IsValid c _ (SameText-send_file descriptor offset count k c) v
step-IsValid c (can_write w k) v = IsValid-handle_write w k c v
step-IsValid c half_closes v = SameText-IsValid c _ (SameText-shutdown c) v

step-sends :
    (c : Connection) (s : Bytes) (w : Write)
    → IsValid c.output
    → stream (step c (sends s w)) ≡ stream c ++ accepted c s w
unfolding step
step-sends c s w v = stream-send s w c v

-- An event that adds no text, before a history.
quiet_step : (c d : Connection) (t : Bytes) → stream d ≡ stream c → stream d ++ t ≡ stream c ++ t
quiet_step c d t h = ap (λ u. u ++ t) h

-- In every history of sends, file transfers, write events and a shutdown, with whatever answers of
-- the kernel: what the kernel has taken, followed by what waits in the buffer, is what was there
-- before followed by the texts of the accepted sends, in their order, each whole and once.
pub stream-run :
    (c : Connection) (es : List Event)
    → IsValid c.output
    → stream (run c es) ≡ stream c ++ accepted_by c es
unfolding run accepted_by step
stream-run c [] v = sym (append-nil (stream c))
stream-run c (sends s w ∷ es) v =
    stream-run (step c (sends s w)) es (step-IsValid c (sends s w) v)
    ∙ ap (λ t. t ++ accepted_by (step c (sends s w)) es) (step-sends c s w v)
    ∙ append_assoc (stream c) (accepted c s w) (accepted_by (step c (sends s w)) es)
stream-run c (sends_file descriptor offset count k ∷ es) v =
    let e = sends_file descriptor offset count k in
    stream-run (step c e) es (step-IsValid c e v)
    ∙ quiet_step c (step c e) (accepted_by (step c e) es)
        (stream-SameText c (step c e) (SameText-send_file descriptor offset count k c))
stream-run c (can_write w k ∷ es) v =
    let e = can_write w k in
    stream-run (step c e) es (step-IsValid c e v)
    ∙ quiet_step c (step c e) (accepted_by (step c e) es) (stream-handle_write w k c v)
stream-run c (half_closes ∷ es) v =
    stream-run (step c half_closes) es (step-IsValid c half_closes v)
    ∙ quiet_step c (step c half_closes) (accepted_by (step c half_closes) es)
        (stream-SameText c (step c half_closes) (SameText-shutdown c))
