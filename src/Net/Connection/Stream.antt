-- ===== src/Net/Connection/Stream.antt =====
-- The text that a connection sends: sendInLoop and handleWrite of src/net/TcpConnection.cpp.
use jingjie_ar.Net.Connection.{
  is_disconnecting, send_part, close_file, handle_write, send_pending_file, stop_if_done,
  shutdown_in_loop, drained, send_failed, send_blocked, sent_bytes, write_complete, SendFile,
  PendingFile, send_in_loop, close_pending_file, file_answer, noted_if, send, write_failed,
  write_broken, writes_directly, write_blocked, wrote, is_connected, Write, direct_write,
  Connection, keep_rest,
}
use jingjie_ar.Net.Buffer.Content.{peek-retrieve, peek-append}
use jingjie_ar.Net.Buffer.Invariant.{IsValid}
use jingjie_ar.Net.Buffer.{retrieve, readable_bytes, peek}
use jingjie_ar.Text.{is_empty, Bytes}
use jingjie_ar.Prelude.{
  ◌+◌, ◌-◌, ◌≡◌, refl, sym, ap, ap₂, ◌∙◌, inl, inr, true, not, ◌&&◌, Option, none, some, [], ◌∷◌,
  ◌++◌, append-nil, append_assoc, arith, ltb, if◌then◌else◌, Bool-cases, if_ind, ◌==◌, nat_eq,
  list_eq, take, drop, take-append-drop,
}

-- What the kernel has taken and what waits in the output buffer.
abbrev pub stream : Connection → Bytes
stream c = c.wire ++ peek c.output

pub stream-keep_rest :
    (s : Bytes) (c : Connection) → IsValid c.output → stream (keep_rest s c) ≡ stream c ++ s
unfolding keep_rest
stream-keep_rest [] c v = sym (append-nil (stream c))
stream-keep_rest (x ∷ xs) c v =
    ap (λ t. c.wire ++ t) (peek-append (x ∷ xs) c.output v)
    ∙ sym (append_assoc c.wire (peek c.output) (x ∷ xs))

-- What the kernel's answer makes of a text that is written directly.
abbrev pub answered : Bytes → Write → Bytes
answered s write_broken = []
answered s _ = s

-- What a send adds to the stream: nothing if the connection is not open or is found to be broken.
unfoldable pub accepted : Connection → Bytes → Write → Bytes
accepted c s w =
    if is_connected c.state then (if writes_directly c then answered s w else s) else []

pub stream-direct_write :
    (s : Bytes) (w : Write) (c : Connection)
    → IsValid c.output
    → peek c.output ≡ []
    → stream (direct_write s w c) ≡ stream c ++ answered s w
unfolding direct_write
stream-direct_write s (wrote n) c v e =
    stream-keep_rest (drop n s)
      (record c {
        wire = c.wire ++ take n s;
        notices = noted_if (is_empty (drop n s)) write_complete c.notices;
      })
      v
    ∙ rw e (
        ap (λ t. t ++ drop n s) (append-nil (c.wire ++ take n s))
        ∙ append_assoc c.wire (take n s) (drop n s)
        ∙ ap (λ t. c.wire ++ t) (take-append-drop n s)
        ∙ ap (λ t. t ++ s) (sym (append-nil c.wire)))
stream-direct_write s write_blocked c v e = stream-keep_rest s c v
stream-direct_write s write_failed c v e = stream-keep_rest s c v
stream-direct_write s write_broken c v e = sym (append-nil (stream c))

nothing_waits : (c : Connection) → writes_directly c ≡ true → peek c.output ≡ []
unfolding peek
nothing_waits c h = let e : readable_bytes c.output ≡ 0 = ground arith in rw e refl

-- A send puts its whole text behind what was sent before, whether the kernel takes all of it, a
-- part or nothing; only a connection that is closed or broken leaves it out.
pub stream-send :
    (s : Bytes) (w : Write) (c : Connection)
    → IsValid c.output
    → stream (send s w c) ≡ stream c ++ accepted c s w
unfolding send send_in_loop accepted
stream-send s w c v = elim (Bool-cases (is_connected c.state)) [
  | inr closed ↦ rw closed (sym (append-nil (stream c)))
  | inl open_yet ↦ rw open_yet (elim (Bool-cases (writes_directly c)) [
    | inl direct ↦ rw direct (stream-direct_write s w c v (nothing_waits c direct))
    | inr later ↦ rw later (stream-keep_rest s c v)
  ])
]

-- The sending side of the text is not touched.
pub record SameText (c d : Connection) : Type 0 where
  pub wire : d.wire ≡ c.wire
  pub output : d.output ≡ c.output

pub SameText-same : (c : Connection) → SameText c c
SameText-same c = record { wire = refl; output = refl }

pub SameText-trans : (c d e : Connection) → SameText c d → SameText d e → SameText c e
SameText-trans c d e h k = record { wire = k.wire ∙ h.wire; output = k.output ∙ h.output }

pub SameText-close_file : (o : Option PendingFile) (c : Connection) → SameText c (close_file o c)
unfolding close_file
SameText-close_file none c = SameText-same c
SameText-close_file (some f) c = record { wire = refl; output = refl }

pub SameText-file_answer :
    (f : PendingFile) (k : SendFile) (c : Connection) → SameText c (file_answer f k c)
unfolding file_answer
SameText-file_answer f (sent_bytes n) c =
    if_ind (SameText c) (f.remaining - n == 0)
      (λ e.
        SameText-trans c taken (close_pending_file taken) same
          (SameText-close_file taken.file taken))
      (λ e. same)
  where
    taken : Connection
    taken = record c {
      regions = c.regions ++ (f.descriptor, f.offset, n) ∷ [];
      file = some (record f { offset = f.offset + n; remaining = f.remaining - n });
    }

    same : SameText c taken
    same = record { wire = refl; output = refl }
SameText-file_answer f send_blocked c =
    if_ind (SameText c) (f.remaining == 0) (λ e. SameText-close_file c.file c)
      (λ e. SameText-same c)
SameText-file_answer f send_failed c = SameText-close_file c.file c

pub SameText-stop_if_done :
    (o : Option PendingFile) (c : Connection) → SameText c (stop_if_done o c)
unfolding stop_if_done
SameText-stop_if_done none c =
    if_ind (SameText c) (readable_bytes c.output == 0) (λ h. record { wire = refl; output = refl })
      (λ h. SameText-same c)
SameText-stop_if_done (some f) c = SameText-same c

pub SameText-send_part :
    (o : Option PendingFile) (k : SendFile) (c : Connection) → SameText c (send_part o k c)
unfolding send_part
SameText-send_part none k c = SameText-same c
SameText-send_part (some f) k c =
    let answer = file_answer f k c in
    if_ind (SameText c) (readable_bytes c.output == 0)
      (λ h.
        SameText-trans c answer (stop_if_done answer.file answer) (SameText-file_answer f k c)
          (SameText-stop_if_done answer.file answer))
      (λ h. SameText-same c)

pub SameText-shutdown_in_loop : (c : Connection) → SameText c (shutdown_in_loop c)
unfolding shutdown_in_loop
SameText-shutdown_in_loop c =
    if_ind (SameText c) c.writing (λ e. SameText-same c)
      (λ e. record { wire = refl; output = refl })

pub SameText-drained : (k : SendFile) (c : Connection) → SameText c (drained k c)
unfolding drained
SameText-drained k c = SameText-trans c c1 _ (SameText-send_part c.file k c) (
    if_ind (SameText c1) (is_disconnecting c1.state)
      (λ h.
        SameText-trans c1 _ _ (record { wire = refl; output = refl }) (SameText-shutdown_in_loop _))
      (λ h. record { wire = refl; output = refl }))
  where
    c1 : Connection
    c1 = send_pending_file k c

pub stream-SameText : (c d : Connection) → SameText c d → stream d ≡ stream c
stream-SameText c d h = ap₂ (λ w o. w ++ peek o) h.wire h.output

-- A write event moves bytes from the buffer to the kernel and changes no text that is sent.
pub stream-handle_write :
    (w : Write) (k : SendFile) (c : Connection)
    → IsValid c.output
    → stream (handle_write w k c) ≡ stream c
unfolding handle_write
stream-handle_write (wrote n) k c v =
    if_ind (λ d. stream d ≡ stream c) (not (c.writing && ltb 0 n)) (λ e. refl)
      (λ e.
        if_ind (λ d. stream d ≡ stream c) (readable_bytes c1.output == 0)
          (λ h. stream-SameText c1 (drained k c1) (SameText-drained k c1) ∙ moved) (λ h. moved))
  where
    c1 : Connection
    c1 = record c { wire = c.wire ++ take n (peek c.output); output = retrieve n c.output }

    moved : stream c1 ≡ stream c
    moved =
        ap (λ t. (c.wire ++ take n (peek c.output)) ++ t) (peek-retrieve n c.output v)
        ∙ append_assoc c.wire (take n (peek c.output)) (drop n (peek c.output))
        ∙ ap (λ t. c.wire ++ t) (take-append-drop n (peek c.output))
stream-handle_write write_blocked k c v = refl
stream-handle_write write_broken k c v = refl
stream-handle_write write_failed k c v = refl
