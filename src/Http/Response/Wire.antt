-- ===== src/Http/Response/Wire.antt =====
-- The bytes that appendToBuffer of src/http/HttpResponse.cpp leaves in a buffer.
use jingjie_ar.Http.Response.{
  append_to_buffer, has_file, connection_line, content_length_line, append_if, crlf, status_line,
  Response, append_headers,
}
use jingjie_ar.Text.{is_empty, bytes, Bytes}
use jingjie_ar.Net.Buffer.Content.{peek-append}
use jingjie_ar.Net.Buffer.Invariant.{append-IsValid, IsValid}
use jingjie_ar.Net.Buffer.{peek, append, Buffer}
use jingjie_ar.Prelude.{
  ◌≡◌, refl, ap, ◌∙◌, subst, Bool, true, false, not, ◌&&◌, List, [], ◌∷◌, ◌++◌, append-nil,
  append_assoc, if◌then◌else◌, nat_eq, list_eq, has_key,
}

-- A message is its status line, its fields, an empty line and its body.
abbrev pub printed_fields : List (Bytes × Bytes) → Bytes
printed_fields [] = []
printed_fields ((k, v) ∷ rest) = (k ++ (bytes ": " ++ (v ++ crlf))) ++ printed_fields rest

abbrev pub unless : Bool → Bytes → Bytes
unless b s = if b then [] else s

abbrev pub printed : Response → Bytes
printed r =
    status_line r
    ++ ((bytes "Server: webserver" ++ crlf)
        ++ (unless (has_key (bytes "Content-Type") r.headers)
              (bytes "Content-Type: text/html" ++ crlf)
            ++ (unless (has_key (bytes "Content-Length") r.headers) (content_length_line r)
                ++ (unless (has_key (bytes "Connection") r.headers) (connection_line r)
                    ++ (printed_fields r.headers ++ (crlf ++ unless (has_file r) r.body))))))

-- A valid buffer that shows a text.
Shows : Bytes → Buffer → Type 0
Shows s b = IsValid b × (peek b ≡ s)

shown : (b : Buffer) → IsValid b → Shows (peek b) b
unfolding Shows
shown b v = (v, refl)

Shows-append : (s t : Bytes) (b : Buffer) → Shows s b → Shows (s ++ t) (append t b)
unfolding Shows
Shows-append s t b h = (append-IsValid t b h.0, peek-append t b h.0 ∙ ap (λ p. p ++ t) h.1)

Shows-append_if :
    (c : Bool) (s t : Bytes) (b : Buffer)
    → Shows s b
    → Shows (s ++ unless (not c) t) (append_if c t b)
unfolding Shows
Shows-append_if true s t b h = Shows-append s t b h
Shows-append_if false s t b h = rw (append-nil s) h

flat :
    (s a b c d t : Bytes) → ((((s ++ a) ++ b) ++ c) ++ d) ++ t ≡ s ++ ((a ++ (b ++ (c ++ d))) ++ t)
flat s a b c d t = simp (append_assoc)

Shows-append_headers :
    (fields : List (Bytes × Bytes)) (s : Bytes) (b : Buffer)
    → Shows s b
    → Shows (s ++ printed_fields fields) (append_headers fields b)
unfolding append_headers Shows
Shows-append_headers [] s b h = rw (append-nil s) h
Shows-append_headers ((k, v) ∷ rest) s b h =
    subst
      (λ t.
        Shows t (append_headers rest (append crlf (append v (append (bytes ": ") (append k b))))))
      (flat s k (bytes ": ") v crlf (printed_fields rest))
      (Shows-append_headers rest ((((s ++ k) ++ bytes ": ") ++ v) ++ crlf)
        (append crlf (append v (append (bytes ": ") (append k b))))
        (Shows-append (((s ++ k) ++ bytes ": ") ++ v) crlf
          (append v (append (bytes ": ") (append k b)))
          (Shows-append ((s ++ k) ++ bytes ": ") v (append (bytes ": ") (append k b))
            (Shows-append (s ++ k) (bytes ": ") (append k b) (Shows-append s k b h)))))

printed-body :
    (file : Bool) (s : Bytes) → unless (not (not file && not (is_empty s))) s ≡ unless file s
printed-body true s = refl
printed-body false [] = refl
printed-body false (x ∷ xs) = refl

not-not : (b : Bool) → not (not b) ≡ b
not-not true = refl
not-not false = refl

Shows-append_unless :
    (c : Bool) (s t : Bytes) (b : Buffer)
    → Shows s b
    → Shows (s ++ unless c t) (append_if (not c) t b)
Shows-append_unless c s t b h =
    subst (λ c'. Shows (s ++ unless c' t) (append_if (not c) t b)) (not-not c)
      (Shows-append_if (not c) s t b h)

flat_message :
    (s a b c d e f g t : Bytes)
    → (((((((s ++ a) ++ b) ++ c) ++ d) ++ e) ++ f) ++ g) ++ t
      ≡ s ++ (a ++ (b ++ (c ++ (d ++ (e ++ (f ++ (g ++ t)))))))
flat_message s a b c d e f g t = simp (append_assoc)

Shows-append_to_buffer :
    (r : Response) (b : Buffer) → IsValid b → Shows (peek b ++ printed r) (append_to_buffer r b)
unfolding append_to_buffer
Shows-append_to_buffer r b v =
    subst (λ t. Shows t (append_to_buffer r b))
      (ap (λ t. s7 ++ t) (printed-body (has_file r) r.body)
        ∙ flat_message (peek b) (status_line r) server (unless no_type type_line)
            (unless no_length (content_length_line r)) (unless no_connection (connection_line r))
            (printed_fields r.headers) crlf (unless (has_file r) r.body))
      (Shows-append_if (not (has_file r) && not (is_empty r.body)) s7 r.body b7 (
        Shows-append s6 crlf b6 (
          Shows-append_headers r.headers s5 b5 (
            Shows-append_unless no_connection s4 (connection_line r) b4 (
              Shows-append_unless no_length s3 (content_length_line r) b3 (
                Shows-append_unless no_type s2 type_line b2 (
                  Shows-append s1 server b1
                    (Shows-append (peek b) (status_line r) b (shown b v)))))))))
  where
    server : Bytes
    server = bytes "Server: webserver" ++ crlf

    type_line : Bytes
    type_line = bytes "Content-Type: text/html" ++ crlf

    no_type : Bool
    no_type = has_key (bytes "Content-Type") r.headers

    no_length : Bool
    no_length = has_key (bytes "Content-Length") r.headers

    no_connection : Bool
    no_connection = has_key (bytes "Connection") r.headers

    b1 : Buffer
    b1 = append (status_line r) b

    b2 : Buffer
    b2 = append server b1

    b3 : Buffer
    b3 = append_if (not no_type) type_line b2

    b4 : Buffer
    b4 = append_if (not no_length) (content_length_line r) b3

    b5 : Buffer
    b5 = append_if (not no_connection) (connection_line r) b4

    b6 : Buffer
    b6 = append_headers r.headers b5

    b7 : Buffer
    b7 = append crlf b6

    s1 : Bytes
    s1 = peek b ++ status_line r

    s2 : Bytes
    s2 = s1 ++ server

    s3 : Bytes
    s3 = s2 ++ unless no_type type_line

    s4 : Bytes
    s4 = s3 ++ unless no_length (content_length_line r)

    s5 : Bytes
    s5 = s4 ++ unless no_connection (connection_line r)

    s6 : Bytes
    s6 = s5 ++ printed_fields r.headers

    s7 : Bytes
    s7 = s6 ++ crlf

-- The bytes that appendToBuffer adds to a buffer are exactly the status line, the Server line, the
-- default fields that the response does not set, its own fields, the empty line, and the body
-- unless a file is sent, after what the buffer already showed.
pub peek-append_to_buffer :
    (r : Response) (b : Buffer) → IsValid b → peek (append_to_buffer r b) ≡ peek b ++ printed r
unfolding Shows
peek-append_to_buffer r b v = (Shows-append_to_buffer r b v).1
