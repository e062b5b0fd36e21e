-- ===== src/Http/StaticFile/Reply.antt =====
-- The body that populateResponse of src/http/StaticFileHandler.cpp sends.
use jingjie_ar.Http.StaticFile.Answer.{
  entry_for, file_headers, fresh_entry, with_body, CachedFileEntry, is_unsatisfiable, Populated,
  with_content, substr, is_success, populate_response, length_headers,
}
use jingjie_ar.Http.StaticFile.Plan.{FileSystem, FilePlan}
use jingjie_ar.Http.Response.{set_status_code, HttpStatusCode, decimal, Response, set_body}
use jingjie_ar.Http.Request.{method_eq, head, Request}
use jingjie_ar.Http.Response.Fields.{lookup-add_header}
use jingjie_ar.Text.{bytes, Bytes}
use jingjie_ar.Prelude.{
  ℕ, ◌+◌, ◌≤◌, ◌≡◌, refl, sym, ap, ◌∙◌, Bool, true, false, not, Option, none, some, arith, ltb,
  if_ind, ◌==◌, nat_eq, list_eq, lookup, length, take, drop, length-take, length-drop,
}

slice :
    (offset count : ℕ) (content : Bytes)
    → offset + count ≤ length content
    → (body : Bytes) × (substr offset count content ≡ some body)
      × (length body ≡ count)
      × (body ≡ take count (drop offset content))
unfolding substr
slice offset count content h =
    let starts : ltb (length content) offset ≡ false = ground arith in
    (
      take count (drop offset content),
      rw starts refl,
      omega (arith, length-take count (drop offset content), length-drop offset content),
      refl,
    )

-- An answer with a body of as many bytes as its Content-Length says, which are those of the part.
abbrev pub Carries : FilePlan → Bytes → Populated → Type 0
Carries plan content p =
    (r : Response) × (p.response ≡ some r)
    × (lookup (bytes "Content-Length") r.headers ≡ some (decimal (length r.body)))
    × (r.body ≡ take plan.response_size (drop plan.file_offset content))

with_body-Carries :
    (plan : FilePlan) (r : Response) (content : Bytes) (stored : Option (Bytes × CachedFileEntry))
    → plan.file_offset + plan.response_size ≤ length content
    → lookup (bytes "Content-Length") r.headers ≡ some (decimal plan.response_size)
    → Carries plan content (with_body plan r content stored)
unfolding set_body
with_body-Carries plan r content stored h e =
    let (body, found, size, exact) = slice plan.file_offset plan.response_size content h in
    (set_body body r, rw (with_body, found) refl, e ∙ ap (λ n. some (decimal n)) (sym size), exact)

length-length_headers :
    (plan : FilePlan) (r : Response)
    → lookup (bytes "Content-Length") (length_headers plan r).headers
      ≡ some (decimal plan.response_size)
unfolding length_headers
length-length_headers plan r =
    lookup-add_header (bytes "Content-Length") (decimal plan.response_size) _

success_is_satisfiable : (s : HttpStatusCode) → is_success s ≡ true → is_unsatisfiable s ≡ false
success_is_satisfiable s h = ground arith

-- A request, other than HEAD, for a file within the threshold that is not fresh in the cache is
-- answered, when the file can be read and is as long as the plan says, without an exception and
-- with exactly the planned part of its content; Content-Length is the length of that body.
pub populate_response-Carries :
    (files : FileSystem) (request : Request) (plan : FilePlan) (cached : Option CachedFileEntry)
    (stores : Bool) (content : Bytes) (threshold : ℕ) (r : Response)
    → plan.is_file ≡ true
    → is_success plan.status ≡ true
    → (request.method == head) ≡ false
    → plan.file_size ≤ threshold
    → fresh_entry cached plan ≡ none
    → length content ≡ plan.file_size
    → plan.file_offset + plan.response_size ≤ plan.file_size
    → Carries plan content
        (populate_response files request plan cached stores (some content) threshold r)
unfolding populate_response with_content
populate_response-Carries files request plan cached stores content threshold r is_file fine not_head
      small stale whole inside =
    if_ind P (not plan.is_file) (λ e. absurd (ground arith))
      (λ _.
        if_ind P (is_unsatisfiable plan.status)
          (λ e. absurd (ground (arith, success_is_satisfiable plan.status fine)))
          (λ _.
            if_ind P (not (is_success plan.status)) (λ e. absurd (ground arith))
              (λ _.
                if_ind P (request.method == head) (λ e. absurd (ground arith))
                  (λ _.
                    if_ind P (ltb threshold plan.file_size) (λ e. absurd (ground arith))
                      (λ _. sent)))))
  where
    P : Populated → Type 0
    P = Carries plan content

    sent : P (
        with_content stores plan
          (length_headers plan (file_headers files plan (set_status_code plan.status r)))
          (fresh_entry cached plan)
          (some content))
    sent = rw stale (
        with_body-Carries plan
          (length_headers plan (file_headers files plan (set_status_code plan.status r))) content
          (entry_for stores plan content) (omega (arith, whole))
          (length-length_headers plan (file_headers files plan (set_status_code plan.status r))))
