-- ===== src/Http/StaticFile/Answer.antt =====
-- The answer to a request for a file: populateResponse of src/http/StaticFileHandler.cpp and the
-- entry of include/http/StaticFileCache.h. The cache and the disk are parameters.
use jingjie_ar.Http.Request.{head, Request, method_eq}
use jingjie_ar.Http.Response.{
  not_found_404, decimal, partial_content, set_content_type, ok, set_status_code,
  range_not_satisfiable, set_body, HttpStatusCode, Response, add_header,
}
use jingjie_ar.Text.{bytes, Bytes}
use jingjie_ar.Http.StaticFile.Mime.{mime}
use jingjie_ar.Http.StaticFile.Plan.{FilePlan, FileSystem}
use jingjie_ar.Prelude.{
  ℕ, ◌+◌, ◌-◌, Bool, true, false, not, ◌&&◌, Option, none, some, ◌∷◌, ◌++◌, ltb, if◌then◌else◌,
  ◌==◌, nat_eq, list_eq, length, take, drop,
}

pub record CachedFileEntry : Type 0 where
  pub content : Bytes
  pub content_type : Bytes
  pub last_modified : ℕ
  pub file_size : ℕ

-- std::string::substr, which throws for a position behind the end.
unfoldable pub substr : ℕ → ℕ → Bytes → Option Bytes
substr position count s =
    if ltb (length s) position then none else some (take count (drop position s))

-- What populateResponse leaves: the response, or the exception of substr, and the entry that it
-- puts into the cache.
pub record Populated : Type 0 where
  pub response : Option Response
  pub stored : Option (Bytes × CachedFileEntry)

abbrev pub populated : Response → Populated
populated r = record { response = some r; stored = none }

-- The cached entry, if it is of the file as it is.
unfoldable pub fresh_entry : Option CachedFileEntry → FilePlan → Option CachedFileEntry
fresh_entry none plan = none
fresh_entry (some e) plan =
    if e.last_modified == plan.last_modified && e.file_size == plan.file_size then some e else none

abbrev pub with_body : FilePlan → Response → Bytes → Option (Bytes × CachedFileEntry) → Populated
with_body plan r content stored = record {
  response = elim (substr plan.file_offset plan.response_size content) [
    | none ↦ none
    | some body ↦ some (set_body body r)
  ];
  stored = stored;
}

-- The entry for content that was read from the disk, if there is a cache to put it into.
abbrev pub entry_for : Bool → FilePlan → Bytes → Option (Bytes × CachedFileEntry)
entry_for stores plan content =
    let e : CachedFileEntry = record {
      content = content;
      content_type = mime plan.path;
      last_modified = plan.last_modified;
      file_size = plan.file_size;
    } in
    if stores then some (plan.path, e) else none

-- The content, from the cache or the disk; `stores` says whether there is a cache to put it into.
unfoldable pub with_content :
    Bool → FilePlan → Response → Option CachedFileEntry → Option Bytes → Populated
with_content stores plan r (some e) disk = with_body plan r e.content none
with_content stores plan r none none = populated (set_status_code not_found_404 r)
with_content stores plan r none (some content) =
    with_body plan r content (entry_for stores plan content)

abbrev pub is_success : HttpStatusCode → Bool
is_success ok = true
is_success partial_content = true
is_success _ = false

abbrev pub is_unsatisfiable : HttpStatusCode → Bool
is_unsatisfiable range_not_satisfiable = true
is_unsatisfiable _ = false

-- The headers that every answer about a file has.
unfoldable pub file_headers : FileSystem → FilePlan → Response → Response
file_headers files plan r = set_content_type (mime plan.path) (
    add_header (bytes "Accept-Ranges") (bytes "bytes") (
      add_header (bytes "Last-Modified") (files.format_date plan.last_modified)
        (add_header (bytes "ETag") plan.etag r)))

unfoldable pub length_headers : FilePlan → Response → Response
length_headers plan r =
    let ranged =
      if plan.partial
      then add_header (bytes "Content-Range")
          (bytes "bytes "
            ++ (decimal plan.file_offset
                ++ (45
                    ∷ (decimal (plan.file_offset + plan.response_size - 1)
                        ++ (47 ∷ decimal plan.file_size)))))
          r
      else r in
    add_header (bytes "Content-Length") (decimal plan.response_size) ranged

-- StaticFileHandler::populateResponse; `cached` is what the cache gives for the path, if there is a
-- cache and it has the path, and `disk` what the file holds, if it can be opened.
unfoldable pub populate_response :
    FileSystem
    → Request
    → FilePlan
    → Option CachedFileEntry
    → Bool
    → Option Bytes
    → ℕ
    → Response
    → Populated
populate_response files request plan cached stores disk threshold r0 =
    let r1 = set_status_code plan.status r0 in
    let r2 = file_headers files plan r1 in
    let r3 = length_headers plan r2 in
    if not plan.is_file
    then populated r1
    else if is_unsatisfiable plan.status
    then populated
        (add_header (bytes "Content-Range") (bytes "bytes */" ++ decimal plan.file_size) r2)
    else if not (is_success plan.status)
    then populated r2
    else if request.method == head
    then populated r3
    else if ltb threshold plan.file_size
    then populated (record r3 {
      file_path = plan.path;
      file_offset = plan.file_offset;
      file_count = plan.response_size;
    })
    else with_content stores plan r3 (fresh_entry cached plan) disk
