-- ===== src/Http/StaticFile/Paths.antt =====
-- Which files prepareInRoot of src/http/StaticFileHandler.cpp gives out.
use jingjie_ar.Http.StaticFile.Bounds.{parse_single_range-IsPart, IsPartIf}
use jingjie_ar.Http.StaticFile.Range.{parse_single_range}
use jingjie_ar.Http.StaticFile.Plan.{
  not_modified_since, etag_of, has_dots, empty_plan, FileStat, resolved_root, is_below,
  begins_with_slash, failed_plan, FilePlan, plan_resolved, prepare_in_root, apply_range, FileSystem,
  plan_stat, plan_file,
}
use jingjie_ar.Text.{is_empty, bytes, url_decode, Bytes}
use jingjie_ar.Http.Request.{get_header, Request}
use jingjie_ar.Http.Response.{not_found_404, HttpStatusCode}
use jingjie_ar.Prelude.{
  ℕ, ◌+◌, ◌≤◌, ◌≡◌, refl, true, false, not, ◌||◌, Option, none, some, [], ◌∷◌, ◌++◌, arith,
  if◌then◌else◌, if_ind, ◌==◌, nat_eq, list_eq,
}

-- The path below the root that a request names: decoded, and the index for the root itself.
abbrev pub asked : Request → Bytes
asked request =
    if url_decode request.path == 47 ∷ [] then bytes "/index.html" else url_decode request.path

-- A plan for a part, inside its bounds, of a regular file below the root: the one that
-- realpath gives for what the request names.
pub record IsServable (files : FileSystem) (root : Bytes) (request : Request) (plan : FilePlan)
    : Type 0 where
  pub resolved : files.real_path (root ++ asked request) ≡ some plan.path
  pub below : is_below root plan.path ≡ true
  pub exists :
      (st : FileStat) × (files.stat plan.path ≡ some st)
      × (st.is_regular ≡ true)
      × (plan.file_size ≡ st.size)
  pub inside : plan.file_offset + plan.response_size ≤ plan.file_size

abbrev IfFile : FileSystem → Bytes → Request → FilePlan → Type 0
IfFile files root request plan = (plan.is_file ≡ true) → IsServable files root request plan

apply_range-IsServable :
    (files : FileSystem) (root : Bytes) (request : Request) (o : Option (ℕ × ℕ)) (plan : FilePlan)
    → IsPartIf plan.file_size o
    → IsServable files root request plan
    → IsServable files root request (apply_range o plan)
unfolding apply_range
apply_range-IsServable files root request none plan h v = record {
  resolved = v.resolved;
  below = v.below;
  exists = v.exists;
  inside = v.inside;
}
apply_range-IsServable files root request (some r) plan h v = record {
  resolved = v.resolved;
  below = v.below;
  exists = v.exists;
  inside = h.1;
}

plan_file-IsServable :
    (files : FileSystem) (root resolved : Bytes) (st : FileStat) (request : Request)
    → files.real_path (root ++ asked request) ≡ some resolved
    → is_below root resolved ≡ true
    → files.stat resolved ≡ some st
    → st.is_regular ≡ true
    → IsServable files root request (plan_file files resolved st request)
unfolding plan_file
plan_file-IsServable files root resolved st request real below found regular =
    if_ind (IsServable files root request)
      (get_header (bytes "If-None-Match") request == etag_of files st
        || not_modified_since files (get_header (bytes "If-Modified-Since") request) st.modified)
      (λ e. record {
        resolved = real;
        below = below;
        exists = (st, found, regular, refl);
        inside = omega arith;
      })
      (λ e.
        if_ind (IsServable files root request) (is_empty (get_header (bytes "Range") request))
          (λ f. whole)
          (λ f.
            apply_range-IsServable files root request
              (parse_single_range (get_header (bytes "Range") request) st.size) _
              (parse_single_range-IsPart (get_header (bytes "Range") request) st.size) whole))
  where
    whole : IsServable files root request (record empty_plan {
      path = resolved;
      etag = etag_of files st;
      last_modified = st.modified;
      file_size = st.size;
      response_size = st.size;
      is_file = true;
    })
    whole = record {
      resolved = real;
      below = below;
      exists = (st, found, regular, refl);
      inside = omega arith;
    }

failed_plan-IfFile :
    (files : FileSystem) (root : Bytes) (request : Request) (status : HttpStatusCode)
    → IfFile files root request (failed_plan files status)
failed_plan-IfFile files root request status h = absurd (ground arith)

plan_stat-IfFile :
    (files : FileSystem) (root resolved : Bytes) (o : Option FileStat) (request : Request)
    → files.real_path (root ++ asked request) ≡ some resolved
    → is_below root resolved ≡ true
    → files.stat resolved ≡ o
    → IfFile files root request (plan_stat files resolved o request)
unfolding plan_stat
plan_stat-IfFile files root resolved none request real below found =
    failed_plan-IfFile files root request not_found_404
plan_stat-IfFile files root resolved (some st) request real below found =
    if_ind (IfFile files root request) st.is_regular
      (λ regular h. plan_file-IsServable files root resolved st request real below found regular)
      (λ other. failed_plan-IfFile files root request not_found_404)

plan_resolved-IfFile :
    (files : FileSystem) (root : Bytes) (o : Option Bytes) (request : Request)
    → files.real_path (root ++ asked request) ≡ o
    → IfFile files root request (plan_resolved files root o request)
unfolding plan_resolved
plan_resolved-IfFile files root none request real =
    failed_plan-IfFile files root request not_found_404
plan_resolved-IfFile files root (some resolved) request real =
    if_ind (IfFile files root request) (is_below root resolved)
      (λ below. plan_stat-IfFile files root resolved (files.stat resolved) request real below refl)
      (λ outside. failed_plan-IfFile files root request not_found_404)

-- Whatever a request asks for, a plan that gives out a file gives out what realpath gives for the root
-- followed by the decoded path of the request (by /index.html, if that is a slash alone), this
-- resolved path is the root followed by a slash and more, and it is a regular file with the size
-- that stat reports, of which the part given out lies inside. So no path, encoded or not, and no
-- link that realpath follows leaves the root.
pub prepare_in_root-IsServable :
    (files : FileSystem) (root : Bytes) (request : Request)
    → (prepare_in_root files root request).is_file ≡ true
    → IsServable files root request (prepare_in_root files root request)
unfolding prepare_in_root
prepare_in_root-IsServable files root request =
    if_ind (IfFile files root request) (not (begins_with_slash path) || has_dots path)
      (λ e. failed_plan-IfFile files root request HttpStatusCode.bad_request)
      (λ e. plan_resolved-IfFile files root (files.real_path (root ++ asked request)) request refl)
  where
    path : Bytes
    path = url_decode request.path

-- A handler whose root did not resolve when it was made keeps the empty text for a root, and then
-- gives out every regular file of the system: a request for its absolute path, without encoding or
-- two dots in a row and not the root itself, is answered with the file.
pub resolved_root-serves_all :
    (files : FileSystem) (root : Bytes) (request : Request) (st : FileStat)
    → files.real_path root ≡ none
    → url_decode request.path ≡ request.path
    → begins_with_slash request.path ≡ true
    → has_dots request.path ≡ false
    → (request.path == 47 ∷ []) ≡ false
    → files.real_path request.path ≡ some request.path
    → files.stat request.path ≡ some st
    → st.is_regular ≡ true
    → prepare_in_root files (resolved_root files root) request
      ≡ plan_file files request.path st request
unfolding prepare_in_root plan_resolved plan_stat resolved_root is_below
resolved_root-serves_all files root request st lost plain slash dots other real found regular =
    rw (resolved_root, lost)
      (rw plain (
        rw slash (
          rw dots (
            rw other
              (rw (plan_resolved, real) (rw slash (rw (plan_stat, found) (rw regular refl))))))))
