-- ===== src/Http/StaticFile/Plan.antt =====
-- Which file, and which part of it, answers a request: prepareInRoot of
-- src/http/StaticFileHandler.cpp and FilePlan of include/http/StaticFileHandler.h. The file system
-- and the calendar functions of the C library are parameters.
use jingjie_ar.Http.Response.{
  not_modified, not_found_404, decimal, partial_content, range_not_satisfiable, ok, HttpStatusCode,
}
use jingjie_ar.Text.{bytes, url_decode, is_empty, Bytes}
use jingjie_ar.Http.StaticFile.Range.{parse_single_range}
use jingjie_ar.Http.Request.{get_header, Request}
use jingjie_ar.Prelude.{
  ℕ, Bool, true, false, not, ◌&&◌, ◌||◌, Option, none, some, [], ◌∷◌, ◌++◌, leb, if◌then◌else◌,
  ◌==◌, nat_eq, list_eq, length, take, drop,
}

pub record FilePlan : Type 0 where
  pub status : HttpStatusCode
  pub path : Bytes
  pub etag : Bytes
  pub last_modified : ℕ
  pub file_size : ℕ
  pub file_offset : ℕ
  pub response_size : ℕ
  pub partial : Bool
  pub is_file : Bool

abbrev pub empty_plan : FilePlan
empty_plan = record {
  status = ok;
  path = [];
  etag = [];
  last_modified = 0;
  file_size = 0;
  file_offset = 0;
  response_size = 0;
  partial = false;
  is_file = false;
}

pub record FileStat : Type 0 where
  pub is_regular : Bool
  pub inode : ℕ
  pub size : ℕ
  pub modified : ℕ

-- realpath(3), stat(2), and parseHttpDate and formatHttpDate over strptime and strftime.
pub record FileSystem : Type 0 where
  pub real_path : Bytes → Option Bytes
  pub stat : Bytes → Option FileStat
  pub parse_date : Bytes → Option ℕ
  pub format_date : ℕ → Bytes

-- path.find("..") != npos
unfoldable pub has_dots : Bytes → Bool
has_dots [] = false
has_dots (c ∷ []) = false
has_dots (c ∷ d ∷ cs) = let rest = has_dots (d ∷ cs) in if c == 46 && d == 46 then true else rest

abbrev pub begins_with_slash : Bytes → Bool
begins_with_slash [] = false
begins_with_slash (c ∷ cs) = c == 47

-- The test that the resolved path lies below the root.
unfoldable pub is_below : Bytes → Bytes → Bool
is_below root resolved =
    take (length root) resolved == root && begins_with_slash (drop (length root) resolved)

-- What a Range header makes of the plan for a whole file, by the range that it names.
unfoldable pub apply_range : Option (ℕ × ℕ) → FilePlan → FilePlan
apply_range none plan = record plan { status = range_not_satisfiable }
apply_range (some r) plan = record plan {
  status = partial_content;
  partial = true;
  file_offset = r.0;
  response_size = r.1;
}

abbrev pub with_range : Bytes → FilePlan → FilePlan
with_range range plan =
    if is_empty range then plan else apply_range (parse_single_range range plan.file_size) plan

module _ (files : FileSystem) where
  open files use {real_path, stat, parse_date, format_date}

  unfoldable pub not_modified_since : Bytes → ℕ → Bool
  not_modified_since header modified = elim (parse_date header) [
    | none ↦ false
    | some since ↦ leb modified since
  ]

  abbrev pub etag_of : FileStat → Bytes
  etag_of st =
      34
      ∷ (decimal st.inode ++ (45 ∷ (decimal st.size ++ (45 ∷ (decimal st.modified ++ (34 ∷ []))))))

  -- The plan for a regular file.
  unfoldable pub plan_file : Bytes → FileStat → Request → FilePlan
  unfolding not_modified_since
  plan_file resolved st request =
      let plan : FilePlan = record empty_plan {
        path = resolved;
        etag = etag_of st;
        last_modified = st.modified;
        file_size = st.size;
        response_size = st.size;
        is_file = true;
      } in
      if get_header (bytes "If-None-Match") request == etag_of st
        || not_modified_since (get_header (bytes "If-Modified-Since") request) st.modified
      then record plan { status = not_modified }
      else with_range (get_header (bytes "Range") request) plan

  abbrev pub failed_plan : HttpStatusCode → FilePlan
  failed_plan status = record empty_plan { status = status }

  unfoldable pub plan_stat : Bytes → Option FileStat → Request → FilePlan
  plan_stat resolved none request = failed_plan not_found_404
  plan_stat resolved (some st) request =
      if st.is_regular then plan_file resolved st request else failed_plan not_found_404

  unfoldable pub plan_resolved : Bytes → Option Bytes → Request → FilePlan
  plan_resolved root none request = failed_plan not_found_404
  plan_resolved root (some resolved) request =
      if is_below root resolved
      then plan_stat resolved (stat resolved) request
      else failed_plan not_found_404

  -- StaticFileHandler::prepareInRoot
  unfoldable pub prepare_in_root : Bytes → Request → FilePlan
  unfolding plan_resolved
  prepare_in_root root request =
      let path = url_decode request.path in
      if not (begins_with_slash path) || has_dots path
      then failed_plan HttpStatusCode.bad_request
      else plan_resolved root
          (real_path (root ++ (if path == 47 ∷ [] then bytes "/index.html" else path))) request

  -- The root that the constructor keeps: empty if the path does not resolve.
  unfoldable pub resolved_root : Bytes → Bytes
  resolved_root root = elim (real_path root) [ none ↦ [] | some resolved ↦ resolved ]
