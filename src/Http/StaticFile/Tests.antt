-- ===== src/Http/StaticFile/Tests.antt =====
-- The theorems on static files at inputs that meet their hypotheses.
use jingjie_ar.Http.StaticFile.Answer.{fresh_entry}
use jingjie_ar.Http.StaticFile.Plan.{
  not_modified_since, apply_range, has_dots, is_below, plan_stat, plan_file, plan_resolved,
  resolved_root, empty_plan, FileStat, prepare_in_root, FileSystem, FilePlan,
}
use jingjie_ar.Http.StaticFile.Range.{
  parse_size_from, parse_unsigned_size, suffix_range, bounded_range, from_range, split_range,
  range_of, parse_single_range,
}
use jingjie_ar.Http.StaticFile.Bounds.{parse_single_range-IsPart, IsPartIf}
use jingjie_ar.Text.{hex_digit_value, escaped, skip_while, lower, find, url_decode, bytes, Bytes}
use jingjie_ar.Http.Response.{digits_within, partial_content}
use jingjie_ar.Http.Request.{value_or_empty, get_header, get, empty_request, Request, method_eq}
use jingjie_ar.Http.StaticFile.Paths.{
  resolved_root-serves_all, prepare_in_root-IsServable, IsServable,
}
use jingjie_ar.Prelude.{
  ◌≡◌, refl, true, none, some, [], ◌∷◌, if◌then◌else◌, ◌==◌, nat_eq, list_eq, lookup,
}

program : Unit {0}
unfolding prepare_in_root plan_resolved plan_stat plan_file is_below has_dots url_decode apply_range
    parse_single_range range_of split_range find from_range bounded_range suffix_range
    parse_unsigned_size parse_size_from not_modified_since get_header value_or_empty lower lookup
    skip_while digits_within resolved_root fresh_entry escaped hex_digit_value
program = tt

abbrev page : Bytes
page = bytes "/srv/a.txt"

abbrev page_stat : FileStat
page_stat = record { is_regular = true; inode = 5; size = 10; modified = 77 }

-- A system in which every path is its own resolution but one, and that holds one file.
abbrev system : FileSystem
system = record {
  real_path = λ p. if p == bytes "/gone" then none else some p;
  stat = λ p. if p == page then some page_stat else none;
  parse_date = λ s. none;
  format_date = λ t. bytes "date";
}

abbrev asked : Request
asked = record empty_request {
  method = get;
  path = bytes "/a.txt";
  headers = (bytes "range", bytes "bytes=2-5") ∷ [];
}

part_planned : (prepare_in_root system (bytes "/srv") asked).file_offset ≡ 2
unfolding program
part_planned = refl

planned : (prepare_in_root system (bytes "/srv") asked).is_file ≡ true
unfolding program
planned = refl

parse_single_range-IsPart_example : IsPartIf 10 (parse_single_range (bytes "bytes=2-5") 10)
parse_single_range-IsPart_example = parse_single_range-IsPart (bytes "bytes=2-5") 10

prepare_in_root-IsServable_example :
    IsServable system (bytes "/srv") asked (prepare_in_root system (bytes "/srv") asked)
prepare_in_root-IsServable_example = prepare_in_root-IsServable system (bytes "/srv") asked planned

abbrev asked_whole : Request
asked_whole = record empty_request { method = get; path = page }

resolved_root-serves_all_example :
    prepare_in_root system (resolved_root system (bytes "/gone")) asked_whole
    ≡ plan_file system page page_stat asked_whole
unfolding program
resolved_root-serves_all_example =
    resolved_root-serves_all system (bytes "/gone") asked_whole page_stat refl refl refl refl refl
      refl refl refl

abbrev part_plan : FilePlan
part_plan = record empty_plan {
  status = partial_content;
  path = page;
  last_modified = 77;
  file_size = 10;
  file_offset = 2;
  response_size = 4;
  partial = true;
  is_file = true;
}
