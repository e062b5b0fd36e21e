-- ===== src/Http/Request.antt =====
-- include/http/HttpRequest.h and src/http/HttpRequest.cpp: the parsed request, its headers, cookies,
-- route parameters and attributes, and the query parameters that are parsed on first use.
-- A Timestamp is its number of microseconds.
pub mod Query
use jingjie_ar.Prelude.{ℕ, zero, suc, ◌+◌, ◌-◌, ◌*◌, ◌/◌, ◌%◌, ◌^◌, ◌≤◌, ◌<◌, min, max}
use jingjie_ar.Prelude.{◌≡◌, refl, sym, ap, ◌∙◌, ◌≢◌, ◌↔◌, ◌⊎◌, inl, inr}
use jingjie_ar.Prelude.{Bool, true, false, not, ◌&&◌, ◌||◌, Option, none, some}
use jingjie_ar.Prelude.{List, [], ◌∷◌, ◌++◌, map, reverse, append-nil, append_assoc, arith}
use jingjie_ar.Prelude.{
  ltb, leb, if◌then◌else◌, ltb→lt, lt→ltb, leb→le, tests, Bool-cases, Option-cases,
}
use jingjie_ar.Prelude.{Eq, ◌==◌, ==_iff, ==_refl, nat_eq, list_eq}
use jingjie_ar.Prelude.{
  lookup, insert, erase, has_key, lookup-insert, lookup-insert_self, lookup-erase, has_key-insert,
  IsMap, insert-IsMap,
}
use jingjie_ar.Prelude.{
  length, get_elem?, set, get_or, take, drop, replicate, length-append, length-take, length-drop,
  length-replicate, length-map, take-append-drop,
}
use jingjie_ar.Prelude.{
  drop_of_length-le, take_of_length-le, drop_nil, take_nil, drop-drop, drop-take, take-take_le,
  drop-append_le, take-append_le, take-append_ge, drop-append_ge, take-append_length,
  drop-append_length,
}
use jingjie_ar.Text.{
  Bytes, bytes, to_lower, find, before, behind, segments, trim, url_decode, is_empty,
}

pub data Method : Type 0 where
  invalid get post head put delete options : Method

pub Method-discrete : Discrete Method
Method-discrete = hlevel

abbrev pub method_beq : Method → Method → Bool
method_beq invalid invalid = true
method_beq get get = true
method_beq post post = true
method_beq head head = true
method_beq put put = true
method_beq delete delete = true
method_beq options options = true
method_beq _ _ = false

pub method_beq_iff : (a b : Method) → (method_beq a b ≡ true) ↔ (a ≡ b)
method_beq_iff a b = ground arith

instance abbrev pub method_eq : Eq Method
method_eq = record { beq = method_beq; beq_iff = method_beq_iff }

-- HttpRequest::methodString
abbrev pub method_string : Method → Bytes
method_string invalid = bytes "UNKNOWN"
method_string get = bytes "GET"
method_string post = bytes "POST"
method_string head = bytes "HEAD"
method_string put = bytes "PUT"
method_string delete = bytes "DELETE"
method_string options = bytes "OPTIONS"

abbrev pub Fields : Type 0
Fields = List (Bytes × Bytes)

pub record Request : Type 0 where
  pub method : Method
  pub path : Bytes
  pub query : Bytes
  pub version : Bytes
  pub headers : Fields
  pub body : Bytes
  pub receive_time : ℕ
  pub query_parsed : Bool
  pub query_params : Fields
  pub path_parameters : Fields
  pub attributes : Fields

abbrev pub empty_request : Request
empty_request = record {
  method = invalid;
  path = [];
  query = [];
  version = [];
  headers = [];
  body = [];
  receive_time = 0;
  query_parsed = false;
  query_params = [];
  path_parameters = [];
  attributes = [];
}

-- A new query forgets what was parsed of the old one.
unfoldable pub set_query : Bytes → Request → Request
set_query q r = record r { query = q; query_parsed = false; query_params = [] }

-- Header names are stored in lower case; a later value replaces an earlier one.
unfoldable pub add_header : Bytes → Bytes → Request → Request
add_header key value r = record r { headers = insert (to_lower key) value r.headers }

-- A missing entry reads as the empty string.
unfoldable pub value_or_empty : Bytes → Fields → Bytes
value_or_empty k m = elim (lookup k m) [ none ↦ [] | some v ↦ v ]

unfoldable pub get_header : Bytes → Request → Bytes
unfolding value_or_empty
get_header field r = value_or_empty (to_lower field) r.headers

unfoldable pub set_path_parameter : Bytes → Bytes → Request → Request
set_path_parameter name value r = record r { path_parameters = insert name value r.path_parameters }

unfoldable pub path_parameter : Bytes → Request → Bytes
unfolding value_or_empty
path_parameter name r = value_or_empty name r.path_parameters

unfoldable pub set_attribute : Bytes → Bytes → Request → Request
set_attribute name value r = record r { attributes = insert name value r.attributes }

unfoldable pub attribute : Bytes → Request → Bytes
unfolding value_or_empty
attribute name r = value_or_empty name r.attributes

-- One `name=value` of the Cookie header, both sides trimmed.
unfoldable pub cookie_value : Bytes → Bytes → Option Bytes
cookie_value name segment =
    let pair = trim segment in
    elim (find b'=' pair) [
      | none ↦ none
      | some i ↦ if trim (before i pair) == name then some (trim (behind i pair)) else none
    ]

-- The loop of HttpRequest::cookie: the first pair with the name.
unfoldable pub first_cookie : Bytes → List Bytes → Bytes
unfolding cookie_value
first_cookie name [] = []
first_cookie name (s ∷ ss) = elim (cookie_value name s) [ none ↦ first_cookie name ss | some v ↦ v ]

unfoldable pub cookie : Bytes → Request → Bytes
unfolding first_cookie get_header
cookie name r = first_cookie name (segments b';' (get_header (bytes "cookie") r))

-- One round of the loop of HttpRequest::queryParameters.
unfoldable pub add_query_pair : Bytes → Fields → Fields
add_query_pair [] params = params
add_query_pair (c ∷ cs) params = elim (find b'=' (c ∷ cs)) [
  | none ↦ insert (url_decode (c ∷ cs)) [] params
  | some i ↦ insert (url_decode (before i (c ∷ cs))) (url_decode (behind i (c ∷ cs))) params
]

unfoldable pub add_query_pairs : List Bytes → Fields → Fields
unfolding add_query_pair
add_query_pairs [] params = params
add_query_pairs (p ∷ ps) params = add_query_pairs ps (add_query_pair p params)

-- HttpRequest::queryParameters: the parameters, and the request with its cache filled.
unfoldable pub query_parameters : Request → Fields × Request
unfolding add_query_pairs
query_parameters r =
    if r.query_parsed
    then (r.query_params, r)
    else let params = add_query_pairs (segments b'&' r.query) r.query_params in
      (params, record r { query_parsed = true; query_params = params })

-- HttpContext::stringToMethod
unfoldable pub string_to_method : Bytes → Method
string_to_method m =
    if m == bytes "GET"
    then get
    else if m == bytes "POST"
    then post
    else if m == bytes "HEAD"
    then head
    else if m == bytes "PUT"
    then put
    else if m == bytes "DELETE"
    then delete
    else if m == bytes "OPTIONS"
    then options
    else invalid
