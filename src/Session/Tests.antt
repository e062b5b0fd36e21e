-- ===== src/Session/Tests.antt =====
-- Sessions on concrete values, and the theorems at inputs that meet their hypotheses.
use jingjie_ar.Text.{url_decode, segments, trim, find, lower, bytes}
use jingjie_ar.Http.Request.{
  query_parameters, cookie, value_or_empty, get_header, empty_request, Request,
}
use jingjie_ar.Int.{from_u64, to_u64, ◌*ℤ◌, ◌+ℤ◌, ltb_ℤ, negsuc, pos}
use jingjie_ar.Session.Token.{
  fill, interrupted, secure_id-valid, valid_token_syntax, got, secure_id, Read,
}
use jingjie_ar.Session.Manager.{load_session, create, validate, extract_token}
use jingjie_ar.Session.Value.{refresh, Session, expired}
use jingjie_ar.Session.Codec.{put64, put32, get64, get32, take_string, get_string, encode, decode}
use jingjie_ar.Session.Manager.Sliding.{validate-create}
use jingjie_ar.Session.Storage.{memory_load, memory_save, memory_remove, memory_storage}
use jingjie_ar.Session.Codec.Roundtrip.{decode-encode, IsEncodable}
use jingjie_ar.Prelude.{
  ◌≡◌, refl, ◌⊎◌, true, none, some, List, [], ◌∷◌, ◌++◌, arith, nat_eq, list_eq, lookup, insert,
  erase, has_key, replicate,
}

program : Unit {0}
unfolding decode encode get_string take_string get32 get64 put32 put64 insert has_key lookup erase
    memory_save memory_load memory_remove expired refresh create validate load_session secure_id
    fill to_u64 from_u64 ◌+ℤ◌ ◌*ℤ◌ valid_token_syntax extract_token get_header value_or_empty lower
    cookie find trim query_parameters segments url_decode
program = tt

-- A session with two values that expired before the epoch.
abbrev ann : Session
ann = record {
  id = bytes "ann";
  values = (bytes "k", bytes "v") ∷ (bytes "n", []) ∷ [];
  expires_at = negsuc 4;
  ttl_seconds = pos 1800;
}

ann_encoded : decode (encode ann ++ bytes "x") ≡ none
unfolding program
ann_encoded = refl

ann-IsEncodable : IsEncodable ann
unfolding has_key
ann-IsEncodable = record {
  id_short = omega arith;
  few = omega arith;
  short = omega arith;
  distinct = (refl, (refl, tt));
  expires_fits = omega arith;
  ttl_fits = omega arith;
}

decode-encode_example : decode (encode ann) ≡ some ann
decode-encode_example = decode-encode ann ann-IsEncodable

validate-create_example :
    (validate memory_storage
      (pos 1999)
      (bytes "ann")
      (create memory_storage (pos 1) (pos 1000) (bytes "ann") (some [])).1).0
    ≡ ltb_ℤ (pos 1999) (pos 1000 +ℤ pos 1 *ℤ pos 1000)
validate-create_example = validate-create (pos 1) (pos 1000) (pos 1999) (bytes "ann") [] (λ e. cc)

abbrev bob : Session
bob = record ann { id = bytes "bob"; expires_at = pos 9000 }

-- Random bytes in two parts, with an interruption between them.
abbrev reads : List Read
reads = got (replicate 30 171) ∷ interrupted ∷ got (7 ∷ 255 ∷ []) ∷ []

secure_id-valid_example : (secure_id reads ≡ []) ⊎ (valid_token_syntax (secure_id reads) ≡ true)
secure_id-valid_example = secure_id-valid reads (omega arith)

-- The cookie is used where the authorization is not a Bearer token.
abbrev asked : Request
asked = record empty_request {
  headers =
      (bytes "authorization", bytes "Basic eA==")
      ∷ (bytes "cookie", bytes "a=1; sessionId = s7 ;")
      ∷ [];
  query = bytes "token=t9";
}

cookie_used : extract_token asked ≡ bytes "s7"
unfolding program
cookie_used = refl

query_used : extract_token (record asked { headers = [] }) ≡ bytes "t9"
unfolding program
query_used = refl
