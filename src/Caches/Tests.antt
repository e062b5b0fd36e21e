-- ===== src/Caches/Tests.antt =====
-- Concrete caches and sessions on which the properties of the modules apply.
use jingjie_ar.Int.{negsuc}
use jingjie_ar.Text.{bytes}
use jingjie_ar.Caches.SessionCache.Roundtrip.{deserialize-serialize, IsStorable}
use jingjie_ar.Http.Response.{digits_within}
use jingjie_ar.Caches.SessionCache.{serialize, deserialize, DbSession}
use jingjie_ar.Caches.Lfu.{remove_key, move, add_to_list, has, list_at, make_cache, get, Cache, put}
use jingjie_ar.Caches.Lfu.Calls.{put-IsPut}
use jingjie_ar.Caches.Lfu.Least.{IsAged, IsLeast}
use jingjie_ar.Caches.Lfu.Eviction.{IsPut}
use jingjie_ar.Caches.Lfu.Consistency.{IsConsistent}
use jingjie_ar.Prelude.{
  ℕ, ◌≡◌, refl, ◌⊎◌, inr, none, some, [], ◌∷◌, arith, nat_eq, list_eq, lookup, insert, has_key,
}

abbrev empty_cache : Cache ℕ ℕ
empty_cache = make_cache 2 10

-- Two keys, of which 5 was asked for once more.
abbrev two_keys : Cache ℕ ℕ
two_keys = record empty_cache {
  min_freq = 1;
  total = 3;
  average = 1;
  nodes = (5, record { freq = 2; value = 50 }) ∷ (6, record { freq = 1; value = 60 }) ∷ [];
  lists = (1, 6 ∷ []) ∷ (2, 5 ∷ []) ∷ [];
}

two_keys-reached :
    (elim (put 5 50 empty_cache) [ none ↦ none | some c ↦ put 6 60 (get 5 c).1 ]) ≡ some two_keys
unfolding put get lookup insert list_at add_to_list move remove_key
two_keys-reached = refl

two_keys-IsConsistent : IsConsistent two_keys
unfolding has list_at lookup has_key
two_keys-IsConsistent = record { map = (refl, (refl, tt)); agree = λ q h. ground arith }

two_keys-IsLeast : IsLeast two_keys
unfolding list_at lookup has
two_keys-IsLeast = record {
  floor = record { positive = omega arith; below = λ q h less. ground (arith, less) };
  stands = inr refl;
}

put-IsPut_example :
    (d : Cache ℕ ℕ) × (put 7 70 two_keys ≡ some d) × IsPut 7 70 two_keys d × (IsAged d ⊎ IsLeast d)
unfolding list_at lookup
put-IsPut_example =
    put-IsPut 7 70 two_keys two_keys-IsConsistent (ground arith) (ground arith) two_keys-IsLeast

abbrev session : DbSession
session = record {
  id = 12;
  session_token = bytes "ab";
  user_id = 7;
  scene_id = bytes "s1";
  status = negsuc 0;
  created_at = [];
  updated_at = bytes "2024";
}

session-IsStorable : IsStorable session
session-IsStorable = record {
  id = omega arith;
  user_id = omega arith;
  status = omega arith;
  token = (refl, (refl, tt));
  scene = (refl, (refl, tt));
  created = tt;
  updated = (refl, (refl, (refl, (refl, tt))));
  is_updated = refl;
}

session_text : serialize session ≡ bytes "12|ab|7|s1|-1||2024"
unfolding serialize digits_within
session_text = refl

deserialize-serialize_example : deserialize (serialize session) ≡ some session
deserialize-serialize_example = deserialize-serialize session session-IsStorable
