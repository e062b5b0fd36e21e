-- ===== src/Http/Request/Query.antt =====
-- HttpRequest: the lazily filled query cache, and what the setters do to the getters.
use jingjie_ar.Prelude.{◌≡◌, refl, ap, inl, inr}
use jingjie_ar.Prelude.{true, false}
use jingjie_ar.Prelude.{[], arith}
use jingjie_ar.Prelude.{if◌then◌else◌, Bool-cases}
use jingjie_ar.Prelude.{◌==◌, nat_eq, list_eq}
use jingjie_ar.Prelude.{insert, lookup-insert}
use jingjie_ar.Text.{Bytes, to_lower, segments}
use jingjie_ar.Http.Request.{
  Fields, Request, set_query, add_header, get_header, set_path_parameter, path_parameter,
  set_attribute, attribute, value_or_empty, add_query_pairs, query_parameters,
}

-- What `queryParameters` returns for a query that was never parsed.
abbrev pub parsed : Bytes → Fields
parsed q = add_query_pairs (segments b'&' q) []

-- The cache holds the parameters of the present query, or nothing.
pub record IsCoherent (r : Request) : Type 0 where
  pub filled : r.query_parsed ≡ true → r.query_params ≡ parsed r.query
  pub unfilled : r.query_parsed ≡ false → r.query_params ≡ []

pub set_query-IsCoherent : (q : Bytes) (r : Request) → IsCoherent (set_query q r)
unfolding set_query
set_query-IsCoherent q r = record { filled = λ h. cc; unfilled = λ h. refl }

-- Asked first, again, or after a new query, the parameters are those of the present query, and the
-- cache stays coherent.
pub query_parameters-IsCoherent :
    (r : Request)
    → IsCoherent r
    → ((query_parameters r).0 ≡ parsed r.query)
      × IsCoherent (query_parameters r).1
      × ((query_parameters r).1.query ≡ r.query)
unfolding query_parameters
query_parameters-IsCoherent r v = elim (Bool-cases r.query_parsed) [
  | inl e ↦ simp (e, query_parameters) (v.filled e, v, refl)
  | inr e ↦
      let fresh : add_query_pairs (segments b'&' r.query) r.query_params ≡ parsed r.query =
        ap (add_query_pairs (segments b'&' r.query)) (v.unfilled e) in
      simp (e, query_parameters) (fresh, record { filled = λ _. fresh; unfilled = λ h. cc }, refl)
]

pub value_or_empty-insert :
    (k j v : Bytes) (m : Fields)
    → value_or_empty j (insert k v m) ≡ (if k == j then v else value_or_empty j m)
unfolding value_or_empty
value_or_empty-insert k j v m = ground (arith, lookup-insert k j v m)

-- Header names ignore case on both sides.
pub get_header-add_header :
    (k j v : Bytes) (r : Request)
    → get_header j (add_header k v r) ≡ (if to_lower k == to_lower j then v else get_header j r)
unfolding get_header add_header
get_header-add_header k j v r = value_or_empty-insert (to_lower k) (to_lower j) v r.headers

pub path_parameter-set_path_parameter :
    (k j v : Bytes) (r : Request)
    → path_parameter j (set_path_parameter k v r) ≡ (if k == j then v else path_parameter j r)
unfolding path_parameter set_path_parameter
path_parameter-set_path_parameter k j v r = value_or_empty-insert k j v r.path_parameters

pub attribute-set_attribute :
    (k j v : Bytes) (r : Request)
    → attribute j (set_attribute k v r) ≡ (if k == j then v else attribute j r)
unfolding attribute set_attribute
attribute-set_attribute k j v r = value_or_empty-insert k j v r.attributes
