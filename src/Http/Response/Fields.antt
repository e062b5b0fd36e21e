-- ===== src/Http/Response/Fields.antt =====
-- The header map of a response: include/http/HttpResponse.h.
use jingjie_ar.Http.Response.{Response, set_field, add_header}
use jingjie_ar.Text.{Bytes}
use jingjie_ar.Prelude.{
  ◌≡◌, refl, ◌∙◌, false, some, List, [], ◌∷◌, arith, if◌then◌else◌, ◌==◌, ==_iff, ==_refl, nat_eq,
  list_eq, lookup,
}

pub lookup-set_field :
    (k j v : Bytes) (m : List (Bytes × Bytes))
    → lookup j (set_field k v m) ≡ (if k == j then some v else lookup j m)
unfolding lookup set_field
lookup-set_field k j v [] = refl
lookup-set_field k j v ((q, u) ∷ m) =
    ground (arith, ==_iff k j, ==_iff k q, ==_iff q k, ==_iff q j, lookup-set_field k j v m)

pub lookup-add_header : (k v : Bytes) (r : Response) → lookup k (add_header k v r).headers ≡ some v
unfolding add_header
lookup-add_header k v r = simp (lookup-set_field, ==_refl)

pub lookup-add_header_other :
    (k j v : Bytes) (r : Response)
    → (k == j) ≡ false
    → lookup j (add_header k v r).headers ≡ lookup j r.headers
unfolding add_header
lookup-add_header_other k j v r e = lookup-set_field k j v r.headers ∙ rw e refl
