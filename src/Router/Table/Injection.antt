-- ===== src/Router/Table/Injection.antt =====
-- What injectParameters of src/router/Router.cpp makes of a request, described by its lookups.
use jingjie_ar.Prelude.{
  ◌≡◌, refl, ap, ◌∙◌, List, [], ◌∷◌, ◌++◌, reverse, append_assoc, reverse-cons, nat_eq, list_eq,
  lookup, insert, lookup-insert, drop,
}
use jingjie_ar.Router.Table.{inject_parameters}
use jingjie_ar.Http.Request.{set_path_parameter, Request}
use jingjie_ar.Text.{Bytes}

abbrev first_or_empty : List Bytes → Bytes
first_or_empty [] = []
first_or_empty (g ∷ gs) = g

-- Each name with the group at its position, which is empty where there is no such group.
unfoldable pub paired : List Bytes → List Bytes → List (Bytes × Bytes)
paired [] groups = []
paired (n ∷ ns) groups = (n, first_or_empty groups) ∷ paired ns (drop 1 groups)

-- The second request is the first but for its path parameters: a name of the list has the group at
-- its last position, and every other name has what it had.
pub record IsInjected (names groups : List Bytes) (before after : Request) : Type 0 where
  pub bound :
      (n : Bytes)
      → lookup n after.path_parameters
        ≡ lookup n (reverse (paired names groups) ++ before.path_parameters)
  pub kept : record after { path_parameters = before.path_parameters } ≡ before

lookup-append :
    (n : Bytes) (xs ys zs : List (Bytes × Bytes))
    → lookup n ys ≡ lookup n zs
    → lookup n (xs ++ ys) ≡ lookup n (xs ++ zs)
unfolding lookup
lookup-append n [] ys zs e = e
lookup-append n ((m, v) ∷ xs) ys zs e = rw (lookup-append n xs ys zs e) refl

bind_one :
    (n m g : Bytes) (xs p : List (Bytes × Bytes))
    → lookup n (reverse xs ++ insert m g p) ≡ lookup n (reverse ((m, g) ∷ xs) ++ p)
unfolding lookup
bind_one n m g xs p = rw (reverse-cons (m, g) xs) (
    rw (append_assoc (reverse xs) ((m, g) ∷ []) p)
      (lookup-append n (reverse xs) (insert m g p) ((m, g) ∷ p) (lookup-insert m n g p)))

pub inject_parameters-IsInjected :
    (names groups : List Bytes) (q : Request)
    → IsInjected names groups q (inject_parameters names groups q)
unfolding inject_parameters paired set_path_parameter
inject_parameters-IsInjected [] groups q = record { bound = λ n. refl; kept = refl }
inject_parameters-IsInjected (m ∷ ms) [] q =
    let rest = inject_parameters-IsInjected ms [] (set_path_parameter m [] q) in
    record {
      bound = λ n. rest.bound n ∙ bind_one n m [] (paired ms []) q.path_parameters;
      kept = ap (λ (r : Request). record r { path_parameters = q.path_parameters }) rest.kept;
    }
inject_parameters-IsInjected (m ∷ ms) (g ∷ gs) q =
    let rest = inject_parameters-IsInjected ms gs (set_path_parameter m g q) in
    record {
      bound = λ n. rest.bound n ∙ bind_one n m g (paired ms gs) q.path_parameters;
      kept = ap (λ (r : Request). record r { path_parameters = q.path_parameters }) rest.kept;
    }
