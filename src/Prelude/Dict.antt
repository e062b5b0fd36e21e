-- ===== src/Prelude/Dict.antt =====
-- Associative containers (std::map, std::unordered_map) as association lists.
use mathlib.Core.Path.{◌≡◌, refl}
use mathlib.Core.Bool.{Bool, true, false}
use mathlib.Core.List.{List, [], ◌∷◌, ◌++◌}
use mathlib.Core.Option.{Option, none, some}
use native.Mathlib.Omega.{arith}
use jingjie_ar.Prelude.Tests.{if◌then◌else◌}
use jingjie_ar.Prelude.Equality.{Eq, ◌==◌, ==_iff, ==_refl}

module _ {ℓ κ} {K : Type ℓ} {V : Type κ} ⦃e : Eq K⦄ where
  -- `m.find(k)`
  unfoldable pub lookup : K → List (K × V) → Option V
  lookup k [] = none
  lookup k ((q, v) ∷ m) = if q == k then some v else lookup k m

  -- `m[k] = v`: an old value is overwritten in its place.
  unfoldable pub insert : K → V → List (K × V) → List (K × V)
  insert k v [] = (k, v) ∷ []
  insert k v ((q, u) ∷ m) = if q == k then (q, v) ∷ m else (q, u) ∷ insert k v m

  -- `m.erase(k)`
  unfoldable pub erase : K → List (K × V) → List (K × V)
  erase k [] = []
  erase k ((q, v) ∷ m) = if q == k then erase k m else (q, v) ∷ erase k m

  -- `m.count(k) != 0`
  unfoldable pub has_key : K → List (K × V) → Bool
  has_key k [] = false
  has_key k ((q, v) ∷ m) = if q == k then true else has_key k m

  pub lookup-insert :
      (k q : K) (v : V) (m : List (K × V))
      → lookup q (insert k v m) ≡ (if k == q then some v else lookup q m)
  unfolding lookup insert
  lookup-insert k q v [] = refl
  lookup-insert k q v ((r, u) ∷ m) =
      ground (arith, ==_iff k q, ==_iff r k, ==_iff r q, lookup-insert k q v m)

  pub lookup-erase :
      (k q : K) (m : List (K × V)) → lookup q (erase k m) ≡ (if k == q then none else lookup q m)
  unfolding lookup erase
  lookup-erase k q [] = ground arith
  lookup-erase k q ((r, u) ∷ m) =
      ground (arith, ==_iff k q, ==_iff r k, ==_iff r q, lookup-erase k q m)

  pub lookup-insert_self : (k : K) (v : V) (m : List (K × V)) → lookup k (insert k v m) ≡ some v
  lookup-insert_self k v m = simp (lookup-insert, ==_refl)

  pub has_key-insert :
      (k q : K) (v : V) (m : List (K × V))
      → has_key q (insert k v m) ≡ (if k == q then true else has_key q m)
  unfolding has_key insert
  has_key-insert k q v [] = refl
  has_key-insert k q v ((r, u) ∷ m) =
      ground (arith, ==_iff k q, ==_iff r k, ==_iff r q, has_key-insert k q v m)

  -- No key stands twice.
  abbrev pub IsMap : List (K × V) → Type 0
  IsMap [] = Unit {0}
  IsMap ((k, v) ∷ m) = (has_key k m ≡ false) × IsMap m

  pub insert-IsMap : (k : K) (v : V) (m : List (K × V)) → IsMap m → IsMap (insert k v m)
  unfolding insert has_key
  insert-IsMap k v [] h = (refl, tt)
  insert-IsMap k v ((q, u) ∷ m) h =
      ground (arith, ==_iff q k, ==_iff k q, insert-IsMap k v m, has_key-insert k q v m)

  -- A new key goes to the end.
  pub insert_new :
      (k : K) (v : V) (m : List (K × V)) → has_key k m ≡ false → insert k v m ≡ m ++ (k, v) ∷ []
  unfolding insert has_key
  insert_new k v [] h = refl
  insert_new k v ((q, u) ∷ m) h = ground (arith, ==_iff q k, insert_new k v m)

  -- No key of the second stands in the first.
  abbrev pub AreApart : List (K × V) → List (K × V) → Type 0
  AreApart acc [] = Unit {0}
  AreApart acc ((k, v) ∷ m) = (has_key k acc ≡ false) × AreApart acc m

  pub AreApart-insert :
      (k : K) (v : V) (acc m : List (K × V))
      → AreApart acc m
      → has_key k m ≡ false
      → AreApart (insert k v acc) m
  unfolding has_key
  AreApart-insert k v acc [] h n = tt
  AreApart-insert k v acc ((q, u) ∷ m) h n =
      ground (arith, ==_iff q k, ==_iff k q, has_key-insert k q v acc, AreApart-insert k v acc m)

  pub AreApart-nil : (m : List (K × V)) → AreApart [] m
  unfolding has_key
  AreApart-nil [] = tt
  AreApart-nil ((k, v) ∷ m) = (refl, AreApart-nil m)
