-- ===== src/Caches/Lfu/Contents.antt =====
-- The values in the node map of include/LFU.h, before and after an access is counted.
use jingjie_ar.Text.{is_empty}
use jingjie_ar.Caches.Lfu.{
  average_of, update_min_freq, Node, handle_over_max_average, Cache, age_nodes, add_freq_num,
}
use jingjie_ar.Prelude.{
  ℕ, suc, ◌≡◌, refl, ap, true, false, Option, none, some, List, [], ◌∷◌, arith, ltb, if◌then◌else◌,
  if_ind, Eq, ◌==◌, ==_iff, nat_eq, list_eq, lookup, insert, erase, has_key, lookup-insert,
  lookup-erase, IsMap, length,
}

module _ {K V : Type 0} ⦃e : Eq K⦄ where
  -- The value that the cache holds for a key.
  abbrev pub content : K → List (K × Node V) → Option V
  content q nodes = elim (lookup q nodes) [ none ↦ none | some n ↦ some n.value ]

  pub content-age_nodes :
      (m : ℕ) (q : K) (ns : List (K × Node V)) → content q (age_nodes m ns) ≡ content q ns
  unfolding lookup age_nodes
  content-age_nodes m q [] = refl
  content-age_nodes m q ((k, n) ∷ ns) = ground (arith, content-age_nodes m q ns)

  pub content-insert :
      (k q : K) (n : Node V) (ns : List (K × Node V))
      → content q (insert k n ns) ≡ (if k == q then some n.value else content q ns)
  content-insert k q n ns = ground (arith, lookup-insert k q n ns)

  pub content-erase :
      (k q : K) (ns : List (K × Node V))
      → content q (erase k ns) ≡ (if k == q then none else content q ns)
  content-erase k q ns = ground (arith, lookup-erase k q ns)

  length-age_nodes : (m : ℕ) (ns : List (K × Node V)) → length (age_nodes m ns) ≡ length ns
  unfolding age_nodes
  length-age_nodes m [] = refl
  length-age_nodes m ((k, n) ∷ ns) = ap suc (length-age_nodes m ns)

  pub length-insert :
      (k : K) (n : Node V) (ns : List (K × Node V))
      → length (insert k n ns) ≡ (if has_key k ns then length ns else suc (length ns))
  unfolding insert has_key
  length-insert k n [] = refl
  length-insert k n ((q, u) ∷ ns) = ground (arith, length-insert k n ns)

  erase_absent : (k : K) (ns : List (K × Node V)) → has_key k ns ≡ false → erase k ns ≡ ns
  unfolding erase has_key
  erase_absent k [] h = refl
  erase_absent k ((q, u) ∷ ns) h = ground (arith, erase_absent k ns)

  pub length-erase :
      (k : K) (ns : List (K × Node V))
      → IsMap ns
      → has_key k ns ≡ true
      → suc (length (erase k ns)) ≡ length ns
  unfolding erase has_key
  length-erase k [] (u) h = ground arith
  length-erase k ((q, u) ∷ ns) (fresh, rest) h =
      ground (arith, ==_iff q k, erase_absent k ns, length-erase k ns rest)

  -- Counting an access changes neither the values nor how many there are.
  pub record IsCounted (c d : Cache K V) : Type 0 where
    pub same : (q : K) → content q d.nodes ≡ content q c.nodes
    pub size : length d.nodes ≡ length c.nodes
    pub capacity : d.capacity ≡ c.capacity

  handle_over_max_average-IsCounted : (c : Cache K V) → IsCounted c (handle_over_max_average c)
  unfolding handle_over_max_average update_min_freq
  handle_over_max_average-IsCounted c =
      if_ind (IsCounted c) (is_empty c.nodes)
        (λ e. record { same = λ q. refl; size = refl; capacity = refl })
        (λ e. record {
          same = λ q. content-age_nodes c.max_average q c.nodes;
          size = length-age_nodes c.max_average c.nodes;
          capacity = refl;
        })

  pub add_freq_num-IsCounted : (c : Cache K V) → IsCounted c (add_freq_num c)
  unfolding add_freq_num
  add_freq_num-IsCounted c =
      let counted : Cache K V = record c {
        total = suc c.total;
        average = average_of (suc c.total) c.nodes;
      } in
      let w = handle_over_max_average-IsCounted counted in
      if_ind (IsCounted c) (ltb c.max_average (average_of (suc c.total) c.nodes))
        (λ e. record { same = w.same; size = w.size; capacity = w.capacity })
        (λ e. record { same = λ q. refl; size = refl; capacity = refl })
