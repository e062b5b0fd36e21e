-- ===== src/Caches/Lfu/Consistency.antt =====
-- The invariant of include/LFU.h, between the node map and the frequency lists.
use jingjie_ar.Caches.Lfu.Lists.{has-add_to_list, has-move}
use jingjie_ar.Text.{is_empty}
use jingjie_ar.Caches.Lfu.{
  update_min_freq, add_to_list, average_of, handle_over_max_average, add_node, get_internal,
  add_freq_num, aged, move, list_at, age_nodes, has, Node, Cache, age_lists, touch,
}
use jingjie_ar.Prelude.{
  ℕ, suc, ◌≡◌, refl, ◌∙◌, Bool, true, false, Option, none, some, List, [], ◌∷◌, arith, ltb,
  if◌then◌else◌, if_ind, Eq, ◌==◌, ==_iff, ==_refl, nat_eq, list_eq, lookup, insert, has_key,
  lookup-insert, IsMap, insert-IsMap,
}

-- Whether the node of a key, if there is one, has the given frequency.
abbrev pub is_freq : {V : Type 0} → Option (Node V) → ℕ → Bool
is_freq none f = false
is_freq (some n) f = n.freq == f

module _ {K : Type 0} ⦃e : Eq K⦄ where
  -- A list after a move, where the lists said which node has which frequency.
  pub has-moved :
      (k q : K) (f a h : ℕ) (lists : List (ℕ × List K))
      → has k (list_at h lists) ≡ (f == h)
      → has q (list_at h (move k f a lists)) ≡ (if k == q then a == h else has q (list_at h lists))
  has-moved k q f a h lists v = ground (arith, ==_iff k q, has-move k q f a h lists)

module _ {K V : Type 0} ⦃e : Eq K⦄ where
  -- Keys stand once in the map, and in the lists of their nodes' frequencies alone.
  pub record IsConsistent (c : Cache K V) : Type 0 where
    pub map : IsMap c.nodes
    pub agree : (q : K) (h : ℕ) → has q (list_at h c.lists) ≡ is_freq (lookup q c.nodes) h

  touch-IsConsistent :
      (k : K) (n n' : Node V) (c : Cache K V)
      → IsConsistent c
      → lookup k c.nodes ≡ some n
      → n'.freq ≡ n.freq
      → IsConsistent (touch k n' c)
  unfolding touch
  touch-IsConsistent k n n' c v found same = record {
    map = insert-IsMap k (record n' { freq = suc n'.freq }) c.nodes v.map;
    agree = λ q h. ground (
      arith,
      has-moved k q n'.freq (suc n'.freq) h c.lists,
      v.agree k h,
      v.agree q h,
      lookup-insert k q (record n' { freq = suc n'.freq }) c.nodes,
    );
  }

  has_key-age_nodes :
      (m : ℕ) (q : K) (ns : List (K × Node V)) → has_key q (age_nodes m ns) ≡ has_key q ns
  unfolding has_key age_nodes
  has_key-age_nodes m q [] = refl
  has_key-age_nodes m q ((k, n) ∷ ns) = ground (arith, has_key-age_nodes m q ns)

  pub lookup_absent : (q : K) (ns : List (K × Node V)) → has_key q ns ≡ false → lookup q ns ≡ none
  unfolding has_key lookup
  lookup_absent q [] h = refl
  lookup_absent q ((k, n) ∷ ns) h = ground (arith, lookup_absent q ns)

  age_nodes-IsMap : (m : ℕ) (ns : List (K × Node V)) → IsMap ns → IsMap (age_nodes m ns)
  unfolding age_nodes
  age_nodes-IsMap m [] v = v
  age_nodes-IsMap m ((k, n) ∷ ns) v = ground (arith, has_key-age_nodes m k ns, age_nodes-IsMap m ns)

  age_lists-agree :
      (m : ℕ) (ns : List (K × Node V)) (lists : List (ℕ × List K)) (q : K) (h : ℕ)
      → IsMap ns
      → ((p : K) (g : ℕ) → has_key p ns ≡ true → has p (list_at g lists) ≡ is_freq (lookup p ns) g)
      → has q (list_at h (age_lists m ns lists))
        ≡ (if has_key q ns then is_freq (lookup q (age_nodes m ns)) h else has q (list_at h lists))
  unfolding age_lists age_nodes has_key lookup
  age_lists-agree m [] lists q h a v = refl
  age_lists-agree m ((k, n) ∷ ns) lists q h (fresh, rest) v =
      age_lists-agree m ns (move k n.freq (aged m n.freq) lists) q h rest (λ p g known. ground (
        arith,
        ==_iff k p,
        ==_refl k,
        fresh,
        has-moved k p n.freq (aged m n.freq) g lists,
        v k g,
        v p g,
      ))
      ∙ ground
          (arith, ==_iff k q, ==_refl k, fresh, has-moved k q n.freq (aged m n.freq) h lists, v k h)

  handle_over_max_average-IsConsistent :
      (c : Cache K V) → IsConsistent c → IsConsistent (handle_over_max_average c)
  unfolding handle_over_max_average update_min_freq
  handle_over_max_average-IsConsistent c v =
      if_ind IsConsistent (is_empty c.nodes) (λ e. v)
        (λ e. record {
          map = age_nodes-IsMap c.max_average c.nodes v.map;
          agree = λ q h.
              age_lists-agree c.max_average c.nodes c.lists q h v.map (λ p g e. v.agree p g)
              ∙ ground (
                arith,
                v.agree q h,
                has_key-age_nodes c.max_average q c.nodes,
                lookup_absent q c.nodes,
                lookup_absent q (age_nodes c.max_average c.nodes),
              );
        })

  pub add_freq_num-IsConsistent : (c : Cache K V) → IsConsistent c → IsConsistent (add_freq_num c)
  unfolding add_freq_num
  add_freq_num-IsConsistent c v =
      let counted : Cache K V = record c {
        total = suc c.total;
        average = average_of (suc c.total) c.nodes;
      } in
      let w : IsConsistent counted = record { map = v.map; agree = v.agree } in
      if_ind IsConsistent (ltb c.max_average (average_of (suc c.total) c.nodes))
        (λ e. handle_over_max_average-IsConsistent counted w) (λ e. w)

  pub get_internal-IsConsistent :
      (k : K) (n n' : Node V) (c : Cache K V)
      → IsConsistent c
      → lookup k c.nodes ≡ some n
      → n'.freq ≡ n.freq
      → IsConsistent (get_internal k n' c)
  unfolding get_internal
  get_internal-IsConsistent k n n' c v found same =
      add_freq_num-IsConsistent (touch k n' c) (touch-IsConsistent k n n' c v found same)

  pub add_node-IsConsistent :
      (k : K) (x : V) (c : Cache K V)
      → IsConsistent c
      → has_key k c.nodes ≡ false
      → IsConsistent (add_node k x c)
  unfolding add_node
  add_node-IsConsistent k x c v new =
      let node : Node V = record { freq = 1; value = x } in
      let added : Cache K V = record c {
        nodes = insert k node c.nodes;
        lists = add_to_list k 1 c.lists;
      } in
      let w : IsConsistent (add_freq_num added) = add_freq_num-IsConsistent added (record {
        map = insert-IsMap k node c.nodes v.map;
        agree = λ q h. ground (
          arith,
          ==_iff k q,
          has-add_to_list k q 1 h c.lists,
          v.agree q h,
          v.agree k h,
          lookup-insert k q node c.nodes,
          lookup_absent k c.nodes,
        );
      }) in
      record { map = w.map; agree = w.agree }
