-- ===== src/Caches/Lfu/Least.antt =====
-- minFreq_ of include/LFU.h: between calls it is the least frequency of the nodes, as long as the
-- average number of accesses stays within its limit and no frequency is aged.
use jingjie_ar.Caches.Lfu.{
  get_internal, make_cache, touch, list_at, add_node, Cache, Node, move, has, add_to_list,
  add_freq_num, handle_over_max_average, update_min_freq, average_of,
}
use jingjie_ar.Prelude.{
  ℕ, suc, ◌≤◌, ◌<◌, ◌≡◌, refl, sym, subst, ◌≢◌, ◌⊎◌, inl, inr, true, false, ◌&&◌, some, List, [],
  ◌∷◌, arith, ltb, if◌then◌else◌, ltb→lt, nat_beq_iff, Bool-cases, if_ind, Eq, ◌==◌, ==_iff,
  ==_refl, nat_eq, list_eq, lookup, insert,
}
use jingjie_ar.Caches.Lfu.Lists.{has-add_to_list}
use jingjie_ar.Caches.Lfu.Consistency.{IsConsistent, has-moved}
use jingjie_ar.Text.{is_empty}

module _ {K : Type 0} ⦃e : Eq K⦄ where
  not_empty : (k : K) (ks : List K) → has k ks ≡ true → is_empty ks ≡ false
  unfolding has
  not_empty k [] h = ground arith
  not_empty k (x ∷ xs) h = refl

  none_in : (k : K) (ks : List K) → is_empty ks ≡ true → has k ks ≡ false
  unfolding has
  none_in k [] h = refl
  none_in k (x ∷ xs) h = ground arith

  left_empty :
      (q : K) (f m h : ℕ) (lists : List (ℕ × List K))
      → (f == m && is_empty (list_at f lists)) ≡ true
      → h ≡ m
      → has q (list_at h lists) ≡ false
  left_empty q f m h lists e p =
      let both : (f ≡ m) × (is_empty (list_at f lists) ≡ true) = ground (arith, nat_beq_iff f m) in
      rw (p, sym both.0) (none_in q (list_at f lists) both.1)

module _ {K V : Type 0} ⦃e : Eq K⦄ where
  -- No node has a frequency below the least one, which is not 0.
  pub record IsFloor (c : Cache K V) : Type 0 where
    pub positive : 0 < c.min_freq
    pub below : (q : K) (h : ℕ) → h < c.min_freq → has q (list_at h c.lists) ≡ false

  -- Moreover some node has the least frequency, if there are nodes.
  pub record IsLeast (c : Cache K V) : Type 0 where
    pub floor : IsFloor c
    pub stands : (is_empty c.nodes ≡ true) ⊎ (is_empty (list_at c.min_freq c.lists) ≡ false)

  touch_moves :
      (k q : K) (n n' : Node V) (h : ℕ) (c : Cache K V)
      → IsConsistent c
      → lookup k c.nodes ≡ some n
      → n'.freq ≡ n.freq
      → has q (list_at h (move k n'.freq (suc n'.freq) c.lists))
        ≡ (if k == q then suc n'.freq == h else has q (list_at h c.lists))
  touch_moves k q n n' h c v found same =
      has-moved k q n'.freq (suc n'.freq) h c.lists (ground (arith, v.agree k h, found, same))

  at_least :
      (k : K) (n : Node V) (c : Cache K V)
      → IsConsistent c
      → IsFloor c
      → lookup k c.nodes ≡ some n
      → c.min_freq ≤ n.freq
  at_least k n c v f found = elim (Bool-cases (ltb n.freq c.min_freq)) [
    | inl less ↦ absurd (
        ground (arith, f.below k n.freq (ltb→lt _ _ less), v.agree k n.freq, found, ==_refl n.freq))
    | inr not_less ↦ ground (arith, not_less)
  ]

  -- A frequency that no node had before the move, or only the one that has left.
  below_moved :
      (k q : K) (n n' : Node V) (h : ℕ) (c : Cache K V)
      → IsConsistent c
      → IsFloor c
      → lookup k c.nodes ≡ some n
      → n'.freq ≡ n.freq
      → h < c.min_freq
      → has q (list_at h (move k n'.freq (suc n'.freq) c.lists)) ≡ false
  below_moved k q n n' h c v f found same less = ground (
    arith,
    touch_moves k q n n' h c v found same,
    f.below q h less,
    at_least k n c v f found,
    nat_beq_iff (suc n'.freq) h,
  )

  touch-IsFloor :
      (k : K) (n n' : Node V) (c : Cache K V)
      → IsConsistent c
      → IsFloor c
      → lookup k c.nodes ≡ some n
      → n'.freq ≡ n.freq
      → IsFloor (touch k n' c)
  unfolding touch
  touch-IsFloor k n n' c v f found same =
      let lists = move k n'.freq (suc n'.freq) c.lists in
      let nodes = insert k (record n' { freq = suc n'.freq }) c.nodes in
      if_ind (λ (m : ℕ). IsFloor (record c { nodes = nodes; lists = lists; min_freq = m }))
        (n'.freq == c.min_freq && is_empty (list_at n'.freq lists))
        (λ leaves. record {
          positive = omega arith;
          below = λ q h less. elim (Bool-cases (h == c.min_freq)) [
            | inl here ↦ left_empty q n'.freq c.min_freq h lists leaves ((nat_beq_iff h _).0 here)
            | inr other ↦
                below_moved k q n n' h c v f found same
                  (ground (arith, less, other, nat_beq_iff h c.min_freq))
          ];
        })
        (λ stays. record {
          positive = f.positive;
          below = λ q h less. below_moved k q n n' h c v f found same less;
        })

  -- The list of another frequency keeps its keys.
  still_there :
      (k r : K) (rs : List K) (n n' : Node V) (c : Cache K V)
      → IsConsistent c
      → lookup k c.nodes ≡ some n
      → n'.freq ≡ n.freq
      → (n'.freq == c.min_freq) ≡ false
      → list_at c.min_freq c.lists ≡ r ∷ rs
      → has r (list_at c.min_freq (move k n'.freq (suc n'.freq) c.lists)) ≡ true
  unfolding has
  still_there k r rs n n' c v found same other first =
      let stood : has r (list_at c.min_freq c.lists) ≡ true = rw (first, ==_refl r) refl in
      ground (
        arith,
        touch_moves k r n n' c.min_freq c v found same,
        stood,
        v.agree k c.min_freq,
        ==_iff k r,
        found,
      )

  insert_filled : (k : K) (n : Node V) (ns : List (K × Node V)) → is_empty (insert k n ns) ≡ false
  unfolding insert
  insert_filled k n [] = refl
  insert_filled k n ((q, m) ∷ ns) = ground arith

  touch_stands :
      (k : K) (n n' : Node V) (c : Cache K V) (ks : List K)
      → IsConsistent c
      → list_at c.min_freq c.lists ≡ ks
      → is_empty ks ≡ false
      → lookup k c.nodes ≡ some n
      → n'.freq ≡ n.freq
      → is_empty (list_at (touch k n' c).min_freq (touch k n' c).lists) ≡ false
  unfolding touch
  touch_stands k n n' c [] v first h found same = ground (arith, h)
  touch_stands k n n' c (r ∷ rs) v first h found same =
      let lists = move k n'.freq (suc n'.freq) c.lists in
      if_ind (λ (m : ℕ). is_empty (list_at m lists) ≡ false)
        (n'.freq == c.min_freq && is_empty (list_at n'.freq lists))
        (λ leaves. not_empty k (list_at (suc c.min_freq) lists) (
          ground (
            arith,
            touch_moves k k n n' (suc c.min_freq) c v found same,
            ==_refl k,
            leaves,
            nat_beq_iff n'.freq c.min_freq,
          )))
        (λ stays. elim (Bool-cases (n'.freq == c.min_freq)) [
          | inl here ↦
              let at : n'.freq ≡ c.min_freq = (nat_beq_iff _ _).0 here in
              subst (λ m. is_empty (list_at m lists) ≡ false) at (ground (arith, stays, here))
          | inr other ↦
              not_empty r (list_at c.min_freq lists)
                (still_there k r rs n n' c v found same other first)
        ])

  pub touch-IsLeast :
      (k : K) (n n' : Node V) (c : Cache K V)
      → IsConsistent c
      → IsLeast c
      → lookup k c.nodes ≡ some n
      → n'.freq ≡ n.freq
      → IsLeast (touch k n' c)
  unfolding lookup
  touch-IsLeast k n n' c v l found same = record {
    floor = touch-IsFloor k n n' c v l.floor found same;
    stands = elim l.stands [
      | inl none_there ↦ absurd (filled c.nodes found none_there)
      | inr some_there ↦
          inr (touch_stands k n n' c (list_at c.min_freq c.lists) v refl some_there found same)
    ];
  }
    where
      filled : (ns : List (K × Node V)) → lookup k ns ≡ some n → is_empty ns ≢ true
      filled [] p h = ground (arith, p)
      filled (m ∷ ms) p h = ground (arith, h)

  -- A count either ages the nodes, and then the average is above its limit, or changes neither the
  -- nodes nor the lists.
  abbrev pub IsAged : Cache K V → Type 0
  IsAged c = c.max_average < c.average

  handle_over_max_average_averages :
      (c : Cache K V)
      → ((handle_over_max_average c).max_average ≡ c.max_average)
        × ((handle_over_max_average c).average ≡ c.average)
  unfolding handle_over_max_average update_min_freq
  handle_over_max_average_averages c =
      if_ind (λ (d : Cache K V). (d.max_average ≡ c.max_average) × (d.average ≡ c.average))
        (is_empty c.nodes) (λ e. (refl, refl)) (λ e. (refl, refl))

  pub add_freq_num-IsLeast :
      (c : Cache K V) → IsLeast c → IsAged (add_freq_num c) ⊎ IsLeast (add_freq_num c)
  unfolding add_freq_num
  add_freq_num-IsLeast c l =
      let counted : Cache K V = record c {
        total = suc c.total;
        average = average_of (suc c.total) c.nodes;
      } in
      let w = handle_over_max_average_averages counted in
      if_ind (λ (d : Cache K V). IsAged d ⊎ IsLeast d)
        (ltb c.max_average (average_of (suc c.total) c.nodes))
        (λ e. inl (rw (w.0, w.1) (ltb→lt _ _ e)))
        (λ e. inr (record {
          floor = record { positive = l.floor.positive; below = l.floor.below };
          stands = l.stands;
        }))

  pub get_internal-IsLeast :
      (k : K) (n n' : Node V) (c : Cache K V)
      → IsConsistent c
      → IsLeast c
      → lookup k c.nodes ≡ some n
      → n'.freq ≡ n.freq
      → IsAged (get_internal k n' c) ⊎ IsLeast (get_internal k n' c)
  unfolding get_internal
  get_internal-IsLeast k n n' c v l found same =
      add_freq_num-IsLeast (touch k n' c) (touch-IsLeast k n n' c v l found same)

  -- After the node of a frequency 1 is there, 1 is the least frequency.
  pub add_node-IsLeast :
      (k : K) (x : V) (c : Cache K V)
      → IsFloor c
      → IsAged (add_node k x c) ⊎ IsLeast (add_node k x c)
  unfolding add_node add_freq_num
  add_node-IsLeast k x c f =
      let nodes = insert k (record { freq = 1; value = x }) c.nodes in
      let counted : Cache K V = record c {
        nodes = nodes;
        lists = add_to_list k 1 c.lists;
        total = suc c.total;
        average = average_of (suc c.total) nodes;
      } in
      let w = handle_over_max_average_averages counted in
      if_ind
        (λ (d : Cache K V).
          IsAged (record d { min_freq = if ltb d.min_freq 1 then d.min_freq else 1 })
          ⊎ IsLeast (record d { min_freq = if ltb d.min_freq 1 then d.min_freq else 1 }))
        (ltb c.max_average (average_of (suc c.total) nodes))
        (λ e. inl (rw (w.0, w.1) (ltb→lt _ _ e)))
        (λ e. inr (
          let one : (if ltb c.min_freq 1 then c.min_freq else 1) ≡ 1 = ground (arith, f.positive) in
          subst (λ m. IsLeast (record counted { min_freq = m })) (sym one)
            (record {
              floor = record {
                positive = omega arith;
                below = λ q h less. ground (
                  arith,
                  has-add_to_list k q 1 h c.lists,
                  f.below q h (omega (arith, less, f.positive)),
                  nat_beq_iff 1 h,
                );
              };
              stands = inr (
                  not_empty k (list_at 1 (add_to_list k 1 c.lists))
                    (ground (arith, has-add_to_list k k 1 1 c.lists, ==_refl k)));
            })))

  pub make_cache-IsLeast : (capacity max_average : ℕ) → IsLeast (make_cache capacity max_average)
  unfolding list_at lookup has
  make_cache-IsLeast capacity max_average = record {
    floor = record { positive = omega arith; below = λ q h less. refl };
    stands = inl refl;
  }
