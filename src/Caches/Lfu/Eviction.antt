-- ===== src/Caches/Lfu/Eviction.antt =====
-- What put of include/LFU.h stores in a cache, and what it throws out of a full one.
use jingjie_ar.Caches.Lfu.Contents.{
  content-insert, length-insert, content-erase, length-erase, add_freq_num-IsCounted, content,
}
use jingjie_ar.Caches.Lfu.Least.{IsFloor, IsLeast, IsAged, add_node-IsLeast}
use jingjie_ar.Caches.Lfu.Lists.{has-remove_from_list}
use jingjie_ar.Caches.Lfu.Consistency.{
  get_internal-IsConsistent, add_node-IsConsistent, is_freq, IsConsistent,
}
use jingjie_ar.Caches.Lfu.{
  remove_from_list, freq_of, add_to_list, touch, decrease_freq_num, list_at, Cache, put_internal,
  get_internal, Node, kick_out, has, add_node,
}
use jingjie_ar.Prelude.{
  ℕ, suc, ◌≤◌, ◌<◌, ◌≡◌, refl, sym, ap, ◌∙◌, ◌⊎◌, inl, inr, true, false, some, List, [], ◌∷◌, arith,
  if◌then◌else◌, Bool-cases, Eq, ◌==◌, ==_iff, ==_refl, nat_eq, list_eq, lookup, insert, erase,
  has_key, lookup-erase, IsMap, length,
}

absurd_lt : {A : Type 0} {a b : ℕ} → a ≡ b → a < b → A
absurd_lt p h = ground (arith, p, h)

at_eq : {K : Type 0} ⦃e : Eq K⦄ → (q r : K) → (q == r) ≡ true → q ≡ r
at_eq q r h = (==_iff q r).0 h

le_between : {a b c d : ℕ} → a ≡ b → d ≡ c → b ≤ c → a ≤ d
le_between p q h = ground arith

module _ {K : Type 0} ⦃e : Eq K⦄ where
  has_first : (k : K) (ks : List K) → has k (k ∷ ks) ≡ true
  unfolding has
  has_first k ks = rw (==_refl k) refl

module _ {K V : Type 0} ⦃e : Eq K⦄ where
  -- What kickOut does with the first key of the list of the least frequency.
  record IsEvicted (k : K) (c d : Cache K V) : Type 0 where
    pub consistent : IsConsistent d
    pub stood : has_key k c.nodes ≡ true
    pub gone : d.nodes ≡ erase k c.nodes
    pub capacity : d.capacity ≡ c.capacity
    pub floor : IsFloor d

  present :
      (k : K) (f : ℕ) (ns : List (K × Node V))
      → is_freq (lookup k ns) f ≡ true
      → has_key k ns ≡ true
  unfolding lookup has_key
  present k f [] h = ground arith
  present k f ((q, n) ∷ ns) h = ground (arith, present k f ns)

  has_key-erase :
      (k q : K) (ns : List (K × Node V))
      → has_key q (erase k ns) ≡ (if k == q then false else has_key q ns)
  unfolding has_key erase
  has_key-erase k q [] = ground arith
  has_key-erase k q ((r, n) ∷ ns) =
      ground (arith, ==_iff k q, ==_iff r k, ==_iff r q, has_key-erase k q ns)

  erase-IsMap : (k : K) (ns : List (K × Node V)) → IsMap ns → IsMap (erase k ns)
  unfolding erase
  erase-IsMap k [] v = v
  erase-IsMap k ((q, n) ∷ ns) v = ground (arith, has_key-erase k q ns, erase-IsMap k ns)

  freq_of-least :
      (k : K) (f : ℕ) (ns : List (K × Node V)) → is_freq (lookup k ns) f ≡ true → freq_of k f ns ≡ f
  freq_of-least k f ns h = ground arith

  kick_out-IsEvicted :
      (k : K) (ks : List K) (c : Cache K V)
      → IsConsistent c
      → IsFloor c
      → list_at c.min_freq c.lists ≡ k ∷ ks
      → (d : Cache K V) × (kick_out c ≡ some d) × IsEvicted k c d
  unfolding kick_out decrease_freq_num
  kick_out-IsEvicted k ks c v f first =
      let stands : is_freq (lookup k c.nodes) c.min_freq ≡ true =
        sym (v.agree k c.min_freq) ∙ ap (has k) first ∙ has_first k ks in
      (
        decrease_freq_num (freq_of k c.min_freq c.nodes) (record c {
          lists = remove_from_list k (freq_of k c.min_freq c.nodes) c.lists;
          nodes = erase k c.nodes;
        }),
        rw (kick_out, first) refl,
        record {
          consistent = record {
            map = erase-IsMap k c.nodes v.map;
            agree = λ q h. ground (
              arith,
              ==_iff k q,
              stands,
              has-remove_from_list k q (freq_of k c.min_freq c.nodes) h c.lists,
              lookup-erase k q c.nodes,
              freq_of-least k c.min_freq c.nodes stands,
              v.agree q h,
            );
          };
          stood = present k c.min_freq c.nodes stands;
          gone = refl;
          capacity = refl;
          floor = record {
            positive = f.positive;
            below = λ q h less. ground (
              arith,
              has-remove_from_list k q (freq_of k c.min_freq c.nodes) h c.lists,
              f.below q h less,
            );
          };
        },
      )

  -- A put of a new key `k` into a full cache throws out a key `q` of the least frequency: no key has
  -- a lower one, and of those that have the same, `q` is the first in its list, at whose end a key is
  -- added.
  pub record IsThrown (k q : K) (c : Cache K V) : Type 0 where
    pub full : length c.nodes ≡ c.capacity
    pub new : has_key k c.nodes ≡ false
    pub behind : List K
    pub oldest : list_at c.min_freq c.lists ≡ q ∷ behind
    pub frequency : is_freq (lookup q c.nodes) c.min_freq ≡ true
    pub lowest : (r : K) (h : ℕ) → h < c.min_freq → is_freq (lookup r c.nodes) h ≡ false

  -- What a put of `x` under `k` makes of a cache: the new value is there, the other values stay but
  -- for the one that is thrown out, and the capacity holds.
  pub record IsPut (k : K) (x : V) (c d : Cache K V) : Type 0 where
    pub consistent : IsConsistent d
    pub fits : length d.nodes ≤ d.capacity
    pub capacity : d.capacity ≡ c.capacity
    pub stored : content k d.nodes ≡ some x
    pub others :
        (q : K) → (k == q) ≡ false → (content q d.nodes ≡ content q c.nodes) ⊎ IsThrown k q c

  pub found_key :
      (k : K) (n : Node V) (ns : List (K × Node V)) → lookup k ns ≡ some n → has_key k ns ≡ true
  found_key k n ns h = present k n.freq ns (ap (λ o. is_freq o n.freq) h ∙ ==_refl n.freq)

  pub get_internal-IsPut :
      (k : K) (n n' : Node V) (c : Cache K V)
      → IsConsistent c
      → length c.nodes ≤ c.capacity
      → lookup k c.nodes ≡ some n
      → n'.freq ≡ n.freq
      → IsPut k n'.value c (get_internal k n' c)
  unfolding get_internal touch
  get_internal-IsPut k n n' c v fits found same =
      let w = add_freq_num-IsCounted (touch k n' c) in
      let next : Node V = record n' { freq = suc n'.freq } in
      let key : length (insert k next c.nodes) ≡ length c.nodes =
        length-insert k next c.nodes ∙ rw (found_key k n c.nodes found) refl in
      record {
        consistent = get_internal-IsConsistent k n n' c v found same;
        fits = le_between (w.size ∙ key) w.capacity fits;
        capacity = w.capacity;
        stored = w.same k ∙ content-insert k k next c.nodes ∙ rw (==_refl k) refl;
        others = λ q other. inl (w.same q ∙ content-insert k q next c.nodes ∙ rw (other) refl);
      }

  pub add_node-IsPut :
      (k : K) (x : V) (c : Cache K V)
      → IsConsistent c
      → length c.nodes < c.capacity
      → has_key k c.nodes ≡ false
      → IsPut k x c (add_node k x c)
  unfolding add_node
  add_node-IsPut k x c v room new =
      let node : Node V = record { freq = 1; value = x } in
      let added : Cache K V = record c {
        nodes = insert k node c.nodes;
        lists = add_to_list k 1 c.lists;
      } in
      let w = add_freq_num-IsCounted added in
      let key : length (insert k node c.nodes) ≡ suc (length c.nodes) =
        length-insert k node c.nodes ∙ rw (new) refl in
      record {
        consistent = add_node-IsConsistent k x c v new;
        fits = le_between (w.size ∙ key) w.capacity room;
        capacity = w.capacity;
        stored = w.same k ∙ content-insert k k node c.nodes ∙ rw (==_refl k) refl;
        others = λ q other. inl (w.same q ∙ content-insert k q node c.nodes ∙ rw (other) refl);
      }

  -- Where there is room nothing is thrown out.
  others_after :
      {k : K} {x : V} {c d : Cache K V}
      → IsPut k x c d
      → length c.nodes < c.capacity
      → (q : K) → (k == q) ≡ false
      → content q d.nodes ≡ content q c.nodes
  others_after w room q other = elim (w.others q other) [
    | inl same ↦ same
    | inr t ↦ absurd_lt t.full room
  ]

  pub put_internal-IsPut :
      (k : K) (x : V) (q : K) (qs : List K) (c : Cache K V)
      → IsConsistent c
      → IsFloor c
      → length c.nodes ≡ c.capacity
      → has_key k c.nodes ≡ false
      → list_at c.min_freq c.lists ≡ q ∷ qs
      → (d : Cache K V) × (put_internal k x c ≡ some d) × IsPut k x c d × (IsAged d ⊎ IsLeast d)
  unfolding put_internal
  put_internal-IsPut k x q qs c v f full new first =
      let (c', runs, w) = kick_out-IsEvicted q qs c v f first in
      let size : suc (length c'.nodes) ≡ length c.nodes =
        ap (λ ns. suc (length ns)) w.gone ∙ length-erase q c.nodes v.map w.stood in
      let fresh : has_key k c'.nodes ≡ false =
        ap (has_key k) w.gone ∙ ground (arith, has_key-erase q k c.nodes, new) in
      let u = add_node-IsPut k x c' w.consistent (ground (arith, size, full, w.capacity)) fresh in
      (
        add_node k x c',
        rw (full, runs, ==_refl c.capacity) refl,
        record {
          consistent = u.consistent;
          fits = u.fits;
          capacity = u.capacity ∙ w.capacity;
          stored = u.stored;
          others = λ r other. elim (Bool-cases (q == r)) [
            | inl same ↦ inr (record {
              full = full;
              new = new;
              behind = qs;
              oldest = first ∙ ap (λ p. p ∷ qs) (at_eq q r same);
              frequency =
                  sym (v.agree r c.min_freq)
                  ∙ ap (has r) (first ∙ ap (λ p. p ∷ qs) (at_eq q r same))
                  ∙ has_first r qs;
              lowest = λ p h less. sym (v.agree p h) ∙ f.below p h less;
            })
            | inr differs ↦ inl (
                others_after u (ground (arith, size, full, w.capacity)) r other
                ∙ ap (content r) w.gone
                ∙ content-erase q r c.nodes
                ∙ rw (differs) refl)
          ];
        },
        add_node-IsLeast k x c' w.floor,
      )
