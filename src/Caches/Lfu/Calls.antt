-- ===== src/Caches/Lfu/Calls.antt =====
-- What a caller of put and get of include/LFU.h sees.
use jingjie_ar.Text.{is_empty}
use jingjie_ar.Caches.Lfu.Eviction.{
  get_internal-IsPut, found_key, add_node-IsPut, put_internal-IsPut, IsPut,
}
use jingjie_ar.Caches.Lfu.Least.{IsLeast, IsAged, add_node-IsLeast, get_internal-IsLeast}
use jingjie_ar.Caches.Lfu.Contents.{length-insert, add_freq_num-IsCounted, content-insert, content}
use jingjie_ar.Caches.Lfu.Consistency.{get_internal-IsConsistent, IsConsistent}
use jingjie_ar.Caches.Lfu.{
  touch, list_at, add_node, Cache, get_internal, Node, put_internal, get, put,
}
use jingjie_ar.Prelude.{
  ℕ, suc, ◌≤◌, ◌<◌, ◌≡◌, refl, sym, ◌∙◌, subst, ◌⊎◌, inl, inr, true, false, Option, none, some,
  List, [], ◌∷◌, arith, nat_beq_iff, Bool-cases, Option-cases, Eq, ◌==◌, ==_iff, nat_eq, list_eq,
  lookup, insert, has_key, length,
}

not_zero : (n : ℕ) → 0 < n → (n == 0) ≡ false
not_zero n h = ground arith

module _ {K : Type 0} where
  first_least : (ks : List K) → is_empty ks ≡ false → (q : K) × (qs : List K) × (ks ≡ q ∷ qs)
  first_least [] h = ground (arith, h)
  first_least (q ∷ qs) h = (q, qs, refl)

module _ {K V : Type 0} ⦃e : Eq K⦄ where
  filled : (ns : List (K × Node V)) → 0 < length ns → is_empty ns ≡ true → ⊥
  filled [] h z = ground (arith, h)
  filled (m ∷ ms) h z = ground (arith, z)

  -- Where kickOut finds a key in a full cache.
  can_evict :
      (c : Cache K V)
      → IsLeast c
      → 0 < c.capacity
      → length c.nodes ≡ c.capacity
      → (q : K) × (qs : List K) × (list_at c.min_freq c.lists ≡ q ∷ qs)
  can_evict c l room full = elim l.stands [
    | inl none_there ↦ absurd (filled c.nodes (ground (arith, room, full)) none_there)
    | inr some_there ↦ first_least (list_at c.min_freq c.lists) some_there
  ]

  lookup_new : (k : K) (ns : List (K × Node V)) → lookup k ns ≡ none → has_key k ns ≡ false
  unfolding lookup has_key
  lookup_new k [] h = refl
  lookup_new k ((q, n) ∷ ns) h = ground (arith, lookup_new k ns)

  put_known :
      (k : K) (x : V) (n : Node V) (c : Cache K V)
      → 0 < c.capacity
      → lookup k c.nodes ≡ some n
      → put k x c ≡ some (get_internal k (record n { value = x }) c)
  unfolding put
  put_known k x n c room found = rw (not_zero c.capacity room, found) refl

  put_new :
      (k : K) (x : V) (c : Cache K V)
      → 0 < c.capacity
      → lookup k c.nodes ≡ none
      → put k x c ≡ put_internal k x c
  unfolding put
  put_new k x c room new = rw (not_zero c.capacity room, new) refl

  put_free :
      (k : K) (x : V) (c : Cache K V)
      → (length c.nodes == c.capacity) ≡ false
      → put_internal k x c ≡ some (add_node k x c)
  unfolding put_internal
  put_free k x c free = rw (free) refl

  -- put on a cache that is consistent, within its capacity, which is not 0, and whose minFreq_ is the
  -- least frequency of its nodes, or any positive number if it is empty, returns a cache that is consistent and within the same capacity,
  -- where the key has the new value and every other key keeps what it had, but for one when the key is
  -- new and the cache full: that key has the least frequency of all, and is the first in the list of
  -- that frequency. Afterwards minFreq_ is again the least frequency, unless the average of accesses
  -- is above its limit, so that the frequencies were aged.
  pub put-IsPut :
      (k : K) (x : V) (c : Cache K V)
      → IsConsistent c
      → length c.nodes ≤ c.capacity
      → 0 < c.capacity
      → IsLeast c
      → (d : Cache K V) × (put k x c ≡ some d) × IsPut k x c d × (IsAged d ⊎ IsLeast d)
  put-IsPut k x c v fits room l = elim (Option-cases (lookup k c.nodes)) [
    | inl new ↦ elim (Bool-cases (length c.nodes == c.capacity)) [
      | inl full ↦
          let size = (nat_beq_iff (length c.nodes) c.capacity).0 full in
          let (q, qs, first) = can_evict c l room size in
          let (d, runs, w, least) =
            put_internal-IsPut k x q qs c v l.floor size (lookup_new k c.nodes new) first in
          (d, put_new k x c room new ∙ runs, w, least)
      | inr free ↦ (
        add_node k x c,
        put_new k x c room new ∙ put_free k x c free,
        add_node-IsPut k x c v (ground (arith, free, fits)) (lookup_new k c.nodes new),
        add_node-IsLeast k x c l.floor,
      )
    ]
    | inr (n, found) ↦ (
      get_internal k (record n { value = x }) c,
      put_known k x n c room found,
      get_internal-IsPut k n (record n { value = x }) c v fits found refl,
      get_internal-IsLeast k n (record n { value = x }) c v l found refl,
    )
  ]

  -- What a call of get gives and leaves.
  pub record IsGot (k : K) (c : Cache K V) (r : Option V × Cache K V) : Type 0 where
    pub found : r.0 ≡ content k c.nodes
    pub consistent : IsConsistent r.1
    pub values : (q : K) → content q r.1.nodes ≡ content q c.nodes
    pub size : length r.1.nodes ≡ length c.nodes

  get_known :
      (k : K) (n : Node V) (c : Cache K V)
      → lookup k c.nodes ≡ some n
      → get k c ≡ (some n.value, get_internal k n c)
  unfolding get
  get_known k n c found = rw (get, found) refl

  get_missing : (k : K) (c : Cache K V) → lookup k c.nodes ≡ none → get k c ≡ (none, c)
  unfolding get
  get_missing k c missing = rw (get, missing) refl

  same_content :
      (k q : K) (n : Node V) (f : ℕ) (ns : List (K × Node V))
      → lookup k ns ≡ some n
      → content q (insert k (record n { freq = f }) ns) ≡ content q ns
  same_content k q n f ns found =
      ground (arith, content-insert k q (record n { freq = f }) ns, ==_iff k q, found)

  get_internal-IsGot :
      (k : K) (n : Node V) (c : Cache K V)
      → IsConsistent c
      → lookup k c.nodes ≡ some n
      → IsGot k c (some n.value, get_internal k n c)
  unfolding get_internal touch
  get_internal-IsGot k n c v found =
      let w = add_freq_num-IsCounted (touch k n c) in
      record {
        found = rw (content, found) refl;
        consistent = get_internal-IsConsistent k n n c v found refl;
        values = λ q. w.same q ∙ same_content k q n (suc n.freq) c.nodes found;
        size =
            w.size
            ∙ length-insert k (record n { freq = suc n.freq }) c.nodes
            ∙ rw (found_key k n c.nodes found) refl;
      }

  no_content : (k : K) (ns : List (K × Node V)) → lookup k ns ≡ none → content k ns ≡ none
  no_content k ns missing = ground arith

  -- get on a consistent cache returns the value that the cache holds for the key, and leaves a
  -- consistent cache of as many keys that holds the same values.
  pub get-IsGot : (k : K) (c : Cache K V) → IsConsistent c → IsGot k c (get k c)
  get-IsGot k c v = elim (Option-cases (lookup k c.nodes)) [
    | inl missing ↦ subst (IsGot k c) (sym (get_missing k c missing)) (record {
      found = sym (no_content k c.nodes missing);
      consistent = v;
      values = λ q. refl;
      size = refl;
    })
    | inr (n, found) ↦
        subst (IsGot k c) (sym (get_known k n c found)) (get_internal-IsGot k n c v found)
  ]
