-- ===== src/Caches/Lfu.antt =====
-- KLfuCache and FreqList of include/LFU.h: one shard of the cache, each call under its lock. A node
-- is known by its key: a frequency list is the list of the keys of its nodes, and a list that is
-- not there is read as empty. The order of the node map is that in which the container is walked.
pub mod Lists
pub mod Consistency
pub mod Contents
pub mod Least
pub mod Eviction
pub mod Calls
use jingjie_ar.Text.{is_empty}
use jingjie_ar.Prelude.{
  ℕ, zero, suc, ◌+◌, ◌-◌, ◌*◌, ◌/◌, ◌%◌, ◌^◌, ◌≤◌, ◌<◌, min, max, ◌≡◌, refl, sym, ap, ap₂, ◌∙◌,
  subst, ◌≢◌, ◌↔◌, ◌⊎◌, inl, inr, Bool, true, false, not, ◌&&◌, ◌||◌, Option, none, some, List, [],
  ◌∷◌, ◌++◌, map, reverse, append-nil, append_assoc, reverse-cons, arith, ltb, leb, if◌then◌else◌,
  ltb→lt, lt→ltb, leb→le, nat_beq_iff, tests, Bool-cases, if_ind, Option-cases, some_inj, Eq, ◌==◌,
  ==_iff, ==_refl, nat_eq, list_eq, lookup, insert, erase, has_key, lookup-insert,
  lookup-insert_self, lookup-erase, has_key-insert, IsMap, insert-IsMap, insert_new, AreApart,
  AreApart-insert, AreApart-nil, length, get_elem?, set, get_or, take, drop, replicate,
  length-append, length-take, length-drop, length-replicate, length-map, take-append-drop,
  drop_of_length-le, take_of_length-le, drop_nil, take_nil, drop-drop, drop-take, take-take_le,
  drop-append_le, take-append_le, take-append_ge, drop-append_ge, take-append_length,
  drop-append_length,
}

-- INT8_MAX, which stands for no frequency.
abbrev pub int8_max : ℕ
int8_max = 127

pub record Node (V : Type 0) : Type 0 where
  pub freq : ℕ
  pub value : V

pub record Cache (K V : Type 0) : Type 0 where
  pub capacity : ℕ
  pub min_freq : ℕ
  pub max_average : ℕ
  pub average : ℕ
  pub total : ℕ
  pub nodes : List (K × Node V)
  pub lists : List (ℕ × List K)

-- KLfuCache::KLfuCache
abbrev pub make_cache : {K V : Type 0} → ℕ → ℕ → Cache K V
make_cache capacity max_average = record {
  capacity = capacity;
  min_freq = int8_max;
  max_average = max_average;
  average = 0;
  total = 0;
  nodes = [];
  lists = [];
}

-- KLfuCache::purge
unfoldable pub purge : {K V : Type 0} → Cache K V → Cache K V
purge c = record c { nodes = []; lists = [] }

unfoldable pub list_at : {K : Type 0} → ℕ → List (ℕ × List K) → List K
list_at f lists = elim (lookup f lists) [ none ↦ [] | some ks ↦ ks ]

-- curTotalNum_ / nodeMap_.size()
abbrev pub average_of : {K V : Type 0} → ℕ → List (K × Node V) → ℕ
average_of total [] = 0
average_of total (n ∷ ns) = total / length (n ∷ ns)

-- The minimum of updateMinFreq over the lists that are not empty.
unfoldable pub least_freq : {K : Type 0} → List (ℕ × List K) → ℕ
least_freq [] = int8_max
least_freq ((f, ks) ∷ rest) =
    let m = least_freq rest in if is_empty ks then m else if ltb f m then f else m

-- KLfuCache::updateMinFreq
unfoldable pub update_min_freq : {K V : Type 0} → Cache K V → Cache K V
update_min_freq c =
    let m = least_freq c.lists in record c { min_freq = if m == int8_max then 1 else m }

-- The frequency of a node after aging.
unfoldable pub aged : ℕ → ℕ → ℕ
aged max_average freq = if ltb (freq - max_average / 2) 1 then 1 else freq - max_average / 2

unfoldable pub age_nodes : {K V : Type 0} → ℕ → List (K × Node V) → List (K × Node V)
age_nodes m [] = []
age_nodes m ((k, n) ∷ ns) = (k, record n { freq = aged m n.freq }) ∷ age_nodes m ns

module _ {K : Type 0} ⦃e : Eq K⦄ where
  -- FreqList::removeNode; a key stands in a list once.
  unfoldable pub remove_key : K → List K → List K
  remove_key k [] = []
  remove_key k (x ∷ xs) = let rest = remove_key k xs in if x == k then rest else x ∷ rest

  unfoldable pub has : K → List K → Bool
  has k [] = false
  has k (x ∷ xs) = if x == k then true else has k xs

  -- KLfuCache::removeFromFreqList
  unfoldable pub remove_from_list : K → ℕ → List (ℕ × List K) → List (ℕ × List K)
  remove_from_list k f lists = insert f (remove_key k (list_at f lists)) lists

  -- KLfuCache::addToFreqList, with FreqList::addNode
  unfoldable pub add_to_list : K → ℕ → List (ℕ × List K) → List (ℕ × List K)
  add_to_list k f lists = insert f (list_at f lists ++ k ∷ []) lists

  -- A node leaves the list of one frequency for that of another.
  unfoldable pub move : K → ℕ → ℕ → List (ℕ × List K) → List (ℕ × List K)
  unfolding remove_from_list add_to_list
  move k f g lists = add_to_list k g (remove_from_list k f lists)

module _ {K V : Type 0} ⦃e : Eq K⦄ where
  -- The loop of handleOverMaxAverageNum over the nodes.
  unfoldable pub age_lists : ℕ → List (K × Node V) → List (ℕ × List K) → List (ℕ × List K)
  unfolding move aged
  age_lists m [] lists = lists
  age_lists m ((k, n) ∷ ns) lists = age_lists m ns (move k n.freq (aged m n.freq) lists)

  -- KLfuCache::handleOverMaxAverageNum
  unfoldable pub handle_over_max_average : Cache K V → Cache K V
  handle_over_max_average c =
      if is_empty c.nodes
      then c
      else update_min_freq (record c {
        nodes = age_nodes c.max_average c.nodes;
        lists = age_lists c.max_average c.nodes c.lists;
      })

  -- KLfuCache::addFreqNum
  unfoldable pub add_freq_num : Cache K V → Cache K V
  add_freq_num c =
      let counted = record c { total = suc c.total; average = average_of (suc c.total) c.nodes } in
      if ltb c.max_average counted.average then handle_over_max_average counted else counted

  -- KLfuCache::decreaseFreqNum; the total counts every access, so that no frequency is above it.
  unfoldable pub decrease_freq_num : ℕ → Cache K V → Cache K V
  decrease_freq_num n c = record c {
    total = c.total - n;
    average = average_of (c.total - n) c.nodes;
  }

  -- A node's next frequency, before the averages: the nodes, the lists and the least frequency.
  unfoldable pub touch : K → Node V → Cache K V → Cache K V
  touch k n c =
      let lists = move k n.freq (suc n.freq) c.lists in
      record c {
        nodes = insert k (record n { freq = suc n.freq }) c.nodes;
        lists = lists;
        min_freq =
            if n.freq == c.min_freq && is_empty (list_at n.freq lists)
            then suc c.min_freq
            else c.min_freq;
      }

  -- KLfuCache::getInternal
  unfoldable pub get_internal : K → Node V → Cache K V → Cache K V
  unfolding touch add_freq_num
  get_internal k n c = add_freq_num (touch k n c)

  abbrev pub freq_of : K → ℕ → List (K × Node V) → ℕ
  freq_of k otherwise nodes = elim (lookup k nodes) [ none ↦ otherwise | some n ↦ n.freq ]

  -- KLfuCache::kickOut; `none` where the list of the least frequency is empty or not there, and
  -- the source takes its sentinel for a node or a null list.
  unfoldable pub kick_out : Cache K V → Option (Cache K V)
  unfolding decrease_freq_num
  kick_out c = elim (list_at c.min_freq c.lists) [
    | [] ↦ none
    | k ∷ ks ↦
        let freq = freq_of k c.min_freq c.nodes in
        some (
          decrease_freq_num freq
            (record c { lists = remove_from_list k freq c.lists; nodes = erase k c.nodes }))
  ]

  -- The new node of putInternal, when there is room.
  unfoldable pub add_node : K → V → Cache K V → Cache K V
  unfolding add_freq_num
  add_node k v c =
      let added = add_freq_num (record c {
        nodes = insert k (record { freq = 1; value = v }) c.nodes;
        lists = add_to_list k 1 c.lists;
      }) in
      record added { min_freq = if ltb added.min_freq 1 then added.min_freq else 1 }

  -- KLfuCache::putInternal
  unfoldable pub put_internal : K → V → Cache K V → Option (Cache K V)
  unfolding kick_out add_node
  put_internal k v c =
      if length c.nodes == c.capacity
      then elim (kick_out c) [ none ↦ none | some c' ↦ some (add_node k v c') ]
      else some (add_node k v c)

  -- KLfuCache::put
  unfoldable pub put : K → V → Cache K V → Option (Cache K V)
  unfolding put_internal get_internal
  put k v c = if c.capacity == 0 then some c else elim (lookup k c.nodes) [
    | some n ↦ some (get_internal k (record n { value = v }) c)
    | none ↦ put_internal k v c
  ]

  -- KLfuCache::get
  unfoldable pub get : K → Cache K V → Option V × Cache K V
  unfolding get_internal
  get k c = elim (lookup k c.nodes) [
    | some n ↦ (some n.value, get_internal k n c)
    | none ↦ (none, c)
  ]
