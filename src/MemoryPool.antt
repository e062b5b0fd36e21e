-- ===== src/MemoryPool.antt =====
-- The pools of fixed slots of memory/memoryPool.cc and include/memoryPool.h, each call as one step.
-- An address is a number below 2 ^ 64 and null is 0; the list of free slots, which the source threads
-- through the slots, is a list of addresses. `fresh` is what operator new gives if it is called.
pub mod Slots
pub mod Invariant
mod Tests
use jingjie_ar.Prelude.{
  ℕ, zero, suc, ◌+◌, ◌-◌, ◌*◌, ◌/◌, ◌%◌, ◌^◌, ◌≤◌, ◌<◌, min, max, ◌≡◌, refl, sym, ap, ap₂, ◌∙◌,
  subst, ◌≢◌, ◌↔◌, ◌⊎◌, inl, inr, Bool, true, false, not, ◌&&◌, ◌||◌, Option, none, some, List, [],
  ◌∷◌, ◌++◌, map, reverse, append-nil, append_assoc, reverse-cons, arith, ltb, leb, if◌then◌else◌,
  ltb→lt, lt→ltb, leb→le, nat_beq_iff, tests, Bool-cases, if_ind, Option-cases, some_inj, Eq, ◌==◌,
  ==_iff, ==_refl, nat_eq, list_eq, lookup, insert, erase, has_key, lookup-insert,
  lookup-insert_self, lookup-erase, has_key-insert, IsMap, insert-IsMap, insert_new, AreApart,
  AreApart-insert, AreApart-nil, length, get_elem?, set, get_or, take, drop, replicate,
  length-append, length-take, length-drop, length-replicate, length-map, take-append-drop,
  drop_of_length-le, take_of_length-le, drop_nil, take_nil, drop-drop, drop-take, take-take_le,
  drop-append_le, take-append_le, take-append_ge, drop-append_ge, take-append_length,
  drop-append_length,
}

abbrev pub pool_count : ℕ
pool_count = 64

abbrev pub slot_base_size : ℕ
slot_base_size = 8

abbrev pub max_slot_size : ℕ
max_slot_size = 512

pub record MemoryPool : Type 0 where
  pub block_size : ℕ
  pub slot_size : ℕ
  pub blocks : List ℕ
  pub current : ℕ
  pub free_list : List ℕ
  pub last : ℕ

-- MemoryPool::init, on a pool that was made with the block size.
unfoldable pub init : ℕ → ℕ → MemoryPool
init block slot = record {
  block_size = block;
  slot_size = slot;
  blocks = [];
  current = 0;
  free_list = [];
  last = 0;
}

-- MemoryPool::padPointer, with the wrap-around of size_t in the difference.
unfoldable pub pad_pointer : ℕ → ℕ → ℕ
pad_pointer p align = (align + 2 ^ 64 - p) % 2 ^ 64 % align

-- MemoryPool::allocateNewBlock
unfoldable pub allocate_new_block : ℕ → MemoryPool → MemoryPool
unfolding pad_pointer
allocate_new_block fresh p = record p {
  blocks = fresh ∷ p.blocks;
  current = fresh + slot_base_size + pad_pointer (fresh + slot_base_size) p.slot_size;
  last = fresh + p.block_size - p.slot_size + 1;
  free_list = [];
}

-- The slot at the cursor; the cursor moves by whole words of 8 bytes.
unfoldable pub next_slot : MemoryPool → ℕ × MemoryPool
next_slot p =
    (p.current, record p { current = p.current + p.slot_size / slot_base_size * slot_base_size })

-- The free slot, if there is one; the next slot of the current block or of a new one otherwise.
unfoldable pub take_slot : ℕ → MemoryPool → List ℕ → ℕ × MemoryPool
unfolding allocate_new_block next_slot
take_slot fresh p (s ∷ rest) = (s, record p { free_list = rest })
take_slot fresh p [] =
    if leb p.last p.current then next_slot (allocate_new_block fresh p) else next_slot p

-- MemoryPool::allocate
unfoldable pub allocate : ℕ → MemoryPool → ℕ × MemoryPool
unfolding take_slot
allocate fresh p = take_slot fresh p p.free_list

-- MemoryPool::deallocate
unfoldable pub deallocate : ℕ → MemoryPool → MemoryPool
deallocate s p = if s == 0 then p else record p { free_list = s ∷ p.free_list }

-- HashBucket::getMemoryPool, at its first call: the pools for slots of 8, 16, … bytes.
unfoldable pub init_pools : ℕ → ℕ → List MemoryPool
unfolding init
init_pools i zero = []
init_pools i (suc n) = init 4096 (suc i * slot_base_size) ∷ init_pools (suc i) n

-- The pool that useMemory and freeMemory choose.
unfoldable pub bucket : ℕ → ℕ
bucket size = (size + 7) / slot_base_size - 1

-- HashBucket::useMemory; `none` where there is no such pool.
unfoldable pub use_memory : ℕ → ℕ → List MemoryPool → Option (ℕ × List MemoryPool)
unfolding allocate bucket
use_memory fresh size pools =
    if size == 0
    then some (0, pools)
    else if ltb max_slot_size size
    then some (fresh, pools)
    else elim (get_elem? pools (bucket size)) [
      | none ↦ none
      | some p ↦ some ((allocate fresh p).0, set pools (bucket size) (allocate fresh p).1)
    ]

-- HashBucket::freeMemory
unfoldable pub free_memory : ℕ → ℕ → List MemoryPool → Option (List MemoryPool)
unfolding deallocate bucket
free_memory s size pools =
    if s == 0
    then some pools
    else if ltb max_slot_size size
    then some pools
    else elim (get_elem? pools (bucket size)) [
      | none ↦ none
      | some p ↦ some (set pools (bucket size) (deallocate s p))
    ]
