-- ===== src/MemoryPool/Tests.antt =====
-- A pool for slots of 24 bytes, as include/memoryPool.h makes it, with two slots in use.
use jingjie_ar.MemoryPool.{
  deallocate, pad_pointer, next_slot, slot_base_size, allocate_new_block, init, take_slot,
  MemoryPool, allocate,
}
use jingjie_ar.MemoryPool.Invariant.{init-IsPool, allocate-IsPool, IsPool}
use jingjie_ar.Prelude.{ℕ, ◌*◌, ◌≡◌, refl, inl, [], ◌∷◌, arith, nat_eq, list_eq}

abbrev new_pool : MemoryPool
new_pool = init 4096 (3 * slot_base_size)

new_pool-IsPool : IsPool [] new_pool
new_pool-IsPool = init-IsPool 4096 3 (omega arith) (omega arith)

-- The block that operator new gives.
abbrev block : ℕ
block = 65536

abbrev one_used : ℕ × MemoryPool
one_used = allocate block new_pool

one_used-IsPool : IsPool (one_used.0 ∷ []) one_used.1
one_used-IsPool = allocate-IsPool block [] new_pool new_pool-IsPool tt

program : Unit {0}
unfolding allocate take_slot allocate_new_block next_slot pad_pointer init deallocate
program = tt

one_used_address : one_used.0 ≡ 65560
unfolding program
one_used_address = refl

-- The second slot comes from the same block, so that another block would be as good.
allocate-IsPool_example :
    IsPool ((allocate 131072 one_used.1).0 ∷ one_used.0 ∷ []) (allocate 131072 one_used.1).1
unfolding program
allocate-IsPool_example =
    allocate-IsPool 131072 (one_used.0 ∷ []) one_used.1 one_used-IsPool ((inl (omega arith)), tt)
