-- ===== src/MemoryPool/Invariant.antt =====
-- The invariant of the pools of include/memoryPool.h and memory/memoryPool.cc.
use jingjie_ar.MemoryPool.{
  pool_count, max_slot_size, bucket, take_slot, allocate, deallocate, allocate_new_block,
  pad_pointer, init, next_slot, slot_base_size, MemoryPool,
}
use jingjie_ar.MemoryPool.Slots.{
  All-give_back, Pairwise-give_back, All-insert, All-impl, Apart, Pairwise-insert, Pairwise, All,
}
use native.Mathlib.Nat.{mod-lt}
use jingjie_ar.Prelude.{
  ℕ, suc, ◌+◌, ◌*◌, ◌/◌, ◌≤◌, ◌<◌, ◌≡◌, refl, subst, ◌⊎◌, inl, inr, true, List, [], ◌∷◌, ◌++◌,
  arith, leb, if_ind, ◌==◌, nat_eq, list_eq,
}

-- A slot between the header and the end of one of the blocks.
abbrev pub InBlocks : ℕ → ℕ → List ℕ → ℕ → Type 0
InBlocks size block [] p = p < 0
InBlocks size block (b ∷ bs) p =
    ((b + slot_base_size ≤ p) × (p + size ≤ b + block)) ⊎ InBlocks size block bs p

-- A slot that keeps off the bytes from the cursor to the end of the current block.
abbrev pub OffCursor : MemoryPool → ℕ → Type 0
OffCursor p y = (y + p.slot_size ≤ p.current) ⊎ (p.last + p.slot_size ≤ y + 1)

-- Where the cursor stands: past the end, or behind the header of the newest block.
abbrev pub HasRoom : ℕ → ℕ → ℕ → ℕ → List ℕ → Type 0
HasRoom size block current last [] = last ≤ current
HasRoom size block current last (b ∷ bs) =
    (b + slot_base_size ≤ current) × (last + size ≡ b + block + 1)

-- A pool whose slots in use are `live`: no two slots, free or in use, overlap, all lie in its blocks,
-- and the rest of the current block is nobody's. Slots are whole words, and a block has room for one.
pub record IsPool (live : List ℕ) (p : MemoryPool) : Type 0 where
  pub pairwise : Pairwise p.slot_size (p.free_list ++ live)
  pub inside : All (InBlocks p.slot_size p.block_size p.blocks) (p.free_list ++ live)
  pub off_cursor : All (OffCursor p) (p.free_list ++ live)
  pub room : HasRoom p.slot_size p.block_size p.current p.last p.blocks
  pub words : p.slot_size / slot_base_size * slot_base_size ≡ p.slot_size
  pub fits : slot_base_size + 2 * p.slot_size ≤ p.block_size
  pub some_size : 0 < p.slot_size

-- A new block of operator new overlaps no slot in use.
abbrev pub IsFresh : ℕ → List ℕ → MemoryPool → Type 0
IsFresh fresh live p = All (λ y. (y + p.slot_size ≤ fresh) ⊎ (fresh + p.block_size ≤ y)) live

-- A pool that init makes has nothing in use.
pub init-IsPool :
    (block k : ℕ)
    → 0 < k
    → slot_base_size + 2 * (k * slot_base_size) ≤ block
    → IsPool [] (init block (k * slot_base_size))
unfolding init
init-IsPool block k positive h = record {
  pairwise = tt;
  inside = tt;
  off_cursor = tt;
  room = omega arith;
  words = omega arith;
  fits = h;
  some_size = omega arith;
}

HasRoom-inside :
    (size block current last : ℕ) (blocks : List ℕ)
    → HasRoom size block current last blocks
    → current < last
    → InBlocks size block blocks current
HasRoom-inside size block current last [] h room = omega arith
HasRoom-inside size block current last (b ∷ bs) (behind, end) room = inl (behind, omega arith)

HasRoom-later :
    (size block current last n : ℕ) (blocks : List ℕ)
    → HasRoom size block current last blocks
    → HasRoom size block (current + n) last blocks
HasRoom-later size block current last n [] h = omega arith
HasRoom-later size block current last n (b ∷ bs) (behind, end) = (omega arith, end)

OffCursor-Apart :
    (p : MemoryPool) (y : ℕ) → p.current < p.last → OffCursor p y → Apart p.slot_size p.current y
OffCursor-Apart p y room (inl h) = inr h
OffCursor-Apart p y room (inr h) = inl (omega arith)

OffCursor-next : (p : MemoryPool) (y : ℕ) → OffCursor p y → OffCursor (next_slot p).1 y
unfolding next_slot
OffCursor-next p y (inl h) = inl (omega arith)
OffCursor-next p y (inr h) = inr h

-- The cursor's slot, where there is room for it.
next_slot-IsPool :
    (live : List ℕ) (p : MemoryPool)
    → IsPool live p
    → p.current < p.last
    → IsPool ((next_slot p).0 ∷ live) (next_slot p).1
unfolding next_slot
next_slot-IsPool live p v room = record {
  pairwise =
      Pairwise-insert p.slot_size p.free_list live p.current
        (All-impl (p.free_list ++ live) (λ y. OffCursor-Apart p y room) v.off_cursor) v.pairwise;
  inside =
      All-insert (InBlocks p.slot_size p.block_size p.blocks) p.free_list live p.current
        (HasRoom-inside p.slot_size p.block_size p.current p.last p.blocks v.room room) v.inside;
  off_cursor =
      All-insert (OffCursor (next_slot p).1) p.free_list live p.current
        (inl (omega (arith, v.words)))
        (All-impl (p.free_list ++ live) (OffCursor-next p) v.off_cursor);
  room =
      HasRoom-later p.slot_size p.block_size p.current p.last
        (p.slot_size / slot_base_size * slot_base_size) p.blocks v.room;
  words = v.words;
  fits = v.fits;
  some_size = v.some_size;
}

pad_pointer-lt : (p align : ℕ) → 0 < align → pad_pointer p align < align
unfolding pad_pointer
pad_pointer-lt p align h = mod-lt _ h

allocate_new_block-IsPool :
    (fresh : ℕ) (live : List ℕ) (p : MemoryPool)
    → IsPool live p
    → p.free_list ≡ []
    → IsFresh fresh live p
    → IsPool live (allocate_new_block fresh p)
      × ((allocate_new_block fresh p).current < (allocate_new_block fresh p).last)
unfolding allocate_new_block
allocate_new_block-IsPool fresh live p v none_free new =
    let pad : pad_pointer (fresh + slot_base_size) p.slot_size < p.slot_size =
      pad_pointer-lt (fresh + slot_base_size) p.slot_size v.some_size in
    (
      record {
        pairwise = subst (λ f. Pairwise p.slot_size (f ++ live)) none_free v.pairwise;
        inside =
            All-impl live (λ y h. inr h)
              (subst (λ f. All (InBlocks p.slot_size p.block_size p.blocks) (f ++ live)) none_free
                v.inside);
        off_cursor =
            All-impl live
              (λ y h. elim h [
                | inl a ↦ inl (omega (arith, v.fits, pad))
                | inr b ↦ inr (omega (arith, v.fits, pad))
              ])
              new;
        room = (omega (arith, v.fits, pad), omega (arith, v.fits, pad));
        words = v.words;
        fits = v.fits;
        some_size = v.some_size;
      },
      omega (arith, v.fits, pad),
    )

absurd_zero : {A : Type 0} {s : ℕ} → 0 < s → (s == 0) ≡ true → A
absurd_zero h e = ground (arith, h, e)

take_slot-IsPool :
    (fresh : ℕ) (live : List ℕ) (p : MemoryPool) (free : List ℕ)
    → IsPool live p
    → IsFresh fresh live p
    → p.free_list ≡ free
    → IsPool ((take_slot fresh p free).0 ∷ live) (take_slot fresh p free).1
unfolding take_slot
take_slot-IsPool fresh live p [] v new e =
    if_ind (λ (r : ℕ × MemoryPool). IsPool (r.0 ∷ live) r.1) (leb p.last p.current)
      (λ full.
        let (w, room) = allocate_new_block-IsPool fresh live p v e new in
        next_slot-IsPool live (allocate_new_block fresh p) w room)
      (λ some_room. next_slot-IsPool live p v (ground (arith, some_room)))
take_slot-IsPool fresh live p (s ∷ rest) v new e =
    let (apart, pairwise) = subst (λ f. Pairwise p.slot_size (f ++ live)) e v.pairwise in
    let (within, inside) =
      subst (λ f. All (InBlocks p.slot_size p.block_size p.blocks) (f ++ live)) e v.inside in
    let (off, others_off) = subst (λ f. All (OffCursor p) (f ++ live)) e v.off_cursor in
    record {
      pairwise = Pairwise-insert p.slot_size rest live s apart pairwise;
      inside = All-insert (InBlocks p.slot_size p.block_size p.blocks) rest live s within inside;
      off_cursor = All-insert (OffCursor p) rest live s off others_off;
      room = v.room;
      words = v.words;
      fits = v.fits;
      some_size = v.some_size;
    }

-- allocate hands out a slot that lies in a block and overlaps no slot in use, if a block that it
-- asks for overlaps none, and leaves a pool in order: no two slots, in use or free, share a byte.
pub allocate-IsPool :
    (fresh : ℕ) (live : List ℕ) (p : MemoryPool)
    → IsPool live p
    → IsFresh fresh live p
    → IsPool ((allocate fresh p).0 ∷ live) (allocate fresh p).1
unfolding allocate
allocate-IsPool fresh live p v new = take_slot-IsPool fresh live p p.free_list v new refl

-- A slot in use that is given back leaves a pool in order, of which it is a free slot.
pub deallocate-IsPool :
    (before after : List ℕ) (s : ℕ) (p : MemoryPool)
    → IsPool (before ++ s ∷ after) p
    → 0 < s
    → IsPool (before ++ after) (deallocate s p)
unfolding deallocate
deallocate-IsPool before after s p v there =
    if_ind (IsPool (before ++ after)) (s == 0) (λ null. absurd_zero there null)
      (λ not_null. record {
        pairwise = Pairwise-give_back p.slot_size p.free_list before after s v.pairwise;
        inside =
            All-give_back (InBlocks p.slot_size p.block_size p.blocks) p.free_list before after s
              v.inside;
        off_cursor = All-give_back (OffCursor p) p.free_list before after s v.off_cursor;
        room = v.room;
        words = v.words;
        fits = v.fits;
        some_size = v.some_size;
      })

-- The pool that useMemory chooses for up to 512 bytes is one of the 64, and its slots hold them.
pub bucket-fits :
    (size : ℕ)
    → 0 < size
    → size ≤ max_slot_size
    → (bucket size < pool_count) × (size ≤ suc (bucket size) * slot_base_size)
unfolding bucket
bucket-fits size h k = (omega arith, omega arith)
