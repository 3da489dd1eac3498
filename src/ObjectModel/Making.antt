-- ===== src/ObjectModel/Making.antt =====
-- What the two instantiations leave in memory.
use Prim.Native.Nat.{bit_or}
use slvm_native.Common.{
  ℕ, zero, suc, ◌+◌, ◌*◌, ◌%◌, ◌^◌, ◌≤◌, ◌<◌, ◌≡◌, ◌≢◌, ◌⊎◌, inl, inr, refl, sym, ◌∙◌, true, false,
  leb, arith, ◌++◌, ok, ◌>>=◌, bind_ok, Returns, ==_refl, ne→==,
}
use slvm_native.Common.Words.{add_word, sub_word, mul_word}
use slvm_native.Memory.{Allocation, stack_heap_allocate}
use slvm_native.Memory.Bump.{IsHeap, IsRequested, IsBlock, stack_heap_allocate-IsBlock}
use slvm_native.ObjectModel.{
  ObjectMemory, write_word, fill_words, initial_header, place_object, big_preheader,
  instantiate_object, instantiate_mixed_object,
}

pub fill_words_outside :
    (words : ℕ → ℕ) (address n value x : ℕ)
    → address + n * 8 < 2 ^ 64
    → (x < address) ⊎ (address + n * 8 ≤ x)
    → fill_words words address n value x ≡ words x
unfolding fill_words
fill_words_outside words address zero value x h out = refl
fill_words_outside words address (suc n) value x h out =
    let next : add_word address 8 ≡ address + 8 = omega arith in
    let rest =
      fill_words_outside (write_word words address value) (address + 8) n value x (omega arith)
        (omega arith) in
    rw next (ground (arith, rest))

pub fill_words_inside :
    (words : ℕ → ℕ) (address n value i : ℕ)
    → address + n * 8 < 2 ^ 64
    → i < n
    → fill_words words address n value (address + i * 8) ≡ value
unfolding fill_words
fill_words_inside words address zero value i h k = elim k [ ]
fill_words_inside words address (suc n) value zero h k =
    let next : add_word address 8 ≡ address + 8 = omega arith in
    let kept =
      fill_words_outside (write_word words address value) (address + 8) n value (address + 0)
        (omega arith) (omega arith) in
    rw next (kept ∙ ground arith)
fill_words_inside words address (suc n) value (suc i) h k =
    let next : add_word address 8 ≡ address + 8 = omega arith in
    let rest =
      fill_words_inside (write_word words address value) (address + 8) n value i (omega arith)
        (omega arith) in
    let place : address + 8 + i * 8 ≡ address + suc i * 8 = omega arith in rw (next, sym place) rest

-- A memory whose heap is in order, with every byte below the committed size asked for.
pub record IsMemory (m : ObjectMemory) : Type 0 where
  pub heap : IsHeap m.heap
  pub requested : IsRequested m.heap m.calls

-- The outcome of an instantiation of `bytes` bytes with a header of `slots` slots: a new object
-- behind everything that was there, and nothing written before it.
pub record IsMade (m : ObjectMemory) (bytes slots : ℕ) (r : ℕ × ObjectMemory) : Type 0 where
  pub memory : IsMemory r.1
  pub aligned : r.0 % 8 ≡ 0
  pub above : m.heap.start + m.heap.size + 8 ≤ r.0
  pub near : r.0 < m.heap.start + m.heap.size + 40
  pub ends : r.0 + 8 + bytes ≡ r.1.heap.start + r.1.heap.size
  pub header : r.1.headers r.0 ≡ initial_header r.0 slots
  pub old_words : (x : ℕ) → x < m.heap.start + m.heap.size → r.1.words x ≡ m.words x
  pub old_headers : (o : ℕ) → o ≢ r.0 → r.1.headers o ≡ m.headers o

-- A fresh block with its header.
place_object-IsMade :
    (m : ObjectMemory) (a : Allocation) (preheader : ℕ) (words : ℕ → ℕ) (slots bytes : ℕ)
    → (preheader ≡ 8) ⊎ (preheader ≡ 24)
    → IsBlock m.heap 16 (preheader + 8 + bytes) a
    → IsRequested a.heap (a.commits ++ m.calls)
    → m.heap.start + m.heap.size + 5000 < 2 ^ 64
    → ((x : ℕ) → x < m.heap.start + m.heap.size → words x ≡ m.words x)
    → IsMade m bytes slots (place_object m a preheader words slots)
unfolding place_object
place_object-IsMade m a preheader words slots bytes sized block requested room old =
    let oop : add_word a.block preheader ≡ a.block + preheader = omega (arith, block.tight) in
    rw oop (record {
      memory = record { heap = block.valid; requested = requested };
      aligned = omega (arith, block.aligned);
      above = omega (arith, block.above);
      near = omega (arith, block.tight);
      ends = omega (arith, block.ends);
      header = rw (==_refl (a.block + preheader)) refl;
      old_words = old;
      old_headers = λ o h. rw (ne→== o (a.block + preheader) h) refl;
    })

module _ (m : ObjectMemory) (slot_count : ℕ) (is : IsMemory m)
    (room : m.heap.start + m.heap.size + slot_count * 8 + 5000 < 2 ^ 64) where
  abbrev small_object : Allocation → ℕ × ObjectMemory
  small_object a = place_object m a 8 (write_word m.words a.block 0) slot_count

  abbrev big_object : ℕ → Allocation → ℕ × ObjectMemory
  big_object counts a = place_object m a 24 (big_preheader m.words a.block counts) 255

  -- The allocation, with its numbers written out, and what is made of the block.
  instantiate_small_lem :
      slot_count < 255
      → instantiate_object m slot_count
        ≡ (stack_heap_allocate m.heap 16 (16 + slot_count * 8) >>= (λ a. ok (small_object a)))
  unfolding instantiate_object
  instantiate_small_lem small =
      let test : leb 255 slot_count ≡ false = ground arith in
      let total : add_word 16 (mul_word slot_count 8) ≡ 16 + slot_count * 8 = omega arith in
      rw (test, total)

  instantiate_big_lem :
      255 ≤ slot_count
      → instantiate_object m slot_count ≡ (
          stack_heap_allocate m.heap 16 (32 + slot_count * 8)
          >>= (λ a. ok (big_object slot_count a)))
  unfolding instantiate_object
  instantiate_big_lem big =
      let test : leb 255 slot_count ≡ true = ground arith in
      let total : add_word 32 (mul_word slot_count 8) ≡ 32 + slot_count * 8 = omega arith in
      rw (test, total)

  instantiate_mixed_lem :
      (oop_slot_count : ℕ)
      → instantiate_mixed_object m oop_slot_count slot_count ≡ (
          stack_heap_allocate m.heap 16 (32 + slot_count * 8)
          >>= (λ a. ok (big_object (bit_or slot_count (oop_slot_count * 2 ^ 32 % 2 ^ 64)) a)))
  unfolding instantiate_mixed_object
  instantiate_mixed_lem oop_slot_count =
      let total : add_word 32 (mul_word slot_count 8) ≡ 32 + slot_count * 8 = omega arith in
      rw total

  -- Below 255 slots the pre-header has one word.
  pub instantiate_object_small :
      slot_count < 255
      → Returns (instantiate_object m slot_count) (IsMade m (slot_count * 8) slot_count)
  instantiate_object_small small =
      let (a, run, (block, requested)) =
        stack_heap_allocate-IsBlock m.heap 16 (16 + slot_count * 8) m.calls is.heap is.requested
          (inl refl) (omega arith) in
      (
        small_object a,
        instantiate_small_lem small ∙ bind_ok (λ a. ok (small_object a)) run,
        place_object-IsMade m a 8 (write_word m.words a.block 0) slot_count (slot_count * 8)
            (inl refl) block requested (omega arith) λ x h. ground (arith, block.above),
      )

  -- The word before the header holds the counts of a big object.
  abbrev pub Counted : ℕ → ℕ × ObjectMemory → Type 0
  Counted counts r = r.1.words (sub_word r.0 8) ≡ counts

  big_block :
      (counts : ℕ) (a : Allocation)
      → IsBlock m.heap 16 (32 + slot_count * 8) a
      → IsRequested a.heap (a.commits ++ m.calls)
      → IsMade m (slot_count * 8) 255 (big_object counts a) × Counted counts (big_object counts a)
  unfolding place_object
  big_block counts a block requested =
      let flag : add_word a.block 16 ≡ a.block + 16 = omega (arith, block.tight) in
      let word : sub_word (add_word a.block 24) 8 ≡ a.block + 16 = omega (arith, block.tight) in
      (
        place_object-IsMade m a 24 (big_preheader m.words a.block counts) 255 (slot_count * 8)
            (inr refl) block requested (omega arith) λ x h. rw flag (ground (arith, block.above)),
        rw (flag, word) (ground arith),
      )

  pub instantiate_object_big :
      255 ≤ slot_count
      → Returns
          (instantiate_object m slot_count)
          λ r. IsMade m (slot_count * 8) 255 r × Counted slot_count r
  instantiate_object_big big =
      let (a, run, (block, requested)) =
        stack_heap_allocate-IsBlock m.heap 16 (32 + slot_count * 8) m.calls is.heap is.requested
          (inl refl) (omega arith) in
      (
        big_object slot_count a,
        instantiate_big_lem big ∙ bind_ok (λ a. ok (big_object slot_count a)) run,
        big_block slot_count a block requested,
      )

  pub instantiate_mixed_object-IsMade :
      (oop_slot_count : ℕ)
      → Returns (instantiate_mixed_object m oop_slot_count slot_count) λ r.
        IsMade m (slot_count * 8) 255 r
        × Counted (bit_or slot_count (oop_slot_count * 2 ^ 32 % 2 ^ 64)) r
  instantiate_mixed_object-IsMade oop_slot_count =
      let counts = bit_or slot_count (oop_slot_count * 2 ^ 32 % 2 ^ 64) in
      let (a, run, (block, requested)) =
        stack_heap_allocate-IsBlock m.heap 16 (32 + slot_count * 8) m.calls is.heap is.requested
          (inl refl) (omega arith) in
      (
        big_object counts a,
        instantiate_mixed_lem oop_slot_count ∙ bind_ok (λ a. ok (big_object counts a)) run,
        big_block counts a block requested,
      )
