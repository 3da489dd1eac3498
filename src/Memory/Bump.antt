-- ===== src/Memory/Bump.antt =====
-- The numbers of slvm_StackHeap_allocate: aligned blocks, each behind the ones before it, and the
-- `mprotect` calls that ask for their pages.
use slvm_native.Common.{
  ℕ, ◌+◌, ◌-◌, ◌*◌, ◌/◌, ◌%◌, ◌^◌, ◌≤◌, ◌<◌, ◌≡◌, ◌≢◌, ◌⊎◌, inl, inr, refl, arith, List, [], ◌∷◌,
  ◌++◌, Returns, ne→==, ok, lt→ltb, le→ltb,
}
use slvm_native.Common.Words.{sub_word, add_word}
use slvm_native.Common.Bits.{bit_and_down16, bit_and_down4096}
use slvm_native.Memory.{
  StackHeap, Allocation, Mprotect, Protection, map_permissions, vm_change_range_permissions,
  vm_commit_range, align_word, stack_heap_allocate,
}

align_word_16 : (x : ℕ) → x + 16 < 2 ^ 64 → align_word x 16 ≡ (x + 15) / 16 * 16
unfolding align_word
align_word_16 x h =
    let sum : sub_word (add_word x 16) 1 ≡ x + 15 = omega arith in
    rw sum (bit_and_down16 (x + 15) (omega arith))

align_word_4096 : (x : ℕ) → x + 4096 < 2 ^ 64 → align_word x 4096 ≡ (x + 4095) / 4096 * 4096
unfolding align_word
align_word_4096 x h =
    let sum : sub_word (add_word x 4096) 1 ≡ x + 4095 = omega arith in
    rw sum (bit_and_down4096 (x + 4095) (omega arith))

-- The two alignments that the runtime asks for: an object's and a stack segment's.
abbrev pub IsAlignment : ℕ → Type 0
IsAlignment a = (a ≡ 16) ⊎ (a ≡ 4096)

-- Rounding up to the alignment.
pub align_word_lem :
    (x a : ℕ)
    → IsAlignment a
    → x + a < 2 ^ 64
    → (align_word x a % a ≡ 0) × (x ≤ align_word x a) × (align_word x a < x + a)
align_word_lem x a (inl e) h = rw (e, align_word_16 x (omega arith)) (omega arith)
align_word_lem x a (inr e) h = rw (e, align_word_4096 x (omega arith)) (omega arith)

-- What the operations keep: the used part is below the committed size, which is of whole pages, at
-- an aligned address.
pub record IsHeap (heap : StackHeap) : Type 0 where
  pub mapped : heap.start ≢ 0
  pub at_page : heap.start % 4096 ≡ 0
  pub within : heap.size ≤ heap.commited_capacity
  pub whole_pages : heap.commited_capacity % 4096 ≡ 0

-- The byte at `address` lies in a range for which one of the calls asked for protection `p`,
-- whether the kernel accepted the call or not.
abbrev pub Requested : Protection → ℕ → List Mprotect → Type 0
Requested p address [] = ⊥
Requested p address (c ∷ cs) =
    ((c.address ≤ address) × (address < c.address + c.bytes) × (c.protection ≡ p))
    ⊎ Requested p address cs

-- Every byte below the committed size was asked for with the permissions of the heap.
abbrev pub IsRequested : StackHeap → List Mprotect → Type 0
IsRequested heap calls =
    (i : ℕ)
    → i < heap.commited_capacity
    → Requested (map_permissions heap.permissions) (heap.start + i) calls

-- The block that an allocation of `bytes` bytes returns.
pub record IsBlock (heap : StackHeap) (alignment bytes : ℕ) (r : Allocation) : Type 0 where
  pub aligned : r.block % alignment ≡ 0
  pub above : heap.start + heap.size ≤ r.block
  pub tight : r.block < heap.start + heap.size + alignment
  pub ends : r.block + bytes ≡ heap.start + r.heap.size
  pub same_start : r.heap.start ≡ heap.start
  pub same_capacity : r.heap.capacity ≡ heap.capacity
  pub valid : IsHeap r.heap

-- What an allocation that stays below 2 ^ 64 computes, with the numbers written out.
module _ (heap : StackHeap) (alignment bytes : ℕ) (is : IsHeap heap) (known : IsAlignment alignment)
    (room : heap.start + heap.size + alignment + bytes + 4096 < 2 ^ 64) where
  abbrev pub offset : ℕ
  offset = align_word heap.size alignment

  abbrev pub required : ℕ
  required = align_word (offset + bytes) 4096

  pub offset_lem :
      (offset % alignment ≡ 0) × (heap.size ≤ offset) × (offset < heap.size + alignment)
  offset_lem = align_word_lem heap.size alignment known (omega arith)

  pub required_lem :
      (required % 4096 ≡ 0) × (offset + bytes ≤ required) × (required < offset + bytes + 4096)
  required_lem = align_word_lem (offset + bytes) 4096 (inr refl) (omega (arith, offset_lem))

  -- The heap after the call, when its committed part becomes `n` bytes.
  abbrev pub grown : ℕ → StackHeap
  grown n = record heap { size = offset + bytes; commited_capacity = n }

  pub allocate_committed :
      required ≤ heap.commited_capacity
      → stack_heap_allocate heap alignment bytes
        ≡ ok (record {
          block = heap.start + offset;
          heap = grown heap.commited_capacity;
          commits = [];
        })
  unfolding stack_heap_allocate
  allocate_committed h =
      let sum : add_word offset bytes ≡ offset + bytes = omega (arith, offset_lem) in
      let place : add_word heap.start offset ≡ heap.start + offset = omega (arith, offset_lem) in
      rw (sum, place, ne→== heap.start 0 is.mapped, le→ltb heap.commited_capacity required h)

  pub allocate_missing :
      heap.commited_capacity < required
      → stack_heap_allocate heap alignment bytes
        ≡ ok (record {
          block = heap.start + offset;
          heap = grown required;
          commits =
              record {
                address = heap.start + heap.commited_capacity;
                bytes = required - heap.commited_capacity;
                protection = map_permissions heap.permissions;
              }
              ∷ [];
        })
  unfolding stack_heap_allocate vm_commit_range vm_change_range_permissions
  allocate_missing h =
      let sum : add_word offset bytes ≡ offset + bytes = omega (arith, offset_lem) in
      let place : add_word heap.start offset ≡ heap.start + offset = omega (arith, offset_lem) in
      let base : add_word heap.start heap.commited_capacity ≡ heap.start + heap.commited_capacity =
        omega (arith, offset_lem, required_lem) in
      let gap : sub_word required heap.commited_capacity ≡ required - heap.commited_capacity =
        omega (arith, offset_lem, required_lem) in
      rw (
        sum,
        place,
        base,
        gap,
        ne→== heap.start 0 is.mapped,
        lt→ltb heap.commited_capacity required h,
      )

aligned_sum : (start o a : ℕ) → IsAlignment a → start % 4096 ≡ 0 → o % a ≡ 0 → (start + o) % a ≡ 0
aligned_sum start o a (inl e) h k = rw e (let k' = rw e at k in omega arith)
aligned_sum start o a (inr e) h k = rw e (let k' = rw e at k in omega arith)

pub grown-IsBlock :
    (heap : StackHeap) (alignment bytes n : ℕ) (calls : List Mprotect) (is : IsHeap heap)
    (known : IsAlignment alignment)
    (room : heap.start + heap.size + alignment + bytes + 4096 < 2 ^ 64)
    → offset heap alignment bytes is known room + bytes ≤ n
    → n % 4096 ≡ 0
    → IsBlock heap alignment bytes (record {
      block = heap.start + offset heap alignment bytes is known room;
      heap = grown heap alignment bytes is known room n;
      commits = calls;
    })
grown-IsBlock heap alignment bytes n calls is known room fits whole =
    let (down, low, high) = offset_lem heap alignment bytes is known room in
    record {
      aligned = aligned_sum heap.start _ alignment known is.at_page down;
      above = omega arith;
      tight = omega arith;
      ends = omega arith;
      same_start = refl;
      same_capacity = refl;
      valid = record {
        mapped = is.mapped;
        at_page = is.at_page;
        within = fits;
        whole_pages = whole;
      };
    }

pub le_or_lt : (a b : ℕ) → (a ≤ b) ⊎ (b < a)
le_or_lt a b = omega arith

-- Below the end of the address space an allocation returns an aligned block of the size asked
-- for, above every block handed out before, wastes less than the alignment, keeps the heap well
-- formed, and its `mprotect` calls ask for every byte below the committed size.
pub stack_heap_allocate-IsBlock :
    (heap : StackHeap) (alignment bytes : ℕ) (calls : List Mprotect)
    → IsHeap heap
    → IsRequested heap calls
    → IsAlignment alignment
    → heap.start + heap.size + alignment + bytes + 4096 < 2 ^ 64
    → Returns
        (stack_heap_allocate heap alignment bytes)
        λ r. IsBlock heap alignment bytes r × IsRequested r.heap (r.commits ++ calls)
stack_heap_allocate-IsBlock heap alignment bytes calls is requested known room =
    let (whole, enough, _) = required_lem heap alignment bytes is known room in
    elim (le_or_lt (required heap alignment bytes is known room) heap.commited_capacity) [
      | inl fits ↦ (
        _,
        allocate_committed heap alignment bytes is known room fits,
        (
          grown-IsBlock heap alignment bytes heap.commited_capacity [] is known room (omega arith)
              is.whole_pages,
          requested,
        ),
      )
      | inr short ↦ (
        _,
        allocate_missing heap alignment bytes is known room short,
        (
          grown-IsBlock heap alignment bytes _ _ is known room enough whole,
          λ i h. elim (le_or_lt heap.commited_capacity i) [
            | inl new ↦ inl (omega arith, omega arith, refl)
            | inr old ↦ inr (requested i old)
          ],
        ),
      )
    ]
