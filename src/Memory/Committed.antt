-- ===== src/Memory/Committed.antt =====
-- slvm_StackHeap_allocate with the kernel's answers to the `mprotect` calls: within the capacity of
-- the heap, and past it.
use slvm_native.Common.{
  ℕ, ◌+◌, ◌%◌, ◌^◌, ◌≤◌, ◌<◌, ◌≡◌, ◌&&◌, inl, inr, refl, Bool, true, false, Option, none, some,
  arith, List, [], ◌∷◌, ◌++◌, Returns, if◌then◌else◌, ltb, leb,
}
use slvm_native.Memory.{StackHeap, Mprotect, Protection, map_permissions, stack_heap_allocate}
use slvm_native.Memory.Bump.{
  IsAlignment, IsHeap, IsBlock, required, offset_lem, required_lem, allocate_committed,
  allocate_missing, grown-IsBlock, le_or_lt,
}

-- The protection of the byte at `address` after some calls, the newest first: that of the newest
-- call over the byte that the kernel accepted, and `none` for a byte that is not accessible.
unfoldable pub protection_at : (Mprotect → Bool) → ℕ → List Mprotect → Option Protection
protection_at accepts address [] = none
protection_at accepts address (c ∷ cs) =
    let rest = protection_at accepts address cs in
    if accepts c && (leb c.address address && ltb address (c.address + c.bytes))
    then some c.protection
    else rest

-- Every byte below the committed size has the permissions of the heap.
abbrev pub IsCommitted : (Mprotect → Bool) → StackHeap → List Mprotect → Type 0
IsCommitted accepts heap calls =
    (i : ℕ)
    → i < heap.commited_capacity
    → protection_at accepts (heap.start + i) calls ≡ some (map_permissions heap.permissions)

-- The kernel accepts the calls for pages inside of the reserved range.
abbrev pub OpensReserved : (Mprotect → Bool) → StackHeap → Type 0
OpensReserved accepts heap =
    (c : Mprotect)
    → c.address % 4096 ≡ 0
    → heap.start ≤ c.address
    → c.address + c.bytes ≤ heap.start + heap.capacity
    → accepts c ≡ true

-- The kernel refuses the calls that reach past the reserved range.
abbrev pub RefusesPast : (Mprotect → Bool) → StackHeap → Type 0
RefusesPast accepts heap =
    (c : Mprotect) → heap.start + heap.capacity < c.address + c.bytes → accepts c ≡ false

-- The heap ends with whole pages, inside of which it is committed.
pub record HasCapacity (heap : StackHeap) : Type 0 where
  pub whole : heap.capacity % 4096 ≡ 0
  pub reserved : heap.commited_capacity ≤ heap.capacity

-- One more call, which the kernel accepts, for the bytes behind the committed ones.
IsCommitted-grown :
    (accepts : Mprotect → Bool) (start committed bytes : ℕ) (p : Protection) (c : Mprotect)
    (calls : List Mprotect)
    → c ≡ record { address = start + committed; bytes = bytes; protection = p }
    → accepts c ≡ true
    → ((i : ℕ) → i < committed → protection_at accepts (start + i) calls ≡ some p)
    → (i : ℕ) → i < committed + bytes
    → protection_at accepts (start + i) (c ∷ calls) ≡ some p
unfolding protection_at
IsCommitted-grown accepts start committed bytes p c calls is accepted before i low =
    let opened = rw is at accepted in
    rw (is, opened)
      (elim (le_or_lt committed i) [
        | inl new ↦ ground arith
        | inr old ↦ ground (arith, before i old)
      ])

module _ (accepts : Mprotect → Bool) (heap : StackHeap) (alignment bytes : ℕ)
    (calls : List Mprotect) (is : IsHeap heap) (whole : HasCapacity heap)
    (known : IsAlignment alignment)
    (room : heap.start + heap.size + alignment + bytes + 4096 < 2 ^ 64) where
  -- For a well-formed heap that ends with whole pages and is committed inside of them, below the
  -- end of the address space, and an alignment that the runtime uses: where the kernel accepts the
  -- `mprotect` calls for pages of the reserved range, all committed bytes are accessible, and the
  -- block and its alignment fit the rest of the capacity, the allocation returns an aligned block of
  -- the size asked for, above every block handed out before. It stays inside of the reserved range,
  -- and leaves all committed bytes, with them those of the block, accessible with the permissions of
  -- the heap.
  pub stack_heap_allocate-IsCommitted :
      OpensReserved accepts heap
      → IsCommitted accepts heap calls
      → heap.size + alignment + bytes ≤ heap.capacity
      → Returns (stack_heap_allocate heap alignment bytes) λ r.
        IsBlock heap alignment bytes r
        × HasCapacity r.heap
        × IsCommitted accepts r.heap (r.commits ++ calls)
  stack_heap_allocate-IsCommitted opens committed fits =
      let (pages, enough, near) = required_lem heap alignment bytes is known room in
      let (_, _, low) = offset_lem heap alignment bytes is known room in
      elim (le_or_lt (required heap alignment bytes is known room) heap.commited_capacity) [
        | inl there ↦ (
          _,
          allocate_committed heap alignment bytes is known room there,
          (
            grown-IsBlock heap alignment bytes heap.commited_capacity [] is known room (omega arith)
                is.whole_pages,
            record { whole = whole.whole; reserved = whole.reserved },
            committed,
          ),
        )
        | inr short ↦ (
          _,
          allocate_missing heap alignment bytes is known room short,
          (
            grown-IsBlock heap alignment bytes _ _ is known room enough pages,
            record { whole = whole.whole; reserved = omega (arith, whole.whole) },
            λ i h.
                IsCommitted-grown accepts heap.start heap.commited_capacity _ _ _ calls refl
                  (opens _ (omega (arith, is.at_page, is.whole_pages)) (omega arith)
                    (omega (arith, whole.whole)))
                  committed i (omega arith),
          ),
        )
      ]
