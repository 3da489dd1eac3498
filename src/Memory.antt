-- ===== src/Memory.antt =====
-- src/memory.c and src/memory_unix.c: the virtual memory calls and the growing stack heap. The
-- kernel's `mmap` and `mprotect` are outside: the first is a parameter, the second a list of calls.
pub mod Bump
pub mod Committed
use Prim.Native.Nat.{bit_and}
use slvm_native.Common.{
  ℕ, ◌+◌, ◌-◌, ◌%◌, ◌^◌, Bool, true, false, not, Option, none, some, List, [], ◌∷◌, ◌==◌, ltb,
  if◌then◌else◌, Outcome, ok, aborted,
}
use slvm_native.Common.Words.{word_mod, add_word, sub_word}

abbrev pub page_size : ℕ
page_size = 4096

-- The permission bits of `SLVM_MemoryPermissionFlags`.
abbrev pub smpf_readable : ℕ
smpf_readable = 1

abbrev pub smpf_writeable : ℕ
smpf_writeable = 2

abbrev pub smpf_executable : ℕ
smpf_executable = 4

-- The union of `PROT_READ`, `PROT_WRITE` and `PROT_EXEC`.
pub record Protection : Type 0 where
  pub read : Bool
  pub write : Bool
  pub exec : Bool

-- One call of `mprotect`.
pub record Mprotect : Type 0 where
  pub address : ℕ
  pub bytes : ℕ
  pub protection : Protection

-- `slvm_vm_allocateSpace`: `mmap` gives an address, or `none` for `MAP_FAILED`.
pub vm_allocate_space : (ℕ → Option ℕ) → ℕ → ℕ
vm_allocate_space mmap size = elim (mmap size) [ none ↦ 0 | some address ↦ address ]

-- The permission bits as the protection that `slvm_vm_changeRangePermissions` asks for.
unfoldable pub map_permissions : ℕ → Protection
map_permissions permissions = record {
  read = not (bit_and permissions smpf_readable == 0);
  write = not (bit_and permissions smpf_writeable == 0);
  exec = not (bit_and permissions smpf_executable == 0);
}

-- `slvm_vm_changeRangePermissions`, which `slvm_vm_commitRange` passes its arguments to: the call
-- that it makes. A call that the kernel refuses is reported to `stderr` only, so that the caller
-- goes on in either case; whether the kernel accepts it is a parameter of what is said about it.
unfoldable pub vm_change_range_permissions : ℕ → ℕ → ℕ → ℕ → Mprotect
vm_change_range_permissions start offset size permissions = record {
  address = add_word start offset;
  bytes = size;
  protection = map_permissions permissions;
}

unfoldable pub vm_commit_range : ℕ → ℕ → ℕ → ℕ → Mprotect
vm_commit_range = vm_change_range_permissions

-- `slvm_vm_releaseRange` takes every permission away.
unfoldable pub vm_release_range : ℕ → ℕ → ℕ → Mprotect
vm_release_range start offset size = record {
  address = add_word start offset;
  bytes = size;
  protection = record { read = false; write = false; exec = false };
}

-- `SLVM_StackHeapInformation` with its base, but for the list node.
pub record StackHeap : Type 0 where
  pub size : ℕ
  pub flags : ℕ
  pub start : ℕ
  pub capacity : ℕ
  pub commited_capacity : ℕ
  pub permissions : ℕ

-- `slvm_StackHeap_create`: the heap, and whether the call returned 0.
unfoldable pub stack_heap_create : (ℕ → Option ℕ) → ℕ → ℕ → StackHeap × Bool
stack_heap_create mmap size permissions =
    let start = vm_allocate_space mmap size in
    (
      record {
        size = 0;
        flags = 0;
        start = start;
        capacity = size;
        commited_capacity = 0;
        permissions = permissions;
      },
      not (start == 0),
    )

-- `(x + a - 1) & -a` on words.
unfoldable pub align_word : ℕ → ℕ → ℕ
align_word x a = bit_and (sub_word (add_word x a) 1) (sub_word 0 a)

-- What an allocation returns: the block, the heap, and the `mprotect` calls that it made.
pub record Allocation : Type 0 where
  pub block : ℕ
  pub heap : StackHeap
  pub commits : List Mprotect

-- `slvm_StackHeap_allocate`. As the source, it compares neither the new size with the capacity nor
-- looks at the outcome of the `mprotect` call.
unfoldable pub stack_heap_allocate : StackHeap → ℕ → ℕ → Outcome Allocation
unfolding align_word
stack_heap_allocate heap alignment size =
    let offset = align_word heap.size alignment in
    let new_size = add_word offset size in
    let required = align_word new_size page_size in
    let missing =
      vm_commit_range heap.start heap.commited_capacity (sub_word required heap.commited_capacity)
        heap.permissions in
    if heap.start == 0
    then aborted
    else if ltb heap.commited_capacity required
    then ok (record {
      block = add_word heap.start offset;
      heap = record heap { size = new_size; commited_capacity = required };
      commits = missing ∷ [];
    })
    else ok (record {
      block = add_word heap.start offset;
      heap = record heap { size = new_size };
      commits = [];
    })

-- One call of `munmap`.
pub record Munmap : Type 0 where
  pub from : ℕ
  pub length : ℕ

-- `slvm_vm_freeSpace`
unfoldable pub vm_free_space : ℕ → ℕ → Munmap
vm_free_space start size = record { from = start; length = size }

-- `slvm_StackHeap_destroy`
unfoldable pub stack_heap_destroy : StackHeap → Outcome Munmap
stack_heap_destroy heap =
    if heap.start == 0 then aborted else ok (vm_free_space heap.start heap.capacity)
