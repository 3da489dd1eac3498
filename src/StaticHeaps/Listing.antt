-- ===== src/StaticHeaps/Listing.antt =====
-- src/spur/objectmodel.c: the list of the heaps of the process, slvm_dynrun_registerStaticHeap and
-- slvm_internal_init_staticHeaps. A heap is the address of its information, which starts with its
-- list node; the registration of a package works on the runtime and leaves the list alone.
pub mod Order
use slvm_native.Common.{
  ℕ, zero, suc, Bool, ◌==◌, ◌*◌, ◌^◌, if◌then◌else◌, Option, Outcome, ok, aborted, out_of_fuel, ◌+◌,
  ◌>>=◌,
}
use slvm_native.Memory.{StackHeap, smpf_readable, smpf_writeable, stack_heap_create}
use slvm_native.DataStructures.{Links, LinkedList, list_add_node, list_remove_node}
use slvm_native.Collections.Symbols.{SymbolClasses}
use slvm_native.StaticHeaps.{HeapInformation}
use slvm_native.StaticHeaps.Fixing.{Runtime, initialized, init_static_heap}

-- `staticHeaps`, the heaps by their addresses, and `kernelInitialized`.
pub record HeapList : Type 0 where
  pub list : LinkedList
  pub links : Links
  pub heaps : ℕ → HeapInformation
  pub kernel_initialized : Bool

abbrev pub with_heap : ℕ → HeapInformation → HeapList → HeapList
with_heap heap information s = record s {
  heaps = λ o. if o == heap then information else s.heaps o;
}

-- `SLVM_SPUR_DEFAULT_COMPACTING_HEAP_CAPACITY` on 64 bits
abbrev pub default_compacting_heap_capacity : ℕ
default_compacting_heap_capacity = 10 * 2 ^ 30

-- `slvm_spur_create_compactingHeap`, for the information at `heap`.
unfoldable pub create_compacting_heap :
    (ℕ → Option ℕ) → ℕ → HeapList → Outcome (StackHeap × HeapList)
create_compacting_heap mmap heap s =
    let created =
      stack_heap_create mmap default_compacting_heap_capacity (smpf_readable + smpf_writeable) in
    if created.1
    then (let marked = record (created.0) { flags = initialized } in
        list_add_node s.list heap s.links >>= λ r. ok (
          marked,
          with_heap heap
              (record {
                size = marked.size;
                flags = marked.flags;
                start = marked.start;
                package_registration = 0;
              })
              (record s { list = r.0; links = r.1 }),
        ))
    else aborted

-- `slvm_dynrun_unregisterStaticHeap`
unfoldable pub unregister_static_heap : ℕ → HeapList → Outcome HeapList
unregister_static_heap heap s =
    list_remove_node s.list heap s.links >>= λ r. ok (record s { list = r.0; links = r.1 })

module _ (c : SymbolClasses) (fuel steps : ℕ) (hash : ℕ → ℕ) (equals : ℕ → ℕ → Bool)
    (register : ℕ → Runtime → Outcome Runtime) where
  -- The initialization of the heap at an address.
  unfoldable pub init_heap_at : ℕ → HeapList → Runtime → Outcome (HeapList × Runtime)
  init_heap_at heap s r =
      init_static_heap c fuel steps hash equals register (s.heaps heap) r >>= λ d.
      ok (with_heap heap d.0 s, d.1)

  -- `slvm_dynrun_registerStaticHeap`
  unfoldable pub register_static_heap : ℕ → HeapList → Runtime → Outcome (HeapList × Runtime)
  register_static_heap heap s r = list_add_node s.list heap s.links >>= λ l.
      let added = record s { list = l.0; links = l.1 } in
      if s.kernel_initialized then init_heap_at heap added r else ok (added, r)

  -- The loop of `slvm_internal_init_staticHeaps`.
  unfoldable pub init_heaps_from : ℕ → ℕ → HeapList → Runtime → Outcome (HeapList × Runtime)
  init_heaps_from zero node s r = out_of_fuel
  init_heaps_from (suc rounds) node s r =
      if node == 0
      then ok (s, r)
      else (init_heap_at node s r >>= λ d. init_heaps_from rounds (d.0.links.next node) d.0 d.1)

  -- `slvm_internal_init_staticHeaps`
  unfoldable pub init_static_heaps : ℕ → HeapList → Runtime → Outcome (HeapList × Runtime)
  init_static_heaps rounds s r =
      if s.kernel_initialized then init_heaps_from rounds s.list.first s r else aborted
