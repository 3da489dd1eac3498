-- ===== src/StaticHeaps.antt =====
-- src/spur/objectmodel.c: the walk over the objects of a heap, and the passes that fix a static heap
-- when it is initialized.
pub mod Walking
pub mod Passes
pub mod Fixing
pub mod Listing
use Prim.Native.Nat.{bit_and, bit_or}
use slvm_native.Common.{
  ℕ, zero, suc, ◌+◌, ◌-◌, ◌*◌, ◌/◌, ◌%◌, ◌^◌, Bool, ◌==◌, ◌||◌, ◌&&◌, ltb, leb, not, if◌then◌else◌,
  Outcome, ok, aborted, out_of_fuel, ◌>>=◌,
}
use slvm_native.Common.Words.{add_word, sub_word, mul_word}
use slvm_native.Oop.{ObjectHeader, oop_is_pointers}
use slvm_native.ObjectModel.{ObjectMemory, write_word}
use slvm_native.ObjectModel.Formats.{of_indexable_64, of_mixed_object}
use slvm_native.Collections.Strings.{byte_symbol_index, wide_symbol_index}
use slvm_native.Collections.Symbols.{SymbolClasses, SymbolRoots, intern_string}
use slvm_native.Kernel.{
  Kernel, global_variable_index, globals_add_if_not_existent, globals_fix_class_variable,
}

-- `SLVM_HeapInformation` and `SLVM_HeapWithPackageInformation`, without the list node.
pub record HeapInformation : Type 0 where
  pub size : ℕ
  pub flags : ℕ
  pub start : ℕ
  pub package_registration : ℕ

-- What the walk passes to the iterator: the addresses of the forwarding pointer and of the header,
-- and the numbers of slots.
pub record Visit : Type 0 where
  pub forwarding_pointer : ℕ
  pub header : ℕ
  pub oop_slots : ℕ
  pub total_slots : ℕ

-- The object with a big pre-header, whose least significant bit is set.
unfoldable pub big_visit : ObjectMemory → ℕ → Outcome Visit
big_visit m position =
    let header = add_word position 24 in
    let counts = m.words (add_word position 16) in
    let mixed = leb of_mixed_object (m.headers header).object_format in
    if (m.headers header).slot_count == 255
    then ok (record {
      forwarding_pointer = position;
      header = header;
      oop_slots = if mixed then counts / 2 ^ 32 else counts;
      total_slots = if mixed then bit_and counts 0xffffffff else counts;
    })
    else aborted

unfoldable pub small_visit : ObjectMemory → ℕ → Outcome Visit
small_visit m position =
    let header = add_word position 8 in
    let count = (m.headers header).slot_count in
    if ltb count 255
    then ok (record {
      forwarding_pointer = position;
      header = header;
      oop_slots = count;
      total_slots = count;
    })
    else aborted

unfoldable pub visit_at : ObjectMemory → ℕ → Outcome Visit
visit_at m position =
    if bit_and (m.words position) 1 == 0 then small_visit m position else big_visit m position

-- The next position, on a boundary of 16 bytes.
unfoldable pub next_position : Visit → ℕ
next_position v =
    bit_and (add_word (add_word (add_word v.header 8) (mul_word v.total_slots 8)) 15) (2 ^ 64 - 16)

-- `slvm_spur_heap_iterate`, for an iterator that changes a state with the memory in it.
module _ {S : Type 0} (memory : S → ObjectMemory) (iterator : Visit → S → Outcome S) where
  unfoldable pub heap_iterate : ℕ → ℕ → ℕ → S → Outcome S
  heap_iterate zero position end s = out_of_fuel
  heap_iterate (suc fuel) position end s =
      if ltb position end
      then (visit_at (memory s) position >>= λ v.
          iterator v s >>= λ after. heap_iterate fuel (next_position v) end after)
      else if position == end
      then ok s
      else aborted

-- `slvm_spur_heap_getForwardingPointerForObject`
unfoldable pub forwarding_pointer_of : ObjectMemory → ℕ → ℕ
forwarding_pointer_of m oop =
    if (m.headers oop).slot_count == 255 then sub_word oop 24 else sub_word oop 8

-- `~FORWARDING_POINTER_TAG_MASK`
abbrev pub forwarding_mask : ℕ
forwarding_mask = 2 ^ 64 - 4

abbrev pub set_word : ℕ → ℕ → ObjectMemory → ObjectMemory
set_word address value m = record m { words = write_word m.words address value }

-- What happens to one slot: the forwarded element, where there is one.
unfoldable pub forwarded : HeapInformation → ObjectMemory → ℕ → ℕ
forwarded heap m element =
    let target = bit_and (m.words (forwarding_pointer_of m element)) forwarding_mask in
    if not (oop_is_pointers element)
    then element
    else if ltb element heap.start || leb (add_word heap.start heap.size) element
    then element
    else if target == 0
    then element
    else target

unfoldable pub forward_slots : HeapInformation → ℕ → ℕ → ObjectMemory → ObjectMemory
forward_slots heap address zero m = m
forward_slots heap address (suc n) m =
    forward_slots heap (add_word address 8) n
      (set_word address (forwarded heap m (m.words address)) m)

-- `slvm_spur_heap_applyNotNullForwarding`
unfoldable pub apply_forwarding : HeapInformation → Visit → ObjectMemory → ObjectMemory
apply_forwarding heap v m =
    let format = (m.headers v.header).object_format in
    if leb of_indexable_64 format && ltb format of_mixed_object
    then m
    else forward_slots heap (add_word v.header 8) v.oop_slots m
