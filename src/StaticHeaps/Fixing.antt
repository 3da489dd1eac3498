-- ===== src/StaticHeaps/Fixing.antt =====
-- The passes over a static heap, and its initialization.
pub mod Hiding
use Prim.Native.Nat.{bit_and, bit_or}
use slvm_native.Common.{
  ℕ, Bool, not, ◌==◌, ◌||◌, ◌^◌, ◌-◌, if◌then◌else◌, Outcome, ok, aborted, ◌>>=◌,
}
use slvm_native.Common.Words.{add_word}
use slvm_native.ObjectModel.{ObjectMemory}
use slvm_native.Collections.Strings.{byte_symbol_index, wide_symbol_index}
use slvm_native.Collections.Symbols.{SymbolClasses, SymbolRoots, intern_string}
use slvm_native.Kernel.{
  Kernel, global_variable_index, globals_add_if_not_existent, globals_fix_class_variable,
}
use slvm_native.StaticHeaps.{
  HeapInformation, Visit, forwarding_mask, set_word, heap_iterate, apply_forwarding,
}

-- The flags of `SLVM_HeapFlags` that the initialization reads.
abbrev pub may_need_fixing_up : ℕ
may_need_fixing_up = 2

abbrev pub has_package_registration : ℕ
has_package_registration = 4

abbrev pub initialized : ℕ
initialized = 1024

abbrev pub class_variable_index : ℕ
class_variable_index = 193

-- The roots of the kernel and of the symbols; the memory is that of the kernel.
pub record Runtime : Type 0 where
  pub kernel : Kernel
  pub symbols : SymbolRoots

abbrev pub memory_of : Runtime → ObjectMemory
memory_of r = r.kernel.memory

abbrev pub with_memory : Runtime → ObjectMemory → Runtime
with_memory r m = record r { kernel = record (r.kernel) { memory = m } }

abbrev pub class_index_of : Runtime → ℕ → ℕ
class_index_of r header = ((memory_of r).headers header).class_index

-- `*forwardingPointer &= ~FORWARDING_POINTER_TAG_MASK`
unfoldable pub clear_forwarding : Visit → Runtime → Runtime
clear_forwarding v r =
    let word = (memory_of r).words v.forwarding_pointer in
    with_memory r (set_word v.forwarding_pointer (bit_and word forwarding_mask) (memory_of r))

-- The update of the forwarding pointer.
unfoldable pub become : Visit → ℕ → Runtime → Runtime
become v target r =
    let word = (memory_of r).words v.forwarding_pointer in
    if target == v.header
    then r
    else with_memory r (set_word v.forwarding_pointer (bit_or word target) (memory_of r))

-- `slvm_Symbol_internString` in the memory of the kernel.
unfoldable pub intern : SymbolClasses → Runtime → ℕ → Outcome (ℕ × Runtime)
intern c r string = intern_string c (record (r.symbols) { memory = memory_of r }) string >>= λ s.
    ok (s.0, record { kernel = record (r.kernel) { memory = (s.1).memory }; symbols = s.1 })

-- `slvm_internal_fixStaticHeap_symbols`
unfoldable pub fix_symbols : SymbolClasses → Visit → Runtime → Outcome Runtime
fix_symbols c v r =
    let cleared = clear_forwarding v r in
    let kind = class_index_of cleared v.header in
    if (kind == byte_symbol_index) || (kind == wide_symbol_index)
    then (intern c cleared v.header >>= λ s. ok (become v s.0 s.1))
    else ok cleared

-- `nil` is the address of `slvm_nil`, `fuel` that of the globals.
module _ (nil fuel : ℕ) where
  -- `slvm_internal_fixStaticHeap_globalVariables`
  unfoldable pub fix_global_variables : Visit → Runtime → Outcome Runtime
  fix_global_variables v r =
      let cleared = clear_forwarding v r in
      if class_index_of cleared v.header == global_variable_index
      then (globals_add_if_not_existent nil fuel cleared.kernel v.header >>= λ s.
          ok (become v s.0 (record cleared { kernel = s.1 })))
      else ok cleared

  -- `slvm_internal_fixStaticHeap_classVariables`, with the hash and the equality of strings.
  unfoldable pub fix_class_variables : (ℕ → ℕ) → (ℕ → ℕ → Bool) → Visit → Runtime → Outcome Runtime
  fix_class_variables hash equals v r =
      let cleared = clear_forwarding v r in
      if class_index_of cleared v.header == class_variable_index
      then (globals_fix_class_variable nil hash equals cleared.kernel v.header >>= λ target.
          ok (become v target cleared))
      else ok cleared

-- A walk over the heap; `steps` is its fuel.
abbrev pub over_heap :
    HeapInformation → ℕ → (Visit → Runtime → Outcome Runtime) → Runtime → Outcome Runtime
over_heap heap steps iterator r =
    heap_iterate memory_of iterator steps heap.start (add_word heap.start heap.size) r

abbrev pub apply_pass : HeapInformation → ℕ → Runtime → Outcome Runtime
apply_pass heap steps =
    over_heap heap steps λ v r. ok (with_memory r (apply_forwarding heap v (memory_of r)))

module _ (c : SymbolClasses) (fuel steps : ℕ) (hash : ℕ → ℕ) (equals : ℕ → ℕ → Bool) where
  -- `slvm_internal_fixStaticHeap`
  unfoldable pub fix_static_heap : HeapInformation → Runtime → Outcome Runtime
  fix_static_heap heap r =
      over_heap heap steps (fix_symbols c) r
      >>= apply_pass heap steps
      >>= over_heap heap steps (fix_global_variables c.nil fuel)
      >>= apply_pass heap steps

  -- `slvm_internal_fixStaticHeapPass2`
  unfoldable pub fix_static_heap_pass2 : HeapInformation → Runtime → Outcome Runtime
  fix_static_heap_pass2 heap r =
      over_heap heap steps (fix_class_variables c.nil fuel hash equals) r >>= apply_pass heap steps

  -- `slvm_internal_init_staticHeap`; `register` calls the registration of a package.
  unfoldable pub init_static_heap :
      (ℕ → Runtime → Outcome Runtime)
      → HeapInformation
      → Runtime
      → Outcome (HeapInformation × Runtime)
  init_static_heap register heap r =
      let fixing = not (bit_and heap.flags may_need_fixing_up == 0) in
      let registering = not (bit_and heap.flags has_package_registration == 0) in
      if bit_and heap.flags initialized == 0
      then ((if fixing then fix_static_heap heap r else ok r)
          >>= (λ fixed. if registering then register heap.package_registration fixed else ok fixed)
          >>= (λ registered.
              if fixing then fix_static_heap_pass2 heap registered else ok registered)
          >>= λ done. ok (record heap { flags = bit_or heap.flags initialized }, done))
      else ok (heap, r)
