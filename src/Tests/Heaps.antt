-- ===== src/Tests/Heaps.antt =====
-- The walk over a heap at concrete inputs.
use slvm_native.StaticHeaps.Listing.{HeapList, init_static_heaps}
use slvm_native.StaticHeaps.Listing.Order.{init_each, register_each, register_each-init_each}
use slvm_native.Common.{
  true, false, ◌+◌, ◌*◌, ◌≡◌, ◌≢◌, refl, ◌==◌, if◌then◌else◌, arith, [], ◌∷◌, Outcome, ok, Returns,
}
use slvm_native.ObjectModel.{ObjectMemory}
use slvm_native.StaticHeaps.{
  HeapInformation, apply_forwarding, Visit, small_visit, big_visit, visit_at, next_position,
  heap_iterate,
}
use slvm_native.StaticHeaps.Walking.{
  IsInside, LaidOut, nothing_left, object_first, in_order, heap_iterate-in_order,
}
use slvm_native.StaticHeaps.Passes.{apply_forwarding-KeepsBehind}
use slvm_native.StaticHeaps.Fixing.{Runtime, with_memory, memory_of, fix_symbols}
use slvm_native.StaticHeaps.Fixing.Hiding.{IsBig, fix_symbols-IsBig}
use slvm_native.Tests.Instances.{used_memory}
use slvm_native.Tests.Interning.{letter_roots, letter_classes}
use slvm_native.Tests.Registrations.{plain_kernel}

-- A small object of two slots at 65544, and a mixed one of five slots, three of them for oops, at
-- 65592.
abbrev two_objects : ObjectMemory
two_objects = record used_memory {
  words = λ x. if x == 65568 then 1 else if x == 65584 then 3 * 4294967296 + 5 else 0;
  headers = λ o. record (used_memory.headers o) {
    class_index = 4;
    object_format = if o == 65592 then 24 else 1;
    slot_count = if o == 65592 then 255 else 2;
  };
}

abbrev first_visit : Visit
first_visit = record { forwarding_pointer = 65536; header = 65544; oop_slots = 2; total_slots = 2 }

abbrev second_visit : Visit
second_visit = record { forwarding_pointer = 65568; header = 65592; oop_slots = 3; total_slots = 5 }

first_visit-IsInside : IsInside 65536 first_visit
first_visit-IsInside = record {
  pointer = refl;
  placed = omega arith;
  slots = omega arith;
  room = omega arith;
}

second_visit-IsInside : IsInside 65568 second_visit
second_visit-IsInside = record {
  pointer = refl;
  placed = omega arith;
  slots = omega arith;
  room = omega arith;
}

two_objects-LaidOut : LaidOut two_objects 65648 65536 (first_visit ∷ second_visit ∷ [])
unfolding visit_at small_visit big_visit next_position
two_objects-LaidOut =
    object_first 65536 first_visit (second_visit ∷ []) (omega arith) refl first_visit-IsInside
      (object_first 65568 second_visit [] (omega arith) refl second_visit-IsInside nothing_left)

abbrev heap_runtime : Runtime
heap_runtime = record {
  kernel = record plain_kernel { memory = two_objects };
  symbols = letter_roots;
}

abbrev two_objects_heap : HeapInformation
two_objects_heap = record { size = 112; flags = 2; start = 65536; package_registration = 0 }

-- The iterator of the pass that applies the forwarding.
abbrev forward_object : Visit → Runtime → Outcome Runtime
forward_object v r = ok (with_memory r (apply_forwarding two_objects_heap v (memory_of r)))

heap_iterate-in_order_example :
    heap_iterate memory_of forward_object 3 65536 65648 heap_runtime
    ≡ in_order memory_of forward_object (first_visit ∷ second_visit ∷ []) heap_runtime
heap_iterate-in_order_example =
    heap_iterate-in_order memory_of forward_object (apply_forwarding-KeepsBehind two_objects_heap)
      65536 65648 (first_visit ∷ second_visit ∷ []) heap_runtime two_objects-LaidOut

second_visit-IsBig : IsBig two_objects second_visit
unfolding visit_at big_visit
second_visit-IsBig = record {
  visited = refl;
  tagged = refl;
  word = omega arith;
  place = omega arith;
}

fix_symbols-IsBig_example :
    Returns
      (fix_symbols letter_classes second_visit heap_runtime)
      (λ after. visit_at (memory_of after) 65568 ≢ ok second_visit)
fix_symbols-IsBig_example =
    fix_symbols-IsBig letter_classes second_visit heap_runtime second_visit-IsBig (omega arith)
      (omega arith)

-- Two heaps that are registered before the kernel is initialized.
abbrev no_heaps : HeapList
no_heaps = record {
  list = record { first = 0; last = 0 };
  links = record { previous = λ o. 0; next = λ o. 0 };
  heaps = λ o. record { size = 0; flags = 0; start = o; package_registration = 0 };
  kernel_initialized = false;
}

register_each-init_each_example :
    let listed =
      register_each letter_classes 2 2
        (λ o. o)
        (λ a b. a == b)
        (λ p r. ok r)
        (320 ∷ 640 ∷ [])
        no_heaps
        heap_runtime in
    Returns listed λ d.
      (d.0.heaps ≡ no_heaps.heaps)
      × (d.1 ≡ heap_runtime)
      × (let started = record (d.0) { kernel_initialized = true } in
          init_static_heaps letter_classes 2 2
            (λ o. o)
            (λ a b. a == b)
            (λ p r. ok r)
            3
            started
            heap_runtime
          ≡ init_each letter_classes 2 2
              (λ o. o)
              (λ a b. a == b)
              (λ p r. ok r)
              (320 ∷ 640 ∷ [])
              started
              heap_runtime)
register_each-init_each_example =
    register_each-init_each letter_classes 2 2 (λ o. o) (λ a b. a == b) (λ p r. ok r) 3
      (320 ∷ 640 ∷ []) no_heaps heap_runtime (record { chain = (refl, refl); distinct = tt })
      (omega arith, refl, (omega arith, refl, tt)) refl (omega arith)
