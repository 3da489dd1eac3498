-- ===== src/Tests/Instances.antt =====
-- New objects at concrete inputs.
use slvm_native.Common.{
  ℕ, ◌≡◌, ◌≢◌, refl, inl, inr, true, false, ◌==◌, if◌then◌else◌, arith, [], ◌∷◌, Returns,
}
use slvm_native.Oop.{decode_small_integer}
use slvm_native.Memory.{map_permissions, StackHeap}
use slvm_native.ObjectModel.{
  ObjectMemory, Behavior, decode_format, decode_fixed_size, basic_size, basic_new,
  basic_new_mixed_native,
}
use slvm_native.ObjectModel.Making.{IsMemory}
use slvm_native.ObjectModel.Instances.{IsInstance, basic_new-IsInstance}
use slvm_native.ObjectModel.Mixed.{IsMixedInstance, basic_new_mixed_native-IsMixedInstance}
use slvm_native.ObjectModel.Halves.{basic_size_indexable_32}

-- A heap at 65536 with 96 bytes in use and one page committed.
abbrev pub used_heap : StackHeap
used_heap = record {
  size = 96;
  flags = 1024;
  start = 65536;
  capacity = 1048576;
  commited_capacity = 4096;
  permissions = 3;
}

abbrev pub used_memory : ObjectMemory
used_memory = record {
  heap = used_heap;
  words = λ x. 0;
  headers = λ o. record {
    class_index = 0;
    object_format = 1;
    gc_color = 0;
    identity_hash = o;
    is_pinned = 1;
    is_immutable = 0;
    slot_count = 4;
  };
  calls =
      record {
        address = 65536;
        bytes = 4096;
        protection = record { read = true; write = true; exec = false };
      }
      ∷ [];
}

pub used_memory-IsMemory : IsMemory used_memory
unfolding map_permissions
used_memory-IsMemory = record {
  heap = record { mapped = omega arith; at_page = refl; within = omega arith; whole_pages = refl };
  requested = λ i h. inl (omega arith, omega arith, refl);
}

-- Behaviors of bytes at 170, of 32-bit elements at 171, and of mixed objects with eight fixed slots
-- at 36.
abbrev some_behaviors : ℕ → Behavior
some_behaviors b = record {
  superclass = 16;
  method_dict = 16;
  format = if b == 170 then 8388609 else if b == 171 then 5242881 else 12582977;
}

bytes_format : decode_format (some_behaviors 170).format ≡ 16
unfolding decode_format decode_small_integer
bytes_format = refl

bytes_fixed : decode_fixed_size (some_behaviors 170).format ≡ 0
unfolding decode_fixed_size decode_small_integer
bytes_fixed = refl

halves_format : decode_format (some_behaviors 171).format ≡ 10
unfolding decode_format decode_small_integer
halves_format = refl

halves_fixed : decode_fixed_size (some_behaviors 171).format ≡ 0
unfolding decode_fixed_size decode_small_integer
halves_fixed = refl

mixed_format : decode_format (some_behaviors 36).format ≡ 24
unfolding decode_format decode_small_integer
mixed_format = refl

mixed_fixed : decode_fixed_size (some_behaviors 36).format ≡ 8
unfolding decode_fixed_size decode_small_integer
mixed_fixed = refl

basic_new-IsInstance_example :
    Returns (basic_new 16 some_behaviors used_memory 170 5) (IsInstance used_memory 170 5 1 0)
basic_new-IsInstance_example =
    basic_new-IsInstance 16 some_behaviors used_memory 170 16 0 5 used_memory-IsMemory (omega arith)
      (inl (omega arith)) bytes_format bytes_fixed (inr refl) (omega arith)

basic_new_mixed_native-IsMixedInstance_example :
    Returns
      (basic_new_mixed_native 16 some_behaviors used_memory 36 2 13)
      (IsMixedInstance used_memory 36 16 10 13)
basic_new_mixed_native-IsMixedInstance_example =
    basic_new_mixed_native-IsMixedInstance 16 some_behaviors used_memory 36 8 2 13
      used_memory-IsMemory (omega arith) (inl (omega arith)) mixed_format mixed_fixed (omega arith)
      (omega arith)

basic_size_indexable_32_example :
    Returns (basic_new 16 some_behaviors used_memory 171 3) λ r. basic_size r.1 r.0 ≢ 3
basic_size_indexable_32_example =
    basic_size_indexable_32 16 some_behaviors used_memory 171 3 used_memory-IsMemory (omega arith)
      (inl (omega arith)) halves_format halves_fixed (omega arith) (omega arith)
