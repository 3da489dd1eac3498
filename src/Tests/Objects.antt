-- ===== src/Tests/Objects.antt =====
-- The class table and the small integers at concrete inputs.
use slvm_native.Common.{
  replicate, length-replicate, ℕ, ◌+◌, ◌-◌, ◌^◌, ◌<◌, ◌≡◌, ◌≢◌, refl, arith, [], ◌∷◌,
}
use slvm_native.Common.Int.{◌+ℤ◌}
use slvm_native.Oop.{ObjectHeader, decode_small_integer, oop_is_small_integer}
use slvm_native.ClassTable.{ClassTable, Image, register_behavior, class_at, initialize}
use slvm_native.ClassTable.Register.{IsClassTable, register_behavior-class_at}
use slvm_native.ClassTable.Overwriting.{register_all, register_behavior-initialize}
use slvm_native.Magnitude.{Booleans, primitive_plus}
use slvm_native.Magnitude.Arithmetic.{
  value_of, Yields, primitive_plus-add, wrap, primitive_plus_overflow,
}

abbrev image : Image
image = record { nil = 16; kernel_class = λ i. 4096 + i; kernel_metaclass = λ i. 8192 + i }

abbrev plain_headers : ℕ → ObjectHeader
plain_headers oop = record {
  class_index = 0;
  object_format = 1;
  gc_color = 0;
  identity_hash = 0;
  is_pinned = 0;
  is_immutable = 0;
  slot_count = 4;
}

abbrev fresh_table : ClassTable
fresh_table = record { page = λ p e. 16; page_count = 1; base_size = 512; size = 3 }

register_behavior-class_at_example :
    let r = register_behavior image 48 fresh_table plain_headers in
    IsClassTable r.0
    × (r.0.size ≡ 3 + 1)
    × ((r.1 48).identity_hash ≡ 512 + 3)
    × (class_at r.0 (512 + 3) ≡ 48)
    × ((i : ℕ) → i < 1024 → i ≢ 512 + 3 → class_at r.0 i ≡ class_at fresh_table i)
register_behavior-class_at_example =
    register_behavior-class_at image fresh_table plain_headers 48
      (record { based = refl; one_page = omega arith }) (omega arith)

-- 513 behaviors, and then one more: the entry 1 is that of the kernel class 1 before.
register_behavior-initialize_example :
    let before = register_all image (replicate 513 320) (initialize image, plain_headers) in
    (class_at before.0 1 ≡ 4097)
    × (class_at (register_behavior image 48 before.0 before.1).0 1 ≡ 48)
register_behavior-initialize_example =
    register_behavior-initialize image (replicate 513 320) plain_headers 48 1 (omega arith) refl
      (length-replicate {A = ℕ} 513 320)

-- The oops of 7 and of -3.
primitive_plus-add_example :
    Yields (primitive_plus 57 ((2 ^ 64 - 23) ∷ [])) (value_of 57 +ℤ value_of (2 ^ 64 - 23))
unfolding oop_is_small_integer ◌+ℤ◌ decode_small_integer
primitive_plus-add_example =
    primitive_plus-add 57 (2 ^ 64 - 23) (omega arith) (omega arith) refl
      (record { low = omega arith; high = omega arith })

-- The largest small integer, and 1.
primitive_plus_overflow_example :
    Yields (primitive_plus (2 ^ 63 - 7) (9 ∷ [])) (wrap (value_of (2 ^ 63 - 7) +ℤ value_of 9))
unfolding oop_is_small_integer
primitive_plus_overflow_example =
    primitive_plus_overflow (2 ^ 63 - 7) 9 (omega arith) (omega arith) refl

abbrev booleans : Booleans
booleans = record { true_oop = 48; false_oop = 32 }
