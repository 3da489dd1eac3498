-- ===== src/Kernel/Instances.antt =====
-- Behaviors and their instances: registration, allocation and the class of the new object.
use slvm_native.Common.{
  ℕ, ◌+◌, ◌*◌, ◌^◌, ◌≤◌, ◌<◌, ◌≡◌, ◌≢◌, ◌⊎◌, refl, ap, ◌∙◌, arith, Returns, Returns_bind, true,
}
use slvm_native.Oop.{ObjectHeader, oop_is_pointers, class_index_from_oop}
use slvm_native.ObjectModel.{decode_format, decode_fixed_size, basic_size}
use slvm_native.ObjectModel.Making.{IsMemory}
use slvm_native.ObjectModel.Instances.{size_asked, basic_new-IsInstance}
use slvm_native.ClassTable.{ClassTable, Image, register_behavior, class_at, class_from_oop}
use slvm_native.ClassTable.Register.{IsClassTable, register_behavior-class_at}
use slvm_native.Sends.{PrimitiveContext}
use slvm_native.Kernel.{
  Kernel, primitive_class, primitive_basic_new, primitive_register_as_behavior,
}

-- The class of an object is what the table holds under the class index of its header.
pub class_from_oop_lem :
    (t : ClassTable) (headers : ℕ → ObjectHeader) (oop : ℕ)
    → oop_is_pointers oop ≡ true
    → class_from_oop t headers oop ≡ class_at t (headers oop).class_index
unfolding class_from_oop class_at class_index_from_oop
class_from_oop_lem t headers oop pointer = rw pointer refl

-- A new instance and its class, as the primitives report them.
pub record KnowsClass (k : Kernel) (context : PrimitiveContext) (size : ℕ) (r : ℕ × Kernel)
    : Type 0 where
  pub its_class : primitive_class (record context { receiver = r.0 }) r.1 ≡ context.receiver
  pub its_size : basic_size r.1.memory r.0 ≡ size
  pub memory : IsMemory r.1.memory
  pub table : r.1.table ≡ k.table

-- A behavior that is one of the first 512 to be registered, whose format is one of pointers, 64-bit
-- words or bytes, that is not nil and not in the free part of the heap: while the heap stays below
-- 2 ^ 64, the primitive basicNew after registerAsBehavior returns an object of the fixed size, of
-- which the primitive class answers the behavior.
pub primitive_basic_new-KnowsClass :
    (nil : ℕ) (image : Image) (k : Kernel) (context : PrimitiveContext) (format fixed : ℕ)
    → IsClassTable k.table
    → k.table.size < 512
    → IsMemory k.memory
    → context.receiver ≢ nil
    → (context.receiver < k.memory.heap.start + k.memory.heap.size)
      ⊎ (k.memory.heap.start + k.memory.heap.size + 40 ≤ context.receiver)
    → decode_format (k.behaviors context.receiver).format ≡ format
    → decode_fixed_size (k.behaviors context.receiver).format ≡ fixed
    → (format ≤ 9) ⊎ (format ≡ 16)
    → k.memory.heap.start + k.memory.heap.size + fixed * 8 + 6000 < 2 ^ 64
    → let registered = (primitive_register_as_behavior image context k).1 in
      Returns
        (primitive_basic_new nil context registered)
        (KnowsClass registered context (size_asked format fixed 0))
unfolding primitive_register_as_behavior primitive_basic_new primitive_class
primitive_basic_new-KnowsClass nil image k context format fixed valid few is real elsewhere
      has_format has_fixed known room =
    let behavior = context.receiver in
    let (_, _, index, class_is, _) =
      register_behavior-class_at image k.table k.memory.headers behavior valid few in
    let r = register_behavior image behavior k.table k.memory.headers in
    let memory = record (k.memory) { headers = r.1 } in
    let is' : IsMemory memory = record { heap = is.heap; requested = is.requested } in
    Returns_bind _
      (basic_new-IsInstance nil k.behaviors memory behavior format fixed 0 is' real elsewhere
        has_format has_fixed known (omega arith))
      λ (oop, made) new. (
        _,
        refl,
        record {
          its_class =
              class_from_oop_lem r.0 made.headers oop new.pointer
              ∙ ap (class_at r.0) (new.class_is ∙ index)
              ∙ class_is;
          its_size = new.size_is;
          memory = new.memory;
          table = refl;
        },
      )
