-- ===== src/Tests/Registrations.antt =====
-- The registration of methods and behaviors at concrete inputs.
use slvm_native.Common.{
  ℕ, ◌+◌, ◌*◌, ◌/◌, ◌≡◌, refl, inl, inr, ◌==◌, if◌then◌else◌, arith, [], ◌∷◌, ok, Returns,
}
use slvm_native.Hashing.{probe}
use slvm_native.Oop.{
  ObjectHeader, oop_is_pointers, oop_is_immediate, identity_hash_of, class_index_from_oop,
  decode_small_integer,
}
use slvm_native.Magnitude.{Booleans}
use slvm_native.Collections.Dictionary as Generic
use slvm_native.Collections.MethodDictionary.{new_with_capacity}
use slvm_native.Collections.MethodDictionary.Insert.{IsReady}
use slvm_native.Collections.MethodDictionary.Dict.{new-IsReady}
use slvm_native.ClassTable.{Image, class_from_oop, class_at}
use slvm_native.Lookup.{is_method_dictionary}
use slvm_native.Lookup.Lineage.{AllHaveMethods}
use slvm_native.ObjectModel.{decode_format, decode_fixed_size}
use slvm_native.Sends.{Machine, smalltalk_metadata, metadata, PrimitiveContext}
use slvm_native.Sends.Dispatch.{receiver_class, message_at}
use slvm_native.Kernel.{
  Kernel, world_of, class_of, globals_at_or_nil, register_method, primitive_basic_new,
  primitive_register_as_behavior,
}
use slvm_native.Kernel.Registration.{Registered, register_method-Registered}
use slvm_native.Kernel.Instances.{KnowsClass, primitive_basic_new-KnowsClass}
use slvm_native.Tests.Instances.{used_memory, used_memory-IsMemory}
use slvm_native.Tests.Messages.{small_machine, small_runtime}

-- The class 320, an instance of the metaclass 1280 and a subclass of 640, is the value of the
-- association 960 under the name 5120; the object 4096 is an instance of it.
abbrev kernel_headers : ℕ → ObjectHeader
kernel_headers oop = record {
  class_index =
      if oop == 320 then 600 else if oop == 1280 then 155 else if oop == 4096 then 700 else 164;
  object_format = 1;
  gc_color = 0;
  identity_hash = oop / 16;
  is_pinned = 0;
  is_immutable = 0;
  slot_count = 3;
}

abbrev small_kernel : Kernel
small_kernel = record {
  memory = record used_memory {
    words = λ x. if x == 968 then 5120 else if x == 976 then 320 else 0;
    headers = kernel_headers;
  };
  behaviors = λ b. record {
    superclass = if b == 320 then 640 else 16;
    method_dict = if b == 320 then 960 else 16;
    format = 9;
  };
  dictionaries = λ o. new_with_capacity 16 kernel_headers 5;
  class_pools = λ o. record { tally = 1; array = [] };
  table = record {
    page = λ p e. if e == 600 then 1280 else 320;
    page_count = 1;
    base_size = 512;
    size = 0;
  };
  globals = record { tally = 9; array = 960 ∷ [] };
}

abbrev pub small_booleans : Booleans
small_booleans = record { true_oop = 32; false_oop = 48 }

abbrev kernel_machine : Machine
kernel_machine = record small_machine { world = world_of small_kernel; table = small_kernel.table }

small_kernel_globals : globals_at_or_nil 16 small_kernel 5120 ≡ ok 320
unfolding globals_at_or_nil Generic.at_or_nil Generic.scan_for probe identity_hash_of
    oop_is_immediate
small_kernel_globals = refl

small_kernel_class : (small_kernel.memory.headers (class_of small_kernel 320)).class_index ≡ 155
unfolding class_from_oop class_at class_index_from_oop oop_is_pointers
small_kernel_class = refl

kernel_receiver : receiver_class kernel_machine 1000 ≡ 320
unfolding class_from_oop class_at class_index_from_oop oop_is_pointers
kernel_receiver = refl

kernel_message : message_at 0 1000 kernel_machine ≡ 1008
unfolding metadata smalltalk_metadata
kernel_message = refl

small_kernel-IsReady : IsReady 16 kernel_headers (new_with_capacity 16 kernel_headers 5)
small_kernel-IsReady = (new-IsReady 16 kernel_headers 5).0

small_kernel_methods : AllHaveMethods 16 (world_of small_kernel) (320 ∷ 640 ∷ [])
unfolding is_method_dictionary oop_is_pointers class_index_from_oop
small_kernel_methods = (inr (omega arith, refl, small_kernel-IsReady.valid), (inl refl, tt))

register_method-Registered_example :
    Returns
      (register_method 16 small_booleans small_kernel 4800 1008 5120 48)
      (Registered small_runtime small_booleans small_kernel 3 0 1000 320 1008 4800 kernel_machine)
unfolding new_with_capacity
register_method-Registered_example =
    register_method-Registered small_runtime small_booleans small_kernel kernel_machine 3 0 1000
      4800 1008 5120 48 320 320 (640 ∷ []) small_kernel_globals (omega arith) small_kernel_class
      refl (refl, omega arith, (refl, omega arith, refl)) small_kernel_methods (omega arith)
      (omega arith) small_kernel-IsReady (omega arith) (omega arith) (omega arith) refl
      kernel_receiver kernel_message

-- The behavior 320 of two fixed slots.
abbrev pub plain_kernel : Kernel
plain_kernel = record small_kernel {
  behaviors = λ b. record { superclass = 640; method_dict = 16; format = (65536 + 2) * 8 + 1 };
}

abbrev plain_context : PrimitiveContext
plain_context = record {
  context_calling_convention = 0;
  stack_pointer = 1000;
  selector = 176;
  receiver = 320;
  oop_argument_count = 0;
  oop_arguments = 1040;
  native_argument_size = 0;
  native_arguments = 1040;
}

plain_format :
    (decode_format (plain_kernel.behaviors 320).format ≡ 1)
    × (decode_fixed_size (plain_kernel.behaviors 320).format ≡ 2)
unfolding decode_format decode_fixed_size decode_small_integer
plain_format = (refl, refl)

abbrev pub small_image : Image
small_image = record { nil = 16; kernel_class = λ i. 16; kernel_metaclass = λ i. 16 }

primitive_basic_new-KnowsClass_example :
    Returns
      (primitive_basic_new 16 plain_context
        (primitive_register_as_behavior small_image plain_context plain_kernel).1)
      (KnowsClass
        (primitive_register_as_behavior small_image plain_context plain_kernel).1
        plain_context
        2)
primitive_basic_new-KnowsClass_example =
    primitive_basic_new-KnowsClass 16 small_image plain_kernel plain_context 1 2
      (record { based = refl; one_page = omega arith }) (omega arith)
      (record { heap = used_memory-IsMemory.heap; requested = used_memory-IsMemory.requested })
      (omega arith) (inl (omega arith)) plain_format.0 plain_format.1 (inl (omega arith))
      (omega arith)
