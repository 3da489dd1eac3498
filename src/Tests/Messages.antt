-- ===== src/Tests/Messages.antt =====
-- Message sends at concrete inputs.
use slvm_native.Common.{◌≡◌, refl, inl, ◌==◌, if◌then◌else◌, arith, [], ◌∷◌, ok, Returns}
use slvm_native.Common.Words.{add_word}
use slvm_native.Oop.{encode_small_integer}
use slvm_native.Memory.{align_word}
use slvm_native.ClassTable.{class_from_oop, class_at}
use slvm_native.Lookup.Lineage.{inherited}
use slvm_native.ExecutionStack.{node_of}
use slvm_native.ExecutionStack.Segments.{IsStacks}
use slvm_native.Sends.{
  Machine, to_sender, returns, Runtime, metadata, smalltalk_metadata, converted_metadata,
  total_argument_size,
}
use slvm_native.Sends.Activating.{
  primitive_context, activate_method, send_dispatch, supersend_dispatch, activate_closure,
  argument_descriptor_make,
}
use slvm_native.Sends.Dispatch.{
  receiver_class, message_at, Finishes, send_dispatch-inherited, activate_method-Finishes,
}
use slvm_native.Sends.Closures.{activate_taking, activate_closure-activate_taking}
use slvm_native.Sends.Entering.{Prepared, enter_smalltalk-Prepared}
use slvm_native.Sends.Overflow.{moved_size, new_stack_segment, pop_stack_segment}
use slvm_native.Sends.Returning.{IsFull, FrameMoved, new_stack_segment-return}
use slvm_native.Tests.Lookups.{small_world, small_world-Lineage, small_world_methods}
use slvm_native.Tests.Stacks.{two_segments, two_segments-IsStacks, one_free, one_free-IsStacks}

-- A message of one argument, with its frame at 1000 and the receiver at 4096, an instance of the
-- behavior 320.
abbrev pub small_machine : Machine
small_machine = record {
  words = λ a. if a == 1000 then 1 else if a == 1016 then 1 else if a == 1032 then 4096 else a;
  stack = one_free;
  table = record { page = λ p e. 320; page_count = 1; base_size = 512; size = 0 };
  world = small_world;
  compiled = λ o. record { entry_point = 7001; method_flags = 1 };
  primitive_entry = λ o. 99;
  closures = λ o. record {
    startpc = 4816;
    num_args = encode_small_integer (argument_descriptor_make 1 0);
  };
}

-- The same where all objects are primitive methods, with their function at 99.
abbrev primitive_machine : Machine
primitive_machine = record small_machine {
  world = record small_world {
    headers = λ oop. record (small_world.headers oop) { class_index = 191 };
  };
}

-- The same with a full segment whose top frame has one argument.
abbrev full_machine : Machine
full_machine = record small_machine { stack = two_segments }

-- Primitives that answer 42 with an error code of 0.
abbrev pub small_runtime : Runtime
small_runtime = record {
  nil = 16;
  return_to_c = 501;
  pop_trap = 502;
  primitive = λ entry context m. ok (0, (returns 42, m));
  switch_to_smalltalk = λ head entry m. ok (42, m);
}

receiver_is : receiver_class small_machine 1000 ≡ 320
unfolding class_from_oop class_at
receiver_is = refl

sent_counts :
    ((smalltalk_metadata small_machine.words 1000).oop_count ≡ 1)
    × ((smalltalk_metadata small_machine.words 1000).native_size ≡ 0)
unfolding smalltalk_metadata
sent_counts = (refl, refl)

context_counts :
    ((primitive_context 0 1000 small_machine).oop_argument_count ≡ 1)
    × ((primitive_context 0 1000 small_machine).native_argument_size ≡ 0)
unfolding primitive_context metadata smalltalk_metadata
context_counts = (refl, refl)

entered_size : total_argument_size (converted_metadata small_machine.words 1000) ≡ 16
unfolding total_argument_size converted_metadata align_word
entered_size = refl

send_dispatch-inherited_example :
    (send_dispatch small_runtime 3 0 1000 small_machine
      ≡ activate_method small_runtime 0 1000
          (inherited 16 small_world (320 ∷ 640 ∷ []) (message_at 0 1000 small_machine))
          small_machine)
    × (supersend_dispatch small_runtime 3 0 1000 640 small_machine
        ≡ activate_method small_runtime 0 1000
            (inherited 16 small_world (640 ∷ []) (message_at 0 1000 small_machine))
            small_machine)
send_dispatch-inherited_example =
    send_dispatch-inherited small_runtime 3 0 1000 640 320 640 (640 ∷ []) [] small_machine
      (receiver_is, small_world-Lineage.1, small_world-Lineage.2) small_world_methods (omega arith)
      small_world-Lineage.2 small_world_methods.1 (omega arith)

activate_method-Finishes_example :
    Finishes 0 0 1000 42 primitive_machine
      (activate_method small_runtime 0 1000 4800 primitive_machine)
activate_method-Finishes_example =
    activate_method-Finishes small_runtime 0 0 1000 4800 42 primitive_machine primitive_machine
      (omega arith) refl refl (omega (arith, sent_counts))

activate_closure-activate_taking_example :
    activate_closure small_runtime (primitive_context 0 1000 small_machine) small_machine
    ≡ activate_taking small_runtime (primitive_context 0 1000 small_machine) small_machine 1 0
activate_closure-activate_taking_example =
    activate_closure-activate_taking small_runtime (primitive_context 0 1000 small_machine)
      small_machine 1 0 (omega arith) (omega arith) (omega (arith, context_counts))
      (omega (arith, context_counts)) refl

enter_smalltalk-Prepared_example : Prepared small_runtime 1000 7000 small_machine (73712 ∷ [])
enter_smalltalk-Prepared_example =
    enter_smalltalk-Prepared small_runtime 1000 7000 small_machine (73712 ∷ []) one_free-IsStacks
      (omega arith) refl (omega (arith, entered_size)) (omega (arith, entered_size))
      (inl (omega (arith, entered_size)))

full_machine-IsFull : IsFull full_machine (73712 ∷ []) [] 69568 (moved_size 1)
full_machine-IsFull = record {
  stacks = two_segments-IsStacks;
  room = omega arith;
  running = omega arith;
  in_page = omega arith;
  below_header = omega arith;
  high = omega arith;
  whole_words = refl;
  fits = omega arith;
  enough = omega arith;
}

new_stack_segment-return_example :
    Returns (new_stack_segment small_runtime 69632 1 full_machine) λ r.
      (f : FrameMoved small_runtime full_machine (73712 ∷ []) [] 69568 32 r) × Returns
        (pop_stack_segment (add_word f.segment 64) 42 (record r.1 { words = λ a. 7 }))
        λ q. (q.0 ≡ to_sender 69016 42) × IsStacks q.1.stack (node_of f.segment ∷ []) (69616 ∷ [])
new_stack_segment-return_example =
    new_stack_segment-return small_runtime full_machine (73712 ∷ []) [] 69568 1 42 (λ a. 7)
      full_machine-IsFull
