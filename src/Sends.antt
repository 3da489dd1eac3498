-- ===== src/Sends.antt =====
-- src/native/x86/send.c: message sends, from the frame that the trampolines leave on the stack to
-- the activation of the method, and the moves between stack segments. Memory is 64-bit words by
-- address; what the C code does last is a jump through a trampoline or a return to its C caller.
pub mod Activating
pub mod Frames
pub mod Dispatch
pub mod Closures
pub mod Entering
pub mod Overflow
pub mod Moved
pub mod Returning
pub mod Contexts
use Prim.Native.Nat.{bit_or, bit_and}
use slvm_native.Common.{
  ℕ, zero, suc, ◌+◌, ◌*◌, ◌/◌, ◌%◌, ◌^◌, ◌==◌, if◌then◌else◌, not, Outcome, ok, aborted, ◌>>=◌,
}
use slvm_native.Common.Words.{add_word, sub_word}
use slvm_native.Oop.{decode_small_integer, class_index_from_oop}
use slvm_native.Memory.{align_word}
use slvm_native.ObjectModel.{write_word}
use slvm_native.ClassTable.{ClassTable, class_from_oop}
use slvm_native.Lookup.{World, lookup}
use slvm_native.ExecutionStack.{
  Segment, ExecutionStack, write_segment, node_of, segment_of, get_valid_segment,
  create_new_segment, pop_segment,
}

abbrev pub compiled_method_index : ℕ
compiled_method_index = 190

abbrev pub primitive_method_index : ℕ
primitive_method_index = 191

-- `SLVM_CC_Smalltalk` and `SLVM_CC_CDecl`
abbrev pub cc_smalltalk : ℕ
cc_smalltalk = 0

abbrev pub cc_cdecl : ℕ
cc_cdecl = 1

-- `SLVM_CompiledMethod`, the fields that sends read.
pub record CompiledMethod : Type 0 where
  pub entry_point : ℕ
  pub method_flags : ℕ

-- `SLVM_BlockClosure`
pub record BlockClosure : Type 0 where
  pub startpc : ℕ
  pub num_args : ℕ

-- The process: the words of memory, the execution stack, the classes, and by their addresses the
-- compiled methods, the entry points of the primitive methods and the closures.
pub record Machine : Type 0 where
  pub words : ℕ → ℕ
  pub stack : ExecutionStack
  pub table : ClassTable
  pub world : World
  pub compiled : ℕ → CompiledMethod
  pub primitive_entry : ℕ → ℕ
  pub closures : ℕ → BlockClosure

-- How an activation leaves the C code: by `_slvm_dynrun_returnToSender_trampoline` with the stack
-- pointer to restore and a value, by `_slvm_dynrun_returnToMethod_trampoline` with the stack
-- pointer and the address to jump to, or by `return`.
pub data Activation : Type 0 where
  to_sender : ℕ → ℕ → Activation
  to_method : ℕ → ℕ → Activation
  returns : ℕ → Activation

-- `SLVM_PrimitiveContext`; the error code is what the primitive gives back.
pub record PrimitiveContext : Type 0 where
  pub context_calling_convention : ℕ
  pub stack_pointer : ℕ
  pub selector : ℕ
  pub receiver : ℕ
  pub oop_argument_count : ℕ
  pub oop_arguments : ℕ
  pub native_argument_size : ℕ
  pub native_arguments : ℕ

-- The outside of this file: nil, the addresses of two trampolines, the C functions of primitives by
-- their addresses, with an error code besides how they leave, and the switch to the Smalltalk stack
-- at a segment's end, which comes back with a result.
pub record Runtime : Type 0 where
  pub nil : ℕ
  pub return_to_c : ℕ
  pub pop_trap : ℕ
  pub primitive : ℕ → PrimitiveContext → Machine → Outcome (ℕ × (Activation × Machine))
  pub switch_to_smalltalk : ℕ → ℕ → Machine → Outcome (ℕ × Machine)

-- `MessageSmalltalkMetadata`
pub record Metadata : Type 0 where
  pub oop_count : ℕ
  pub native_size : ℕ
  pub message : ℕ
  pub saved_frame : ℕ
  pub saved_return : ℕ

-- The two halves of an argument descriptor.
abbrev pub oop_count_of : ℕ → ℕ
oop_count_of descriptor = descriptor % 2 ^ 16

abbrev pub native_size_of : ℕ → ℕ
native_size_of descriptor = descriptor / 2 ^ 16 % 2 ^ 16

-- The metadata as a Smalltalk sender leaves it.
unfoldable pub smalltalk_metadata : (ℕ → ℕ) → ℕ → Metadata
smalltalk_metadata words sp = record {
  oop_count = oop_count_of (words sp);
  native_size = native_size_of (words sp);
  message = words (add_word sp 8);
  saved_frame = words (add_word sp 16);
  saved_return = words (add_word sp 24);
}

-- `slvm_dynrun_convertSendMetadataToSmalltalkFromC`, on the metadata as a C sender leaves it.
unfoldable pub converted_metadata : (ℕ → ℕ) → ℕ → Metadata
converted_metadata words sp = record {
  oop_count = oop_count_of (words (add_word sp 16));
  native_size = native_size_of (words (add_word sp 16));
  message = words (add_word sp 24);
  saved_frame = words sp;
  saved_return = words (add_word sp 8);
}

unfoldable pub metadata : ℕ → (ℕ → ℕ) → ℕ → Metadata
metadata convention words sp =
    if convention == cc_cdecl then converted_metadata words sp else smalltalk_metadata words sp

-- `requiredArguments->receiver` and `requiredArguments->oopArguments`, behind the metadata.
abbrev pub receiver_at : (ℕ → ℕ) → ℕ → ℕ
receiver_at words sp = words (add_word sp 32)

abbrev pub arguments_at : ℕ → ℕ
arguments_at sp = add_word sp 40

-- `slvm_dynrun_returnToSmalltalkSender`: the return frame is the last two words of the arguments.
unfoldable pub return_to_smalltalk_sender : ℕ → ℕ → Machine → Outcome (Activation × Machine)
return_to_smalltalk_sender sp value m =
    let d = smalltalk_metadata m.words sp in
    let native_arguments = add_word (arguments_at sp) (d.oop_count * 8) in
    let frame = sub_word (add_word native_arguments d.native_size) 16 in
    let written = write_word m.words (add_word frame 8) d.saved_return in
    ok (
      to_sender frame value,
      record m { words = write_word written frame (written (add_word sp 16)) },
    )

-- `memcpy` of n words.
unfoldable pub copy_words : (ℕ → ℕ) → ℕ → ℕ → ℕ → ℕ → ℕ
copy_words words dest source zero = words
copy_words words dest source (suc n) =
    copy_words (write_word words dest (words source)) (add_word dest 8) (add_word source 8) n

-- `segment->stackPointer = value`
abbrev pub move_stack : ExecutionStack → ℕ → ℕ → ExecutionStack
move_stack e s value = record e {
  segments = write_segment e.segments s (record (e.segments s) { stack_pointer = value });
}

-- The bytes of the receiver and the arguments that go to the Smalltalk stack.
unfoldable pub total_argument_size : Metadata → ℕ
total_argument_size d = align_word ((d.oop_count + 1) * 8 + d.native_size) 16

-- The C to Smalltalk branch of `slvm_dynrun_send_activateMethod` up to the switch: the receiver and
-- the arguments are copied to the segment, under the address of the trampoline back to C.
unfoldable pub push_c_arguments : Runtime → ℕ → ℕ → Machine → ExecutionStack → Machine
push_c_arguments t sp s m e =
    let total = total_argument_size (converted_metadata m.words sp) in
    let arguments = sub_word (e.segments s).stack_pointer total in
    let copied = copy_words m.words arguments (add_word sp 32) (total / 8) in
    let top = sub_word arguments 8 in
    record m { words = write_word copied top t.return_to_c; stack = move_stack e s top }

-- The segment is popped when the frame was the thread's first.
unfoldable pub pop_base : ExecutionStack → ℕ → ℕ → Machine → Outcome (Activation × Machine)
pop_base e s result after =
    if (e.segments s).stack_pointer == (e.segments s).thread_data
    then (pop_segment after.stack s >>= λ popped.
        ok (returns result, record after { stack = popped }))
    else ok (returns result, after)

unfoldable pub enter_smalltalk : Runtime → ℕ → ℕ → Machine → Outcome (Activation × Machine)
enter_smalltalk t sp entry m = get_valid_segment m.stack >>= λ r.
    t.switch_to_smalltalk (add_word r.0 64) entry (push_c_arguments t sp r.0 m r.1) >>= λ s.
    pop_base r.1 r.0 s.0 s.1
