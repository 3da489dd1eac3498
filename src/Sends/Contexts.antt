-- ===== src/Sends/Contexts.antt =====
-- src/native/x86/send.c: the runtime primitives that make contexts, closures and vectors of
-- temporaries. Stack and heap are the same words; the arguments of a primitive stand on the stack
-- behind the frame pointer and the return address of its sender. Also slvm_PrimitiveMethod_make of
-- src/classes/context.c.
pub mod Fields
pub mod Returning
pub mod Marrying
pub mod Closing
use slvm_native.Common.{ℕ, ◌+◌, ◌*◌, ◌/◌, ◌%◌, ◌^◌, Outcome, ok, ◌>>=◌}
use slvm_native.Common.Words.{add_word, sub_word}
use slvm_native.Oop.{encode_small_integer, encode_aligned_pointer}
use slvm_native.Memory.{align_word}
use slvm_native.ObjectModel.{
  ObjectMemory, Behavior, write_word, basic_new, basic_new_mixed_native, first_native_data_pointer,
}
use slvm_native.Sends.{Activation, to_sender, oop_count_of, native_size_of, copy_words}

-- `SLVM_RUNTIME_PRIMITIVE_ARG`
abbrev pub primitive_argument : (ℕ → ℕ) → ℕ → ℕ → ℕ
primitive_argument words sp index = words (add_word sp (16 + index * 8))

-- `SLVM_RUNTIME_PRIMITIVE_RETURN`
unfoldable pub primitive_return : ℕ → ℕ → ℕ → ObjectMemory → Activation × ObjectMemory
unfolding align_word
primitive_return sp pop_count value m =
    let frame = sub_word (add_word (add_word sp 16) (align_word (pop_count * 8) 16)) 16 in
    let written = write_word m.words (add_word frame 8) (m.words (add_word sp 8)) in
    (to_sender frame value, record m { words = write_word written frame (written sp) })

-- `slvm_stackFrameHeaderFromFramePointer`
abbrev pub frame_header_of : ℕ → ℕ
frame_header_of frame_pointer = sub_word frame_pointer 40

-- `object->field = f(header->field)`
abbrev pub copy_field : (ℕ → ℕ) → ℕ → ℕ → (ℕ → ℕ) → ℕ → ℕ
copy_field words dest source f = write_word words dest (f (words source))

-- The fields of a new context: sender, pc, method, both descriptors and the receiver.
unfoldable pub context_fields : ℕ → ℕ → ℕ → (ℕ → ℕ) → ℕ → ℕ
context_fields context frame_pointer header words =
    let sender = write_word words (add_word context 8) (encode_aligned_pointer frame_pointer) in
    let pc = copy_field sender (add_word context 16) (add_word header 40) encode_aligned_pointer in
    let method = copy_field pc (add_word context 32) (add_word header 32) (λ x. x) in
    let described =
      copy_field method (add_word context 56) (add_word header 16) encode_small_integer in
    let temporaries =
      copy_field described (add_word context 64) (add_word header 8) encode_small_integer in
    copy_field temporaries (add_word context 48) (add_word header 56) (λ x. x)

module _ (nil : ℕ) (behaviors : ℕ → Behavior) where
  -- `slvm_dynrun_primitive_marryThisContext`, for native arguments of whole words.
  unfoldable pub marry_this_context : ℕ → ℕ → ObjectMemory → Outcome (Activation × ObjectMemory)
  marry_this_context method_context_class sp m =
      let frame_pointer = primitive_argument m.words sp 0 in
      let header = frame_header_of frame_pointer in
      let arguments = m.words (add_word header 16) in
      let temporaries = m.words (add_word header 8) in
      basic_new_mixed_native nil behaviors m method_context_class
        (oop_count_of arguments + oop_count_of temporaries)
        (native_size_of arguments + native_size_of temporaries)
      >>= λ r.
          let fields = context_fields r.0 frame_pointer header r.1.words in
          let copied =
            copy_words fields (add_word r.0 72) (add_word header 64) (oop_count_of arguments) in
          first_native_data_pointer (record (r.1) { words = copied }) r.0 >>= λ native_data.
          let finished =
            copy_words copied native_data (add_word header (64 + oop_count_of arguments * 8))
              (native_size_of arguments / 8) in
          ok (
            primitive_return sp 1 r.0
              (record (r.1) { words = write_word finished (add_word header 24) r.0 }))

  -- `slvm_dynrun_primitive_createFullBlockClosure`
  unfoldable pub create_full_block_closure :
      ℕ → ℕ → ObjectMemory → Outcome (Activation × ObjectMemory)
  create_full_block_closure full_block_closure_class sp m =
      let compiled_method = primitive_argument m.words sp 2 in
      basic_new nil behaviors m full_block_closure_class (primitive_argument m.words sp 3 % 2 ^ 32)
      >>= λ r.
          let outer = write_word r.1.words (add_word r.0 8) (primitive_argument m.words sp 0) in
          let described =
            copy_field outer (add_word r.0 24) (add_word compiled_method 24) (λ x. x) in
          let code = write_word described (add_word r.0 16) compiled_method in
          let received = write_word code (add_word r.0 32) (primitive_argument m.words sp 1) in
          ok (primitive_return sp 4 r.0 (record (r.1) { words = received }))

  -- `slvm_Array_new`
  unfoldable pub array_new : ℕ → ℕ → ObjectMemory → Outcome (ℕ × ObjectMemory)
  array_new array_class n m = basic_new nil behaviors m array_class n

  -- `slvm_dynrun_primitive_tempVectorCreate`
  unfoldable pub temp_vector_create : ℕ → ℕ → ObjectMemory → Outcome (Activation × ObjectMemory)
  temp_vector_create array_class sp m =
      array_new array_class (primitive_argument m.words sp 0) m >>= λ r.
      ok (primitive_return sp 1 r.0 r.1)

  -- `slvm_PrimitiveMethod_make`
  unfoldable pub primitive_method_make : ℕ → ℕ → ObjectMemory → Outcome (ℕ × ObjectMemory)
  primitive_method_make primitive_method_class function m =
      basic_new nil behaviors m primitive_method_class 8 >>= λ r.
      ok (r.0, record (r.1) { words = write_word r.1.words (add_word r.0 8) function })
