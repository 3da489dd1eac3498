-- ===== src/ObjectModel.antt =====
-- Objects of src/spur/objectmodel.c on the 64-bit variant: allocation in the compacting heap, and
-- the size of an object.
pub mod Formats
pub mod Making
pub mod Sizes
pub mod Instances
pub mod Mixed
pub mod Halves
use Prim.Native.Nat.{bit_and, bit_or}
use slvm_native.Common.{
  ℕ, zero, suc, ◌+◌, ◌-◌, ◌*◌, ◌/◌, ◌%◌, ◌^◌, Bool, ◌==◌, ltb, leb, if◌then◌else◌, List, ◌++◌,
  Outcome, ok, aborted, ◌>>=◌,
}
use slvm_native.Common.Words.{add_word, sub_word, mul_word}
use slvm_native.Memory.{StackHeap, Mprotect, Allocation, stack_heap_allocate}
use slvm_native.Oop.{ObjectHeader, decode_small_integer, oop_is_immediate, oop_is_pointers}
use slvm_native.ObjectModel.Formats.{
  of_indexable_64, of_indexable_32, of_indexable_16, of_indexable_8, of_mixed_object,
  format_multiplier, format_extra_size,
}

-- The compacting heap with what stands in it: `words` are the words of eight bytes, `headers` the
-- object headers, `calls` the mprotect calls so far.
pub record ObjectMemory : Type 0 where
  pub heap : StackHeap
  pub words : ℕ → ℕ
  pub headers : ℕ → ObjectHeader
  pub calls : List Mprotect

-- The fields of `SLVM_Behavior` that allocation and lookup read.
pub record Behavior : Type 0 where
  pub superclass : ℕ
  pub method_dict : ℕ
  pub format : ℕ

abbrev pub write_word : (ℕ → ℕ) → ℕ → ℕ → ℕ → ℕ
write_word words address value a = if a == address then value else words a

-- `for(i = 0; i < n; ++i) data[i] = value`, and `memset` of n words.
unfoldable pub fill_words : (ℕ → ℕ) → ℕ → ℕ → ℕ → ℕ → ℕ
fill_words words address zero value = words
fill_words words address (suc n) value =
    fill_words (write_word words address value) (add_word address 8) n value

-- `slvm_Behavior_decodeFormat`, as an `unsigned int`, and `slvm_Behavior_decodeFixedSize`
unfoldable pub decode_format : ℕ → ℕ
decode_format format = decode_small_integer format / 2 ^ 16 % 2 ^ 32

unfoldable pub decode_fixed_size : ℕ → ℕ
decode_fixed_size format = bit_and (decode_small_integer format) 0xffff

-- The header that both instantiations write.
abbrev pub initial_header : ℕ → ℕ → ObjectHeader
initial_header oop slots = record {
  class_index = 0;
  object_format = 0;
  gc_color = 0;
  identity_hash = oop / 16 % 2 ^ 22;
  is_pinned = 0;
  is_immutable = 0;
  slot_count = slots;
}

abbrev pub write_header : (ℕ → ObjectHeader) → ℕ → ObjectHeader → ℕ → ObjectHeader
write_header headers oop header o = if o == oop then header else headers o

-- An allocated block as an object whose pre-header has `preheader` bytes.
unfoldable pub place_object : ObjectMemory → Allocation → ℕ → (ℕ → ℕ) → ℕ → ℕ × ObjectMemory
place_object m a preheader words slots =
    let oop = add_word a.block preheader in
    (
      oop,
      record {
        heap = a.heap;
        words = words;
        headers = write_header m.headers oop (initial_header oop slots);
        calls = a.commits ++ m.calls;
      },
    )

-- The pre-header of a big object: the flag, and the counts two words further.
abbrev pub big_preheader : (ℕ → ℕ) → ℕ → ℕ → ℕ → ℕ
big_preheader words block counts = write_word (write_word words block 1) (add_word block 16) counts

-- `slvm_spur_instantiate_object`, which does not read its format.
unfoldable pub instantiate_object : ObjectMemory → ℕ → Outcome (ℕ × ObjectMemory)
instantiate_object m slot_count =
    let preheader = if leb 255 slot_count then 24 else 8 in
    let total = add_word (preheader + 8) (mul_word slot_count 8) in
    stack_heap_allocate m.heap 16 total >>= λ a. ok (
      place_object m a preheader
        (if leb 255 slot_count
          then big_preheader m.words a.block slot_count
          else write_word m.words a.block 0)
        (if leb 255 slot_count then 255 else slot_count))

-- `slvm_spur_instantiate_mixed_object`
unfoldable pub instantiate_mixed_object : ObjectMemory → ℕ → ℕ → Outcome (ℕ × ObjectMemory)
instantiate_mixed_object m oop_slot_count slot_count =
    let total = add_word 32 (mul_word slot_count 8) in
    stack_heap_allocate m.heap 16 total >>= λ a. ok (
      place_object m a 24
        (big_preheader m.words a.block (bit_or slot_count (oop_slot_count * 2 ^ 32 % 2 ^ 64))) 255)

-- `slvm_basicSize`: in a small object the product is a 32-bit number.
unfoldable pub basic_size : ObjectMemory → ℕ → ℕ
basic_size m oop =
    let header = m.headers oop in
    let counts = m.words (sub_word oop 8) in
    if oop_is_immediate oop
    then 0
    else if header.slot_count == 255
    then (if leb of_mixed_object header.object_format
        then sub_word (mul_word (bit_and counts 0xffffffff) 8)
            (format_extra_size header.object_format)
        else sub_word (mul_word counts (format_multiplier header.object_format))
            (format_extra_size header.object_format))
    else ((header.slot_count * format_multiplier header.object_format
          + (2 ^ 32 - format_extra_size header.object_format))
        % 2 ^ 32)

-- `slvm_firstNativeDataPointer`: it reads the upper half of the word before the header.
unfoldable pub first_native_data_pointer : ObjectMemory → ℕ → Outcome ℕ
first_native_data_pointer m oop =
    if oop_is_pointers oop
    then (if leb of_mixed_object (m.headers oop).object_format
        then ok (add_word (add_word oop 8) (mul_word (m.words (sub_word oop 8) / 2 ^ 32) 8))
        else aborted)
    else aborted

-- `extraSlotCount` and `elementSize` of `slvm_Behavior_basicNew`
unfoldable pub extra_slots : ℕ → ℕ → ℕ × ℕ
extra_slots format n =
    if format == of_indexable_64
    then (n, 8)
    else if format == of_indexable_32
    then (add_word (mul_word n 4) 7 / 4, 4)
    else if format == of_indexable_16
    then (add_word (mul_word n 2) 7 / 8, 2)
    else if format == of_indexable_8
    then (add_word n 7 / 8, 1)
    else (n, 8)

-- The class of a new object and its format with the padding, which has a field of five bits.
abbrev pub class_header : ObjectHeader → ℕ → ℕ → ObjectHeader
class_header header class_index format = record header {
  class_index = class_index;
  object_format = format % 2 ^ 5;
}

-- `nil` is the address of `slvm_nil`, `behaviors` the behaviors by their addresses.
module _ (nil : ℕ) (behaviors : ℕ → Behavior) where
  -- `slvm_Behavior_basicNew`
  unfoldable pub basic_new : ObjectMemory → ℕ → ℕ → Outcome (ℕ × ObjectMemory)
  basic_new m behavior variable_size =
      let format = decode_format (behaviors behavior).format in
      let fixed_slot_count = decode_fixed_size (behaviors behavior).format in
      let (extra_slot_count, element_size) = extra_slots format variable_size in
      let remaining =
        sub_word (mul_word extra_slot_count 8) (mul_word variable_size element_size) in
      let slot_count = add_word fixed_slot_count extra_slot_count in
      let content = if ltb format of_indexable_64 then nil else 0 in
      if behavior == nil
      then aborted
      else if leb of_mixed_object format
      then aborted
      else (instantiate_object m slot_count >>= λ r.
          let (oop, made) = r in
          ok (
            oop,
            record made {
              headers = write_header made.headers oop (
                  class_header (made.headers oop) (made.headers behavior).identity_hash
                    (format + remaining));
              words = fill_words made.words (add_word oop 8) slot_count content;
            },
          ))

  -- `slvm_Behavior_basicNewMixedNative`
  unfoldable pub basic_new_mixed_native : ObjectMemory → ℕ → ℕ → ℕ → Outcome (ℕ × ObjectMemory)
  basic_new_mixed_native m behavior variable_size native_variable_size =
      let format = decode_format (behaviors behavior).format in
      let fixed_slot_count = decode_fixed_size (behaviors behavior).format in
      let oop_slot_count = add_word fixed_slot_count variable_size in
      let variable_content_size = add_word (mul_word variable_size 8) native_variable_size in
      let extra_slot_count = add_word variable_content_size 7 / 8 in
      let remaining = sub_word (mul_word extra_slot_count 8) variable_content_size in
      let slot_count = add_word fixed_slot_count extra_slot_count in
      if behavior == nil
      then aborted
      else (instantiate_mixed_object m oop_slot_count slot_count >>= λ r.
          let (oop, made) = r in
          ok (
            oop,
            record made {
              headers = write_header made.headers oop (
                  class_header (made.headers oop) (made.headers behavior).identity_hash
                    (format + remaining));
              words =
                  fill_words (fill_words made.words (add_word oop 8) oop_slot_count nil)
                    (add_word (add_word oop 8) (mul_word oop_slot_count 8))
                    (sub_word slot_count oop_slot_count) 0;
            },
          ))
