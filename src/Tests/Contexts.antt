-- ===== src/Tests/Contexts.antt =====
-- The creation of contexts and closures at concrete inputs.
use slvm_native.Common.{ℕ, ◌≡◌, refl, ◌==◌, if◌then◌else◌, arith, Returns}
use slvm_native.Oop.{decode_small_integer}
use slvm_native.ObjectModel.{ObjectMemory, Behavior, decode_format, decode_fixed_size}
use slvm_native.ObjectModel.Making.{IsMemory}
use slvm_native.Sends.Contexts.{marry_this_context, create_full_block_closure}
use slvm_native.Sends.Contexts.Returning.{IsMarried}
use slvm_native.Sends.Contexts.Marrying.{marry_this_context-IsMarried}
use slvm_native.Sends.Contexts.Closing.{IsClosure, create_full_block_closure-IsClosure}
use slvm_native.Tests.Instances.{used_memory, used_memory-IsMemory}

-- MethodContext at 192 and FullBlockClosure at 208.
abbrev context_behaviors : ℕ → Behavior
context_behaviors b = record {
  superclass = 16;
  method_dict = 16;
  format = if b == 192 then 12582977 else 1572897;
}

context_formats :
    (decode_format 12582977 ≡ 24)
    × (decode_fixed_size 12582977 ≡ 8)
    × (decode_format 1572897 ≡ 3)
    × (decode_fixed_size 1572897 ≡ 4)
unfolding decode_format decode_fixed_size decode_small_integer
context_formats = (refl, refl, refl, refl)

-- The call at 1000 for the frame with the header at 1040, of two arguments, one temporary and eight
-- native bytes.
abbrev frame_memory : ObjectMemory
frame_memory = record used_memory {
  words = λ x.
      if x == 1016
      then 1080
      else if x == 1056
      then 524290
      else if x == 1048
      then 1
      else if x == 1096
      then 320
      else if x == 1104
      then 41
      else if x == 1112
      then 49
      else 16;
}

frame_memory-IsMemory : IsMemory frame_memory
frame_memory-IsMemory = record {
  heap = used_memory-IsMemory.heap;
  requested = used_memory-IsMemory.requested;
}

marry_this_context-IsMarried_example :
    Returns
      (marry_this_context 16 context_behaviors 192 1000 frame_memory)
      (IsMarried 16 frame_memory 192 1000 1040 2 1 8 0)
marry_this_context-IsMarried_example =
    marry_this_context-IsMarried 16 context_behaviors frame_memory 192 1000 1040
      frame_memory-IsMemory (omega arith) (omega arith) context_formats.0 context_formats.1 refl
      (omega arith) (omega arith) (omega arith)

-- The call at 2000, for the method at 2400 and three copied values.
abbrev call_memory : ObjectMemory
call_memory = record used_memory {
  words = λ x. if x == 2032 then 2400 else if x == 2040 then 3 else if x == 2424 then 9 else 320;
}

create_full_block_closure-IsClosure_example :
    Returns
      (create_full_block_closure 16 context_behaviors 208 2000 call_memory)
      (IsClosure 16 call_memory 208 2000 2400 3)
create_full_block_closure-IsClosure_example =
    create_full_block_closure-IsClosure 16 context_behaviors call_memory 208 2000 2400 3
      (record { heap = used_memory-IsMemory.heap; requested = used_memory-IsMemory.requested })
      (omega arith) (omega arith) context_formats.2 context_formats.3 refl refl (omega arith)
      (omega arith) (omega arith)
