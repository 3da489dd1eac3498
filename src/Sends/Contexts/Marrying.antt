-- ===== src/Sends/Contexts/Marrying.antt =====
-- A frame and its new context.
use slvm_native.Common.{
  ℕ, ◌+◌, ◌*◌, ◌^◌, ◌≤◌, ◌<◌, ◌≡◌, ◌≢◌, inl, refl, arith, bind_ok, Returns, Returns_bind,
}
use slvm_native.Common.Words.{add_word, sub_word}
use slvm_native.ObjectModel.{ObjectMemory, Behavior, decode_format, decode_fixed_size}
use slvm_native.ObjectModel.Making.{IsMemory}
use slvm_native.ObjectModel.Mixed.{basic_new_mixed_native-IsMixedInstance}
use slvm_native.Collections.Dictionary.Making.{end_of}
use slvm_native.Sends.{oop_count_of, native_size_of}
use slvm_native.Sends.Contexts.{primitive_argument, marry_this_context}
use slvm_native.Sends.Contexts.Fields.{primitive_return-LeavesTo}
use slvm_native.Sends.Contexts.Returning.{
  IsMarried, aligned_return, with_context, native_data, returned-IsMarried,
}

-- For a frame pointer `h + 40` behind the arguments of the call, whose frame ends in front of the
-- end of the heap, with MethodContext in the mixed format of eight fixed slots and the heap below
-- 2 ^ 64, the primitive returns: a fresh context, in the size of the frame's descriptors, holds the
-- frame pointer, the saved frame pointer, the method, the receiver, both descriptors, the arguments
-- and the whole words of native arguments of the frame, nil in stackp, in closureOrNil and in the
-- temporaries that are oops, and zero in the words of native temporaries behind the last word of
-- native arguments; the frame points to the context; the sender gets it, with its own frame
-- pointer and return address; and no other word in front of the heap's end has changed.
pub marry_this_context-IsMarried :
    (nil : ℕ) (behaviors : ℕ → Behavior) (m : ObjectMemory) (class_oop sp h : ℕ)
    → let a = oop_count_of (m.words (h + 16)) in
      let n = native_size_of (m.words (h + 16)) in
      let b = oop_count_of (m.words (h + 8)) in
      let z = native_size_of (m.words (h + 8)) in
      IsMemory m
      → class_oop ≢ nil
      → class_oop < end_of m
      → decode_format (behaviors class_oop).format ≡ 24
      → decode_fixed_size (behaviors class_oop).format ≡ 8
      → primitive_argument m.words sp 0 ≡ h + 40
      → sp + 32 ≤ h
      → h + 64 + a * 8 + n ≤ end_of m
      → end_of m + 3000000 < 2 ^ 64
      → Returns
          (marry_this_context nil behaviors class_oop sp m)
          (IsMarried nil m class_oop sp h a b n z)
unfolding marry_this_context
marry_this_context-IsMarried nil behaviors m class_oop sp h is real low has_format has_fixed
      argument behind front room =
    let a = oop_count_of (m.words (h + 16)) in
    let n = native_size_of (m.words (h + 16)) in
    let b = oop_count_of (m.words (h + 8)) in
    let z = native_size_of (m.words (h + 8)) in
    let header : sub_word (h + 40) 40 ≡ h = omega arith in
    let h8 : add_word h 8 ≡ h + 8 = omega arith in
    let h16 : add_word h 16 ≡ h + 16 = omega arith in
    let h24 : add_word h 24 ≡ h + 24 = omega arith in
    let h64 : add_word h 64 ≡ h + 64 = omega arith in
    let ha : add_word h (64 + a * 8) ≡ h + 64 + a * 8 = omega arith in
    rw (argument, header, h8, h16, h24, h64, ha)
      (Returns_bind _
        (basic_new_mixed_native-IsMixedInstance nil behaviors m class_oop 8 (a + b) (n + z) is real
          (inl low) has_format has_fixed (omega arith) (omega arith))
        λ r new.
          let c72 : add_word r.0 72 ≡ r.0 + 72 = omega (arith, new.near) in
          (
            _,
            rw c72 (
                bind_ok _
                  (native_data nil m class_oop sp h a b n z behind front r new (omega arith))),
            returned-IsMarried nil m class_oop sp h a b n z behind front r new (omega arith) _ (
                primitive_return-LeavesTo sp 1 16 (sp + 16) r.0
                  (with_context nil m class_oop sp h a b n z behind front r new (omega arith))
                  aligned_return refl (omega arith) (omega arith)),
          ))
