-- ===== src/ObjectModel/Mixed.antt =====
-- slvm_Behavior_basicNewMixedNative: objects with oops in front and bytes behind.
use Prim.Native.Nat.{bit_and, bit_or}
use slvm_native.Common.{
  ℕ, ◌+◌, ◌-◌, ◌*◌, ◌/◌, ◌%◌, ◌^◌, ◌≤◌, ◌<◌, ◌≡◌, ◌≢◌, ◌⊎◌, inl, refl, ap, ◌∙◌, true, leb, arith,
  ok, Returns_bind, Returns, ==_refl, ne→==,
}
use slvm_native.Common.Bits.{bit_and-ones}
use slvm_native.Common.BitOr.{bit_or_shift32}
use slvm_native.Common.Words.{add_word, sub_word, mul_word}
use slvm_native.ObjectModel.Formats.{format_extra_size}
use slvm_native.ObjectModel.{
  ObjectMemory, Behavior, write_header, fill_words, class_header, decode_format, decode_fixed_size,
  basic_size, first_native_data_pointer, basic_new_mixed_native,
}
use slvm_native.ObjectModel.Making.{
  IsMemory, IsMade, Counted, instantiate_mixed_object-IsMade, fill_words_outside, fill_words_inside,
}
use slvm_native.ObjectModel.Sizes.{oop_is_pointers_lem, oop_is_immediate_lem}

-- A new object of `oops` slots for oops and `native` bytes behind them: its class, its size in
-- bytes, nil in every oop, zeros in the bytes, and nothing else in memory changed.
pub record IsMixedInstance (m : ObjectMemory) (behavior nil oops native : ℕ) (r : ℕ × ObjectMemory)
    : Type 0 where
  pub memory : IsMemory r.1
  pub above : m.heap.start + m.heap.size + 8 ≤ r.0
  pub near : r.0 < m.heap.start + m.heap.size + 40
  pub class_is : (r.1.headers r.0).class_index ≡ (m.headers behavior).identity_hash
  pub size_is : basic_size r.1 r.0 ≡ oops * 8 + native
  pub bytes_are : first_native_data_pointer r.1 r.0 ≡ ok (r.0 + 8 + oops * 8)
  pub oops_are : (i : ℕ) → i < oops → r.1.words (r.0 + 8 + i * 8) ≡ nil
  pub zeros : (i : ℕ) → i < (native + 7) / 8 → r.1.words (r.0 + 8 + oops * 8 + i * 8) ≡ 0
  pub ends : r.0 + 8 + (oops + (native + 7) / 8) * 8 ≡ r.1.heap.start + r.1.heap.size
  pub old_words : (x : ℕ) → x < m.heap.start + m.heap.size → r.1.words x ≡ m.words x
  pub old_headers : (o : ℕ) → o ≢ r.0 → r.1.headers o ≡ m.headers o

-- The two counts in the word before the header.
counts_low :
    (slots oops : ℕ)
    → slots < 2 ^ 32
    → oops < 2 ^ 32
    → bit_or slots (oops * 2 ^ 32 % 2 ^ 64) ≡ slots + oops * 2 ^ 32
counts_low slots oops h k =
    let small : oops * 2 ^ 32 % 2 ^ 64 ≡ oops * 2 ^ 32 = omega arith in
    rw small (bit_or_shift32 slots oops h)

low_half : (c : ℕ) → bit_and c 0xffffffff ≡ c % 2 ^ 32
low_half c = bit_and-ones 32 c

padding_extra : (p : ℕ) → p < 8 → format_extra_size ((24 + p) % 32) ≡ p
unfolding format_extra_size
padding_extra p h = ground arith

-- What a header with these counts says of the object.
module _ (m : ObjectMemory) (oop slots oops padding : ℕ) (aligned : oop % 8 ≡ 0)
    (padded : padding < 8) (few : slots < 2 ^ 32) (fewer : oops ≤ slots)
    (fits : padding ≤ slots * 8) (format_is : (m.headers oop).object_format ≡ (24 + padding) % 32)
    (big : (m.headers oop).slot_count ≡ 255)
    (counts : m.words (sub_word oop 8) ≡ slots + oops * 2 ^ 32) where
  mixed_size : basic_size m oop ≡ slots * 8 - padding
  unfolding basic_size
  mixed_size =
      let mixed : leb 24 ((24 + padding) % 32) ≡ true = ground arith in
      rw
        (
          oop_is_immediate_lem oop aligned,
          format_is,
          big,
          counts,
          mixed,
          padding_extra padding padded,
          low_half (slots + oops * 2 ^ 32),
        )
        (omega arith)

  mixed_bytes :
      oop + 8 + oops * 8 < 2 ^ 64 → first_native_data_pointer m oop ≡ ok (oop + 8 + oops * 8)
  unfolding first_native_data_pointer
  mixed_bytes h =
      let mixed : leb 24 ((24 + padding) % 32) ≡ true = ground arith in
      let place : add_word (add_word oop 8) (mul_word ((slots + oops * 2 ^ 32) / 2 ^ 32) 8)
          ≡ oop + 8 + oops * 8 =
        omega arith in
      rw (oop_is_pointers_lem oop aligned, format_is, counts, mixed) (ap ok place)

-- What basicNewMixedNative does with the result of the instantiation.
abbrev finish_mixed : ℕ → ℕ → ℕ → ℕ → ℕ → ℕ × ObjectMemory → ℕ × ObjectMemory
finish_mixed behavior nil format slots oops r = (
  r.0,
  record (r.1) {
    headers =
        write_header r.1.headers r.0
          (class_header (r.1.headers r.0) (r.1.headers behavior).identity_hash format);
    words =
        fill_words (fill_words r.1.words (add_word r.0 8) oops nil)
          (add_word (add_word r.0 8) (mul_word oops 8)) (sub_word slots oops) 0;
  },
)

module _ (m : ObjectMemory) (behavior nil oops z : ℕ) (is : IsMemory m)
    (room : m.heap.start + m.heap.size + (oops + z) * 8 + 5000 < 2 ^ 64)
    (elsewhere : (behavior < m.heap.start + m.heap.size)
      ⊎ (m.heap.start + m.heap.size + 40 ≤ behavior))
    (r : ℕ × ObjectMemory) (format : ℕ) (made : IsMade m ((oops + z) * 8) 255 r) where
  -- The words of the finished object, with the numbers written out.
  finished_words :
      (x : ℕ)
      → (finish_mixed behavior nil format (oops + z) oops r).1.words x
        ≡ fill_words (fill_words r.1.words (r.0 + 8) oops nil) (r.0 + 8 + oops * 8) z 0 x
  finished_words x =
      let next : add_word r.0 8 ≡ r.0 + 8 = omega (arith, made.near) in
      let bytes : add_word (r.0 + 8) (mul_word oops 8) ≡ r.0 + 8 + oops * 8 =
        omega (arith, made.near) in
      let rest : sub_word (oops + z) oops ≡ z = omega arith in rw (next, bytes, rest)

  -- Outside the body nothing is written.
  finished_outside :
      (x : ℕ)
      → x < r.0 + 8
      → (finish_mixed behavior nil format (oops + z) oops r).1.words x ≡ r.1.words x
  finished_outside x h =
      finished_words x
      ∙ fill_words_outside (fill_words r.1.words (r.0 + 8) oops nil) (r.0 + 8 + oops * 8) z 0 x
          (omega (arith, made.near)) (inl (omega arith))
      ∙ fill_words_outside r.1.words (r.0 + 8) oops nil x (omega (arith, made.near)) (inl h)

  finish_mixed-IsMixedInstance :
      (native : ℕ)
      → z ≡ (native + 7) / 8
      → oops + z < 2 ^ 32
      → Counted m (oops + z) is room (oops + z + oops * 2 ^ 32) r
      → format % 32 ≡ (24 + (z * 8 - native)) % 32
      → IsMixedInstance m behavior nil oops native
          (finish_mixed behavior nil format (oops + z) oops r)
  finish_mixed-IsMixedInstance native e few counted padded =
      let f = finish_mixed behavior nil format (oops + z) oops r in
      let back : sub_word r.0 8 < r.0 + 8 = omega (arith, made.near, made.above) in
      let other : behavior ≢ r.0 = omega (arith, made.near, made.above) in
      let small : z * 8 - native < 8 = omega arith in
      let header : (f.1.headers r.0).object_format ≡ (24 + (z * 8 - native)) % 32 =
        rw (==_refl r.0) padded in
      let big : (f.1.headers r.0).slot_count ≡ 255 = rw (==_refl r.0, made.header) refl in
      let counts : f.1.words (sub_word r.0 8) ≡ oops + z + oops * 2 ^ 32 =
        finished_outside (sub_word r.0 8) back ∙ counted in
      record {
        memory = record { heap = made.memory.heap; requested = made.memory.requested };
        above = made.above;
        near = made.near;
        class_is = rw (==_refl r.0, made.old_headers behavior other) refl;
        size_is =
            mixed_size f.1 r.0 (oops + z) oops (z * 8 - native) made.aligned small few (omega arith)
              (omega arith) header big counts
            ∙ omega arith;
        bytes_are =
            mixed_bytes f.1 r.0 (oops + z) oops (z * 8 - native) made.aligned small few
              (omega arith) (omega arith) header big counts (omega (arith, made.near));
        oops_are = λ i h.
            finished_words (r.0 + 8 + i * 8)
            ∙ fill_words_outside (fill_words r.1.words (r.0 + 8) oops nil) (r.0 + 8 + oops * 8) z 0
                (r.0 + 8 + i * 8) (omega (arith, made.near)) (inl (omega arith))
            ∙ fill_words_inside r.1.words (r.0 + 8) oops nil i (omega (arith, made.near)) h;
        zeros = λ i h.
            finished_words (r.0 + 8 + oops * 8 + i * 8)
            ∙ fill_words_inside (fill_words r.1.words (r.0 + 8) oops nil) (r.0 + 8 + oops * 8) z 0 i
                (omega (arith, made.near)) (omega arith);
        ends = omega (arith, made.ends);
        old_words = λ x h. finished_outside x (omega (arith, made.above)) ∙ made.old_words x h;
        old_headers = λ o h. rw (ne→== o r.0 h) (made.old_headers o h);
      }

-- For a behavior in the mixed format that is not nil and not in the free part of the heap, with
-- counts below 2 ^ 32 and while the heap stays below 2 ^ 64, basicNewMixedNative returns an object
-- with the fixed slots and `n` more for oops, and `native` bytes behind them: basicSize is the
-- bytes of both, the native data pointer stands behind the oops, the oops are nil, the bytes zero,
-- and nothing else has changed.
pub basic_new_mixed_native-IsMixedInstance :
    (nil : ℕ) (behaviors : ℕ → Behavior) (m : ObjectMemory) (behavior fixed n native : ℕ)
    → IsMemory m
    → behavior ≢ nil
    → (behavior < m.heap.start + m.heap.size) ⊎ (m.heap.start + m.heap.size + 40 ≤ behavior)
    → decode_format (behaviors behavior).format ≡ 24
    → decode_fixed_size (behaviors behavior).format ≡ fixed
    → fixed + n + native < 2 ^ 32
    → m.heap.start + m.heap.size + (fixed + n + native) * 8 + 6000 < 2 ^ 64
    → Returns
        (basic_new_mixed_native nil behaviors m behavior n native)
        (IsMixedInstance m behavior nil (fixed + n) native)
unfolding basic_new_mixed_native
basic_new_mixed_native-IsMixedInstance nil behaviors m behavior fixed n native is real elsewhere
      has_format has_fixed few room =
    let z = (native + 7) / 8 in
    let content : add_word (mul_word n 8) native ≡ n * 8 + native = omega arith in
    let extra : add_word (n * 8 + native) 7 / 8 ≡ n + z = omega arith in
    let remaining : sub_word (mul_word (n + z) 8) (n * 8 + native) ≡ z * 8 - native = omega arith in
    let oops : add_word fixed n ≡ fixed + n = omega arith in
    let slots : add_word fixed (n + z) ≡ fixed + n + z = omega arith in
    let counts = counts_low (fixed + n + z) (fixed + n) (omega arith) (omega arith) in
    let room' : m.heap.start + m.heap.size + (fixed + n + z) * 8 + 5000 < 2 ^ 64 = omega arith in
    rw (has_format, has_fixed, content, extra, remaining, oops, slots, ne→== behavior nil real)
      (Returns_bind _ (instantiate_mixed_object-IsMade m (fixed + n + z) is room' (fixed + n))
        λ r (made, counted). (
          _,
          refl,
          finish_mixed-IsMixedInstance m behavior nil (fixed + n) z is room' elsewhere r
              (24 + (z * 8 - native)) made native refl (omega arith) (counted ∙ counts) refl,
        ))
