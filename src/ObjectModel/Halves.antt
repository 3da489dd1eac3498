-- ===== src/ObjectModel/Halves.antt =====
-- Objects of 32-bit elements.
use Prim.Native.Nat.{bit_and}
use slvm_native.Common.{
  ℕ, ◌+◌, ◌*◌, ◌/◌, ◌%◌, ◌^◌, ◌≤◌, ◌<◌, ◌≡◌, ◌≢◌, ◌⊎◌, inl, inr, refl, ◌∙◌, true, false, ◌==◌, leb,
  arith, ok, Returns_bind, Returns, Bool-cases,
}
use slvm_native.Common.Bits.{bit_and-ones}
use slvm_native.Common.Words.{add_word, mul_word}
use slvm_native.ObjectModel.Formats.{format_multiplier, format_extra_size}
use slvm_native.ObjectModel.{
  ObjectMemory, Behavior, decode_format, decode_fixed_size, extra_slots, basic_size, basic_new,
}
use slvm_native.ObjectModel.Making.{IsMemory, instantiate_object_small, instantiate_object_big}
use slvm_native.ObjectModel.Sizes.{
  IsStored, oop_is_immediate_lem, basic_size_lem, few_or_many, format_extra_size-le,
}
use slvm_native.ObjectModel.Instances.{content_asked, finish, finish-IsStored, basic_new_lem}

mixed_multiplier : (format : ℕ) → format < 32 → leb 24 format ≡ true → format_multiplier format ≡ 8
unfolding format_multiplier
mixed_multiplier format h mixed = ground arith

-- The size that basicSize reads from a header, whatever its format.
any_size :
    (m : ObjectMemory) (oop slots format : ℕ)
    → IsStored m oop slots format
    → format < 32
    → slots < 2 ^ 32
    → format_extra_size format ≤ slots * format_multiplier format
    → basic_size m oop + format_extra_size format ≡ slots * format_multiplier format
unfolding basic_size
any_size m oop slots format is known few h = elim (Bool-cases (leb 24 format)) [
  | inr plain ↦ basic_size_lem m oop slots format is (ground arith) (omega arith) h
  | inl mixed ↦
      let eight = mixed_multiplier format known mixed in
      let fits : format_extra_size format ≤ slots * 8 = rw eight at h in
      elim is.slots_are [
        | inl (small, count) ↦
            let other : (slots == 255) ≡ false = ground arith in
            rw (oop_is_immediate_lem oop is.aligned, is.format_is, count, other, eight)
              (omega (arith, format_extra_size-le format))
        | inr (many, count, counts) ↦
            let low : bit_and slots 0xffffffff ≡ slots = bit_and-ones 32 slots ∙ omega arith in
            rw (oop_is_immediate_lem oop is.aligned, is.format_is, count, counts, mixed, low, eight)
              (omega (arith, format_extra_size-le format))
      ]
]

-- The format that `n` elements end up with.
abbrev stored_format : ℕ → ℕ
stored_format n = (10 + (n * 4 + 8)) % 32

extra_fits :
    (n : ℕ) → format_extra_size (stored_format n) ≤ (n + 1) * format_multiplier (stored_format n)
unfolding format_extra_size format_multiplier
extra_fits n = ground arith

no_such_size :
    (n size : ℕ)
    → size + format_extra_size (stored_format n) ≡ (n + 1) * format_multiplier (stored_format n)
    → size ≢ n
unfolding format_extra_size format_multiplier
no_such_size n size h = ground arith

module _ (nil : ℕ) (behaviors : ℕ → Behavior) (m : ObjectMemory) (behavior n : ℕ) (is : IsMemory m)
    (real : behavior ≢ nil)
    (elsewhere : (behavior < m.heap.start + m.heap.size)
      ⊎ (m.heap.start + m.heap.size + 40 ≤ behavior))
    (has_format : decode_format (behaviors behavior).format ≡ 10)
    (has_fixed : decode_fixed_size (behaviors behavior).format ≡ 0) where
  -- For a behavior of 32-bit elements without fixed slots, that is not nil and not in the free
  -- part of the heap, and fewer than 2 ^ 32 - 1 elements, basicNew returns, while the heap stays
  -- below 2 ^ 64, an object whose basicSize is never the number of elements that was asked for.
  pub basic_size_indexable_32 :
      n + 1 < 2 ^ 32
      → m.heap.start + m.heap.size + n * 8 + 6000 < 2 ^ 64
      → Returns (basic_new nil behaviors m behavior n) λ r. basic_size r.1 r.0 ≢ n
  unfolding extra_slots
  basic_size_indexable_32 few room =
      let sum : add_word (mul_word n 4) 7 / 4 ≡ n + 1 = omega arith in
      let extra : extra_slots 10 n ≡ (n + 1, 4) = rw sum refl in
      let room' : m.heap.start + m.heap.size + (n + 1) * 8 + 5000 < 2 ^ 64 = omega arith in
      let f = finish behavior (10 + (n * 4 + 8)) (n + 1) (content_asked 10 nil) in
      let size = λ (r : ℕ × ObjectMemory) (stored : IsStored (f r).1 r.0 (n + 1) (stored_format n)).
        no_such_size n (basic_size (f r).1 r.0) (
          any_size (f r).1 r.0 (n + 1) (stored_format n) stored (omega arith) few (extra_fits n)) in
      let stored = finish-IsStored m behavior (n + 1) is room' elsewhere in
      rw
        (basic_new_lem nil behaviors m behavior 10 0 n is real elsewhere has_format has_fixed
          (n + 1) 4 (n * 4 + 8) (n + 1) extra (omega arith) (omega arith) (omega arith))
        (elim (few_or_many (n + 1)) [
          | inl small ↦
              Returns_bind (λ r. ok (f r)) (instantiate_object_small m (n + 1) is room' small)
                λ r made. (
                  f r,
                  refl,
                  size r (
                      stored r (n + 1) (10 + (n * 4 + 8)) (content_asked 10 nil) made
                        (inl (small, refl))),
                )
          | inr many ↦
              Returns_bind (λ r. ok (f r)) (instantiate_object_big m (n + 1) is room' many)
                λ r (made, counted). (
                  f r,
                  refl,
                  size r (
                      stored r 255 (10 + (n * 4 + 8)) (content_asked 10 nil) made
                        (inr (many, refl, counted))),
                )
        ])
