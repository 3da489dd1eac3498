-- ===== src/Magnitude/Arithmetic.antt =====
-- The arithmetic primitives compute on the integers that the oops stand for.
use Prim.Native.Nat.{bit_and}
use slvm_native.Common.{
  ltb, if◌then◌else◌, ℕ, ◌+◌, ◌-◌, ◌*◌, ◌%◌, ◌^◌, ◌<◌, ◌≡◌, refl, sym, subst, ap, ◌∙◌, true, [],
  ◌∷◌, Outcome, Returns, arith,
}
use slvm_native.Common.Bits.{bit_and-ones}
use slvm_native.Common.BitOr.{bit_or-one}
use slvm_native.Common.Words.{add_word, sub_word}
use slvm_native.Common.Int.{ℤ, pos, negsuc, signed_word, ◌+ℤ◌, ◌-ℤ◌, ◌≤ℤ◌}
use slvm_native.Oop.{encode_small_integer, decode_small_integer, oop_is_small_integer}
use slvm_native.Magnitude.{make_integer, with_small_integer, primitive_plus, primitive_minus}

-- The integer that a small integer oop stands for.
abbrev pub value_of : ℕ → ℤ
value_of oop = signed_word (decode_small_integer oop)

-- The 61 bits that a small integer has.
pub record IsSmall (v : ℤ) : Type 0 where
  pub low : negsuc (2 ^ 60 - 1) ≤ℤ v
  pub high : v ≤ℤ pos (2 ^ 60 - 1)

encode_lem : (w : ℕ) → encode_small_integer w ≡ w * 8 % 2 ^ 64 + 1
unfolding encode_small_integer
encode_lem w = bit_or-one (w * 8 % 2 ^ 64) (omega arith)

-- A word whose signed value fits is read back from its small integer, which has the right tag.
pub decode-encode :
    (w : ℕ)
    → w < 2 ^ 64
    → IsSmall (signed_word w)
    → (oop_is_small_integer (encode_small_integer w) ≡ true)
      × (decode_small_integer (encode_small_integer w) ≡ w)
unfolding oop_is_small_integer decode_small_integer
decode-encode w h small =
    let tag : bit_and (w * 8 % 2 ^ 64 + 1) 7 ≡ 1 =
      bit_and-ones 3 (w * 8 % 2 ^ 64 + 1) ∙ omega arith in
    rw (encode_lem w, tag) (refl, ground arith)

decode-lt : (oop : ℕ) → oop < 2 ^ 64 → decode_small_integer oop < 2 ^ 64
unfolding decode_small_integer
decode-lt oop h = ground arith

signed_add :
    (a b : ℕ)
    → a < 2 ^ 64
    → b < 2 ^ 64
    → IsSmall (signed_word a +ℤ signed_word b)
    → signed_word (add_word a b) ≡ signed_word a +ℤ signed_word b
unfolding ◌+ℤ◌
signed_add a b ha hb small = ground arith

signed_sub :
    (a b : ℕ)
    → a < 2 ^ 64
    → b < 2 ^ 64
    → IsSmall (signed_word a -ℤ signed_word b)
    → signed_word (sub_word a b) ≡ signed_word a -ℤ signed_word b
unfolding ◌-ℤ◌
signed_sub a b ha hb small = ground arith

-- An outcome that is the small integer for `v`.
abbrev pub Yields : Outcome ℕ → ℤ → Type 0
Yields r v = Returns r λ oop. (oop_is_small_integer oop ≡ true) × (value_of oop ≡ v)

make_integer_value :
    (w : ℕ) (v : ℤ)
    → w < 2 ^ 64
    → signed_word w ≡ v
    → IsSmall v
    → (oop_is_small_integer (make_integer w) ≡ true) × (value_of (make_integer w) ≡ v)
unfolding make_integer
make_integer_value w v h e small =
    let (tag, back) = decode-encode w h (subst IsSmall (sym e) small) in
    (tag, ap signed_word back ∙ e)

module _ (receiver argument : ℕ) (hr : receiver < 2 ^ 64) (ha : argument < 2 ^ 64)
    (tagged : oop_is_small_integer argument ≡ true) where
  -- If the sum of the two integers has 61 bits, `+` returns the small integer for it.
  pub primitive_plus-add :
      IsSmall (value_of receiver +ℤ value_of argument)
      → Yields (primitive_plus receiver (argument ∷ [])) (value_of receiver +ℤ value_of argument)
  unfolding primitive_plus with_small_integer
  primitive_plus-add small =
      let a = decode_small_integer receiver in
      let b = decode_small_integer argument in
      (
        make_integer (add_word a b),
        rw tagged refl,
        make_integer_value (add_word a b) (value_of receiver +ℤ value_of argument) (omega arith)
            (signed_add a b (decode-lt receiver hr) (decode-lt argument ha) small) small,
      )

  -- If the difference has 61 bits, `-` returns the small integer for it.
  pub primitive_minus-sub :
      IsSmall (value_of receiver -ℤ value_of argument)
      → Yields (primitive_minus receiver (argument ∷ [])) (value_of receiver -ℤ value_of argument)
  unfolding primitive_minus with_small_integer
  primitive_minus-sub small =
      let a = decode_small_integer receiver in
      let b = decode_small_integer argument in
      (
        make_integer (sub_word a b),
        rw tagged refl,
        make_integer_value (sub_word a b) (value_of receiver -ℤ value_of argument) (omega arith)
            (signed_sub a b (decode-lt receiver hr) (decode-lt argument ha) small) small,
      )

value_bound : (oop : ℕ) → oop < 2 ^ 64 → IsSmall (value_of oop)
unfolding decode_small_integer
value_bound oop h = ground arith

-- What a small integer makes of a sum: one outside its 61 bits is 2 ^ 61 less, or more.
abbrev pub wrap : ℤ → ℤ
wrap (pos n) = if ltb n (2 ^ 60) then pos n else pos n -ℤ pos (2 ^ 61)
wrap (negsuc n) = if ltb n (2 ^ 60) then negsuc n else negsuc n +ℤ pos (2 ^ 61)

encode_wrapped :
    (w : ℕ) (v : ℤ)
    → w < 2 ^ 64
    → signed_word w ≡ v
    → negsuc (2 ^ 61 - 1) ≤ℤ v
    → v ≤ℤ pos (2 ^ 61 - 1)
    → (oop_is_small_integer (encode_small_integer w) ≡ true)
      × (value_of (encode_small_integer w) ≡ wrap v)
unfolding oop_is_small_integer decode_small_integer ◌+ℤ◌ ◌-ℤ◌
encode_wrapped w (pos n) h same low high =
    let tag : bit_and (w * 8 % 2 ^ 64 + 1) 7 ≡ 1 =
      bit_and-ones 3 (w * 8 % 2 ^ 64 + 1) ∙ omega arith in
    rw (encode_lem w, tag) (refl, ground arith)
encode_wrapped w (negsuc n) h same low high =
    let tag : bit_and (w * 8 % 2 ^ 64 + 1) 7 ≡ 1 =
      bit_and-ones 3 (w * 8 % 2 ^ 64 + 1) ∙ omega arith in
    rw (encode_lem w, tag) (refl, ground arith)

sum_bounds :
    (a b : ℕ)
    → a < 2 ^ 64
    → b < 2 ^ 64
    → IsSmall (signed_word a)
    → IsSmall (signed_word b)
    → (signed_word (add_word a b) ≡ signed_word a +ℤ signed_word b)
      × (negsuc (2 ^ 61 - 1) ≤ℤ signed_word a +ℤ signed_word b)
      × (signed_word a +ℤ signed_word b ≤ℤ pos (2 ^ 61 - 1))
unfolding ◌+ℤ◌
sum_bounds a b ha hb sa sb = ground arith

-- The sum of any two small integers is returned as a small integer and never as an error: a sum
-- that its 61 bits do not hold is 2 ^ 61 less when it is positive, and 2 ^ 61 more when it is
-- negative.
pub primitive_plus_overflow :
    (receiver argument : ℕ)
    → receiver < 2 ^ 64
    → argument < 2 ^ 64
    → oop_is_small_integer argument ≡ true
    → Yields
        (primitive_plus receiver (argument ∷ []))
        (wrap (value_of receiver +ℤ value_of argument))
unfolding primitive_plus with_small_integer make_integer
primitive_plus_overflow receiver argument hr ha tagged =
    let a = decode_small_integer receiver in
    let b = decode_small_integer argument in
    let (sum, low, high) =
      sum_bounds a b (decode-lt receiver hr) (decode-lt argument ha) (value_bound receiver hr)
        (value_bound argument ha) in
    (
      encode_small_integer (add_word a b),
      rw tagged refl,
      encode_wrapped (add_word a b) (value_of receiver +ℤ value_of argument) (omega arith) sum low
          high,
    )
