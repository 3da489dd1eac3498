-- ===== src/Magnitude/Compare.antt =====
-- The comparison primitives order small integers by the integers that they stand for.
use slvm_native.Common.{ℕ, ◌^◌, ◌<◌, ◌≡◌, refl, [], ◌∷◌, ok}
use slvm_native.Common.Int.{signed_word, ltb_ℤ}
use slvm_native.Magnitude.{
  Booleans, encode_boolean, with_small_integer, make_integer, primitive_less_than,
  primitive_greater_than,
}
use slvm_native.Magnitude.Arithmetic.{IsSmall, decode-encode}

-- Of two integers made by the runtime, `<` answers true exactly if the first is the less, and `>` exactly
-- if the second is.
pub compare_make_integer :
    (booleans : Booleans) (v w : ℕ)
    → v < 2 ^ 64
    → w < 2 ^ 64
    → IsSmall (signed_word v)
    → IsSmall (signed_word w)
    → (primitive_less_than booleans (make_integer v) (make_integer w ∷ [])
        ≡ ok (encode_boolean booleans (ltb_ℤ (signed_word v) (signed_word w))))
      × (primitive_greater_than booleans (make_integer v) (make_integer w ∷ [])
          ≡ ok (encode_boolean booleans (ltb_ℤ (signed_word w) (signed_word v))))
unfolding primitive_less_than primitive_greater_than with_small_integer make_integer
compare_make_integer booleans v w hv hw sv sw =
    let (_, back) = decode-encode v hv sv in
    let (tag, back') = decode-encode w hw sw in rw (tag, back, back') (refl, refl)
