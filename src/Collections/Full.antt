-- ===== src/Collections/Full.antt =====
-- slvm_HashedCollection_fullCondition, and the tally, a small integer that the collections keep in
-- its tagged form.
use slvm_native.Common.{
  ℕ, ◌+◌, ◌-◌, ◌*◌, ◌/◌, ◌%◌, ◌^◌, ◌≤◌, ◌<◌, ◌≡◌, Bool, false, ◌||◌, arith, ltb, if◌then◌else◌,
}
use slvm_native.Common.Words.{add_word, sub_word}
use slvm_native.Common.BitOr.{bit_or-one}
use slvm_native.Oop.{encode_small_integer, encode_small_integer_offset, decode_small_integer}

unfoldable pub full_condition : ℕ → ℕ → Bool
full_condition array_size tally =
    ltb array_size 4 || ltb (sub_word array_size (decode_small_integer tally)) (array_size / 4)

-- `tally += slvm_encodeSmallIntegerOffset(1)`
unfoldable pub increase_tally : ℕ → ℕ
increase_tally tally = add_word tally (encode_small_integer_offset 1)

-- The capacity after `grow`.
unfoldable pub grown_size : ℕ → ℕ
grown_size array_size =
    let doubled = array_size * 2 % 2 ^ 64 in if ltb doubled 4 then 4 else doubled

-- The tally of a collection with `count` elements.
abbrev pub tally_of : ℕ → ℕ
tally_of count = encode_small_integer count

pub tally_of_lem : (count : ℕ) → count < 2 ^ 60 → tally_of count ≡ count * 8 + 1
unfolding encode_small_integer
tally_of_lem count h =
    let small : count * 8 % 2 ^ 64 ≡ count * 8 = omega arith in
    rw small (bit_or-one (count * 8) (omega arith))

pub increase_tally_lem :
    (count : ℕ) → count + 1 < 2 ^ 60 → increase_tally (tally_of count) ≡ tally_of (count + 1)
unfolding increase_tally encode_small_integer_offset
increase_tally_lem count h =
    rw (tally_of_lem count (omega arith), tally_of_lem (count + 1) h) (omega arith)

pub decode_tally : (count : ℕ) → count < 2 ^ 60 → decode_small_integer (tally_of count) ≡ count
unfolding decode_small_integer
decode_tally count h = rw (tally_of_lem count h) (ground arith)

-- The condition, for a collection that is not overfull.
pub full_condition_lem :
    (n count : ℕ)
    → count ≤ n
    → n < 2 ^ 60
    → full_condition n (tally_of count) ≡ (ltb n 4 || ltb (n - count) (n / 4))
unfolding full_condition
full_condition_lem n count h k =
    let gap : sub_word n count ≡ n - count = omega arith in
    rw (decode_tally count (omega arith), gap)

pub grown_size_lem : (n : ℕ) → n < 2 ^ 60 → grown_size n ≡ (if ltb (n * 2) 4 then 4 else n * 2)
unfolding grown_size
grown_size_lem n h = let small : n * 2 % 2 ^ 64 ≡ n * 2 = omega arith in rw small

-- A collection of four slots or more with a quarter of them free is not full.
pub not_full :
    (n count tally : ℕ)
    → tally ≡ tally_of count
    → 4 ≤ n
    → n / 4 + count ≤ n
    → n < 2 ^ 60
    → full_condition n tally ≡ false
not_full n count tally e wide room small =
    rw (e, full_condition_lem n count (omega arith) small) (ground arith)

-- A collection that is not full has four slots or more and a quarter of them free.
pub room_left :
    (n count tally : ℕ)
    → tally ≡ tally_of count
    → count ≤ n
    → n < 2 ^ 60
    → full_condition n tally ≡ false
    → (4 ≤ n) × (n / 4 + count ≤ n)
room_left n count tally e h small open' =
    let test = rw (e, full_condition_lem n count h small) at open' in ground arith
