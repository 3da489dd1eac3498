-- ===== src/ObjectModel/Sizes.antt =====
-- The size that an object's header tells, and the padding its format counts.
use Prim.Native.Nat.{bit_and}
use slvm_native.Common.{
  ℕ, ◌+◌, ◌-◌, ◌*◌, ◌/◌, ◌%◌, ◌^◌, ◌≤◌, ◌<◌, ◌≡◌, ◌⊎◌, inl, inr, ◌∙◌, true, false, ◌==◌, leb, arith,
}
use slvm_native.Common.Bits.{bit_and-ones}
use slvm_native.Common.Words.{sub_word}
use slvm_native.Oop.{oop_is_pointers, oop_is_immediate}
use slvm_native.ObjectModel.Formats.{format_multiplier, format_extra_size}
use slvm_native.ObjectModel.{ObjectMemory, basic_size}

-- The object at `oop` has a pre-header of the right kind for its slots.
pub record IsStored (m : ObjectMemory) (oop slots format : ℕ) : Type 0 where
  pub aligned : oop % 8 ≡ 0
  pub format_is : (m.headers oop).object_format ≡ format
  pub slots_are :
      ((slots < 255) × ((m.headers oop).slot_count ≡ slots))
      ⊎ ((255 ≤ slots) × ((m.headers oop).slot_count ≡ 255) × (m.words (sub_word oop 8) ≡ slots))

pub oop_is_pointers_lem : (oop : ℕ) → oop % 8 ≡ 0 → oop_is_pointers oop ≡ true
unfolding oop_is_pointers
oop_is_pointers_lem oop h = let tag : bit_and oop 7 ≡ 0 = bit_and-ones 3 oop ∙ h in rw tag

pub oop_is_immediate_lem : (oop : ℕ) → oop % 8 ≡ 0 → oop_is_immediate oop ≡ false
unfolding oop_is_immediate
oop_is_immediate_lem oop h = let tag : bit_and oop 7 ≡ 0 = bit_and-ones 3 oop ∙ h in rw tag

pub format_multiplier-le : (format : ℕ) → format_multiplier format ≤ 8
unfolding format_multiplier
format_multiplier-le format = ground arith

pub format_extra_size-le : (format : ℕ) → format_extra_size format ≤ 7
unfolding format_extra_size
format_extra_size-le format = ground arith

-- The size of an object without native part.
pub basic_size_lem :
    (m : ObjectMemory) (oop slots format : ℕ)
    → IsStored m oop slots format
    → format < 24
    → slots < 2 ^ 61
    → format_extra_size format ≤ slots * format_multiplier format
    → basic_size m oop + format_extra_size format ≡ slots * format_multiplier format
unfolding basic_size
basic_size_lem m oop slots format is plain bound h =
    let big : leb 24 format ≡ false = ground arith in
    let product : slots * format_multiplier format ≤ slots * 8 =
      grind (arith, format_multiplier-le format) in
    elim is.slots_are [
      | inl (few, count) ↦
          let other : (slots == 255) ≡ false = ground arith in
          let product' : slots * format_multiplier format ≤ 255 * 8 = omega arith in
          rw (oop_is_immediate_lem oop is.aligned, is.format_is, count, other)
            (omega (arith, format_extra_size-le format))
      | inr (many, count, counts) ↦
          rw (oop_is_immediate_lem oop is.aligned, is.format_is, count, counts, big)
            (omega (arith, format_extra_size-le format))
    ]

pub few_or_many : (n : ℕ) → (n < 255) ⊎ (255 ≤ n)
few_or_many n = omega arith

pub word_padding :
    (format slots : ℕ)
    → format ≤ 9
    → slots + format_extra_size ((format + 0) % 32) ≡ slots * format_multiplier ((format + 0) % 32)
unfolding format_multiplier format_extra_size
word_padding format slots h =
    let one : format_multiplier ((format + 0) % 32) ≡ 1 = ground arith in
    let none' : format_extra_size ((format + 0) % 32) ≡ 0 = ground arith in
    rw (one, none') (omega arith)

pub byte_padding :
    (fixed n : ℕ)
    → fixed * 8 + n + format_extra_size ((16 + ((n + 7) / 8 * 8 - n)) % 32)
      ≡ (fixed + (n + 7) / 8) * format_multiplier ((16 + ((n + 7) / 8 * 8 - n)) % 32)
unfolding format_multiplier format_extra_size
byte_padding fixed n =
    let eight : format_multiplier ((16 + ((n + 7) / 8 * 8 - n)) % 32) ≡ 8 = ground arith in
    let pad : format_extra_size ((16 + ((n + 7) / 8 * 8 - n)) % 32) ≡ (n + 7) / 8 * 8 - n =
      ground arith in
    rw (eight, pad) (omega arith)
