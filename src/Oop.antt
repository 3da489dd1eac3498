-- ===== src/Oop.antt =====
-- The macros of include/slvm/spur/objectmodel.h on a 64-bit word: tagged immediates, the object
-- header, class indices and hashes. An oop is a number below 2 ^ 64.
use Prim.Native.Nat.{bit_and, bit_or}
use slvm_native.Common.{ℕ, ◌+◌, ◌-◌, ◌*◌, ◌/◌, ◌%◌, ◌^◌, Bool, not, ◌==◌, ltb, if◌then◌else◌}
use slvm_native.Common.Words.{word_mod, add_word, sub_word}

-- `SLVM_ObjectHeader`, one field for each bit-field.
pub record ObjectHeader : Type 0 where
  pub class_index : ℕ
  pub object_format : ℕ
  pub gc_color : ℕ
  pub identity_hash : ℕ
  pub is_pinned : ℕ
  pub is_immutable : ℕ
  pub slot_count : ℕ

abbrev pub tag_mask : ℕ
tag_mask = 7

unfoldable pub oop_is_pointers : ℕ → Bool
oop_is_pointers oop = bit_and oop tag_mask == 0

unfoldable pub oop_is_immediate : ℕ → Bool
oop_is_immediate oop = not (bit_and oop tag_mask == 0)

unfoldable pub oop_is_small_integer : ℕ → Bool
oop_is_small_integer oop = bit_and oop tag_mask == 1

unfoldable pub oop_is_character : ℕ → Bool
oop_is_character oop = bit_and oop tag_mask == 2

unfoldable pub oop_is_small_float : ℕ → Bool
oop_is_small_float oop = bit_and oop tag_mask == 4

-- `>>` on an `intptr_t` by three places, which copies the sign.
unfoldable pub shift_right_signed : ℕ → ℕ
shift_right_signed w = if ltb w (2 ^ 63) then w / 8 else w / 8 + (word_mod - 2 ^ 61)

unfoldable pub encode_small_integer_offset : ℕ → ℕ
encode_small_integer_offset value = value * 8 % word_mod

unfoldable pub encode_small_integer : ℕ → ℕ
encode_small_integer value = bit_or (value * 8 % word_mod) 1

unfoldable pub decode_small_integer : ℕ → ℕ
unfolding shift_right_signed
decode_small_integer oop = shift_right_signed oop

unfoldable pub encode_aligned_pointer : ℕ → ℕ
encode_aligned_pointer value = add_word value 1

unfoldable pub decode_aligned_pointer : ℕ → ℕ
decode_aligned_pointer oop = sub_word oop 1

-- `slvm_getClassIndexFromOop`
unfoldable pub class_index_from_oop : (ℕ → ObjectHeader) → ℕ → ℕ
unfolding oop_is_pointers
class_index_from_oop headers oop =
    if oop_is_pointers oop then (headers oop).class_index else bit_and oop tag_mask

-- `slvm_makeHashFromPointer`
unfoldable pub hash_from_pointer : ℕ → ℕ
hash_from_pointer pointer = bit_and (pointer / 16) 0x3fffff

-- `slvm_identityHash`
unfoldable pub identity_hash_of : (ℕ → ObjectHeader) → ℕ → ℕ
unfolding oop_is_immediate
identity_hash_of headers oop = if oop_is_immediate oop then oop / 8 else (headers oop).identity_hash
