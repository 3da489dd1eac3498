-- ===== src/Collections/Strings.antt =====
-- slvm_String_* of src/classes/collections.c: equality and hash of byte and wide strings and
-- symbols.
pub mod Equality
pub mod Sameness
pub mod Multiply
use Prim.Native.Nat.{bit_and}
use slvm_native.Common.{
  ℕ, zero, suc, ◌+◌, ◌*◌, ◌/◌, ◌%◌, ◌^◌, Bool, true, false, ◌||◌, ◌&&◌, ◌==◌, if◌then◌else◌,
  Outcome, ok, aborted,
}

-- `SLVM_KCI_ByteString` and the other string classes.
abbrev pub byte_string_index : ℕ
byte_string_index = 170

abbrev pub wide_string_index : ℕ
wide_string_index = 171

abbrev pub byte_symbol_index : ℕ
byte_symbol_index = 173

abbrev pub wide_symbol_index : ℕ
wide_symbol_index = 174

-- A string object: its class, its basicSize and the bytes of its data.
pub record StringObject : Type 0 where
  pub class_index : ℕ
  pub size : ℕ
  pub bytes : ℕ → ℕ

-- `data[i]` of `SLVM_WideString`, on a little-endian machine.
abbrev pub wide_at : StringObject → ℕ → ℕ
wide_at s i =
    s.bytes (i * 4)
    + s.bytes (i * 4 + 1) * 2 ^ 8
    + s.bytes (i * 4 + 2) * 2 ^ 16
    + s.bytes (i * 4 + 3) * 2 ^ 24

-- The loop of the two equality functions, from `i` on.
unfoldable pub equal_from : (ℕ → ℕ) → (ℕ → ℕ) → ℕ → ℕ → Bool
equal_from first second i zero = true
equal_from first second i (suc rounds) =
    let rest = equal_from first second (i + 1) rounds in if first i == second i then rest else false

-- `slvm_ByteString_equals`
unfoldable pub byte_string_equals : StringObject → StringObject → Bool
byte_string_equals first second =
    if first.size == second.size then equal_from first.bytes second.bytes 0 first.size else false

-- `slvm_WideString_equals`
unfoldable pub wide_string_equals : StringObject → StringObject → Bool
wide_string_equals first second =
    if first.size == second.size
    then equal_from (wide_at first) (wide_at second) 0 first.size
    else false

-- `slvm_String_equals`, on the addresses of the strings; the tests on the first operand read the
-- class of the second one as the source does.
unfoldable pub string_equals : (ℕ → StringObject) → ℕ → ℕ → Bool
string_equals strings first second =
    let first_class_index = (strings first).class_index in
    let second_class_index = (strings second).class_index in
    let is_first_bytes =
      (first_class_index == byte_string_index) || (second_class_index == byte_symbol_index) in
    let is_second_bytes =
      (second_class_index == byte_string_index) || (second_class_index == byte_symbol_index) in
    let is_first_wide =
      (first_class_index == wide_string_index) || (second_class_index == wide_symbol_index) in
    let is_second_wide =
      (second_class_index == wide_string_index) || (second_class_index == wide_symbol_index) in
    if first == second
    then true
    else if is_first_bytes && is_second_bytes
    then byte_string_equals (strings first) (strings second)
    else if is_first_wide && is_second_wide
    then wide_string_equals (strings first) (strings second)
    else false

-- One round of the hash loops, on 32-bit words.
unfoldable pub hash_step : ℕ → ℕ → ℕ
hash_step hash element =
    let sum = (hash + element) % 2 ^ 32 in
    let low = bit_and sum 16383 in
    let middle = bit_and ((0x260D * (sum / 2 ^ 14) + 0x0065 * low) % 2 ^ 32) 16383 in
    bit_and ((0x260D * low + middle * 16384) % 2 ^ 32) 0x0FFFFFFF

unfoldable pub hash_from : (ℕ → ℕ) → ℕ → ℕ → ℕ → ℕ
hash_from content i zero hash = hash
hash_from content i (suc rounds) hash =
    hash_from content (i + 1) rounds (hash_step hash (content i))

-- `slvm_ByteArrayData_stringHash`, and the loop of `slvm_WideString_hash`
unfoldable pub data_hash : (ℕ → ℕ) → ℕ → ℕ → ℕ
data_hash content size initial_hash = hash_from content 0 size (bit_and initial_hash 0xFFFFFFF)

-- `slvm_ByteString_hash` and `slvm_WideString_hash`
unfoldable pub byte_string_hash : StringObject → ℕ → ℕ
byte_string_hash s initial_hash = data_hash s.bytes s.size initial_hash

unfoldable pub wide_string_hash : StringObject → ℕ → ℕ
wide_string_hash s initial_hash = data_hash (wide_at s) s.size initial_hash

-- `slvm_String_hash`, which starts from the index of ByteString for wide strings too.
unfoldable pub string_hash : StringObject → Outcome ℕ
string_hash s =
    if (s.class_index == byte_string_index) || (s.class_index == byte_symbol_index)
    then ok (byte_string_hash s byte_string_index)
    else if (s.class_index == wide_string_index) || (s.class_index == wide_symbol_index)
    then ok (wide_string_hash s byte_string_index)
    else aborted
