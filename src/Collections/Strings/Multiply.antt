-- ===== src/Collections/Strings/Multiply.antt =====
-- The string hash is the hash of Smalltalk images: multiplication by 1664525 modulo 2 ^ 28.
use Prim.Native.Nat.{bit_and}
use slvm_native.Common.{ℕ, zero, suc, ◌+◌, ◌*◌, ◌/◌, ◌%◌, ◌^◌, ◌<◌, ◌≡◌, refl, ap, ◌∙◌, arith}
use slvm_native.Common.Bits.{bit_and-ones}
use slvm_native.Collections.Strings.{hash_step, hash_from, data_hash}

-- The reference.
pub multiply_hash : (ℕ → ℕ) → ℕ → ℕ → ℕ → ℕ
multiply_hash content i zero hash = hash
multiply_hash content i (suc rounds) hash =
    multiply_hash content (i + 1) rounds ((hash + content i) * 1664525 % 2 ^ 28)

low_bits : (x : ℕ) → bit_and x 16383 ≡ x % 2 ^ 14
low_bits x = bit_and-ones 14 x

hash_bits : (x : ℕ) → bit_and x 0x0FFFFFFF ≡ x % 2 ^ 28
hash_bits x = bit_and-ones 28 x

hash_step_lem : (hash element : ℕ) → hash_step hash element ≡ (hash + element) * 1664525 % 2 ^ 28
unfolding hash_step
hash_step_lem hash element =
    let sum = (hash + element) % 2 ^ 32 in
    let low = sum % 2 ^ 14 in
    rw
      (
        low_bits sum,
        low_bits ((0x260D * (sum / 2 ^ 14) + 0x0065 * low) % 2 ^ 32),
        hash_bits (
            (0x260D * low + (0x260D * (sum / 2 ^ 14) + 0x0065 * low) % 2 ^ 32 % 2 ^ 14 * 16384)
            % 2 ^ 32),
      )
      (omega arith)

hash_from-multiply_hash :
    (content : ℕ → ℕ) (i rounds hash : ℕ)
    → hash_from content i rounds hash ≡ multiply_hash content i rounds hash
unfolding hash_from multiply_hash
hash_from-multiply_hash content i zero hash = refl
hash_from-multiply_hash content i (suc rounds) hash =
    ap (hash_from content (i + 1) rounds) (hash_step_lem hash (content i))
    ∙ hash_from-multiply_hash content (i + 1) rounds ((hash + content i) * 1664525 % 2 ^ 28)

multiply_hash-lt :
    (content : ℕ → ℕ) (i rounds hash : ℕ)
    → hash < 2 ^ 28
    → multiply_hash content i rounds hash < 2 ^ 28
unfolding multiply_hash
multiply_hash-lt content i zero hash h = h
multiply_hash-lt content i (suc rounds) hash h =
    multiply_hash-lt content (i + 1) rounds ((hash + content i) * 1664525 % 2 ^ 28) (omega arith)

-- The split multiplication of the string hash is, element by element, multiplication by 1664525
-- modulo 2 ^ 28, for bytes and for wide characters, and the hash has 28 bits.
pub data_hash-multiply_hash :
    (content : ℕ → ℕ) (size initial : ℕ)
    → (data_hash content size initial ≡ multiply_hash content 0 size (initial % 2 ^ 28))
      × (data_hash content size initial < 2 ^ 28)
unfolding data_hash
data_hash-multiply_hash content size initial =
    let e : hash_from content 0 size (bit_and initial 0xFFFFFFF)
        ≡ multiply_hash content 0 size (initial % 2 ^ 28) =
      ap (hash_from content 0 size) (hash_bits initial)
      ∙ hash_from-multiply_hash content 0 size (initial % 2 ^ 28) in
    rw e (refl, multiply_hash-lt content 0 size (initial % 2 ^ 28) (omega arith))
