-- ===== src/Collections/Strings/Sameness.antt =====
-- byteStringEquals is an equivalence of strings.
use slvm_native.Common.{◌≡◌, sym, ◌∙◌, refl, Bool-cases, true, inl, inr, arith}
use slvm_native.Collections.Strings.{StringObject, byte_string_equals}
use slvm_native.Collections.Strings.Equality.{byte_string_equals-Alike}

pub byte_string_equals_refl : (s : StringObject) → byte_string_equals s s ≡ true
byte_string_equals_refl s = (byte_string_equals-Alike s s).1 refl (λ j low high. refl)

-- Strings that are equal to the same strings.
byte_string_equals_chain :
    (a b c : StringObject)
    → byte_string_equals a b ≡ true
    → byte_string_equals b c ≡ true
    → byte_string_equals a c ≡ true
byte_string_equals_chain a b c h k =
    let (size, alike) = (byte_string_equals-Alike a b).0 h in
    let (size', alike') = (byte_string_equals-Alike b c).0 k in
    (byte_string_equals-Alike a c).1 (size ∙ size')
      (λ j low high. alike j low high ∙ alike' j low (omega arith))

byte_string_equals_swap :
    (a b : StringObject) → byte_string_equals a b ≡ true → byte_string_equals b a ≡ true
byte_string_equals_swap a b h =
    let (size, alike) = (byte_string_equals-Alike a b).0 h in
    (byte_string_equals-Alike b a).1 (sym size) (λ j low high. sym (alike j low (omega arith)))

pub byte_string_equals_same :
    (a b c : StringObject)
    → byte_string_equals a b ≡ true
    → byte_string_equals a c ≡ byte_string_equals b c
byte_string_equals_same a b c h = elim (Bool-cases (byte_string_equals a c)) [
  | inl yes_it_is ↦
      yes_it_is ∙ sym (byte_string_equals_chain b a c (byte_string_equals_swap a b h) yes_it_is)
  | inr no_it_is ↦ elim (Bool-cases (byte_string_equals b c)) [
    | inl other ↦ absurd (cc (no_it_is, byte_string_equals_chain a b c h other))
    | inr neither ↦ no_it_is ∙ sym neither
  ]
]
