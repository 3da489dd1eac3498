-- ===== src/Collections/Strings/Equality.antt =====
-- Equality of strings, and its agreement with the hash.
use Prim.Native.Nat.{bit_and}
use slvm_native.Common.{
  ℕ, zero, suc, ◌+◌, ◌≤◌, ◌<◌, ◌≡◌, ◌≢◌, ◌⊎◌, inl, inr, refl, sym, ap, ◌∙◌, true, false, ◌==◌,
  arith, ok, Bool-cases, ==→eq, ne→==,
}
use native.Mathlib.Decide.{ℕ_discrete}
use slvm_native.Collections.Strings.{
  StringObject, equal_from, byte_string_equals, string_equals, hash_step, hash_from, data_hash,
  byte_string_hash, string_hash,
}

-- The same `size` elements.
abbrev pub Alike : (ℕ → ℕ) → (ℕ → ℕ) → ℕ → ℕ → Type 0
Alike f g i n = (j : ℕ) → i ≤ j → j < i + n → f j ≡ g j

equal_from-Alike : (f g : ℕ → ℕ) (i n : ℕ) → equal_from f g i n ≡ true → Alike f g i n
unfolding equal_from
equal_from-Alike f g i zero h j low high = absurd (omega arith)
equal_from-Alike f g i (suc n) h j low high = elim (Bool-cases (f i == g i)) [
  | inl same ↦ elim (now_or_later i j low) [
    | inl now ↦ rw now (==→eq _ _ same)
    | inr later ↦ equal_from-Alike f g (i + 1) n (rw same at h) j later (omega arith)
  ]
  | inr differ ↦ absurd (cc (rw differ at h))
]
  where
    now_or_later : (i j : ℕ) → i ≤ j → (j ≡ i) ⊎ (i + 1 ≤ j)
    now_or_later i j h = omega arith

Alike-equal_from : (f g : ℕ → ℕ) (i n : ℕ) → Alike f g i n → equal_from f g i n ≡ true
unfolding equal_from
Alike-equal_from f g i zero same = refl
Alike-equal_from f g i (suc n) same =
    let here : (f i == g i) ≡ true = ground (arith, same i) in
    rw here (Alike-equal_from f g (i + 1) n (λ j low high. same j (omega arith) (omega arith)))

-- The comparison of byte strings is true exactly for the same size and the same bytes.
pub byte_string_equals-Alike :
    (first second : StringObject)
    → (byte_string_equals first second ≡ true
        → (first.size ≡ second.size) × Alike first.bytes second.bytes 0 first.size)
      × (first.size ≡ second.size
          → Alike first.bytes second.bytes 0 first.size
          → byte_string_equals first second ≡ true)
unfolding byte_string_equals
byte_string_equals-Alike first second = (
  λ h. elim (Bool-cases (first.size == second.size)) [
    | inl same ↦
        (==→eq _ _ same, equal_from-Alike first.bytes second.bytes 0 first.size (rw same at h))
    | inr differ ↦ absurd (cc (rw differ at h))
  ],
  λ e alike.
      let same : (first.size == second.size) ≡ true = ground arith in
      rw same (Alike-equal_from first.bytes second.bytes 0 first.size alike),
)

hash_from-Alike :
    (f g : ℕ → ℕ) (i n hash : ℕ) → Alike f g i n → hash_from f i n hash ≡ hash_from g i n hash
unfolding hash_from
hash_from-Alike f g i zero hash same = refl
hash_from-Alike f g i (suc n) hash same =
    let here : f i ≡ g i = same i (omega arith) (omega arith) in
    rw here (
      hash_from-Alike f g (i + 1) n (hash_step hash (g i))
        (λ j low high. same j (omega arith) (omega arith)))

-- Two strings of bytes, each a string or a symbol.
abbrev pub IsBytes : StringObject → Type 0
IsBytes s = (s.class_index ≡ 170) ⊎ (s.class_index ≡ 173)

pub bytes_hash : (s : StringObject) → IsBytes s → string_hash s ≡ ok (byte_string_hash s 170)
unfolding string_hash
bytes_hash s (inl e) = rw e
bytes_hash s (inr e) = rw e

pub byte_string_hash-equals :
    (first second : StringObject)
    → byte_string_equals first second ≡ true
    → byte_string_hash first 170 ≡ byte_string_hash second 170
unfolding byte_string_hash data_hash
byte_string_hash-equals first second h =
    let (size, alike) = (byte_string_equals-Alike first second).0 h in
    hash_from-Alike first.bytes second.bytes 0 first.size (bit_and 170 0xFFFFFFF) alike
    ∙ ap (λ n. hash_from second.bytes 0 n (bit_and 170 0xFFFFFFF)) size

-- String_equals on two byte strings or symbols at different addresses.
module _ (strings : ℕ → StringObject) (first second : ℕ) (apart : first ≢ second) where
  -- A second operand that is a symbol, or two strings.
  pub compared :
      IsBytes (strings first)
      → ((strings second).class_index ≡ 173)
        ⊎ (((strings first).class_index ≡ 170) × ((strings second).class_index ≡ 170))
      → string_equals strings first second ≡ byte_string_equals (strings first) (strings second)
  unfolding string_equals
  compared (inl f) (inl s) = rw (ne→== first second apart, f, s)
  compared (inr f) (inl s) = rw (ne→== first second apart, f, s)
  compared kind (inr (f, s)) = rw (ne→== first second apart, f, s)

  symbol_first :
      (strings first).class_index ≡ 173
      → (strings second).class_index ≡ 170
      → string_equals strings first second ≡ false
  unfolding string_equals
  symbol_first f s = rw (ne→== first second apart, f, s)

-- What String_equals finds equal among byte strings and symbols has the same hash.
pub string_hash-equals :
    (strings : ℕ → StringObject) (first second : ℕ)
    → IsBytes (strings first)
    → IsBytes (strings second)
    → string_equals strings first second ≡ true
    → string_hash (strings first) ≡ string_hash (strings second)
string_hash-equals strings first second f s h = elim (ℕ_discrete first second) [
  | yes same ↦ ap (λ a. string_hash (strings a)) same
  | no apart ↦ go f s apart
]
  where
    hashes :
        byte_string_equals (strings first) (strings second) ≡ true
        → string_hash (strings first) ≡ string_hash (strings second)
    hashes e =
        bytes_hash (strings first) f
        ∙ ap ok (byte_string_hash-equals (strings first) (strings second) e)
        ∙ sym (bytes_hash (strings second) s)

    go :
        IsBytes (strings first)
        → IsBytes (strings second)
        → first ≢ second
        → string_hash (strings first) ≡ string_hash (strings second)
    go f' (inr s') apart = hashes (sym (compared strings first second apart f' (inl s')) ∙ h)
    go (inl f') (inl s') apart =
        hashes (sym (compared strings first second apart (inl f') (inr (f', s'))) ∙ h)
    go (inr f') (inl s') apart = absurd (cc (symbol_first strings first second apart f' s', h))

-- String_equals is not symmetric: a byte symbol and a byte string at different addresses are never
-- equal when the symbol comes first, and are compared by their bytes when it comes second.
pub string_equals_order :
    (strings : ℕ → StringObject) (symbol string : ℕ)
    → symbol ≢ string
    → (strings symbol).class_index ≡ 173
    → (strings string).class_index ≡ 170
    → (string_equals strings symbol string ≡ false)
      × (string_equals strings string symbol ≡ byte_string_equals (strings string) (strings symbol))
string_equals_order strings symbol string apart f s = (
  symbol_first strings symbol string apart f s,
  compared strings string symbol (λ e. apart (sym e)) (inl s) (inl f),
)
