-- ===== src/StaticHeaps/Fixing/Hiding.antt =====
-- The tag of a big pre-header after a pass over a static heap.
use Prim.Native.Nat.{bit_and}
use slvm_native.Common.{
  ℕ, ◌+◌, ◌^◌, ◌<◌, ◌≡◌, ◌≢◌, refl, sym, ap, ◌∙◌, arith, ◌==◌, Outcome, ok, aborted, out_of_fuel,
  Bool-cases, inl, inr, ltb, ne→==, Returns, ==_refl,
}
use slvm_native.Common.Words.{add_word}
use slvm_native.Common.Bits.{bit_and-ones, bit_and_down4}
use slvm_native.ObjectModel.{ObjectMemory}
use slvm_native.Collections.Strings.{byte_symbol_index, wide_symbol_index}
use slvm_native.Collections.Symbols.{SymbolClasses}
use slvm_native.StaticHeaps.{Visit, visit_at, small_visit, big_visit, forwarding_mask}
use slvm_native.StaticHeaps.Fixing.{
  Runtime, memory_of, class_index_of, clear_forwarding, fix_symbols,
}

-- A big object: its forwarding pointer is tagged.
pub record IsBig (m : ObjectMemory) (v : Visit) : Type 0 where
  pub visited : visit_at m v.forwarding_pointer ≡ ok v
  pub tagged : bit_and (m.words v.forwarding_pointer) 1 ≡ 1
  pub word : m.words v.forwarding_pointer < 2 ^ 64
  pub place : v.forwarding_pointer + 24 < 2 ^ 64

cleared_bit : (w : ℕ) → w < 2 ^ 64 → bit_and (bit_and w forwarding_mask) 1 ≡ 0
cleared_bit w h = omega (arith, bit_and_down4 w h, bit_and-ones 1 (bit_and w forwarding_mask))

abbrev header_or : ℕ → Outcome Visit → ℕ
header_or other (ok v) = v.header
header_or other aborted = other
header_or other out_of_fuel = other

-- The two kinds of visits have different places for the header.
small_visit_header :
    (m : ObjectMemory) (position : ℕ)
    → header_or (add_word position 8) (small_visit m position) ≡ add_word position 8
unfolding small_visit
small_visit_header m position =
    elim (Bool-cases (ltb (m.headers (add_word position 8)).slot_count 255)) [
      | inl few ↦ rw few refl
      | inr many ↦ rw many refl
    ]

big_visit_header :
    (m : ObjectMemory) (position : ℕ)
    → header_or (add_word position 24) (big_visit m position) ≡ add_word position 24
unfolding big_visit
big_visit_header m position =
    elim (Bool-cases ((m.headers (add_word position 24)).slot_count == 255)) [
      | inl marked ↦ rw marked refl
      | inr other ↦ rw other refl
    ]

untagged_visit :
    (m : ObjectMemory) (position : ℕ)
    → bit_and (m.words position) 1 ≡ 0
    → visit_at m position ≡ small_visit m position
unfolding visit_at
untagged_visit m position h = rw h refl

tagged_visit :
    (m : ObjectMemory) (position : ℕ)
    → bit_and (m.words position) 1 ≡ 1
    → visit_at m position ≡ big_visit m position
unfolding visit_at
tagged_visit m position h = rw h refl

-- Without the tag the object is not visited as before.
no_longer_visited :
    (m after : ObjectMemory) (v : Visit)
    → IsBig m v
    → bit_and (after.words v.forwarding_pointer) 1 ≡ 0
    → visit_at after v.forwarding_pointer ≢ ok v
no_longer_visited m after v is untagged again =
    let p = v.forwarding_pointer in
    let far : v.header ≡ add_word p 24 =
      ap (header_or (add_word p 24)) (sym (sym (tagged_visit m p is.tagged) ∙ is.visited))
      ∙ big_visit_header m p in
    let near : v.header ≡ add_word p 8 =
      ap (header_or (add_word p 8)) (sym (sym (untagged_visit after p untagged) ∙ again))
      ∙ small_visit_header after p in
    omega (arith, far, near, is.place)

-- On an object with a big pre-header, whose forwarding pointer is tagged, and which is neither a
-- byte symbol nor a wide symbol, the pass over the symbols returns, and the walks after it do not
-- visit that object any more the way the pass did.
pub fix_symbols-IsBig :
    (c : SymbolClasses) (v : Visit) (r : Runtime)
    → IsBig (memory_of r) v
    → class_index_of r v.header ≢ byte_symbol_index
    → class_index_of r v.header ≢ wide_symbol_index
    → Returns (fix_symbols c v r) λ after. visit_at (memory_of after) v.forwarding_pointer ≢ ok v
unfolding fix_symbols clear_forwarding
fix_symbols-IsBig c v r is no_byte no_wide =
    let word = (memory_of r).words v.forwarding_pointer in
    (
      clear_forwarding v r,
      rw (ne→== _ byte_symbol_index no_byte, ne→== _ wide_symbol_index no_wide) refl,
      no_longer_visited (memory_of r) _ v is
          (rw (==_refl v.forwarding_pointer) (cleared_bit word is.word)),
    )
