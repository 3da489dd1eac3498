-- ===== src/Tests/Collections.antt =====
-- Strings and dictionaries of associations at concrete inputs.
use slvm_native.Common.{
  ℕ, zero, suc, ◌+◌, ◌<◌, ◌≡◌, refl, inl, inr, true, false, ◌==◌, if◌then◌else◌, arith, [], ◌∷◌,
  get_or, some, ok,
}
use slvm_native.Hashing.{probe}
use slvm_native.Hashing.{found}
use slvm_native.Hashing.Table.{scan}
use slvm_native.Oop.{ObjectHeader, identity_hash_of, oop_is_immediate}
use slvm_native.Collections.Dictionary.{HashedCollection}
use slvm_native.Collections.IdentityDictionary.{
  association_at, at_or_nil, add_association_if_not_existent,
}
use slvm_native.Collections.IdentityDictionary.Reading.{
  IsIdentityTable, identity_associations, identity_search, or_nil_association,
  value_or_nil_association, identity_reads,
}
use slvm_native.Collections.Strings.{
  StringObject, equal_from, byte_string_equals, string_equals, string_hash,
}
use slvm_native.Collections.Strings.Equality.{string_hash-equals}

-- The string abc at 320, the symbol abc at 640, and abc again at every other address.
abbrev abc : ℕ → StringObject
abc o = record { class_index = if o == 640 then 173 else 170; size = 3; bytes = λ i. 97 + i }

abc_equals : string_equals abc 320 640 ≡ true
unfolding string_equals byte_string_equals equal_from
abc_equals = refl

string_hash-equals_example : string_hash (abc 320) ≡ string_hash (abc 640)
string_hash-equals_example = string_hash-equals abc 320 640 (inl refl) (inr refl) abc_equals

-- Objects whose hash is in the header; here it is 1 for all of them.
abbrev one_hash : ℕ → ObjectHeader
one_hash o = record {
  class_index = 173;
  object_format = 16;
  gc_color = 0;
  identity_hash = 1;
  is_pinned = 0;
  is_immutable = 0;
  slot_count = 1;
}

-- Associations at 320 and 640 with the keys 800 and 960, which both go to slot 1 of three.
abbrev pair_words : ℕ → ℕ
pair_words x = if x == 328 then 800 else if x == 336 then 50 else if x == 648 then 960 else 80

abbrev pair : HashedCollection
pair = record { tally = 17; array = 16 ∷ 320 ∷ 640 ∷ [] }

pair-IsIdentityTable : IsIdentityTable 16 one_hash pair_words pair
unfolding probe identity_hash_of oop_is_immediate
pair-IsIdentityTable = record {
  table = places;
  free = 0;
  free_inside = omega arith;
  free_is = refl;
}
  where
    places :
        (i : ℕ)
        → i < 3
        → (get_or pair.array i 16 == 16) ≡ false
        → scan
            (identity_associations 16 one_hash pair_words)
            (λ j. get_or pair.array j 16)
            3
            (pair_words (get_or pair.array i 16 + 8))
          ≡ found i
    places zero h full = absurd (cc full)
    places (suc zero) h full = refl
    places (suc (suc zero)) h full = refl
    places (suc (suc (suc i))) h full = absurd (omega arith)

identity_reads_example :
    (association_at 16 one_hash pair_words pair 960
      ≡ ok (or_nil_association 16 (identity_search 16 one_hash pair_words pair 960)))
    × (at_or_nil 16 one_hash pair_words pair 960
        ≡ ok (
            value_or_nil_association 16 pair_words
              (identity_search 16 one_hash pair_words pair 960)))
    × ((e : ℕ)
        → identity_search 16 one_hash pair_words pair 960 ≡ some e
        → add_association_if_not_existent 16 one_hash 2 pair_words pair 640 ≡ ok (pair, e))
identity_reads_example =
    identity_reads 16 one_hash pair_words pair 960 2 640 pair-IsIdentityTable (omega arith) refl
