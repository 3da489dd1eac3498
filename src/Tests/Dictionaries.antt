-- ===== src/Tests/Dictionaries.antt =====
-- The hashed collections at concrete inputs.
use slvm_native.Common.{
  ℕ, zero, suc, ◌+◌, ◌/◌, get_or, ◌≡◌, refl, inr, ◌==◌, if◌then◌else◌, arith, [], ◌∷◌, Returns,
}
use slvm_native.Hashing.{probe}
use slvm_native.Hashing.Table.{IsTable}
use slvm_native.Hashing.Count.{occupied}
use slvm_native.Hashing.Probe.{IsFirst, probe-IsFirst}
use slvm_native.Oop.{ObjectHeader, identity_hash_of, encode_small_integer}
use slvm_native.Collections.MethodDictionary.{
  MethodDictionary, new_with_capacity, at_put, at_or_nil, grow,
}
use slvm_native.Collections.MethodDictionary.Slots.{
  selectors, slots, method_at, at_or_nil-method_at,
}
use slvm_native.Collections.MethodDictionary.Grow.{Grown, grow-Grown}
use slvm_native.Collections.MethodDictionary.Put.{entries, table_entry}
use slvm_native.Collections.MethodDictionary.Insert.{IsReady, absent}
use slvm_native.Collections.MethodDictionary.Dict.{at_or_nil-at_put}

-- Objects whose hash is their address divided by 16, and nil at address 16.
abbrev hashed_headers : ℕ → ObjectHeader
hashed_headers oop = record {
  class_index = 173;
  object_format = 16;
  gc_color = 0;
  identity_hash = oop / 16;
  is_pinned = 0;
  is_immutable = 0;
  slot_count = 1;
}

probe-IsFirst_example : IsFirst (λ i. i == 1) 4 3 0 (probe (λ i. i == 1) 4 3 4 3)
probe-IsFirst_example = probe-IsFirst (λ i. i == 1) 4 3 (omega arith)

abbrev empty_dictionary : MethodDictionary
empty_dictionary = new_with_capacity 16 hashed_headers 5

-- Four entries in five slots: 160 and 240 are both looked for from slot 0.
abbrev four_entries : MethodDictionary
four_entries = record {
  tally = 33;
  keys = 160 ∷ 240 ∷ 192 ∷ 208 ∷ 16 ∷ [];
  values = 800 ∷ 816 ∷ 832 ∷ 848 ∷ 16 ∷ [];
}

four_entries_clear :
    (i : ℕ) → get_or four_entries.keys i 16 ≡ 16 → get_or four_entries.values i 16 ≡ 16
four_entries_clear zero h = absurd (omega arith)
four_entries_clear (suc zero) h = absurd (omega arith)
four_entries_clear (suc (suc zero)) h = absurd (omega arith)
four_entries_clear (suc (suc (suc zero))) h = absurd (omega arith)
four_entries_clear (suc (suc (suc (suc zero)))) h = refl
four_entries_clear (suc (suc (suc (suc (suc i))))) h = refl

four_entries-IsTable :
    IsTable (selectors 16 hashed_headers) (slots 16 hashed_headers four_entries) 5
unfolding probe identity_hash_of
four_entries-IsTable zero h full = refl
four_entries-IsTable (suc zero) h full = refl
four_entries-IsTable (suc (suc zero)) h full = refl
four_entries-IsTable (suc (suc (suc zero))) h full = refl
four_entries-IsTable (suc (suc (suc (suc zero)))) h full = absurd (cc full)
four_entries-IsTable (suc (suc (suc (suc (suc i))))) h full = absurd (omega arith)

four_entries-IsReady : IsReady 16 hashed_headers four_entries
unfolding encode_small_integer occupied
four_entries-IsReady = record {
  valid = record {
    paired = refl;
    table = four_entries-IsTable;
    clear = four_entries_clear;
    counted = refl;
  };
  room = inr (omega arith);
}

-- The fifth entry makes the dictionary grow.
at_or_nil-at_put_example : Returns (at_put 16 hashed_headers 2 four_entries 400 864) λ r.
    IsReady 16 hashed_headers r
    × ((q : ℕ)
        → at_or_nil 16 hashed_headers r q
          ≡ (if 400 == q then 864 else at_or_nil 16 hashed_headers four_entries q))
    × (entries 16 hashed_headers r
        ≡ entries 16 hashed_headers four_entries
          + absent (table_entry 16 hashed_headers four_entries 400))
at_or_nil-at_put_example =
    at_or_nil-at_put 16 hashed_headers 0 four_entries 400 864 four_entries-IsReady (omega arith)
      (omega arith)

at_or_nil-method_at_example :
    at_or_nil 16 hashed_headers four_entries 240 ≡ method_at 16 hashed_headers four_entries 240
at_or_nil-method_at_example =
    at_or_nil-method_at 16 hashed_headers four_entries 240 four_entries-IsReady.valid

grow-Grown_example :
    Returns
      (grow 16 hashed_headers (at_put 16 hashed_headers 1) four_entries)
      (Grown 16 hashed_headers four_entries)
grow-Grown_example =
    grow-Grown 16 hashed_headers 0 four_entries four_entries-IsReady.valid (omega arith)
