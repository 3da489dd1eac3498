-- ===== src/Collections/MethodDictionary.antt =====
-- slvm_MethodDictionary_* of src/classes/collections.c: selectors in one array, methods in another.
pub mod Slots
pub mod Put
pub mod Grow
pub mod Insert
pub mod Dict
use slvm_native.Common.{
  ℕ, zero, suc, ◌+◌, ◌%◌, Bool, ◌||◌, ◌==◌, if◌then◌else◌, List, length, get_or, set, replicate,
  Outcome, ok, aborted, out_of_fuel, ◌>>=◌,
}
use slvm_native.Hashing.{Scan, found, missing, unfinished, probe}
use slvm_native.Oop.{ObjectHeader, identity_hash_of, encode_small_integer}
use slvm_native.Collections.Full.{full_condition, increase_tally, grown_size}

-- `SLVM_MethodDictionary`: `values` is the array of the base class.
pub record MethodDictionary : Type 0 where
  pub tally : ℕ
  pub keys : List ℕ
  pub values : List ℕ

-- `nil` is the address of `slvm_nil`, which the linker chooses.
module _ (nil : ℕ) (headers : ℕ → ObjectHeader) where
  -- `slvm_MethodDictionary_newWithCapacity`
  unfoldable pub new_with_capacity : ℕ → MethodDictionary
  new_with_capacity n = record {
    tally = encode_small_integer 0;
    keys = replicate n nil;
    values = replicate n nil;
  }

  -- `slvm_MethodDictionary_new`
  unfoldable pub new : MethodDictionary
  new = new_with_capacity 5

  -- `slvm_MethodDictionary_scanFor`
  unfoldable pub scan_for : List ℕ → ℕ → Scan
  scan_for keys key =
      let array_size = length keys in
      let start = identity_hash_of headers key % array_size in
      if array_size == 0
      then missing
      else probe (λ i. (get_or keys i nil == nil) || (get_or keys i nil == key)) array_size start
          array_size start

  -- The loop of `grow` over the old arrays, with `at_put` for the call that it makes.
  unfoldable pub reinsert :
      (MethodDictionary → ℕ → ℕ → Outcome MethodDictionary)
      → List ℕ
      → List ℕ
      → ℕ
      → ℕ
      → MethodDictionary
      → Outcome MethodDictionary
  reinsert put old_keys old_values zero i d = ok d
  reinsert put old_keys old_values (suc rounds) i d =
      let element = get_or old_keys i nil in
      (if element == nil then ok d else put d element (get_or old_values i nil))
      >>= reinsert put old_keys old_values rounds (i + 1)

  -- `slvm_MethodDictionary_grow`
  unfoldable pub grow :
      (MethodDictionary → ℕ → ℕ → Outcome MethodDictionary)
      → MethodDictionary
      → Outcome MethodDictionary
  grow put d =
      reinsert put d.keys d.values (length d.keys) 0
        (new_with_capacity (grown_size (length d.keys)))

  -- A new key in a free slot, and the growth that may follow.
  unfoldable pub insert_at :
      (MethodDictionary → ℕ → ℕ → Outcome MethodDictionary)
      → MethodDictionary
      → ℕ
      → ℕ
      → ℕ
      → Outcome MethodDictionary
  insert_at put d index key value =
      let inserted : MethodDictionary = record {
        tally = increase_tally d.tally;
        keys = set d.keys index key;
        values = set d.values index value;
      } in
      if full_condition (length d.keys) inserted.tally then grow put inserted else ok inserted

  -- `slvm_MethodDictionary_atPut`; the fuel bounds its calls through `grow`.
  unfoldable pub at_put : ℕ → MethodDictionary → ℕ → ℕ → Outcome MethodDictionary
  at_put zero d key value = out_of_fuel
  at_put (suc fuel) d key value = elim (scan_for d.keys key) [
    | missing ↦ grow (at_put fuel) d >>= (λ larger. at_put fuel larger key value)
    | found index ↦
        if get_or d.keys index nil == nil
        then insert_at (at_put fuel) d index key value
        else ok (record d { values = set d.values index value })
    | unfinished ↦ out_of_fuel
  ]

  -- The value that a scan leads to.
  unfoldable pub value_at : MethodDictionary → Scan → ℕ
  value_at d missing = nil
  value_at d (found index) = get_or d.values index nil
  value_at d unfinished = nil

  -- `slvm_MethodDictionary_atOrNil`
  unfoldable pub at_or_nil : MethodDictionary → ℕ → ℕ
  unfolding value_at
  at_or_nil d key = value_at d (scan_for d.keys key)
