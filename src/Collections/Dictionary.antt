-- ===== src/Collections/Dictionary.antt =====
-- slvm_Dictionary_* and slvm_IdentityDictionary_* of src/classes/collections.c: arrays of
-- associations, which are objects in the object memory. The two families of functions have the
-- same text, with the hash and the equality as arguments in the first and slvm_identityHash and
-- `==` in the second; here they are parameters.
pub mod Reading
pub mod Writing
pub mod Growing
pub mod Adding
pub mod Elsewhere
pub mod Making
pub mod Putting
use slvm_native.Common.{
  ℕ, zero, suc, ◌+◌, ◌*◌, ◌%◌, Bool, ◌||◌, ◌==◌, if◌then◌else◌, List, length, get_or, set,
  replicate, Outcome, ok, aborted, out_of_fuel, ◌>>=◌,
}
use slvm_native.Common.Words.{add_word}
use slvm_native.Hashing.{Scan, found, missing, unfinished, probe}
use slvm_native.Oop.{ObjectHeader, identity_hash_of, encode_small_integer}
use slvm_native.ObjectModel.{ObjectMemory, Behavior, write_word, basic_new}
use slvm_native.Collections.Full.{full_condition, increase_tally, grown_size}

-- `SLVM_HashedCollection`
pub record HashedCollection : Type 0 where
  pub tally : ℕ
  pub array : List ℕ

-- The fields of an association, the words behind its header.
abbrev pub key_of : (ℕ → ℕ) → ℕ → ℕ
key_of words association = words (association + 8)

abbrev pub value_of_association : (ℕ → ℕ) → ℕ → ℕ
value_of_association words association = words (association + 16)

module _ (nil : ℕ) (hash : ℕ → ℕ) (equal : ℕ → ℕ → Bool) where
  -- `slvm_Dictionary_newWithCapacity` and `slvm_Dictionary_new`
  unfoldable pub new_with_capacity : ℕ → HashedCollection
  new_with_capacity n = record { tally = encode_small_integer 0; array = replicate n nil }

  unfoldable pub new : HashedCollection
  new = new_with_capacity 5

  -- `slvm_Dictionary_scanFor`, `slvm_IdentityDictionary_scanFor`
  unfoldable pub scan_for : (ℕ → ℕ) → List ℕ → ℕ → Scan
  scan_for words array key =
      let array_size = length array in
      let start = hash key % array_size in
      if array_size == 0
      then missing
      else probe (λ i. (get_or array i nil == nil) || equal (key_of words (get_or array i nil)) key)
          array_size start array_size start

  -- The loop of `grow` over the old array, with `add` for the call that it makes.
  unfoldable pub reinsert :
      (HashedCollection → ℕ → Outcome HashedCollection)
      → List ℕ
      → ℕ
      → ℕ
      → HashedCollection
      → Outcome HashedCollection
  reinsert add old_array zero i d = ok d
  reinsert add old_array (suc rounds) i d =
      let element = get_or old_array i nil in
      (if element == nil then ok d else add d element) >>= reinsert add old_array rounds (i + 1)

  -- `slvm_Dictionary_grow`, `slvm_IdentityDictionary_grow`
  unfoldable pub grow :
      (HashedCollection → ℕ → Outcome HashedCollection)
      → HashedCollection
      → Outcome HashedCollection
  grow add d =
      reinsert add d.array (length d.array) 0 (new_with_capacity (grown_size (length d.array)))

  -- An association in a free slot, and the growth that may follow.
  unfoldable pub insert_association :
      (HashedCollection → ℕ → Outcome HashedCollection)
      → HashedCollection
      → ℕ
      → ℕ
      → Outcome HashedCollection
  insert_association add d index association =
      let inserted : HashedCollection = record {
        tally = increase_tally d.tally;
        array = set d.array index association;
      } in
      if full_condition (length d.array) inserted.tally then grow add inserted else ok inserted

  -- `slvm_Dictionary_addAssociation`, `slvm_IdentityDictionary_addAssociation`; the fuel bounds the
  -- calls through `grow`.
  unfoldable pub add_association : ℕ → (ℕ → ℕ) → HashedCollection → ℕ → Outcome HashedCollection
  add_association zero words d association = out_of_fuel
  add_association (suc fuel) words d association =
      if association == nil
      then aborted
      else (elim (scan_for words d.array (key_of words association)) [
        | missing ↦ aborted
        | found index ↦
            if get_or d.array index nil == nil
            then insert_association (add_association fuel words) d index association
            else ok (record d { array = set d.array index association })
        | unfinished ↦ out_of_fuel
      ])

  -- `slvm_IdentityDictionary_addAssociationIfNotExistent`: the dictionary and the association that
  -- stands in it.
  unfoldable pub add_association_if_not_existent :
      ℕ → (ℕ → ℕ) → HashedCollection → ℕ → Outcome (HashedCollection × ℕ)
  add_association_if_not_existent fuel words d association =
      if association == nil
      then aborted
      else (elim (scan_for words d.array (key_of words association)) [
        | missing ↦ aborted
        | found index ↦
            if get_or d.array index nil == nil
            then (insert_association (add_association fuel words) d index association >>= λ larger.
                ok (larger, association))
            else ok (d, get_or d.array index nil)
        | unfinished ↦ out_of_fuel
      ])

  -- `slvm_Dictionary_associationAt`, `slvm_IdentityDictionary_associationAt`
  unfoldable pub association_at : (ℕ → ℕ) → HashedCollection → ℕ → Outcome ℕ
  association_at words d key = elim (scan_for words d.array key) [
    | missing ↦ aborted
    | found index ↦ ok (get_or d.array index nil)
    | unfinished ↦ out_of_fuel
  ]

  -- `slvm_IdentityDictionary_atOrNil`
  unfoldable pub at_or_nil : (ℕ → ℕ) → HashedCollection → ℕ → Outcome ℕ
  at_or_nil words d key = elim (scan_for words d.array key) [
    | missing ↦ aborted
    | found index ↦
        let element = get_or d.array index nil in
        if element == nil then ok nil else ok (value_of_association words element)
    | unfinished ↦ out_of_fuel
  ]

  module _ (behaviors : ℕ → Behavior) (association_class : ℕ) where
    -- `slvm_Association_makeWithClass`, which makes an instance of Association whatever class it
    -- is given.
    unfoldable pub make_association : ObjectMemory → ℕ → ℕ → Outcome (ℕ × ObjectMemory)
    make_association m key value = basic_new nil behaviors m association_class 0 >>= λ r.
        let (oop, made) = r in
        ok (
          oop,
          record made {
            words = write_word (write_word made.words (add_word oop 8) key) (add_word oop 16) value;
          },
        )

    -- `slvm_IdentityDictionary_atPutWithAssociationClass`, and so `_atPut` and
    -- `slvm_SystemDictionary_atPut`
    unfoldable pub at_put :
        ℕ → ObjectMemory → HashedCollection → ℕ → ℕ → Outcome (ObjectMemory × HashedCollection)
    at_put fuel m d key value = elim (scan_for m.words d.array key) [
      | missing ↦ aborted
      | found index ↦
          let element = get_or d.array index nil in
          if element == nil
          then (make_association m key value >>= λ r.
              let (association, made) = r in
              insert_association (add_association fuel made.words) d index association >>= λ larger.
              ok (made, larger))
          else ok (record m { words = write_word m.words (element + 16) value }, d)
      | unfinished ↦ out_of_fuel
    ]
