-- ===== src/Collections/IdentityDictionary.antt =====
-- slvm_IdentityDictionary_* and slvm_SystemDictionary_* of src/classes/collections.c: dictionaries
-- of associations with the identity hash and the identity of oops.
pub mod Reading
use slvm_native.Common.{ℕ, Bool, ◌==◌, List, Outcome}
use slvm_native.Hashing.{Scan}
use slvm_native.Oop.{ObjectHeader, identity_hash_of}
use slvm_native.ObjectModel.{ObjectMemory, Behavior}
use slvm_native.Collections.Dictionary as Generic
use slvm_native.Collections.Dictionary.{HashedCollection}

-- `a == b` on oops.
abbrev pub identical : ℕ → ℕ → Bool
identical a b = a == b

module _ (nil : ℕ) (headers : ℕ → ObjectHeader) where
  -- `slvm_IdentityDictionary_scanFor`
  abbrev pub scan_for : (ℕ → ℕ) → List ℕ → ℕ → Scan
  scan_for = Generic.scan_for nil (identity_hash_of headers) identical

  -- `slvm_IdentityDictionary_grow`
  abbrev pub grow :
      (HashedCollection → ℕ → Outcome HashedCollection)
      → HashedCollection
      → Outcome HashedCollection
  grow = Generic.grow nil (identity_hash_of headers) identical

  -- `slvm_IdentityDictionary_addAssociation`
  abbrev pub add_association : ℕ → (ℕ → ℕ) → HashedCollection → ℕ → Outcome HashedCollection
  add_association = Generic.add_association nil (identity_hash_of headers) identical

  -- `slvm_IdentityDictionary_addAssociationIfNotExistent`
  abbrev pub add_association_if_not_existent :
      ℕ → (ℕ → ℕ) → HashedCollection → ℕ → Outcome (HashedCollection × ℕ)
  add_association_if_not_existent =
      Generic.add_association_if_not_existent nil (identity_hash_of headers) identical

  -- `slvm_IdentityDictionary_associationAt`
  abbrev pub association_at : (ℕ → ℕ) → HashedCollection → ℕ → Outcome ℕ
  association_at = Generic.association_at nil (identity_hash_of headers) identical

  -- `slvm_IdentityDictionary_atOrNil`
  abbrev pub at_or_nil : (ℕ → ℕ) → HashedCollection → ℕ → Outcome ℕ
  at_or_nil = Generic.at_or_nil nil (identity_hash_of headers) identical
