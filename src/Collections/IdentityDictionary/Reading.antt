-- ===== src/Collections/IdentityDictionary/Reading.antt =====
-- Reading an identity dictionary; the laws of the generic dictionary hold for oops.
use slvm_native.Common.{
  ℕ, ◌+◌, ◌≡◌, ◌≢◌, sym, ap, ◌∙◌, true, Option, some, ok, ==_refl, ==→eq, eq→==,
}
use slvm_native.Hashing.Table.{Keyed}
use slvm_native.Oop.{ObjectHeader, identity_hash_of}
use slvm_native.Collections.Dictionary.{HashedCollection}
use slvm_native.Collections.Dictionary.Reading.{
  IsEquality, associations, IsDictionary, search, dictionary_reads,
}
pub use slvm_native.Collections.Dictionary.Reading.{or_nil_association, value_or_nil_association}
use slvm_native.Collections.IdentityDictionary.{
  identical, association_at, at_or_nil, add_association_if_not_existent,
}

identical_chain : (a b c : ℕ) → identical a b ≡ true → identical b c ≡ true → identical a c ≡ true
identical_chain a b c p q = eq→== a c (==→eq a b p ∙ ==→eq b c q)

module _ (nil : ℕ) (headers : ℕ → ObjectHeader) where
  pub identical-IsEquality : IsEquality (identity_hash_of headers) identical
  identical-IsEquality = record {
    same = ==_refl;
    swap = λ a b h. eq→== b a (sym (==→eq a b h));
    chain = identical_chain;
    hashed = λ a b h. ap (identity_hash_of headers) (==→eq a b h);
  }

  abbrev pub identity_associations : (ℕ → ℕ) → Keyed ℕ ℕ
  identity_associations = associations nil (identity_hash_of headers) identical identical-IsEquality

  -- Every association is found under its key, and some slot is free.
  abbrev pub IsIdentityTable : (ℕ → ℕ) → HashedCollection → Type 0
  IsIdentityTable = IsDictionary nil (identity_hash_of headers) identical identical-IsEquality

  -- The reference: the association with the key, by a search of all slots.
  abbrev pub identity_search : (ℕ → ℕ) → HashedCollection → ℕ → Option ℕ
  identity_search = search nil (identity_hash_of headers) identical identical-IsEquality

-- In an identity dictionary with a free slot no lookup fails: associationAt returns the association
-- that a search of the whole array finds under the key, or nil, atOrNil its value, or nil, and
-- addAssociationIfNotExistent leaves the dictionary alone and returns that association if there is
-- one.
pub identity_reads :
    (nil : ℕ) (headers : ℕ → ObjectHeader) (words : ℕ → ℕ) (d : HashedCollection)
    (key fuel association : ℕ)
    → IsIdentityTable nil headers words d
    → association ≢ nil
    → words (association + 8) ≡ key
    → (association_at nil headers words d key
        ≡ ok (or_nil_association nil (identity_search nil headers words d key)))
      × (at_or_nil nil headers words d key
          ≡ ok (value_or_nil_association nil words (identity_search nil headers words d key)))
      × ((e : ℕ)
          → identity_search nil headers words d key ≡ some e
          → add_association_if_not_existent nil headers fuel words d association ≡ ok (d, e))
identity_reads nil headers words =
    dictionary_reads nil (identity_hash_of headers) identical (identical-IsEquality nil headers)
      words
