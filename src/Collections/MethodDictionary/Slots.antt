-- ===== src/Collections/MethodDictionary/Slots.antt =====
-- A method dictionary as a table of slots: an entry is a key with its value.
use slvm_native.Common.{
  ℕ, ◌<◌, ◌≡◌, ◌⊎◌, inl, inr, refl, sym, ap, ◌∙◌, true, false, arith, ◌==◌, length, get_or, Option,
  none, some, ==→eq, ==_refl, Bool-cases,
}
use slvm_native.Hashing.{Scan, found, missing, unfinished}
use slvm_native.Hashing.Table.{Keyed, scan, IsTable}
use slvm_native.Hashing.Store.{entry, entry_of, search_all, entry-search_all}
use slvm_native.Hashing.Count.{occupied}
use slvm_native.Oop.{ObjectHeader, identity_hash_of}
use slvm_native.Collections.Full.{tally_of}
use slvm_native.Collections.MethodDictionary.{MethodDictionary, scan_for, value_at, at_or_nil}

pub positive : (n : ℕ) → (n ≡ 0) ⊎ (0 < n)
positive n = omega arith

module _ (nil : ℕ) (headers : ℕ → ObjectHeader) where
  abbrev pub selectors : Keyed (ℕ × ℕ) ℕ
  selectors = record {
    vacant = λ e. e.0 == nil;
    key = λ e. e.0;
    fits = λ e k. e.0 == k;
    hash = identity_hash_of headers;
    fits_own = λ e h. ==_refl e.0;
    fits_same = λ e k h fit.
        let same : e.0 ≡ k = ==→eq e.0 k fit in
        (ap (identity_hash_of headers) (sym same), λ d. ap (λ t. d.0 == t) (sym same));
  }

  abbrev pub slots : MethodDictionary → ℕ → ℕ × ℕ
  slots d i = (get_or d.keys i nil, get_or d.values i nil)

  -- The scan of the code is the scan of the table.
  pub scan_for_lem :
      (d : MethodDictionary) (key : ℕ)
      → 0 < length d.keys
      → scan_for nil headers d.keys key ≡ scan selectors (slots d) (length d.keys) key
  unfolding scan_for
  scan_for_lem d key h =
      let some_slots : (length d.keys == 0) ≡ false = ground arith in rw some_slots

  -- A dictionary whose capacity may be 0: as many values as keys, every key found where it stands, no value
  -- in a free slot, and the tally of its entries.
  pub record IsDict (d : MethodDictionary) : Type 0 where
    pub paired : length d.values ≡ length d.keys
    pub table : IsTable selectors (slots d) (length d.keys)
    pub clear : (i : ℕ) → get_or d.keys i nil ≡ nil → get_or d.values i nil ≡ nil
    pub counted : d.tally ≡ tally_of (occupied selectors (slots d) (length d.keys))

  abbrev pub value_or_nil : Option (ℕ × ℕ) → ℕ
  value_or_nil none = nil
  value_or_nil (some e) = e.1

  value_at_lem :
      (d : MethodDictionary) (r : Scan)
      → IsDict d
      → value_at nil headers d r ≡ value_or_nil (entry_of selectors (slots d) r)
  unfolding value_at
  value_at_lem d (found i) is = elim (Bool-cases (get_or d.keys i nil == nil)) [
    | inl free ↦ rw free (is.clear i (==→eq _ _ free))
    | inr full ↦ rw full
  ]
  value_at_lem d missing is = refl
  value_at_lem d unfinished is = refl

  pub at_or_nil-entry :
      (d : MethodDictionary) (key : ℕ)
      → IsDict d
      → 0 < length d.keys
      → at_or_nil nil headers d key ≡ value_or_nil (entry selectors (slots d) (length d.keys) key)
  unfolding at_or_nil
  at_or_nil-entry d key is h =
      ap (value_at nil headers d) (scan_for_lem d key h)
      ∙ value_at_lem d (scan selectors (slots d) (length d.keys) key) is

  -- The reference: a linear search of the keys.
  pub method_at : MethodDictionary → ℕ → ℕ
  method_at d key = value_or_nil (search_all selectors (slots d) (length d.keys) key)

  pub scan_for_empty :
      (d : MethodDictionary) (key : ℕ)
      → length d.keys ≡ 0
      → scan_for nil headers d.keys key ≡ missing
  unfolding scan_for
  scan_for_empty d key h = let none' : (length d.keys == 0) ≡ true = ground arith in rw none'

  search_none :
      (d : MethodDictionary) (key : ℕ)
      → value_or_nil (search_all selectors (slots d) 0 key) ≡ value_at nil headers d missing
  unfolding search_all value_at
  search_none d key = refl

  -- In a well-formed dictionary the hashed lookup gives what a linear search of the keys gives,
  -- also when there are no slots.
  pub at_or_nil-method_at :
      (d : MethodDictionary) (key : ℕ) → IsDict d → at_or_nil nil headers d key ≡ method_at d key
  unfolding method_at at_or_nil
  at_or_nil-method_at d key is = elim (positive (length d.keys)) [
    | inl empty ↦
        ap (value_at nil headers d) (scan_for_empty d key empty)
        ∙ sym (
            ap (λ n. value_or_nil (search_all selectors (slots d) n key)) empty ∙ search_none d key)
    | inr some_slots ↦
        at_or_nil-entry d key is some_slots
        ∙ ap value_or_nil
            (entry-search_all selectors (slots d) (length d.keys) key some_slots is.table)
  ]
