-- ===== src/Collections/MethodDictionary/Put.antt =====
-- One write into a method dictionary, before any growth.
use mathlib.Core.Path.{ap₂}
use native.Mathlib.Decide.{ℕ_discrete}
use slvm_native.Common.{
  ℕ, ◌+◌, ◌^◌, ◌<◌, ◌≡◌, ◌≢◌, refl, sym, ap, subst, ◌∙◌, true, false, ◌||◌, arith, ◌==◌,
  if◌then◌else◌, length, get_or, set, length-set, get_or-set_self, get_or-set_ne, Option, some,
  ne→==,
}
use slvm_native.Hashing.{Scan, found, missing, unfinished}
use slvm_native.Hashing.Table.{
  scan, IsTable, scan_found, scan_room, scan_finishes, IsWrite, write-IsTable,
}
use slvm_native.Hashing.Store.{entry, entry-write}
use slvm_native.Hashing.Count.{occupied, occupied-write, free_slot}
use slvm_native.Oop.{ObjectHeader}
use slvm_native.Collections.Full.{tally_of, increase_tally, increase_tally_lem}
use slvm_native.Collections.MethodDictionary.{MethodDictionary, scan_for}
use slvm_native.Collections.MethodDictionary.Slots.{selectors, slots, scan_for_lem, IsDict}

module _ (nil : ℕ) (headers : ℕ → ObjectHeader) where
  abbrev pub entries : MethodDictionary → ℕ
  entries d = occupied (selectors nil headers) (slots nil headers d) (length d.keys)

  abbrev pub table_entry : MethodDictionary → ℕ → Option (ℕ × ℕ)
  table_entry d = entry (selectors nil headers) (slots nil headers d) (length d.keys)

  -- Where a key goes in a dictionary with a free slot.
  pub scan_place :
      (d : MethodDictionary) (key : ℕ)
      → entries d < length d.keys
      → (p : ℕ) × (p < length d.keys)
        × (scan_for nil headers d.keys key ≡ found p)
        × (scan (selectors nil headers) (slots nil headers d) (length d.keys) key ≡ found p)
        × (((get_or d.keys p nil == nil) || (get_or d.keys p nil == key)) ≡ true)
  scan_place d key h =
      go (scan (selectors nil headers) (slots nil headers d) (length d.keys) key) refl
    where
      go :
          (r : Scan)
          → scan (selectors nil headers) (slots nil headers d) (length d.keys) key ≡ r
          → (p : ℕ) × (p < length d.keys)
            × (scan_for nil headers d.keys key ≡ found p)
            × (scan (selectors nil headers) (slots nil headers d) (length d.keys) key ≡ found p)
            × (((get_or d.keys p nil == nil) || (get_or d.keys p nil == key)) ≡ true)
      go (found p) e =
          let (inside, hit) =
            scan_found (selectors nil headers) (slots nil headers d) (length d.keys) p key
              (omega arith) e in
          (p, inside, scan_for_lem nil headers d key (omega arith) ∙ e, e, hit)
      go missing e =
          let (i, inside, free) =
            free_slot (selectors nil headers) (slots nil headers d) (length d.keys) h in
          absurd (
            scan_room (selectors nil headers) (slots nil headers d) (length d.keys) i key inside
              free e)
      go unfinished e = absurd (
          scan_finishes (selectors nil headers) (slots nil headers d) (length d.keys) key
            (omega arith) e)

  -- What a put of `value` under `key` does to what is read, and to the number of entries.
  pub record Puts (d : MethodDictionary) (key value : ℕ) (r : MethodDictionary) : Type 0 where
    pub valid : IsDict nil headers r
    pub entry_is :
        (q : ℕ) → table_entry r q ≡ (if key == q then some (key, value) else table_entry d q)

  module _ (d : MethodDictionary) (key value p : ℕ) (is : IsDict nil headers d) (real : key ≢ nil)
      (inside : p < length d.keys)
      (place : scan (selectors nil headers) (slots nil headers d) (length d.keys) key
        ≡ found p) where
    -- The dictionary with the key and the value in slot `p`.
    abbrev pub written : ℕ → MethodDictionary
    written tally = record { tally = tally; keys = set d.keys p key; values = set d.values p value }

    pub written-IsWrite :
        (tally : ℕ)
        → IsWrite
            (selectors nil headers)
            (slots nil headers d)
            (slots nil headers (written tally))
            p
            (key, value)
    written-IsWrite tally = record {
      here =
          ap₂ (λ a b. (a, b)) (get_or-set_self d.keys p key nil inside)
            (get_or-set_self d.values p value nil (rw is.paired inside));
      there = λ i other.
          ap₂ (λ a b. (a, b)) (get_or-set_ne d.keys p i key nil (λ e. other (sym e)))
            (get_or-set_ne d.values p i value nil (λ e. other (sym e)));
    }

    filled : (key == nil) ≡ false
    filled = ne→== key nil real

    pub entries-written :
        (tally : ℕ)
        → entries (written tally) ≡ entries d + (if get_or d.keys p nil == nil then 1 else 0)
    entries-written tally =
        ap (occupied (selectors nil headers) (slots nil headers (written tally)))
          (length-set d.keys p key)
        ∙ occupied-write (selectors nil headers) (slots nil headers d)
            (slots nil headers (written tally)) (length d.keys) p (key, value) inside filled
            (written-IsWrite tally)

    written_clear :
        (tally i : ℕ)
        → get_or (written tally).keys i nil ≡ nil
        → get_or (written tally).values i nil ≡ nil
    written_clear tally i e = elim (ℕ_discrete i p) [
      | yes same ↦ absurd (real (sym (get_or-set_self d.keys p key nil inside) ∙ (rw same at e)))
      | no other ↦
          let apart : p ≢ i = λ same. other (sym same) in
          get_or-set_ne d.values p i value nil apart
          ∙ is.clear i (sym (get_or-set_ne d.keys p i key nil apart) ∙ e)
    ]

    -- A write keeps the dictionary well formed, with the right tally.
    pub written-IsDict :
        (tally : ℕ)
        → tally ≡ tally_of (entries (written tally))
        → IsDict nil headers (written tally)
    written-IsDict tally e = record {
      paired = length-set d.values p value ∙ is.paired ∙ sym (length-set d.keys p key);
      table =
          subst (IsTable (selectors nil headers) (slots nil headers (written tally)))
            (sym (length-set d.keys p key))
            (write-IsTable (selectors nil headers) (slots nil headers d)
              (slots nil headers (written tally)) (length d.keys) p (key, value) (omega arith)
              filled place (written-IsWrite tally) is.table);
      clear = written_clear tally;
      counted = e;
    }

    pub written_entry :
        (tally q : ℕ)
        → table_entry (written tally) q ≡ (if key == q then some (key, value) else table_entry d q)
    written_entry tally q =
        ap (λ n. entry (selectors nil headers) (slots nil headers (written tally)) n q)
          (length-set d.keys p key)
        ∙ entry-write (selectors nil headers) (slots nil headers d)
            (slots nil headers (written tally)) (length d.keys) p (key, value) q (omega arith)
            is.table filled inside place (written-IsWrite tally)

    pub written-Puts :
        (tally : ℕ) → tally ≡ tally_of (entries (written tally)) → Puts d key value (written tally)
    written-Puts tally e = record { valid = written-IsDict tally e; entry_is = written_entry tally }

    -- In a free slot the tally goes up by one, and in a slot with the key it stays.
    pub tally_free :
        entries d + 1 < 2 ^ 60
        → (get_or d.keys p nil == nil) ≡ true
        → (entries (written (increase_tally d.tally)) ≡ entries d + 1)
          × (increase_tally d.tally ≡ tally_of (entries (written (increase_tally d.tally))))
    tally_free small free =
        let count : entries (written (increase_tally d.tally)) ≡ entries d + 1 =
          rw free at (entries-written (increase_tally d.tally)) in
        (
          count,
          ap increase_tally is.counted
              ∙ increase_tally_lem (entries d) small
              ∙ ap tally_of (sym count),
        )

    pub tally_kept :
        (get_or d.keys p nil == nil) ≡ false
        → (entries (written d.tally) ≡ entries d) × (d.tally ≡ tally_of (entries (written d.tally)))
    tally_kept full =
        let count : entries (written d.tally) ≡ entries d =
          (rw full at (entries-written d.tally)) ∙ omega arith in
        (count, is.counted ∙ ap tally_of (sym count))
