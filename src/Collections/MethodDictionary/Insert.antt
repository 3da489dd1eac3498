-- ===== src/Collections/MethodDictionary/Insert.antt =====
-- slvm_MethodDictionary_atPut at the slot where the scan ends: a new key, and the growth behind it,
-- or a key that is there.
use slvm_native.Common.{
  ℕ, suc, ◌+◌, ◌^◌, ◌<◌, ◌≡◌, ◌≢◌, ◌⊎◌, inl, inr, sym, ap, ◌∙◌, true, false, arith, ◌==◌,
  if◌then◌else◌, length, get_or, set, set-get_or, length-set, Option, none, some, Bool-cases,
  Returns,
}
use slvm_native.Hashing.{found, probe}
use slvm_native.Hashing.Table.{scan}
use slvm_native.Hashing.Store.{entry-search_all}
use slvm_native.Hashing.Count.{occupied-le}
use slvm_native.Oop.{ObjectHeader}
use slvm_native.Collections.Full.{
  tally_of, increase_tally, full_condition, room_left, grown_size_lem,
}
use slvm_native.Collections.MethodDictionary.{MethodDictionary, insert_at, at_put}
use slvm_native.Collections.MethodDictionary.Slots.{selectors, slots, IsDict}
use slvm_native.Collections.MethodDictionary.Put.{
  entries, table_entry, Puts, written, written-Puts, tally_free, tally_kept,
}
use slvm_native.Collections.MethodDictionary.Grow.{Grown, grow-Grown}

-- 1 for a key that is new.
abbrev pub absent : Option (ℕ × ℕ) → ℕ
absent none = 1
absent (some e) = 0

module _ (nil : ℕ) (headers : ℕ → ObjectHeader) where
  -- A dictionary as the program leaves it between calls: well formed, and with a free slot unless
  -- it has no slots at all.
  pub record IsReady (d : MethodDictionary) : Type 0 where
    pub valid : IsDict nil headers d
    pub room : (length d.keys ≡ 0) ⊎ (entries nil headers d < length d.keys)

  -- The outcome of a put.
  pub record IsPut (d : MethodDictionary) (key value : ℕ) (r : MethodDictionary) : Type 0 where
    pub ready : IsReady r
    pub count :
        entries nil headers r ≡ entries nil headers d + absent (table_entry nil headers d key)
    pub entry_is :
        (q : ℕ)
        → table_entry nil headers r q
          ≡ (if key == q then some (key, value) else table_entry nil headers d q)

  pub entry_empty :
      (d : MethodDictionary) (q : ℕ) → length d.keys ≡ 0 → table_entry nil headers d q ≡ none
  unfolding probe
  entry_empty d q e = rw e

  -- Growing behind an insertion.
  pub Grown-IsPut :
      (d w g : MethodDictionary) (key value : ℕ)
      → Puts nil headers d key value w
      → 0 < length w.keys
      → length w.keys < 2 ^ 58
      → entries nil headers w ≡ entries nil headers d + absent (table_entry nil headers d key)
      → Grown nil headers w g
      → IsPut d key value g
  Grown-IsPut d w g key value puts wide small count big = record {
    ready = record {
      valid = big.valid;
      room = inr (
          ground (
            arith,
            big.width,
            big.count,
            grown_size_lem (length w.keys),
            occupied-le (selectors nil headers) (slots nil headers w) (length w.keys),
          ));
    };
    count = big.count ∙ count;
    entry_is = λ q.
        big.same q
        ∙ sym (
            entry-search_all (selectors nil headers) (slots nil headers w) (length w.keys) q wide
              puts.valid.table)
        ∙ puts.entry_is q;
  }

  module _ (d : MethodDictionary) (key value p : ℕ) (is : IsDict nil headers d) (real : key ≢ nil)
      (inside : p < length d.keys)
      (place : scan (selectors nil headers) (slots nil headers d) (length d.keys) key ≡ found p)
      (open' : entries nil headers d < length d.keys) (small : length d.keys < 2 ^ 58) where
    entry_free : (get_or d.keys p nil == nil) ≡ true → table_entry nil headers d key ≡ none
    entry_free free = rw (place, free)

    entry_full :
        (get_or d.keys p nil == nil) ≡ false
        → table_entry nil headers d key ≡ some (slots nil headers d p)
    entry_full full = rw (place, full)

    -- A new key.
    pub insert_at-IsPut :
        (fuel : ℕ)
        → (get_or d.keys p nil == nil) ≡ true
        → Returns
            (insert_at nil headers (at_put nil headers (suc fuel)) d p key value)
            (IsPut d key value)
    unfolding insert_at
    insert_at-IsPut fuel free =
        let (count, tally) =
          tally_free nil headers d key value p is real inside place (omega arith) free in
        let w = written nil headers d key value p is real inside place (increase_tally d.tally) in
        let puts =
          written-Puts nil headers d key value p is real inside place (increase_tally d.tally)
            tally in
        let count' : entries nil headers w
            ≡ entries nil headers d + absent (table_entry nil headers d key) =
          rw (entry_free free) count in
        let same = length-set d.keys p key in
        elim (Bool-cases (full_condition (length d.keys) (increase_tally d.tally))) [
          | inl full ↦
              let (g, run, big) = grow-Grown nil headers fuel w puts.valid (rw same small) in
              (
                g,
                rw full run,
                Grown-IsPut d w g key value puts (rw same (omega arith)) (rw same small) count' big,
              )
          | inr not' ↦
              let (wide, room) =
                room_left (length d.keys) (entries nil headers d + 1) (increase_tally d.tally)
                  (tally ∙ ap tally_of count) (omega arith) (omega arith) not' in
              (
                w,
                rw not',
                record {
                  ready = record { valid = puts.valid; room = inr (omega (arith, same, count)) };
                  count = count';
                  entry_is = puts.entry_is;
                },
              )
        ]

    -- A key that is there.
    pub replace-IsPut :
        (get_or d.keys p nil == nil) ≡ false
        → get_or d.keys p nil ≡ key
        → IsPut d key value (record d { values = set d.values p value })
    replace-IsPut full same =
        let (count, tally) = tally_kept nil headers d key value p is real inside place full in
        let puts = written-Puts nil headers d key value p is real inside place d.tally tally in
        let result : IsPut d key value
            (written nil headers d key value p is real inside place d.tally) =
          record {
            ready = record {
              valid = puts.valid;
              room = inr (omega (arith, length-set d.keys p key, count));
            };
            count = rw (entry_full full) (count ∙ omega arith);
            entry_is = puts.entry_is;
          } in
        rw (set-get_or d.keys p nil key same inside) at result
