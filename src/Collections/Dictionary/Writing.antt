-- ===== src/Collections/Dictionary/Writing.antt =====
-- One association written into a dictionary, before any growth.
use slvm_native.Common.{
  ℕ, ◌+◌, ◌^◌, ◌<◌, ◌≡◌, ◌≢◌, refl, sym, ap, subst, ◌∙◌, Bool, true, false, arith, ◌==◌,
  if◌then◌else◌, length, get_or, set, length-set, get_or-set_self, get_or-set_ne, Option, some,
  ne→==,
}
use slvm_native.Hashing.{Scan, found, missing, unfinished}
use slvm_native.Hashing.Table.{
  scan, stops, IsTable, scan_found, scan_room, scan_finishes, IsWrite, write-IsTable,
}
use slvm_native.Hashing.Store.{entry, entry-write}
use slvm_native.Hashing.Count.{occupied, occupied-write, free_slot}
use slvm_native.Collections.Full.{tally_of, increase_tally, increase_tally_lem}
use slvm_native.Collections.Dictionary.{HashedCollection, key_of, scan_for}
use slvm_native.Collections.Dictionary.Reading.{IsEquality, associations, elements, scan_for_lem}

module _ (nil : ℕ) (hash : ℕ → ℕ) (equal : ℕ → ℕ → Bool) (eq : IsEquality hash equal)
    (words : ℕ → ℕ) where
  abbrev pub count_of : HashedCollection → ℕ
  count_of d =
      occupied (associations nil hash equal eq words) (elements nil hash equal eq words d)
        (length d.array)

  abbrev pub association_of : HashedCollection → ℕ → Option ℕ
  association_of d =
      entry (associations nil hash equal eq words) (elements nil hash equal eq words d)
        (length d.array)

  -- Every association is found under its key, and the tally counts them.
  pub record IsCounted (d : HashedCollection) : Type 0 where
    pub table :
        IsTable
          (associations nil hash equal eq words)
          (elements nil hash equal eq words d)
          (length d.array)
    pub counted : d.tally ≡ tally_of (count_of d)

  -- Where a key goes in a dictionary with a free slot.
  pub scan_place :
      (d : HashedCollection) (key : ℕ)
      → count_of d < length d.array
      → (p : ℕ) × (p < length d.array)
        × (scan_for nil hash equal words d.array key ≡ found p)
        × (scan
              (associations nil hash equal eq words)
              (elements nil hash equal eq words d)
              (length d.array)
              key
            ≡ found p)
        × (stops (associations nil hash equal eq words) (elements nil hash equal eq words d) key p
            ≡ true)
  scan_place d key h =
      go
        (scan (associations nil hash equal eq words) (elements nil hash equal eq words d)
          (length d.array) key)
        refl
    where
      go :
          (r : Scan)
          → scan
              (associations nil hash equal eq words)
              (elements nil hash equal eq words d)
              (length d.array)
              key
            ≡ r
          → (p : ℕ) × (p < length d.array)
            × (scan_for nil hash equal words d.array key ≡ found p)
            × (scan
                  (associations nil hash equal eq words)
                  (elements nil hash equal eq words d)
                  (length d.array)
                  key
                ≡ found p)
            × (stops
                  (associations nil hash equal eq words)
                  (elements nil hash equal eq words d)
                  key
                  p
                ≡ true)
      go (found p) e =
          let (inside, hit) =
            scan_found (associations nil hash equal eq words) (elements nil hash equal eq words d)
              (length d.array) p key (omega arith) e in
          (p, inside, scan_for_lem nil hash equal eq words d key (omega arith) ∙ e, e, hit)
      go missing e =
          let (i, inside, free) =
            free_slot (associations nil hash equal eq words) (elements nil hash equal eq words d)
              (length d.array) h in
          absurd (
            scan_room (associations nil hash equal eq words) (elements nil hash equal eq words d)
              (length d.array) i key inside free e)
      go unfinished e = absurd (
          scan_finishes (associations nil hash equal eq words) (elements nil hash equal eq words d)
            (length d.array) key (omega arith) e)

  -- What an association that is added does to what is read.
  pub record Adds (d : HashedCollection) (association : ℕ) (r : HashedCollection) : Type 0 where
    pub valid : IsCounted r
    pub association_is :
        (q : ℕ)
        → association_of r q
          ≡ (if equal (key_of words association) q then some association else association_of d q)

  module _ (d : HashedCollection) (association p : ℕ) (is : IsCounted d) (real : association ≢ nil)
      (inside : p < length d.array)
      (place : scan
          (associations nil hash equal eq words)
          (elements nil hash equal eq words d)
          (length d.array)
          (key_of words association)
        ≡ found p) where
    -- The dictionary with the association in slot `p`.
    abbrev pub written : ℕ → HashedCollection
    written tally = record { tally = tally; array = set d.array p association }

    pub written-IsWrite :
        (tally : ℕ)
        → IsWrite
            (associations nil hash equal eq words)
            (elements nil hash equal eq words d)
            (elements nil hash equal eq words (written tally))
            p
            association
    written-IsWrite tally = record {
      here = get_or-set_self d.array p association nil inside;
      there = λ i other. get_or-set_ne d.array p i association nil (λ e. other (sym e));
    }

    filled : (association == nil) ≡ false
    filled = ne→== association nil real

    pub count-written :
        (tally : ℕ)
        → count_of (written tally) ≡ count_of d + (if get_or d.array p nil == nil then 1 else 0)
    count-written tally =
        ap
          (occupied (associations nil hash equal eq words)
            (elements nil hash equal eq words (written tally)))
          (length-set d.array p association)
        ∙ occupied-write (associations nil hash equal eq words) (elements nil hash equal eq words d)
            (elements nil hash equal eq words (written tally)) (length d.array) p association inside
            filled (written-IsWrite tally)

    pub written-Adds :
        (tally : ℕ)
        → tally ≡ tally_of (count_of (written tally))
        → Adds d association (written tally)
    written-Adds tally e = record {
      valid = record {
        table =
            subst
              (IsTable (associations nil hash equal eq words)
                (elements nil hash equal eq words (written tally)))
              (sym (length-set d.array p association))
              (write-IsTable (associations nil hash equal eq words)
                (elements nil hash equal eq words d)
                (elements nil hash equal eq words (written tally)) (length d.array) p association
                (omega arith) filled place (written-IsWrite tally) is.table);
        counted = e;
      };
      association_is = λ q.
          ap
            (λ n.
              entry (associations nil hash equal eq words)
                (elements nil hash equal eq words (written tally)) n q)
            (length-set d.array p association)
          ∙ entry-write (associations nil hash equal eq words) (elements nil hash equal eq words d)
              (elements nil hash equal eq words (written tally)) (length d.array) p association q
              (omega arith) is.table filled inside place (written-IsWrite tally);
    }

    -- In a free slot the tally goes up by one, and in a slot with the key it stays.
    pub tally_free :
        count_of d + 1 < 2 ^ 60
        → (get_or d.array p nil == nil) ≡ true
        → (count_of (written (increase_tally d.tally)) ≡ count_of d + 1)
          × (increase_tally d.tally ≡ tally_of (count_of (written (increase_tally d.tally))))
    tally_free small free =
        let count : count_of (written (increase_tally d.tally)) ≡ count_of d + 1 =
          rw free at (count-written (increase_tally d.tally)) in
        (
          count,
          ap increase_tally is.counted
              ∙ increase_tally_lem (count_of d) small
              ∙ ap tally_of (sym count),
        )

    pub tally_kept :
        (get_or d.array p nil == nil) ≡ false
        → (count_of (written d.tally) ≡ count_of d)
          × (d.tally ≡ tally_of (count_of (written d.tally)))
    tally_kept full =
        let count : count_of (written d.tally) ≡ count_of d =
          (rw full at (count-written d.tally)) ∙ omega arith in
        (count, is.counted ∙ ap tally_of (sym count))
