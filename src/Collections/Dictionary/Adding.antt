-- ===== src/Collections/Dictionary/Adding.antt =====
-- slvm_Dictionary_addAssociation and slvm_IdentityDictionary_addAssociation refine a finite map.
use slvm_native.Common.{
  ℕ, suc, ◌+◌, ◌^◌, ◌<◌, ◌≡◌, ◌≢◌, inl, inr, sym, ap, ◌∙◌, Bool, true, false, arith, ◌==◌,
  if◌then◌else◌, length, get_or, set, length-set, Option, none, some, Bool-cases, Returns, ne→==,
}
use slvm_native.Hashing.{found}
use slvm_native.Hashing.Table.{scan}
use slvm_native.Hashing.Store.{entry-search_all}
use slvm_native.Hashing.Count.{occupied-le}
use slvm_native.Collections.Full.{
  tally_of, increase_tally, full_condition, room_left, grown_size_lem,
}
use slvm_native.Collections.Dictionary.{
  HashedCollection, key_of, insert_association, add_association,
}
use slvm_native.Collections.Dictionary.Reading.{IsEquality, associations, elements, search}
use slvm_native.Collections.Dictionary.Writing.{
  count_of, association_of, IsCounted, scan_place, Adds, written, written-Adds, tally_free,
  tally_kept,
}
use slvm_native.Collections.Dictionary.Growing.{Enlarged, grow-Enlarged}

-- 1 for a key that is new.
abbrev pub absent_association : Option ℕ → ℕ
absent_association none = 1
absent_association (some e) = 0

module _ (nil : ℕ) (hash : ℕ → ℕ) (equal : ℕ → ℕ → Bool) (eq : IsEquality hash equal)
    (words : ℕ → ℕ) where
  -- A dictionary as the program leaves it between calls.
  pub record IsOpen (d : HashedCollection) : Type 0 where
    pub valid : IsCounted nil hash equal eq words d
    pub room : count_of nil hash equal eq words d < length d.array

  -- The outcome of an addition, in terms of a search of the whole array.
  pub record IsAdded (d : HashedCollection) (association : ℕ) (r : HashedCollection) : Type 0 where
    pub ready : IsOpen r
    pub count :
        count_of nil hash equal eq words r
        ≡ count_of nil hash equal eq words d
          + absent_association (search nil hash equal eq words d (key_of words association))
    pub reads :
        (q : ℕ)
        → search nil hash equal eq words r q ≡ (
            if equal (key_of words association) q
            then some association
            else search nil hash equal eq words d q)

  pub association_search :
      (d : HashedCollection) (q : ℕ)
      → IsCounted nil hash equal eq words d
      → 0 < length d.array
      → association_of nil hash equal eq words d q ≡ search nil hash equal eq words d q
  unfolding search
  association_search d q is wide =
      entry-search_all (associations nil hash equal eq words) (elements nil hash equal eq words d)
        (length d.array) q wide is.table

  Adds-IsAdded :
      (d w : HashedCollection) (association : ℕ)
      → IsOpen d
      → Adds nil hash equal eq words d association w
      → count_of nil hash equal eq words w < length w.array
      → count_of nil hash equal eq words w
        ≡ count_of nil hash equal eq words d
          + absent_association (association_of nil hash equal eq words d (key_of words association))
      → IsAdded d association w
  Adds-IsAdded d w association is adds room count =
      let old = λ (q : ℕ). association_search d q is.valid (omega (arith, is.room)) in
      record {
        ready = record { valid = adds.valid; room = room };
        count =
            count
            ∙ ap (λ o. count_of nil hash equal eq words d + absent_association o)
                (old (key_of words association));
        reads = λ q.
            sym (association_search w q adds.valid (omega arith))
            ∙ adds.association_is q
            ∙ ap (λ o. if equal (key_of words association) q then some association else o) (old q);
      }

  -- Growing behind an insertion.
  Enlarged-IsAdded :
      (d w g : HashedCollection) (association : ℕ)
      → IsOpen d
      → Adds nil hash equal eq words d association w
      → 0 < length w.array
      → length w.array < 2 ^ 58
      → count_of nil hash equal eq words w
        ≡ count_of nil hash equal eq words d
          + absent_association (association_of nil hash equal eq words d (key_of words association))
      → Enlarged nil hash equal eq words w g
      → IsAdded d association g
  Enlarged-IsAdded d w g association is adds wide small count big =
      Adds-IsAdded d g association is
        (record {
          valid = big.valid;
          association_is = λ q.
              big.same q
              ∙ sym (
                  entry-search_all (associations nil hash equal eq words)
                    (elements nil hash equal eq words w) (length w.array) q wide adds.valid.table)
              ∙ adds.association_is q;
        })
        (ground (
          arith,
          big.width,
          big.count,
          grown_size_lem (length w.array),
          occupied-le (associations nil hash equal eq words) (elements nil hash equal eq words w)
              (length w.array),
        ))
        (big.count ∙ count)

  module _ (d : HashedCollection) (association p : ℕ) (is : IsOpen d) (real : association ≢ nil)
      (inside : p < length d.array)
      (place : scan
          (associations nil hash equal eq words)
          (elements nil hash equal eq words d)
          (length d.array)
          (key_of words association)
        ≡ found p)
      (small : length d.array < 2 ^ 58) where
    -- A new key, and the growth that may follow.
    pub insert_association-IsAdded :
        (fuel : ℕ)
        → (get_or d.array p nil == nil) ≡ true
        → Returns
            (insert_association nil hash equal
              (add_association nil hash equal (suc fuel) words)
              d
              p
              association)
            (IsAdded d association)
    unfolding insert_association
    insert_association-IsAdded fuel free =
        let (count, tally) =
          tally_free nil hash equal eq words d association p is.valid real inside place
            (omega (arith, is.room)) free in
        let w =
          written nil hash equal eq words d association p is.valid real inside place
            (increase_tally d.tally) in
        let adds =
          written-Adds nil hash equal eq words d association p is.valid real inside place
            (increase_tally d.tally) tally in
        let count' : count_of nil hash equal eq words w
            ≡ count_of nil hash equal eq words d
              + absent_association
                  (association_of nil hash equal eq words d (key_of words association)) =
          rw (place, free) count in
        let same = length-set d.array p association in
        elim (Bool-cases (full_condition (length d.array) (increase_tally d.tally))) [
          | inl full ↦
              let (g, run, big) =
                grow-Enlarged nil hash equal eq words fuel w adds.valid (rw same small) in
              (
                g,
                rw full run,
                Enlarged-IsAdded d w g association is adds (rw same (omega arith)) (rw same small)
                    count' big,
              )
          | inr not' ↦
              let (wide, room) =
                room_left (length d.array) (count_of nil hash equal eq words d + 1)
                  (increase_tally d.tally) (tally ∙ ap tally_of count) (omega (arith, is.room))
                  (omega arith) not' in
              (w, rw not', Adds-IsAdded d w association is adds (omega (arith, same, count)) count')
        ]

    -- A key that is there.
    replace-IsAdded :
        (get_or d.array p nil == nil) ≡ false
        → IsAdded d association (record d { array = set d.array p association })
    replace-IsAdded full =
        let (count, tally) =
          tally_kept nil hash equal eq words d association p is.valid real inside place full in
        let adds =
          written-Adds nil hash equal eq words d association p is.valid real inside place d.tally
            tally in
        Adds-IsAdded d _ association is adds
          (omega (arith, length-set d.array p association, count, is.room))
          (rw (place, full) (count ∙ omega arith))

  -- A dictionary with a free slot and fewer than 2 ^ 58 slots, whatever equivalence it compares keys
  -- by, takes every association but nil: two levels of calls are enough fuel, the addition returns,
  -- a search of all slots then finds the association under the keys that are equal to its own, and
  -- what it found before under every other key, the tally counts one more exactly for a new key,
  -- and a slot is free again.
  pub add_association-IsAdded :
      (fuel : ℕ) (d : HashedCollection) (association : ℕ)
      → IsOpen d
      → association ≢ nil
      → length d.array < 2 ^ 58
      → Returns
          (add_association nil hash equal (suc (suc fuel)) words d association)
          (IsAdded d association)
  unfolding add_association
  add_association-IsAdded fuel d association is real small =
      let (p, inside, scans, place, hit) =
        scan_place nil hash equal eq words d (key_of words association) is.room in
      elim (Bool-cases (get_or d.array p nil == nil)) [
        | inl free ↦
            rw (ne→== association nil real, scans, add_association, free)
              (insert_association-IsAdded d association p is real inside place small fuel free)
        | inr full ↦ (
          record d { array = set d.array p association },
          rw (ne→== association nil real, scans, add_association, full),
          replace-IsAdded d association p is real inside place small full,
        )
      ]
