-- ===== src/Collections/Dictionary/Growing.antt =====
-- Growing a dictionary of associations: the old associations go into a larger array, where no
-- insertion grows again.
use slvm_native.Common.{
  ℕ, zero, suc, ◌+◌, ◌/◌, ◌^◌, ◌≤◌, ◌<◌, ◌≡◌, ◌≢◌, inl, inr, refl, sym, ap, subst, ◌∙◌, Bool, true,
  false, arith, ◌==◌, length, get_or, replicate, length-set, length-replicate, get_or-replicate,
  none, ==→ne, ne→==, ==_refl, Bool-cases, ◌>>=◌, Returns,
}
use slvm_native.Hashing.Table.{IsTable}
use slvm_native.Hashing.Store.{
  search_all, search_all-suc, search_all-zero, entry_vacant, earlier_none,
}
use slvm_native.Hashing.Count.{occupied, occupied-le, occupied-none, occupied-zero, occupied-suc}
use slvm_native.Collections.Full.{
  tally_of, increase_tally, full_condition, not_full, grown_size, grown_size_lem,
}
use slvm_native.Collections.Dictionary.{
  HashedCollection, key_of, new_with_capacity, insert_association, reinsert, grow, add_association,
}
use slvm_native.Collections.Dictionary.Reading.{IsEquality, associations, elements}
use slvm_native.Collections.Dictionary.Writing.{
  count_of, association_of, IsCounted, scan_place, Adds, written, written-Adds, tally_free,
}

module _ (nil : ℕ) (hash : ℕ → ℕ) (equal : ℕ → ℕ → Bool) (eq : IsEquality hash equal)
    (words : ℕ → ℕ) where
  -- A new dictionary of any capacity is empty.
  pub new-IsCounted :
      (n : ℕ) → IsCounted nil hash equal eq words (new_with_capacity nil hash equal n)
  unfolding new_with_capacity
  new-IsCounted n = record {
    table = λ i h full. absurd (==→ne _ _ full (get_or-replicate n i nil));
    counted = ap tally_of (
        sym (
          occupied-none (associations nil hash equal eq words) _ (length (replicate n nil))
            (λ i. rw (get_or-replicate n i nil) (==_refl nil))));
  }

  pub count_new :
      (n : ℕ) → count_of nil hash equal eq words (new_with_capacity nil hash equal n) ≡ 0
  unfolding new_with_capacity
  count_new n =
      occupied-none (associations nil hash equal eq words) _ (length (replicate n nil))
        (λ i. rw (get_or-replicate n i nil) (==_refl nil))

  pub length-new : (n : ℕ) → length (new_with_capacity nil hash equal n).array ≡ n
  unfolding new_with_capacity
  length-new n = length-replicate n nil

  pub new_association :
      (n q : ℕ)
      → 0 < n
      → association_of nil hash equal eq words (new_with_capacity nil hash equal n) q ≡ none
  unfolding new_with_capacity
  new_association n q h =
      entry_vacant (associations nil hash equal eq words) _ (length (replicate n nil)) q
        (rw (length-replicate n nil) h) (λ i. rw (get_or-replicate n i nil) (==_refl nil))

  -- An association with a new key, where there is room for it.
  pub add_association_room :
      (fuel : ℕ) (d : HashedCollection) (association : ℕ)
      → IsCounted nil hash equal eq words d
      → association ≢ nil
      → length d.array < 2 ^ 60
      → association_of nil hash equal eq words d (key_of words association) ≡ none
      → 4 ≤ length d.array
      → length d.array / 4 + count_of nil hash equal eq words d + 1 ≤ length d.array
      → Returns (add_association nil hash equal (suc fuel) words d association) λ r.
        Adds nil hash equal eq words d association r
        × (length r.array ≡ length d.array)
        × (count_of nil hash equal eq words r ≡ count_of nil hash equal eq words d + 1)
  unfolding add_association insert_association
  add_association_room fuel d association is real small fresh wide room =
      let (p, inside, scans, place, hit) =
        scan_place nil hash equal eq words d (key_of words association) (omega arith) in
      let free : (get_or d.array p nil == nil) ≡ true =
        elim (Bool-cases (get_or d.array p nil == nil)) [
          | inl yes' ↦ yes'
          | inr full ↦ absurd (cc (rw (place, full) at fresh))
        ] in
      let (count, tally) =
        tally_free nil hash equal eq words d association p is real inside place (omega arith)
          free in
      let open' : full_condition (length d.array) (increase_tally d.tally) ≡ false =
        not_full (length d.array) (count_of nil hash equal eq words d + 1) (increase_tally d.tally)
          (tally ∙ ap tally_of count) wide (omega arith) small in
      (
        written nil hash equal eq words d association p is real inside place
            (increase_tally d.tally),
        rw (ne→== association nil real, scans, add_association, free, open'),
        (
          written-Adds nil hash equal eq words d association p is real inside place
              (increase_tally d.tally) tally,
          length-set d.array p association,
          count,
        ),
      )

  -- The state of the loop of `grow` before round `i`: the new dictionary holds the associations of
  -- the first `i` old slots.
  record Moved (old : ℕ → ℕ) (i m : ℕ) (d : HashedCollection) : Type 0 where
    valid : IsCounted nil hash equal eq words d
    width : length d.array ≡ m
    count :
        count_of nil hash equal eq words d ≡ occupied (associations nil hash equal eq words) old i
    same :
        (q : ℕ)
        → association_of nil hash equal eq words d q
          ≡ search_all (associations nil hash equal eq words) old i q

  -- One round over a free slot, and one over an association.
  Moved-free :
      (old : ℕ → ℕ) (i m : ℕ) (d : HashedCollection)
      → (old i == nil) ≡ true
      → Moved old i m d
      → Moved old (suc i) m d
  Moved-free old i m d free v = record {
    valid = v.valid;
    width = v.width;
    count =
        v.count
        ∙ rw (occupied-suc (associations nil hash equal eq words) old i, free) (omega arith);
    same = λ q.
        v.same q ∙ rw (search_all-suc (associations nil hash equal eq words) old i q, free) refl;
  }

  Moved-association :
      (old : ℕ → ℕ) (i m : ℕ) (d r : HashedCollection)
      → (old i == nil) ≡ false
      → Moved old i m d
      → Adds nil hash equal eq words d (old i) r
      → length r.array ≡ length d.array
      → count_of nil hash equal eq words r ≡ count_of nil hash equal eq words d + 1
      → Moved old (suc i) m r
  Moved-association old i m d r full v adds width count = record {
    valid = adds.valid;
    width = width ∙ v.width;
    count =
        rw (occupied-suc (associations nil hash equal eq words) old i, full, count, v.count) refl;
    same = λ q.
        adds.association_is q
        ∙ rw (search_all-suc (associations nil hash equal eq words) old i q, full, v.same q) refl;
  }

  -- All rounds of the loop, when the new array is wide enough.
  reinsert-Moved :
      (fuel : ℕ) (o : HashedCollection) (m rounds i : ℕ) (d : HashedCollection)
      → IsTable
          (associations nil hash equal eq words)
          (elements nil hash equal eq words o)
          (length o.array)
      → 4 ≤ m
      → m / 4 + length o.array ≤ m
      → m < 2 ^ 60
      → i + rounds ≡ length o.array
      → Moved (elements nil hash equal eq words o) i m d
      → Returns
          (reinsert nil hash equal
            (add_association nil hash equal (suc fuel) words)
            o.array
            rounds
            i
            d)
          (Moved (elements nil hash equal eq words o) (length o.array) m)
  unfolding reinsert
  reinsert-Moved fuel o m zero i d is wide room small e v =
      let done : i ≡ length o.array = omega arith in
      (d, refl, subst (λ t. Moved (elements nil hash equal eq words o) t m d) done v)
  reinsert-Moved fuel o m (suc rounds) i d is wide room small e v =
      elim (Bool-cases (get_or o.array i nil == nil)) [
        | inl free ↦
            let v' = Moved-free (elements nil hash equal eq words o) i m d free v in
            rw (free, ◌>>=◌)
              (reinsert-Moved fuel o m rounds (i + 1) d is wide room small (omega arith)
                (subst (λ t. Moved (elements nil hash equal eq words o) t m d) (omega arith) v'))
        | inr full ↦
            let inside : i < length o.array = omega arith in
            let used =
              occupied-le (associations nil hash equal eq words)
                (elements nil hash equal eq words o) i in
            let fresh =
              v.same (key_of words (get_or o.array i nil))
              ∙ earlier_none (associations nil hash equal eq words)
                  (elements nil hash equal eq words o) (length o.array) i is inside full in
            let (r, run, (adds, width, count)) =
              add_association_room fuel d (get_or o.array i nil) v.valid (==→ne _ _ full)
                (rw v.width small) fresh (rw v.width wide) (omega arith) in
            let v' =
              Moved-association (elements nil hash equal eq words o) i m d r full v adds width
                count in
            rw (full, run, ◌>>=◌)
              (reinsert-Moved fuel o m rounds (i + 1) r is wide room small (omega arith)
                (subst (λ t. Moved (elements nil hash equal eq words o) t m r) (omega arith) v'))
      ]

  -- What growing keeps and what it gives.
  pub record Enlarged (o d : HashedCollection) : Type 0 where
    pub valid : IsCounted nil hash equal eq words d
    pub width : length d.array ≡ grown_size (length o.array)
    pub count : count_of nil hash equal eq words d ≡ count_of nil hash equal eq words o
    pub same :
        (q : ℕ)
        → association_of nil hash equal eq words d q
          ≡ search_all
              (associations nil hash equal eq words)
              (elements nil hash equal eq words o)
              (length o.array)
              q

  -- Growing returns a dictionary of the grown size with the same associations.
  pub grow-Enlarged :
      (fuel : ℕ) (o : HashedCollection)
      → IsCounted nil hash equal eq words o
      → length o.array < 2 ^ 58
      → Returns
          (grow nil hash equal (add_association nil hash equal (suc fuel) words) o)
          (Enlarged o)
  unfolding grow
  grow-Enlarged fuel o is small =
      let size = grown_size_lem (length o.array) (omega arith) in
      let start : HashedCollection =
        new_with_capacity nil hash equal (grown_size (length o.array)) in
      let (d, run, v) =
        reinsert-Moved fuel o (grown_size (length o.array)) (length o.array) 0 start is.table
          (ground arith) (ground arith) (ground arith) (omega arith)
          (record {
            valid = new-IsCounted (grown_size (length o.array));
            width = length-new (grown_size (length o.array));
            count =
                count_new (grown_size (length o.array))
                ∙ sym (
                    occupied-zero (associations nil hash equal eq words)
                      (elements nil hash equal eq words o));
            same = λ q.
                new_association (grown_size (length o.array)) q (ground arith)
                ∙ sym (
                    search_all-zero (associations nil hash equal eq words)
                      (elements nil hash equal eq words o) q);
          }) in
      (d, run, record { valid = v.valid; width = v.width; count = v.count; same = v.same })
