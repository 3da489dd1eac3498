-- ===== src/Collections/MethodDictionary/Grow.antt =====
-- Growing a method dictionary: the old entries go into new, larger arrays, where no insertion
-- grows again, and every key leads to the value that it led to.
use slvm_native.Common.{
  ℕ, zero, suc, ◌+◌, ◌/◌, ◌^◌, ◌≤◌, ◌<◌, ◌≡◌, ◌≢◌, inl, inr, refl, sym, ap, subst, ◌∙◌, true, false,
  arith, ◌==◌, length, get_or, replicate, length-set, length-replicate, get_or-replicate, none,
  ==→ne, ==_refl, Bool-cases, ◌>>=◌, Returns,
}
use slvm_native.Hashing.Table.{IsTable}
use slvm_native.Hashing.Store.{
  search_all, search_all-suc, search_all-zero, entry_vacant, earlier_none,
}
use slvm_native.Hashing.Count.{occupied, occupied-le, occupied-none, occupied-zero, occupied-suc}
use slvm_native.Oop.{ObjectHeader}
use slvm_native.Collections.Full.{
  tally_of, increase_tally, full_condition, not_full, grown_size, grown_size_lem,
}
use slvm_native.Collections.MethodDictionary.{
  MethodDictionary, new_with_capacity, insert_at, reinsert, grow, at_put,
}
use slvm_native.Collections.MethodDictionary.Slots.{selectors, slots, IsDict}
use slvm_native.Collections.MethodDictionary.Put.{
  entries, table_entry, scan_place, Puts, written, written-Puts, tally_free,
}

module _ (nil : ℕ) (headers : ℕ → ObjectHeader) where
  -- A new dictionary of any capacity is well formed and empty.
  pub new-IsDict : (n : ℕ) → IsDict nil headers (new_with_capacity nil headers n)
  unfolding new_with_capacity
  new-IsDict n = record {
    paired = refl;
    table = λ i h full. absurd (==→ne _ _ full (get_or-replicate n i nil));
    clear = λ i e. get_or-replicate n i nil;
    counted = ap tally_of (
        sym (
          occupied-none (selectors nil headers) _ (length (replicate n nil))
            (λ i. rw (get_or-replicate n i nil) (==_refl nil))));
  }

  pub entries_new : (n : ℕ) → entries nil headers (new_with_capacity nil headers n) ≡ 0
  unfolding new_with_capacity
  entries_new n =
      occupied-none (selectors nil headers) _ (length (replicate n nil))
        (λ i. rw (get_or-replicate n i nil) (==_refl nil))

  pub length-new : (n : ℕ) → length (new_with_capacity nil headers n).keys ≡ n
  unfolding new_with_capacity
  length-new n = length-replicate n nil

  pub new_entry :
      (n q : ℕ) → 0 < n → table_entry nil headers (new_with_capacity nil headers n) q ≡ none
  unfolding new_with_capacity
  new_entry n q h =
      entry_vacant (selectors nil headers) _ (length (replicate n nil)) q
        (rw (length-replicate n nil) h) (λ i. rw (get_or-replicate n i nil) (==_refl nil))

  -- A put of a new key, where there is room for it.
  pub at_put_room :
      (fuel : ℕ) (d : MethodDictionary) (key value : ℕ)
      → IsDict nil headers d
      → key ≢ nil
      → length d.keys < 2 ^ 60
      → table_entry nil headers d key ≡ none
      → 4 ≤ length d.keys
      → length d.keys / 4 + entries nil headers d + 1 ≤ length d.keys
      → Returns (at_put nil headers (suc fuel) d key value) λ r.
        Puts nil headers d key value r
        × (length r.keys ≡ length d.keys)
        × (entries nil headers r ≡ entries nil headers d + 1)
  unfolding at_put insert_at
  at_put_room fuel d key value is real small fresh wide room =
      let (p, inside, scans, place, hit) = scan_place nil headers d key (omega arith) in
      let free : (get_or d.keys p nil == nil) ≡ true =
        elim (Bool-cases (get_or d.keys p nil == nil)) [
          | inl yes' ↦ yes'
          | inr full ↦ absurd (cc (rw (place, full) at fresh))
        ] in
      let (count, tally) =
        tally_free nil headers d key value p is real inside place (omega arith) free in
      let not_full : full_condition (length d.keys) (increase_tally d.tally) ≡ false =
        not_full (length d.keys) (entries nil headers d + 1) (increase_tally d.tally)
          (tally ∙ ap tally_of count) wide (omega arith) small in
      (
        written nil headers d key value p is real inside place (increase_tally d.tally),
        rw (scans, at_put, free, not_full),
        (
          written-Puts nil headers d key value p is real inside place (increase_tally d.tally)
              tally,
          length-set d.keys p key,
          count,
        ),
      )

  -- The state of the loop of `grow` before round `i`: the new dictionary holds the entries of the
  -- first `i` old slots.
  record Moved (old : ℕ → ℕ × ℕ) (i m : ℕ) (d : MethodDictionary) : Type 0 where
    valid : IsDict nil headers d
    width : length d.keys ≡ m
    count : entries nil headers d ≡ occupied (selectors nil headers) old i
    same : (q : ℕ) → table_entry nil headers d q ≡ search_all (selectors nil headers) old i q

  -- One round over a free slot, and one over an entry.
  Moved-free :
      (old : ℕ → ℕ × ℕ) (i m : ℕ) (d : MethodDictionary)
      → ((old i).0 == nil) ≡ true
      → Moved old i m d
      → Moved old (suc i) m d
  Moved-free old i m d free v = record {
    valid = v.valid;
    width = v.width;
    count = v.count ∙ rw (occupied-suc (selectors nil headers) old i, free) (omega arith);
    same = λ q. v.same q ∙ rw (search_all-suc (selectors nil headers) old i q, free) refl;
  }

  Moved-entry :
      (old : ℕ → ℕ × ℕ) (i m : ℕ) (d r : MethodDictionary)
      → ((old i).0 == nil) ≡ false
      → Moved old i m d
      → Puts nil headers d (old i).0 (old i).1 r
      → length r.keys ≡ length d.keys
      → entries nil headers r ≡ entries nil headers d + 1
      → Moved old (suc i) m r
  Moved-entry old i m d r full v puts width count = record {
    valid = puts.valid;
    width = width ∙ v.width;
    count = rw (occupied-suc (selectors nil headers) old i, full, count, v.count) refl;
    same = λ q.
        puts.entry_is q ∙ rw (search_all-suc (selectors nil headers) old i q, full, v.same q) refl;
  }

  -- All rounds of the loop, when the new arrays are wide enough for the old entries.
  reinsert-Moved :
      (fuel : ℕ) (o : MethodDictionary) (m rounds i : ℕ) (d : MethodDictionary)
      → IsTable (selectors nil headers) (slots nil headers o) (length o.keys)
      → 4 ≤ m
      → m / 4 + length o.keys ≤ m
      → m < 2 ^ 60
      → i + rounds ≡ length o.keys
      → Moved (slots nil headers o) i m d
      → Returns
          (reinsert nil headers (at_put nil headers (suc fuel)) o.keys o.values rounds i d)
          (Moved (slots nil headers o) (length o.keys) m)
  unfolding reinsert
  reinsert-Moved fuel o m zero i d is wide room small e v =
      let done : i ≡ length o.keys = omega arith in
      (d, refl, subst (λ t. Moved (slots nil headers o) t m d) done v)
  reinsert-Moved fuel o m (suc rounds) i d is wide room small e v =
      elim (Bool-cases (get_or o.keys i nil == nil)) [
        | inl free ↦
            let v' = Moved-free (slots nil headers o) i m d free v in
            rw (free, ◌>>=◌)
              (reinsert-Moved fuel o m rounds (i + 1) d is wide room small (omega arith)
                (subst (λ t. Moved (slots nil headers o) t m d) (omega arith) v'))
        | inr full ↦
            let inside : i < length o.keys = omega arith in
            let used = occupied-le (selectors nil headers) (slots nil headers o) i in
            let fresh =
              v.same (get_or o.keys i nil)
              ∙ earlier_none (selectors nil headers) (slots nil headers o) (length o.keys) i is
                  inside full in
            let (r, run, (puts, width, count)) =
              at_put_room fuel d (get_or o.keys i nil) (get_or o.values i nil) v.valid
                (==→ne _ _ full) (rw v.width small) fresh (rw v.width wide) (omega arith) in
            let v' = Moved-entry (slots nil headers o) i m d r full v puts width count in
            rw (full, run, ◌>>=◌)
              (reinsert-Moved fuel o m rounds (i + 1) r is wide room small (omega arith)
                (subst (λ t. Moved (slots nil headers o) t m r) (omega arith) v'))
      ]

  -- What growing keeps and what it gives.
  pub record Grown (o d : MethodDictionary) : Type 0 where
    pub valid : IsDict nil headers d
    pub width : length d.keys ≡ grown_size (length o.keys)
    pub count : entries nil headers d ≡ entries nil headers o
    pub same :
        (q : ℕ)
        → table_entry nil headers d q
          ≡ search_all (selectors nil headers) (slots nil headers o) (length o.keys) q

  -- Growing a well-formed dictionary of fewer than 2 ^ 58 slots returns: the new arrays have the
  -- grown size, the entries are as many, and every key leads to the entry that a search of the old
  -- arrays finds.
  pub grow-Grown :
      (fuel : ℕ) (o : MethodDictionary)
      → IsDict nil headers o
      → length o.keys < 2 ^ 58
      → Returns (grow nil headers (at_put nil headers (suc fuel)) o) (Grown o)
  unfolding grow
  grow-Grown fuel o is small =
      let size = grown_size_lem (length o.keys) (omega arith) in
      let start : MethodDictionary = new_with_capacity nil headers (grown_size (length o.keys)) in
      let (d, run, v) =
        reinsert-Moved fuel o (grown_size (length o.keys)) (length o.keys) 0 start is.table
          (ground arith) (ground arith) (ground arith) (omega arith)
          (record {
            valid = new-IsDict (grown_size (length o.keys));
            width = length-new (grown_size (length o.keys));
            count =
                entries_new (grown_size (length o.keys))
                ∙ sym (occupied-zero (selectors nil headers) (slots nil headers o));
            same = λ q.
                new_entry (grown_size (length o.keys)) q (ground arith)
                ∙ sym (search_all-zero (selectors nil headers) (slots nil headers o) q);
          }) in
      (d, run, record { valid = v.valid; width = v.width; count = v.count; same = v.same })
