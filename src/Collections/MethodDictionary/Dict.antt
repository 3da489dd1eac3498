-- ===== src/Collections/MethodDictionary/Dict.antt =====
-- slvm_MethodDictionary_atPut and _atOrNil refine a finite map.
use slvm_native.Common.{
  ℕ, suc, ◌+◌, ◌^◌, ◌<◌, ◌≡◌, ◌≢◌, inl, inr, sym, ap, ◌∙◌, arith, ◌==◌, if◌then◌else◌, length,
  get_or, set, some, ==→eq, Bool-cases, ◌>>=◌, Returns,
}
use slvm_native.Hashing.Store.{search_all, search_all-zero}
use slvm_native.Hashing.Count.{occupied-le}
use slvm_native.Oop.{ObjectHeader}
use slvm_native.Collections.Full.{grown_size_lem}
use slvm_native.Collections.MethodDictionary.{
  MethodDictionary, new_with_capacity, value_at, at_or_nil, at_put,
}
use slvm_native.Collections.MethodDictionary.Slots.{
  selectors, slots, IsDict, value_or_nil, at_or_nil-entry, positive, scan_for_empty,
}
use slvm_native.Collections.MethodDictionary.Put.{entries, table_entry, scan_place}
use slvm_native.Collections.MethodDictionary.Grow.{
  new-IsDict, entries_new, length-new, new_entry, at_put_room, grow-Grown,
}
use slvm_native.Collections.MethodDictionary.Insert.{
  absent, IsReady, IsPut, entry_empty, insert_at-IsPut, replace-IsPut,
}

module _ (nil : ℕ) (headers : ℕ → ObjectHeader) where
  -- A put into a dictionary with a free slot.
  at_put_open :
      (fuel : ℕ) (d : MethodDictionary) (key value : ℕ)
      → IsDict nil headers d
      → key ≢ nil
      → entries nil headers d < length d.keys
      → length d.keys < 2 ^ 58
      → Returns (at_put nil headers (suc (suc fuel)) d key value) (IsPut nil headers d key value)
  unfolding at_put
  at_put_open fuel d key value is real open' small =
      let (p, inside, scans, place, hit) = scan_place nil headers d key open' in
      elim (Bool-cases (get_or d.keys p nil == nil)) [
        | inl free ↦
            rw (scans, at_put, free)
              (insert_at-IsPut nil headers d key value p is real inside place open' small fuel free)
        | inr full ↦ (
          record d { values = set d.values p value },
          rw (scans, at_put, full),
          replace-IsPut nil headers d key value p is real inside place open' small full
              (==→eq _ _ (ground arith)),
        )
      ]

  -- A put into a dictionary without slots, which grows first.
  at_put_empty :
      (fuel : ℕ) (d : MethodDictionary) (key value : ℕ)
      → IsDict nil headers d
      → key ≢ nil
      → length d.keys ≡ 0
      → Returns (at_put nil headers (suc (suc fuel)) d key value) (IsPut nil headers d key value)
  unfolding at_put
  at_put_empty fuel d key value is real empty =
      let (g, run, big) = grow-Grown nil headers fuel d is (omega arith) in
      let wide = big.width ∙ grown_size_lem (length d.keys) (omega arith) in
      let none' : entries nil headers g ≡ 0 =
        big.count
        ∙ omega
            (arith, occupied-le (selectors nil headers) (slots nil headers d) (length d.keys)) in
      let blank : (q : ℕ) → table_entry nil headers g q ≡ table_entry nil headers d q = λ q.
        big.same q
        ∙ (ap (λ n. search_all (selectors nil headers) (slots nil headers d) n q) empty
            ∙ search_all-zero (selectors nil headers) (slots nil headers d) q)
        ∙ sym (entry_empty nil headers d q empty) in
      let four : length g.keys ≡ 4 = ground arith in
      let (r, run', (puts, width, count)) =
        at_put_room nil headers fuel g key value big.valid real (omega arith)
          (blank key ∙ entry_empty nil headers d key empty) (omega arith) (omega arith) in
      (
        r,
        rw (scan_for_empty nil headers d key empty, at_put, run, ◌>>=◌) run',
        record {
          ready = record { valid = puts.valid; room = inr (omega arith) };
          count = count ∙ (rw (entry_empty nil headers d key empty) (ap (λ t. t + 1) big.count));
          entry_is =
              λ q. puts.entry_is q ∙ ap (λ t. if key == q then some (key, value) else t) (blank q);
        },
      )

  -- `slvm_MethodDictionary_atOrNil` reads the entry of the key.
  at_or_nil_value :
      (d : MethodDictionary) (q : ℕ)
      → IsDict nil headers d
      → at_or_nil nil headers d q ≡ value_or_nil nil headers (table_entry nil headers d q)
  unfolding at_or_nil value_at
  at_or_nil_value d q is = elim (positive (length d.keys)) [
    | inl empty ↦
        rw (scan_for_empty nil headers d q empty, value_at, entry_empty nil headers d q empty)
    | inr wide ↦ at_or_nil-entry nil headers d q is wide
  ]

  put_reads :
      (d r : MethodDictionary) (key value q : ℕ)
      → IsDict nil headers d
      → IsPut nil headers d key value r
      → at_or_nil nil headers r q ≡ (if key == q then value else at_or_nil nil headers d q)
  put_reads d r key value q is put =
      at_or_nil_value r q put.ready.valid
      ∙ ap (value_or_nil nil headers) (put.entry_is q)
      ∙ elim (Bool-cases (key == q)) [
        | inl hit ↦ rw hit
        | inr miss ↦ rw miss (sym (at_or_nil_value d q is))
      ]

  -- A method dictionary as the program leaves it between calls, of any capacity below 2 ^ 58,
  -- takes every key but nil: two levels of calls are enough fuel, the put returns, later lookups
  -- give the new value under the key and the old one under every other key, the number of entries
  -- goes up by one exactly for a new key, and the dictionary is ready for the next call.
  pub at_or_nil-at_put :
      (fuel : ℕ) (d : MethodDictionary) (key value : ℕ)
      → IsReady nil headers d
      → key ≢ nil
      → length d.keys < 2 ^ 58
      → Returns (at_put nil headers (suc (suc fuel)) d key value) λ r.
        IsReady nil headers r
        × ((q : ℕ)
            → at_or_nil nil headers r q ≡ (if key == q then value else at_or_nil nil headers d q))
        × (entries nil headers r ≡ entries nil headers d + absent (table_entry nil headers d key))
  at_or_nil-at_put fuel d key value ready real small =
      let (r, run, put) : Returns (at_put nil headers (suc (suc fuel)) d key value)
          (IsPut nil headers d key value) =
        elim ready.room [
          | inl empty ↦ at_put_empty fuel d key value ready.valid real empty
          | inr open' ↦ at_put_open fuel d key value ready.valid real open' small
        ] in
      (r, run, (put.ready, λ q. put_reads d r key value q ready.valid put, put.count))

  -- A new dictionary is ready, whatever its capacity, and gives nil for every key.
  pub new-IsReady :
      (n : ℕ)
      → IsReady nil headers (new_with_capacity nil headers n)
        × ((q : ℕ) → at_or_nil nil headers (new_with_capacity nil headers n) q ≡ nil)
  new-IsReady n = (
    record {
      valid = new-IsDict nil headers n;
      room = elim (positive n) [
        | inl empty ↦ inl (length-new nil headers n ∙ empty)
        | inr wide ↦ inr (omega (arith, entries_new nil headers n, length-new nil headers n))
      ];
    },
    λ q.
        at_or_nil_value (new_with_capacity nil headers n) q (new-IsDict nil headers n)
        ∙ ap (value_or_nil nil headers) (elim (positive n) [
          | inl empty ↦
              entry_empty nil headers (new_with_capacity nil headers n) q
                (length-new nil headers n ∙ empty)
          | inr wide ↦ new_entry nil headers n q wide
        ]),
  )
