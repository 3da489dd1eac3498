-- ===== src/Collections/Dictionary/Elsewhere.antt =====
-- A dictionary in two states of the memory that agree on its associations.
use mathlib.Core.Path.{fun_ext}
use slvm_native.Common.{
  ℕ, zero, suc, ◌+◌, ◌%◌, ◌≡◌, ◌≢◌, inl, inr, refl, sym, ap, ◌∙◌, Bool, not, ◌&&◌, ◌||◌, arith,
  ◌==◌, if◌then◌else◌, length, get_or, some, ok, ==→ne, Bool-cases,
}
use slvm_native.Hashing.{probe}
use slvm_native.Hashing.Table.{scan, stops}
use slvm_native.Hashing.Store.{search_all}
use slvm_native.Hashing.Count.{occupied, free_slot}
use slvm_native.Collections.Dictionary.{HashedCollection, key_of, value_of_association, at_or_nil}
use slvm_native.Collections.Dictionary.Reading.{
  IsEquality, associations, elements, search, IsDictionary, at_or_nil-search,
  value_or_nil_association,
}
use slvm_native.Collections.Dictionary.Adding.{IsOpen}
use slvm_native.Collections.Full.{tally_of}
use slvm_native.Hashing.Store.{search_all_cases}

-- A dictionary with a free slot is one where no lookup fails.
pub IsOpen-IsDictionary :
    (nil : ℕ) (hash : ℕ → ℕ) (equal : ℕ → ℕ → Bool) (eq : IsEquality hash equal) (words : ℕ → ℕ)
    (d : HashedCollection)
    → IsOpen nil hash equal eq words d
    → IsDictionary nil hash equal eq words d
IsOpen-IsDictionary nil hash equal eq words d is =
    let (i, inside, free) =
      free_slot (associations nil hash equal eq words) (elements nil hash equal eq words d)
        (length d.array) is.room in
    record { table = is.valid.table; free = i; free_inside = inside; free_is = ground arith }

module _ (nil : ℕ) (equal : ℕ → ℕ → Bool) (hash hash' : ℕ → ℕ) (eq : IsEquality hash equal)
    (eq' : IsEquality hash' equal) (words words' : ℕ → ℕ) (d : HashedCollection) where
  -- The associations have the same keys, the keys the same hashes, and the associations the same
  -- values.
  pub record Agrees : Type 0 where
    pub keys :
        (i : ℕ)
        → get_or d.array i nil ≢ nil
        → key_of words' (get_or d.array i nil) ≡ key_of words (get_or d.array i nil)
    pub hashes :
        (i : ℕ)
        → get_or d.array i nil ≢ nil
        → hash' (key_of words (get_or d.array i nil)) ≡ hash (key_of words (get_or d.array i nil))
    pub values :
        (i : ℕ)
        → get_or d.array i nil ≢ nil
        → value_of_association words' (get_or d.array i nil)
          ≡ value_of_association words (get_or d.array i nil)

  module _ (a : Agrees) where
    stops_same :
        (k i : ℕ)
        → stops
            (associations nil hash' equal eq' words')
            (elements nil hash' equal eq' words' d)
            k
            i
          ≡ stops (associations nil hash equal eq words) (elements nil hash equal eq words d) k i
    stops_same k i = elim (Bool-cases (get_or d.array i nil == nil)) [
      | inl free ↦ rw free refl
      | inr full ↦ ap (λ x. (get_or d.array i nil == nil) || equal x k) (a.keys i (==→ne _ _ full))
    ]

    -- A scan for a key with the same hash.
    pub scan_same_hash :
        (k : ℕ)
        → hash' k ≡ hash k
        → scan
            (associations nil hash' equal eq' words')
            (elements nil hash' equal eq' words' d)
            (length d.array)
            k
          ≡ scan
              (associations nil hash equal eq words)
              (elements nil hash equal eq words d)
              (length d.array)
              k
    scan_same_hash k h =
        ap
          (λ x.
            probe
              (stops (associations nil hash' equal eq' words')
                (elements nil hash' equal eq' words' d) k)
              (length d.array) (x % length d.array) (length d.array) (x % length d.array))
          h
        ∙ ap
            (λ f.
              probe f (length d.array) (hash k % length d.array) (length d.array)
                (hash k % length d.array))
            (fun_ext λ i. stops_same k i)

    search_all_same :
        (m k : ℕ)
        → search_all
            (associations nil hash' equal eq' words')
            (elements nil hash' equal eq' words' d)
            m
            k
          ≡ search_all
              (associations nil hash equal eq words)
              (elements nil hash equal eq words d)
              m
              k
    unfolding search_all
    search_all_same zero k = refl
    search_all_same (suc m) k = elim (Bool-cases (get_or d.array m nil == nil)) [
      | inl free ↦ rw free (search_all_same m k)
      | inr full ↦
          ap
            (λ x.
              if not (get_or d.array m nil == nil) && equal x k
              then some (get_or d.array m nil)
              else search_all (associations nil hash' equal eq' words')
                  (elements nil hash' equal eq' words' d) m k)
            (a.keys m (==→ne _ _ full))
          ∙ ap
              (λ o.
                if not (get_or d.array m nil == nil)
                  && equal (key_of words (get_or d.array m nil)) k
                then some (get_or d.array m nil)
                else o)
              (search_all_same m k)
    ]

    occupied_same :
        (m : ℕ)
        → occupied
            (associations nil hash' equal eq' words')
            (elements nil hash' equal eq' words' d)
            m
          ≡ occupied (associations nil hash equal eq words) (elements nil hash equal eq words d) m
    unfolding occupied
    occupied_same zero = refl
    occupied_same (suc m) =
        ap (λ n. n + (if get_or d.array m nil == nil then 0 else 1)) (occupied_same m)

    -- The dictionary is open in the one state if it is in the other, and a search finds the same.
    pub IsOpen-agreed : IsOpen nil hash equal eq words d → IsOpen nil hash' equal eq' words' d
    IsOpen-agreed is = record {
      valid = record {
        table = λ i h full.
            let real = ==→ne _ _ full in
            ap
              (λ k.
                scan (associations nil hash' equal eq' words')
                  (elements nil hash' equal eq' words' d) (length d.array) k)
              (a.keys i real)
            ∙ scan_same_hash (key_of words (get_or d.array i nil)) (a.hashes i real)
            ∙ is.valid.table i h full;
        counted = is.valid.counted ∙ ap tally_of (sym (occupied_same (length d.array)));
      };
      room = omega (arith, occupied_same (length d.array), is.room);
    }

    pub search_agreed :
        (k : ℕ) → search nil hash' equal eq' words' d k ≡ search nil hash equal eq words d k
    unfolding search
    search_agreed k = search_all_same (length d.array) k

    value_agreed :
        (k : ℕ)
        → value_or_nil_association nil words' (search nil hash equal eq words d k)
          ≡ value_or_nil_association nil words (search nil hash equal eq words d k)
    unfolding search
    value_agreed k =
        elim (search_all_cases (associations nil hash equal eq words)
          (elements nil hash equal eq words d) (length d.array) k) [
            | inl (i, h, full, fit, there) ↦ rw there (a.values i (==→ne _ _ full))
            | inr (all, none') ↦ rw none' refl
          ]

    -- atOrNil gives the same in both states.
    pub at_or_nil_agreed :
        (k : ℕ)
        → IsOpen nil hash equal eq words d
        → at_or_nil nil hash' equal words' d k ≡ at_or_nil nil hash equal words d k
    at_or_nil_agreed k is =
        at_or_nil-search nil hash' equal eq' words' d k
          (IsOpen-IsDictionary nil hash' equal eq' words' d (IsOpen-agreed is))
        ∙ ap (λ o. ok (value_or_nil_association nil words' o)) (search_agreed k)
        ∙ ap ok (value_agreed k)
        ∙ sym (
            at_or_nil-search nil hash equal eq words d k
              (IsOpen-IsDictionary nil hash equal eq words d is))
