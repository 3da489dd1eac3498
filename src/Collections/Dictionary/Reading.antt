-- ===== src/Collections/Dictionary/Reading.antt =====
-- Reading a dictionary of associations, against a search of the whole array.
use slvm_native.Common.{
  ℕ, ◌<◌, ◌≡◌, ◌≢◌, inl, inr, refl, sym, ap, ◌∙◌, Bool, true, false, arith, ◌==◌, if◌then◌else◌,
  length, get_or, Option, none, some, ok, Bool-cases, ==→eq,
}
use slvm_native.Hashing.{Scan, found, missing, unfinished}
use slvm_native.Hashing.Table.{Keyed, scan, IsTable, scan_finishes, scan_room}
use slvm_native.Hashing.Store.{entry_of, search_all, entry-search_all}
use slvm_native.Collections.Dictionary.{
  HashedCollection, key_of, value_of_association, scan_for, association_at, at_or_nil,
  add_association_if_not_existent,
}

-- What the hash and the equality have to satisfy: equality is an equivalence, and equal keys have
-- the same hash.
pub record IsEquality (hash : ℕ → ℕ) (equal : ℕ → ℕ → Bool) : Type 0 where
  pub same : (a : ℕ) → equal a a ≡ true
  pub swap : (a b : ℕ) → equal a b ≡ true → equal b a ≡ true
  pub chain : (a b c : ℕ) → equal a b ≡ true → equal b c ≡ true → equal a c ≡ true
  pub hashed : (a b : ℕ) → equal a b ≡ true → hash a ≡ hash b

abbrev pub or_nil_association : ℕ → Option ℕ → ℕ
or_nil_association nil none = nil
or_nil_association nil (some e) = e

abbrev pub value_or_nil_association : ℕ → (ℕ → ℕ) → Option ℕ → ℕ
value_or_nil_association nil words none = nil
value_or_nil_association nil words (some e) = value_of_association words e

module _ (nil : ℕ) (hash : ℕ → ℕ) (equal : ℕ → ℕ → Bool) (eq : IsEquality hash equal)
    (words : ℕ → ℕ) where
  pub equal_right : (a b c : ℕ) → equal a b ≡ true → equal c b ≡ equal c a
  equal_right a b c h = elim (Bool-cases (equal c a)) [
    | inl hit ↦ eq.chain c a b hit h ∙ sym hit
    | inr miss ↦ elim (Bool-cases (equal c b)) [
      | inl other ↦ absurd (cc (eq.chain c b a other (eq.swap a b h)))
      | inr none' ↦ none' ∙ sym miss
    ]
  ]

  -- Associations under their keys.
  abbrev pub associations : Keyed ℕ ℕ
  associations = record {
    vacant = λ e. e == nil;
    key = λ e. key_of words e;
    fits = λ e k. equal (key_of words e) k;
    hash = hash;
    fits_own = λ e h. eq.same (key_of words e);
    fits_same = λ e k h fit. (
      sym (eq.hashed (key_of words e) k fit),
      λ d. equal_right (key_of words e) k (key_of words d) fit,
    );
  }

  abbrev pub elements : HashedCollection → ℕ → ℕ
  elements d i = get_or d.array i nil

  -- Every association is found under its key, and some slot is free.
  pub record IsDictionary (d : HashedCollection) : Type 0 where
    pub table : IsTable associations (elements d) (length d.array)
    pub free : ℕ
    pub free_inside : free < length d.array
    pub free_is : elements d free ≡ nil

  pub scan_for_lem :
      (d : HashedCollection) (key : ℕ)
      → 0 < length d.array
      → scan_for nil hash equal words d.array key
        ≡ scan associations (elements d) (length d.array) key
  unfolding scan_for
  scan_for_lem d key h =
      let some_slots : (length d.array == 0) ≡ false = ground arith in rw some_slots

  -- The reference: the association with the key, by a search of all slots.
  unfoldable pub search : HashedCollection → ℕ → Option ℕ
  search d key = search_all associations (elements d) (length d.array) key

  -- Where a scan ends, and what stands there.
  scan_ends :
      (d : HashedCollection) (key : ℕ)
      → IsDictionary d
      → (i : ℕ) × (scan_for nil hash equal words d.array key ≡ found i)
        × (search d key ≡ (if elements d i == nil then none else some (elements d i)))
  unfolding search
  scan_ends d key is = go (scan associations (elements d) (length d.array) key) refl
    where
      wide : 0 < length d.array
      wide = omega (arith, is.free_inside)

      go :
          (r : Scan)
          → scan associations (elements d) (length d.array) key ≡ r
          → (i : ℕ) × (scan_for nil hash equal words d.array key ≡ found i)
            × (search_all associations (elements d) (length d.array) key
                ≡ (if elements d i == nil then none else some (elements d i)))
      go (found i) e = (
        i,
        scan_for_lem d key wide ∙ e,
        sym (entry-search_all associations (elements d) (length d.array) key wide is.table)
            ∙ ap (entry_of associations (elements d)) e,
      )
      go missing e = absurd (
          scan_room associations (elements d) (length d.array) is.free key is.free_inside
            (rw is.free_is (ground arith)) e)
      go unfinished e = absurd (scan_finishes associations (elements d) (length d.array) key wide e)

  -- atOrNil, for any key.
  pub at_or_nil-search :
      (d : HashedCollection) (key : ℕ)
      → IsDictionary d
      → at_or_nil nil hash equal words d key
        ≡ ok (value_or_nil_association nil words (search d key))
  unfolding at_or_nil
  at_or_nil-search d key is =
      let (i, run, found') = scan_ends d key is in
      elim (Bool-cases (elements d i == nil)) [
        | inl free ↦ rw (at_or_nil, run, found', free) refl
        | inr full ↦ rw (at_or_nil, run, found', full) refl
      ]

  -- In a dictionary with a free slot no lookup fails: associationAt returns the association that a
  -- search of the whole array finds under the key, or nil, atOrNil its value, or nil, and
  -- addAssociationIfNotExistent leaves the dictionary alone and returns that association if there
  -- is one.
  pub dictionary_reads :
      (d : HashedCollection) (key fuel association : ℕ)
      → IsDictionary d
      → association ≢ nil
      → key_of words association ≡ key
      → (association_at nil hash equal words d key ≡ ok (or_nil_association nil (search d key)))
        × (at_or_nil nil hash equal words d key
            ≡ ok (value_or_nil_association nil words (search d key)))
        × ((e : ℕ)
            → search d key ≡ some e
            → add_association_if_not_existent nil hash equal fuel words d association ≡ ok (d, e))
  unfolding association_at at_or_nil add_association_if_not_existent
  dictionary_reads d key fuel association is real keyed =
      let (i, run, found') = scan_ends d key is in
      let test : (association == nil) ≡ false = ground arith in
      elim (Bool-cases (elements d i == nil)) [
        | inl free ↦
            rw
              (
                association_at, at_or_nil, add_association_if_not_existent, keyed, run, found',
                free, test,
              )
              (ap ok (==→eq _ _ free), refl, λ e h. absurd (cc h))
        | inr full ↦
            rw
              (
                association_at, at_or_nil, add_association_if_not_existent, keyed, run, found',
                full, test,
              )
              (refl, refl, λ e h. ap (λ t. ok (d, or_nil_association nil t)) h)
      ]
