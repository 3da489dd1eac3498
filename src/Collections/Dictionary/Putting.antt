-- ===== src/Collections/Dictionary/Putting.antt =====
-- atPut with a new key makes an association behind everything in memory and adds it.
use slvm_native.Common.{
  ℕ, suc, ◌+◌, ◌^◌, ◌≤◌, ◌<◌, ◌≡◌, ◌≢◌, ◌⊎◌, inl, inr, refl, sym, ap, ◌∙◌, Bool, true, arith, ◌==◌,
  if◌then◌else◌, length, get_or, none, some, ok, bind_ok, Bool-cases, Returns, ne→==, ==→ne,
  get_or-beyond,
}
use slvm_native.ObjectModel.{ObjectMemory, Behavior}
use slvm_native.ObjectModel.Making.{IsMemory}
use slvm_native.Hashing.Store.{search_all_cases}
use slvm_native.Collections.Dictionary.{HashedCollection, key_of, at_put, at_or_nil}
use slvm_native.Hashing.{found}
use slvm_native.Hashing.Table.{scan}
use slvm_native.Hashing.Store.{entry_of}
use slvm_native.Collections.Dictionary.{scan_for}
use slvm_native.Collections.Dictionary.Reading.{
  IsEquality, associations, elements, search, at_or_nil-search, value_or_nil_association,
}
use slvm_native.Collections.Dictionary.Writing.{scan_place}
use slvm_native.Collections.Dictionary.Adding.{
  IsOpen, IsAdded, association_search, insert_association-IsAdded,
}
use slvm_native.Collections.Dictionary.Elsewhere.{
  Agrees, IsOpen-IsDictionary, scan_same_hash, IsOpen-agreed, at_or_nil_agreed,
}
use slvm_native.Collections.Dictionary.Making.{
  end_of, Follows, MakesObjects, IsAssociation, make_association-IsAssociation,
}

module _ (nil : ℕ) (hash : ℕ → ℕ) (equal : ℕ → ℕ → Bool) (eq : IsEquality hash equal) where
  -- The associations of a dictionary stand in front of an address.
  abbrev pub InFront : HashedCollection → ℕ → Type 0
  InFront d limit = (i : ℕ) → get_or d.array i nil ≢ nil → get_or d.array i nil + 24 ≤ limit

  Follows-Agrees :
      (m made : ObjectMemory) (d : HashedCollection)
      → ((x : ℕ) → x < end_of m → made.words x ≡ m.words x)
      → InFront d (end_of m)
      → Agrees nil equal hash hash eq eq m.words made.words d
  Follows-Agrees m made d old front = record {
    keys = λ i real. old _ (omega (arith, front i real));
    hashes = λ i real. refl;
    values = λ i real. old _ (omega (arith, front i real));
  }

  -- An association of a dictionary is what a search finds under its key.
  own_search :
      (words : ℕ → ℕ) (d : HashedCollection) (i : ℕ)
      → IsOpen nil hash equal eq words d
      → i < length d.array
      → get_or d.array i nil ≢ nil
      → search nil hash equal eq words d (key_of words (get_or d.array i nil))
        ≡ some (get_or d.array i nil)
  own_search words d i is h real =
      sym (
        association_search nil hash equal eq words d (key_of words (get_or d.array i nil)) is.valid
          (omega arith))
      ∙ ap (entry_of (associations nil hash equal eq words) (elements nil hash equal eq words d))
          (is.valid.table i h (ne→== _ nil real))
      ∙ rw (ne→== (get_or d.array i nil) nil real) refl

  -- What a search finds stands in some slot.
  found_somewhere :
      (words : ℕ → ℕ) (d : HashedCollection) (key e : ℕ)
      → search nil hash equal eq words d key ≡ some e
      → (j : ℕ) × (get_or d.array j nil ≡ e) × (e ≢ nil)
  unfolding search
  found_somewhere words d key e h =
      elim (search_all_cases (associations nil hash equal eq words)
        (elements nil hash equal eq words d) (length d.array) key) [
          | inl (j, inside, full, fit, there) ↦
              let same : get_or d.array j nil ≡ e = cc (there, h) in
              (j, same, λ z. ==→ne _ _ full (same ∙ z))
          | inr (all, none') ↦ cc (none', h)
        ]

  -- The associations of a dictionary are those of an earlier one and one more.
  abbrev pub OneMore : HashedCollection → ℕ → HashedCollection → Type 0
  OneMore d association r =
      (i : ℕ)
      → get_or r.array i nil ≢ nil
      → (association ≡ get_or r.array i nil)
        ⊎ ((j : ℕ) × (get_or d.array j nil ≡ get_or r.array i nil) × (get_or r.array i nil ≢ nil))

  added-OneMore :
      (words : ℕ → ℕ) (d r : HashedCollection) (association : ℕ)
      → IsAdded nil hash equal eq words d association r
      → OneMore d association r
  added-OneMore words d r association is i real = elim (below i (length r.array)) [
    | inl inside ↦
        let e = get_or r.array i nil in
        let read = sym (is.reads (key_of words e)) ∙ own_search words r i is.ready inside real in
        elim (Bool-cases (equal (key_of words association) (key_of words e))) [
          | inl hit ↦ inl (cc (rw hit at read))
          | inr miss ↦ inr (found_somewhere words d (key_of words e) e (rw miss at read))
        ]
    | inr outside ↦ absurd (real (get_or-beyond r.array i nil outside))
  ]
    where
      below : (i n : ℕ) → (i < n) ⊎ (n ≤ i)
      below i n = omega arith

  -- What a put of a new key leaves.
  pub record IsPutAnew (m : ObjectMemory) (d : HashedCollection) (key value : ℕ)
      (r : ObjectMemory × HashedCollection) : Type 0 where
    pub oop : ℕ
    pub follows : Follows m r.0 oop 2
    pub ready : IsOpen nil hash equal eq r.0.words r.1
    pub keyed : key_of r.0.words oop ≡ key
    pub places : OneMore d oop r.1
    pub reads :
        (q : ℕ)
        → at_or_nil nil hash equal r.0.words r.1 q
          ≡ (if equal key q then ok value else at_or_nil nil hash equal m.words d q)

  -- The new association, added.
  anew-reads :
      (m : ObjectMemory) (d : HashedCollection) (key value : ℕ) (a : ℕ × ObjectMemory)
      (r : HashedCollection)
      → IsOpen nil hash equal eq m.words d
      → InFront d (end_of m)
      → IsAssociation m key value a
      → IsAdded nil hash equal eq a.1.words d a.0 r
      → IsPutAnew m d key value (a.1, r)
  anew-reads m d key value (oop, made) r is front new added =
      let agree = Follows-Agrees m made d new.follows.old_words front in
      record {
        oop = oop;
        follows = new.follows;
        ready = added.ready;
        keyed = new.keyed;
        places = added-OneMore made.words d r oop added;
        reads = λ q.
            at_or_nil-search nil hash equal eq made.words r q
              (IsOpen-IsDictionary nil hash equal eq made.words r added.ready)
            ∙ ap (λ o. ok (value_or_nil_association nil made.words o)) (added.reads q)
            ∙ ap
                (λ x. ok (
                  value_or_nil_association nil made.words
                    (if equal x q then some oop else search nil hash equal eq made.words d q)))
                new.keyed
            ∙ elim (Bool-cases (equal key q)) [
              | inl hit ↦ rw hit (ap ok new.valued)
              | inr miss ↦ rw miss (
                  sym (
                    at_or_nil-search nil hash equal eq made.words d q (
                      IsOpen-IsDictionary nil hash equal eq made.words d
                        (IsOpen-agreed nil equal hash hash eq eq m.words made.words d agree is)))
                  ∙ at_or_nil_agreed nil equal hash hash eq eq m.words made.words d agree q is)
            ];
      }

  module _ (behaviors : ℕ → Behavior) (association_class : ℕ) (m : ObjectMemory)
      (d : HashedCollection) (key value : ℕ) where
    -- The slot for a new key, as the code finds it, and as the memory with the new association
    -- shows it.
    free_place :
        (made : ObjectMemory)
        → IsOpen nil hash equal eq m.words d
        → ((x : ℕ) → x < end_of m → made.words x ≡ m.words x)
        → InFront d (end_of m)
        → search nil hash equal eq m.words d key ≡ none
        → (p : ℕ) × (p < length d.array)
          × (scan_for nil hash equal m.words d.array key ≡ found p)
          × (scan
                (associations nil hash equal eq made.words)
                (elements nil hash equal eq made.words d)
                (length d.array)
                key
              ≡ found p)
          × ((get_or d.array p nil == nil) ≡ true)
    free_place made is old front fresh =
        let (p, inside, scans, place, hit) = scan_place nil hash equal eq m.words d key is.room in
        let agree = Follows-Agrees m made d old front in
        (
          p,
          inside,
          scans,
          scan_same_hash nil equal hash hash eq eq m.words made.words d agree key refl ∙ place,
          elim (Bool-cases (get_or d.array p nil == nil)) [
            | inl free ↦ free
            | inr full ↦
                let nothing =
                  association_search nil hash equal eq m.words d key is.valid (omega arith)
                  ∙ fresh in
                absurd (cc (rw (place, full) at nothing))
          ],
        )

    -- In a dictionary with a free slot and fewer than 2 ^ 58 slots, whose associations and the class
    -- Association stand in the heap's part of memory that is in use, putting a value under a key
    -- that a search does not find, while the heap stays below 2 ^ 64, returns: a new association
    -- stands behind everything that was in memory, nothing else in memory has changed, atOrNil
    -- gives the value for the keys equal to the new one and what it gave for every other key, and
    -- the dictionary has a free slot again.
    pub at_put-IsPutAnew :
        (fuel : ℕ)
        → IsOpen nil hash equal eq m.words d
        → IsMemory m
        → MakesObjects nil behaviors m association_class 2
        → nil < end_of m
        → InFront d (end_of m)
        → search nil hash equal eq m.words d key ≡ none
        → length d.array < 2 ^ 58
        → end_of m + 6100 < 2 ^ 64
        → Returns
            (at_put nil hash equal behaviors association_class (suc fuel) m d key value)
            (IsPutAnew m d key value)
    unfolding at_put
    at_put-IsPutAnew fuel is memory pairs low front fresh small room =
        let ((oop, made), run, new) =
          make_association-IsAssociation nil hash equal behaviors association_class m key value
            memory pairs room in
        let (p, inside, scans, place, free) =
          free_place made is new.follows.old_words front fresh in
        let agree = Follows-Agrees m made d new.follows.old_words front in
        let is' = IsOpen-agreed nil equal hash hash eq eq m.words made.words d agree is in
        let (r, run', added) =
          insert_association-IsAdded nil hash equal eq made.words d oop p is'
            (omega (arith, new.follows.above)) inside (rw new.keyed place) small fuel free in
        (
          (made, r),
          rw (scans, at_put, free) (bind_ok _ run ∙ bind_ok _ run'),
          anew-reads m d key value (oop, made) r is front new added,
        )
