-- ===== src/Hashing/Table.antt =====
-- A table of slots as a function of the index, what the collections ask of their keys, and the
-- invariant of open addressing without deletion.
use mathlib.Core.Path.{fun_ext}
use slvm_native.Common.{
  ℕ, ◌%◌, ◌<◌, ◌≡◌, ◌≢◌, inl, inr, sym, ap, ◌∙◌, Bool, true, false, ◌||◌, arith, Bool-cases,
}
use native.Mathlib.Decide.{ℕ_discrete}
use slvm_native.Hashing.{Scan, found, missing, unfinished, probe}
use slvm_native.Hashing.Probe.{slot_at_lem, IsFirst, probe-IsFirst, first_unique, slot_round}

-- Entries of type `E` under keys of type `K`: which entries stand for a free slot, which fit a key,
-- and the hash. The laws say that an entry fits its own key, and that the keys which an entry fits
-- are interchangeable.
pub record Keyed (E K : Type 0) : Type 0 where
  pub vacant : E → Bool
  pub key : E → K
  pub fits : E → K → Bool
  pub hash : K → ℕ
  pub fits_own : (e : E) → vacant e ≡ false → fits e (key e) ≡ true
  pub fits_same :
      (e : E) (k : K)
      → vacant e ≡ false
      → fits e k ≡ true
      → (hash k ≡ hash (key e)) × ((d : E) → fits d k ≡ fits d (key e))

module _ {E K : Type 0} (keyed : Keyed E K) where
  open keyed use {vacant, key, fits, hash}

  -- The test of the loop: `isNil(element) || equals(element, key)`.
  abbrev pub stops : (ℕ → E) → K → ℕ → Bool
  stops t k i = vacant (t i) || fits (t i) k

  -- A scan of `n` slots for a key.
  abbrev pub scan : (ℕ → E) → ℕ → K → Scan
  scan t n k = probe (stops t k) n (hash k % n) n (hash k % n)

  -- The invariant: every entry is found under its key.
  abbrev pub IsTable : (ℕ → E) → ℕ → Type 0
  IsTable t n = (i : ℕ) → i < n → vacant (t i) ≡ false → scan t n (key (t i)) ≡ found i

  scan-IsFirst :
      (t : ℕ → E) (n : ℕ) (k : K) → 0 < n → IsFirst (stops t k) n (hash k % n) 0 (scan t n k)
  scan-IsFirst t n k h = probe-IsFirst (stops t k) n (hash k % n) (omega arith)

  -- Keys that one entry fits are looked for alike.
  pub scan_same :
      (t : ℕ → E) (n : ℕ) (e : E) (k : K)
      → vacant e ≡ false
      → fits e k ≡ true
      → scan t n k ≡ scan t n (key e)
  scan_same t n e k full fit =
      let (h, f) = keyed.fits_same e k full fit in
      let same : stops t k ≡ stops t (key e) = fun_ext λ i. ap (λ b. vacant (t i) || b) (f (t i)) in
      rw (same, h)

  -- In a table an entry is found under every key that it fits.
  pub scan_present :
      (t : ℕ → E) (n i : ℕ) (k : K)
      → IsTable t n
      → i < n
      → vacant (t i) ≡ false
      → fits (t i) k ≡ true
      → scan t n k ≡ found i
  scan_present t n i k is h full fit = scan_same t n (t i) k full fit ∙ is i h full

  -- What a scan finds is a slot of the table that is free or fits.
  pub scan_found :
      (t : ℕ → E) (n i : ℕ) (k : K) → 0 < n → scan t n k ≡ found i → (i < n) × (stops t k i ≡ true)
  scan_found t n i k h e =
      let (j, low, high, place, hit, before) = rw e at (scan-IsFirst t n k h) in
      (omega (arith, slot_at_lem n (hash k % n) j (omega arith)), hit)

  -- A scan ends.
  pub scan_finishes : (t : ℕ → E) (n : ℕ) (k : K) → 0 < n → scan t n k ≢ unfinished
  scan_finishes t n k h e = rw e at (scan-IsFirst t n k h)

  -- With a free slot a scan is never -1.
  pub scan_room : (t : ℕ → E) (n i : ℕ) (k : K) → i < n → vacant (t i) ≡ true → scan t n k ≢ missing
  scan_room t n i k h free e =
      let none' = rw e at (scan-IsFirst t n k (omega arith)) in
      let (j, p, place) = slot_round n (hash k % n) i (omega arith) h in
      let stopped : (vacant (t i) || fits (t i) k) ≡ false =
        rw place at (none' j (omega arith) p) in
      ground arith

  -- `u` is `t` with the entry `e` written in slot `p`.
  pub record IsWrite (t u : ℕ → E) (p : ℕ) (e : E) : Type 0 where
    pub here : u p ≡ e
    pub there : (i : ℕ) → i ≢ p → u i ≡ t i

  -- A scan ends in the same slot when only slots that stopped it have changed.
  scan_moved :
      (t u : ℕ → E) (n i : ℕ) (k : K)
      → 0 < n
      → scan t n k ≡ found i
      → stops u k i ≡ true
      → ((j : ℕ) → stops t k j ≡ false → stops u k j ≡ false)
      → scan u n k ≡ found i
  scan_moved t u n i k h e hit keep =
      let (j, low, high, place, _, before) = rw e at (scan-IsFirst t n k h) in
      first_unique (stops u k) n (hash k % n) j (scan u n k) (omega arith) high (rw (← place) hit)
        (λ l q. keep _ (before l (omega arith) q)) (scan-IsFirst u n k h)
      ∙ ap found (sym place)

  module _ (t u : ℕ → E) (n p : ℕ) (e : E) (pos : 0 < n) (full : vacant e ≡ false)
      (place : scan t n (key e) ≡ found p) (w : IsWrite t u p e) where
    -- The entry that is overwritten, if any, fits the new key.
    pub replaced_fits : vacant (t p) ≡ false → fits (t p) (key e) ≡ true
    replaced_fits occupied = ground (arith, (scan_found t n p (key e) pos place).1)

    -- A key that the new entry fits is one that the overwritten entry fits, and conversely.
    pub replaced_same : (k : K) → vacant (t p) ≡ false → fits (t p) k ≡ fits e k
    replaced_same k occupied = elim (Bool-cases (fits e k)) [
      | inl fit ↦ ((keyed.fits_same e k full fit).1 (t p) ∙ replaced_fits occupied) ∙ sym fit
      | inr unfit ↦ elim (Bool-cases (fits (t p) k)) [
        | inl old ↦
            let f = (keyed.fits_same (t p) k occupied old).1 e in
            let g = (keyed.fits_same (t p) (key e) occupied (replaced_fits occupied)).1 e in
            absurd (cc (f ∙ sym g ∙ keyed.fits_own e full, unfit))
        | inr miss ↦ miss ∙ sym unfit
      ]
    ]

    -- The new entry is found under its key.
    pub scan_written : scan u n (key e) ≡ found p
    scan_written =
        scan_moved t u n p (key e) pos place (rw w.here (ground (arith, keyed.fits_own e full)))
          λ j miss.
            let apart : j ≢ p = λ same. cc ((scan_found t n p (key e) pos place).1) in
            rw (w.there j apart) miss

    -- Every other entry is found where it was.
    scan_kept :
        (i : ℕ)
        → IsTable t n
        → i < n
        → i ≢ p
        → vacant (t i) ≡ false
        → scan u n (key (t i)) ≡ found i
    scan_kept i is h other occupied =
        scan_moved t u n i (key (t i)) pos (is i h occupied)
          (rw (w.there i other) (ground (arith, keyed.fits_own (t i) occupied)))
          λ j miss. elim (ℕ_discrete j p) [
            | yes same ↦
                rw (same, w.here) (ground (arith, replaced_same (key (t i)), rw same at miss))
            | no apart ↦ rw (w.there j apart) miss
          ]

    -- Writing an entry where a scan for its key ends keeps the invariant.
    pub write-IsTable : IsTable t n → IsTable u n
    write-IsTable is i h occupied = elim (ℕ_discrete i p) [
      | yes same ↦ rw (same, w.here) scan_written
      | no other ↦ rw (w.there i other) (scan_kept i is h other (rw (w.there i other) at occupied))
    ]
