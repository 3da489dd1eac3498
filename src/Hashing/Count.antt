-- ===== src/Hashing/Count.antt =====
-- The number of entries of a table, which the collections keep as their tally.
use native.Mathlib.Decide.{ℕ_discrete}
use slvm_native.Common.{
  ℕ, zero, suc, ◌+◌, ◌≤◌, ◌<◌, ◌≡◌, inl, inr, refl, true, false, arith, Bool-cases, if◌then◌else◌,
}
use slvm_native.Hashing.Table.{Keyed, IsWrite}

module _ {E K : Type 0} (keyed : Keyed E K) where
  open keyed use {vacant}

  -- The entries among the first `m` slots.
  unfoldable pub occupied : (ℕ → E) → ℕ → ℕ
  occupied t zero = 0
  occupied t (suc m) = occupied t m + (if vacant (t m) then 0 else 1)

  pub occupied-suc :
      (t : ℕ → E) (m : ℕ) → occupied t (suc m) ≡ occupied t m + (if vacant (t m) then 0 else 1)
  unfolding occupied
  occupied-suc t m = refl

  pub occupied-zero : (t : ℕ → E) → occupied t 0 ≡ 0
  unfolding occupied
  occupied-zero t = refl

  pub occupied-le : (t : ℕ → E) (m : ℕ) → occupied t m ≤ m
  unfolding occupied
  occupied-le t zero = omega arith
  occupied-le t (suc m) = ground (arith, occupied-le t m)

  -- A table that is not full has a free slot.
  pub free_slot : (t : ℕ → E) (m : ℕ) → occupied t m < m → (i : ℕ) × (i < m) × (vacant (t i) ≡ true)
  unfolding occupied
  free_slot t zero h = absurd (omega arith)
  free_slot t (suc m) h = elim (Bool-cases (vacant (t m))) [
    | inl free ↦ (m, omega arith, free)
    | inr full ↦
        let (i, p, free) = free_slot t m (let h' = rw full at h in omega arith) in
        (i, omega arith, free)
  ]

  pub occupied-none : (t : ℕ → E) (m : ℕ) → ((i : ℕ) → vacant (t i) ≡ true) → occupied t m ≡ 0
  unfolding occupied
  occupied-none t zero h = refl
  occupied-none t (suc m) h = ground (arith, h m, occupied-none t m h)

  occupied_outside :
      (t u : ℕ → E) (m p : ℕ) (e : E) → m ≤ p → IsWrite keyed t u p e → occupied u m ≡ occupied t m
  unfolding occupied
  occupied_outside t u zero p e h w = refl
  occupied_outside t u (suc m) p e h w =
      rw (w.there m (omega arith), occupied_outside t u m p e (omega arith) w)

  -- A write adds one to the count exactly if the slot was free.
  pub occupied-write :
      (t u : ℕ → E) (m p : ℕ) (e : E)
      → p < m
      → vacant e ≡ false
      → IsWrite keyed t u p e
      → occupied u m ≡ occupied t m + (if vacant (t p) then 1 else 0)
  unfolding occupied
  occupied-write t u zero p e h full w = absurd (omega arith)
  occupied-write t u (suc m) p e h full w = elim (ℕ_discrete m p) [
    | yes same ↦ rw (same, w.here, full, occupied_outside t u p p e (omega arith) w) (ground arith)
    | no other ↦ rw (w.there m other, occupied-write t u m p e (omega arith) full w) (omega arith)
  ]
