-- ===== src/Hashing/Probe.antt =====
-- The probe loop visits every slot once, from the start, and returns the first one that stops it.
use slvm_native.Common.{
  ℕ, zero, suc, ◌+◌, ◌-◌, ◌%◌, ◌≤◌, ◌<◌, ◌≡◌, ◌≢◌, ◌⊎◌, inl, inr, refl, Bool, true, false, arith,
  Bool-cases, ne→==, ◌∙◌, ==_refl,
}
use native.Mathlib.Nat.{mod-eq_of_lt, mod-eq-sub-mod, mod-add-mod, add_assoc}
use slvm_native.Hashing.{Scan, found, missing, unfinished, probe}

le_or_lt : (a b : ℕ) → (a ≤ b) ⊎ (b < a)
le_or_lt a b = omega arith

-- The slot of round `j`.
pub slot_at : ℕ → ℕ → ℕ → ℕ
slot_at n start j = (start + j) % n

-- A slot of a table of `n` slots, with the wrap written out.
pub slot_at_lem :
    (n start j : ℕ)
    → start < n
    → j ≤ n
    → ((start + j < n) × (slot_at n start j ≡ start + j))
      ⊎ ((n ≤ start + j) × (slot_at n start j + n ≡ start + j))
unfolding slot_at
slot_at_lem n start j h k = elim (le_or_lt n (start + j)) [
  | inl over ↦
      let once : (start + j) % n ≡ (start + j - n) % n = mod-eq-sub-mod over in
      let rest : (start + j - n) % n ≡ start + j - n = mod-eq_of_lt (omega arith) in
      inr (over, omega arith)
  | inr below ↦ inl (below, mod-eq_of_lt below)
]

slot_at_next :
    (n start j : ℕ) → start < n → j < n → (slot_at n start j + 1) % n ≡ slot_at n start (j + 1)
unfolding slot_at
slot_at_next n start j h k = rw (mod-add-mod, add_assoc)

slot_at_end : (n start j : ℕ) → start < n → j ≡ n → slot_at n start j ≡ start
slot_at_end n start j h e = omega (arith, slot_at_lem n start j h)

slot_at_ne : (n start j : ℕ) → start < n → 0 < j → j < n → slot_at n start j ≢ start
slot_at_ne n start j h p q = omega (arith, slot_at_lem n start j h)

order : (a b : ℕ) → (a < b) ⊎ ((a ≡ b) ⊎ (b < a))
order a b = omega arith

-- The result of a probe from round `j` on: the first round that stops.
abbrev pub IsFirst : (ℕ → Bool) → ℕ → ℕ → ℕ → Scan → Type 0
IsFirst stop n start j (found i) =
    (k : ℕ) × (j ≤ k)
    × (k < n)
    × (i ≡ slot_at n start k)
    × (stop i ≡ true)
    × ((l : ℕ) → j ≤ l → l < k → stop (slot_at n start l) ≡ false)
IsFirst stop n start j missing = (l : ℕ) → j ≤ l → l < n → stop (slot_at n start l) ≡ false
IsFirst stop n start j unfinished = ⊥

IsFirst-step :
    (stop : ℕ → Bool) (n start j : ℕ) (r : Scan)
    → stop (slot_at n start j) ≡ false
    → IsFirst stop n start (j + 1) r
    → IsFirst stop n start j r
IsFirst-step stop n start j (found i) miss (k, low, high, e, hit, before) = (
  k,
  omega arith,
  high,
  e,
  hit,
  λ l p q. elim (le_or_lt (j + 1) l) [
    | inl later ↦ before l later q
    | inr now ↦ let same : l ≡ j = omega arith in rw same miss
  ],
)
IsFirst-step stop n start j missing miss before = λ l p q. elim (le_or_lt (j + 1) l) [
  | inl later ↦ before l later q
  | inr now ↦ let same : l ≡ j = omega arith in rw same miss
]
IsFirst-step stop n start j unfinished miss h = h

-- A probe in round `j` with fuel for the rounds that are left.
probe_from :
    (stop : ℕ → Bool) (n start fuel j : ℕ)
    → start < n
    → j + suc fuel ≡ n
    → IsFirst stop n start j (probe stop n start (suc fuel) (slot_at n start j))
unfolding probe
probe_from stop n start zero j h e =
    let slot = slot_at n start j in
    let back : (slot + 1) % n ≡ start =
      slot_at_next n start j h (omega arith) ∙ slot_at_end n start (j + 1) h (omega arith) in
    elim (Bool-cases (stop slot)) [
      | inl hit ↦ rw hit (j, omega arith, omega arith, refl, hit, λ l p q. absurd (omega arith))
      | inr miss ↦
          rw (miss, back, ==_refl start) (λ l p q. let same : l ≡ j = omega arith in rw same miss)
    ]
probe_from stop n start (suc fuel) j h e =
    let slot = slot_at n start j in
    let step = slot_at_next n start j h (omega arith) in
    let moved = slot_at_ne n start (j + 1) h (omega arith) (omega arith) in
    let rest = probe_from stop n start fuel (j + 1) h (omega arith) in
    elim (Bool-cases (stop slot)) [
      | inl hit ↦ rw hit (j, omega arith, omega arith, refl, hit, λ l p q. absurd (omega arith))
      | inr miss ↦
          rw (miss, step, ne→== _ _ moved)
            (IsFirst-step stop n start j (probe stop n start (suc fuel) (slot_at n start (j + 1)))
              miss rest)
    ]

-- A full round of fuel is enough: the probe returns the first slot that stops it, in the order from
-- the start, or -1 when none does.
pub probe-IsFirst :
    (stop : ℕ → Bool) (n start : ℕ)
    → start < n
    → IsFirst stop n start 0 (probe stop n start n start)
probe-IsFirst stop zero start h = absurd (omega arith)
probe-IsFirst stop (suc n) start h =
    let first : slot_at (suc n) start 0 ≡ start = omega (arith, slot_at_lem (suc n) start 0 h) in
    rw first at (probe_from stop (suc n) start n 0 h (omega arith))

-- The first slot that stops the probe is the result.
pub first_unique :
    (stop : ℕ → Bool) (n start k : ℕ) (r : Scan)
    → start < n
    → k < n
    → stop (slot_at n start k) ≡ true
    → ((l : ℕ) → l < k → stop (slot_at n start l) ≡ false)
    → IsFirst stop n start 0 r
    → r ≡ found (slot_at n start k)
first_unique stop n start k (found i) h p hit before (k', low, high, e, hit', before') =
    elim (order k k') [
      | inl less ↦ absurd (cc (before' k (omega arith) less))
      | inr (inl same) ↦ rw (e, same)
      | inr (inr more) ↦ absurd (cc (before k' more))
    ]
first_unique stop n start k missing h p hit before none' = absurd (cc (none' k (omega arith) p))
first_unique stop n start k unfinished h p hit before f = absurd f

-- Every slot is visited in some round.
pub slot_round : (n start i : ℕ) → start < n → i < n → (k : ℕ) × (k < n) × (slot_at n start k ≡ i)
slot_round n start i h p = elim (le_or_lt start i) [
  | inl after ↦ (i - start, omega arith, omega (arith, slot_at_lem n start (i - start) h))
  | inr wrapped ↦ (i + n - start, omega arith, omega (arith, slot_at_lem n start (i + n - start) h))
]
