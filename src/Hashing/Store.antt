-- ===== src/Hashing/Store.antt =====
-- Looking a key up in a table, against a search of all slots that knows nothing of hashing.
use native.Mathlib.Decide.{ℕ_discrete}
use slvm_native.Common.{
  ℕ, zero, suc, ◌<◌, ◌≡◌, ◌≢◌, ◌⊎◌, inl, inr, refl, sym, ap, ◌∙◌, true, false, not, ◌&&◌, arith,
  Bool-cases, if◌then◌else◌, Option, none, some,
}
use slvm_native.Hashing.{Scan, found, missing, unfinished}
use slvm_native.Hashing.Table.{
  Keyed, scan, IsTable, scan_present, scan_found, IsWrite, replaced_same, write-IsTable,
}

module _ {E K : Type 0} (keyed : Keyed E K) where
  open keyed use {vacant, key, fits, hash}

  -- The entry in the slot where a scan ends, if it is one.
  abbrev pub entry_of : (ℕ → E) → Scan → Option E
  entry_of t (found i) = if vacant (t i) then none else some (t i)
  entry_of t missing = none
  entry_of t unfinished = none

  abbrev pub entry : (ℕ → E) → ℕ → K → Option E
  entry t n k = entry_of t (scan keyed t n k)

  -- The reference: the last of the first `m` slots whose entry fits the key.
  unfoldable pub search_all : (ℕ → E) → ℕ → K → Option E
  search_all t zero k = none
  search_all t (suc m) k =
      if not (vacant (t m)) && fits (t m) k then some (t m) else search_all t m k

  -- Where the reference finds something, or that nothing fits.
  pub search_all_cases :
      (t : ℕ → E) (m : ℕ) (k : K)
      → ((i : ℕ) × (i < m)
          × (vacant (t i) ≡ false)
          × (fits (t i) k ≡ true)
          × (search_all t m k ≡ some (t i)))
        ⊎ (((j : ℕ) → j < m → vacant (t j) ≡ false → fits (t j) k ≡ false)
            × (search_all t m k ≡ none))
  unfolding search_all
  search_all_cases t zero k = inr (λ j h. absurd (omega arith), refl)
  search_all_cases t (suc m) k = elim (Bool-cases (not (vacant (t m)) && fits (t m) k)) [
    | inl hit ↦ inl (m, omega arith, ground arith, ground arith, rw hit)
    | inr miss ↦ elim (search_all_cases t m k) [
      | inl (i, h, full, fit, e) ↦ inl (i, omega arith, full, fit, rw miss e)
      | inr (all, e) ↦ inr (
        λ j h full. elim (ℕ_discrete j m) [
          | yes same ↦ rw same (let full' = rw same at full in ground arith)
          | no below ↦ all j (omega arith) full
        ],
        rw miss e,
      )
    ]
  ]

  entry-none :
      (t : ℕ → E) (n : ℕ) (k : K)
      → 0 < n
      → ((j : ℕ) → j < n → vacant (t j) ≡ false → fits (t j) k ≡ false)
      → entry t n k ≡ none
  entry-none t n k h all = go (scan keyed t n k) refl
    where
      go : (r : Scan) → scan keyed t n k ≡ r → entry_of t r ≡ none
      go (found i) e = let (p, hit) = scan_found keyed t n i k h e in ground (arith, all i p)
      go missing e = refl
      go unfinished e = refl

  entry-some :
      (t : ℕ → E) (n i : ℕ) (k : K)
      → IsTable keyed t n
      → i < n
      → vacant (t i) ≡ false
      → fits (t i) k ≡ true
      → entry t n k ≡ some (t i)
  entry-some t n i k is h full fit = rw (scan_present keyed t n i k is h full fit, full)

  -- In a table a lookup by hash is the search of all slots.
  pub entry-search_all :
      (t : ℕ → E) (n : ℕ) (k : K) → 0 < n → IsTable keyed t n → entry t n k ≡ search_all t n k
  entry-search_all t n k h is = elim (search_all_cases t n k) [
    | inl (i, p, full, fit, e) ↦ entry-some t n i k is p full fit ∙ sym e
    | inr (all, e) ↦ entry-none t n k h all ∙ sym e
  ]

  -- After a write, the keys that the new entry fits lead to it, and all others where they led.
  pub entry-write :
      (t u : ℕ → E) (n p : ℕ) (e : E) (k : K)
      → 0 < n
      → IsTable keyed t n
      → vacant e ≡ false
      → p < n
      → scan keyed t n (key e) ≡ found p
      → IsWrite keyed t u p e
      → entry u n k ≡ (if fits e k then some e else entry t n k)
  entry-write t u n p e k pos is full inside place w =
      let is' = write-IsTable keyed t u n p e pos full place w is in
      elim (Bool-cases (fits e k)) [
        | inl fit ↦
            rw fit (entry-some u n p k is' inside (rw w.here full) (rw w.here fit) ∙ ap some w.here)
        | inr unfit ↦ rw unfit (elim (search_all_cases t n k) [
          | inl (i, h, old, fit, _) ↦
              let other : i ≢ p = λ same.
                let r = replaced_same keyed t u n p e pos full place w k (rw same at old) in
                cc (r, rw same at fit) in
              entry-some u n i k is' h (rw (w.there i other) old) (rw (w.there i other) fit)
              ∙ ap some (w.there i other)
              ∙ sym (entry-some t n i k is h old fit)
          | inr (all, _) ↦
              entry-none u n k pos (λ j h new. elim (ℕ_discrete j p) [
                | yes same ↦ rw (same, w.here) unfit
                | no other ↦ rw (w.there j other) (all j h (rw (w.there j other) at new))
              ])
              ∙ sym (entry-none t n k pos all)
        ])
      ]

  pub search_all-suc :
      (t : ℕ → E) (m : ℕ) (k : K)
      → search_all t (suc m) k
        ≡ (if not (vacant (t m)) && fits (t m) k then some (t m) else search_all t m k)
  unfolding search_all
  search_all-suc t m k = refl

  -- The key of an entry of a table occurs in no earlier slot.
  pub earlier_none :
      (t : ℕ → E) (n i : ℕ)
      → IsTable keyed t n
      → i < n
      → vacant (t i) ≡ false
      → search_all t i (key (t i)) ≡ none
  earlier_none t n i is h full = elim (search_all_cases t i (key (t i))) [
    | inl (j, before, full', fit, e) ↦
        let one = scan_present keyed t n j (key (t i)) is (omega arith) full' fit in
        let two = is i h full in let same : j ≡ i = cc (one, two) in absurd (omega arith)
    | inr (_, e) ↦ e
  ]

  pub search_all-zero : (t : ℕ → E) (k : K) → search_all t 0 k ≡ none
  unfolding search_all
  search_all-zero t k = refl

  -- A table of free slots leads nowhere.
  pub entry_vacant :
      (t : ℕ → E) (n : ℕ) (k : K) → 0 < n → ((i : ℕ) → vacant (t i) ≡ true) → entry t n k ≡ none
  entry_vacant t n k h free = entry-none t n k h (λ j p full. cc (free j, full))
