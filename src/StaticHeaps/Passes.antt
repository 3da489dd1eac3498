-- ===== src/StaticHeaps/Passes.antt =====
-- Passes over a static heap that leave the objects behind the one they are at: the one that applies
-- the forwarding, and the one that fixes the class variables.
use slvm_native.Common.{
  subst, ◌≢◌, ◌==◌, ◌>>=◌, ne→==, ◌&&◌, leb, ltb, Bool-cases, inl, inr, ℕ, zero, suc, ◌+◌, ◌*◌, ◌^◌,
  ◌<◌, ◌≤◌, ◌≡◌, refl, sym, ap, ◌∙◌, arith, Bool, Outcome, ok, aborted, out_of_fuel,
}
use slvm_native.Common.Words.{add_word}
use slvm_native.ObjectModel.{ObjectMemory}
use slvm_native.ObjectModel.Formats.{of_indexable_64, of_mixed_object}
use slvm_native.StaticHeaps.{
  HeapInformation, Visit, visit_at, small_visit, big_visit, next_position, set_word, forward_slots,
  apply_forwarding, forwarded,
}
use slvm_native.StaticHeaps.Walking.{IsInside, KeepsBehind, next_position_lem}
use slvm_native.StaticHeaps.Fixing.{
  Runtime, memory_of, with_memory, clear_forwarding, become, class_index_of, class_variable_index,
  fix_class_variables,
}

-- The walk reads two words and the headers.
visit_at_kept :
    (m after : ObjectMemory) (position : ℕ)
    → position + 24 < 2 ^ 64
    → after.headers ≡ m.headers
    → after.words position ≡ m.words position
    → after.words (position + 16) ≡ m.words (position + 16)
    → visit_at after position ≡ visit_at m position
unfolding visit_at small_visit big_visit
visit_at_kept m after position low headers first third =
    let place : add_word position 16 ≡ position + 16 = omega arith in
    rw (headers, first, place, third)

-- The words that the loop over `n` slots leaves.
forward_slots_other :
    (heap : HeapInformation) (n address : ℕ) (m : ObjectMemory) (x : ℕ)
    → address + n * 8 < 2 ^ 64
    → address + n * 8 ≤ x
    → ((forward_slots heap address n m).headers ≡ m.headers)
      × ((forward_slots heap address n m).words x ≡ m.words x)
unfolding forward_slots
forward_slots_other heap zero address m x room behind = (refl, refl)
forward_slots_other heap (suc n) address m x room behind =
    let next : add_word address 8 ≡ address + 8 = omega arith in
    let (headers, words) =
      forward_slots_other heap n (address + 8)
        (set_word address (forwarded heap m (m.words address)) m) x (omega arith) (omega arith) in
    let step =
      ap (λ a. forward_slots heap a n (set_word address (forwarded heap m (m.words address)) m))
        next in
    (
      ap (λ (q : ObjectMemory). q.headers) step ∙ headers,
      ap (λ (q : ObjectMemory). q.words x) step ∙ words ∙ rw (ne→== x address (omega arith)) refl,
    )

abbrev value_or : {S : Type 0} → S → Outcome S → S
value_or s (ok after) = after
value_or s aborted = s
value_or s out_of_fuel = s

ok_value : {S : Type 0} → (s after : S) → ok s ≡ ok after → after ≡ s
ok_value s after same = sym (ap (value_or s) same)

-- The forwarding of one object writes inside of it.
apply_forwarding_other :
    (heap : HeapInformation) (start : ℕ) (v : Visit) (m : ObjectMemory) (x : ℕ)
    → IsInside start v
    → next_position v ≤ x
    → ((apply_forwarding heap v m).headers ≡ m.headers)
      × ((apply_forwarding heap v m).words x ≡ m.words x)
unfolding apply_forwarding
apply_forwarding_other heap start v m x is behind =
    let first : add_word v.header 8 ≡ v.header + 8 = omega (arith, is.room) in
    let last = next_position_lem start v is in
    rw first
      (elim (Bool-cases (
        leb of_indexable_64 (m.headers v.header).object_format
        && ltb (m.headers v.header).object_format of_mixed_object)) [
          | inl bytes ↦ rw bytes (refl, refl)
          | inr slots ↦ rw slots (
              forward_slots_other heap v.oop_slots (v.header + 8) m x
                (omega (arith, is.room, is.slots)) (omega (arith, is.slots)))
        ])

-- The iterator that applies the forwarding.
pub apply_forwarding-KeepsBehind :
    (heap : HeapInformation)
    → KeepsBehind memory_of λ v r. ok (with_memory r (apply_forwarding heap v (memory_of r)))
apply_forwarding-KeepsBehind heap start v r after is run position behind low =
    let first = apply_forwarding_other heap start v (memory_of r) position is behind in
    let third =
      apply_forwarding_other heap start v (memory_of r) (position + 16) is (omega arith) in
    ap (λ (q : Runtime). visit_at (memory_of q) position)
      (ok_value (with_memory r (apply_forwarding heap v (memory_of r))) after run)
    ∙ visit_at_kept (memory_of r) (apply_forwarding heap v (memory_of r)) position low first.0
        first.1 third.1

-- Nothing has changed but a word.
abbrev OnlyAt : ℕ → Runtime → Runtime → Type 0
OnlyAt place r after =
    ((memory_of after).headers ≡ (memory_of r).headers)
    × ((x : ℕ) → x ≢ place → (memory_of after).words x ≡ (memory_of r).words x)

clear_forwarding-OnlyAt :
    (v : Visit) (r : Runtime) → OnlyAt v.forwarding_pointer r (clear_forwarding v r)
unfolding clear_forwarding
clear_forwarding-OnlyAt v r = (refl, λ x other. rw (ne→== x v.forwarding_pointer other) refl)

become-OnlyAt :
    (v : Visit) (target : ℕ) (r : Runtime) → OnlyAt v.forwarding_pointer r (become v target r)
unfolding become
become-OnlyAt v target r = elim (Bool-cases (target == v.header)) [
  | inl same ↦ rw same (refl, λ x other. refl)
  | inr differs ↦ rw differs (refl, λ x other. rw (ne→== x v.forwarding_pointer other) refl)
]

-- The object becomes the one that was found, if the search returns.
found-OnlyAt :
    (v : Visit) (r after : Runtime) (found : Outcome ℕ)
    → (found >>= λ target. ok (become v target r)) ≡ ok after
    → OnlyAt v.forwarding_pointer r after
found-OnlyAt v r after (ok target) run =
    subst (OnlyAt v.forwarding_pointer r) (sym (ok_value (become v target r) after run))
      (become-OnlyAt v target r)
found-OnlyAt v r after aborted run = absurd (cc run)
found-OnlyAt v r after out_of_fuel run = absurd (cc run)

fix_class_variables-OnlyAt :
    (nil fuel : ℕ) (hash : ℕ → ℕ) (equals : ℕ → ℕ → Bool) (v : Visit) (r after : Runtime)
    → fix_class_variables nil fuel hash equals v r ≡ ok after
    → OnlyAt v.forwarding_pointer r after
unfolding fix_class_variables
fix_class_variables-OnlyAt nil fuel hash equals v r after run =
    let cleared = clear_forwarding v r in
    let (headers, words) = clear_forwarding-OnlyAt v r in
    elim (Bool-cases (class_index_of cleared v.header == class_variable_index)) [
      | inl variable ↦
          let run' = rw variable at run in
          let (headers', words') = found-OnlyAt v cleared after _ run' in
          (headers' ∙ headers, λ x other. words' x other ∙ words x other)
      | inr plain ↦
          let run' = rw plain at run in
          subst (OnlyAt v.forwarding_pointer r) (sym (ok_value cleared after run')) (headers, words)
    ]

-- The iterator that fixes the class variables.
pub fix_class_variables-KeepsBehind :
    (nil fuel : ℕ) (hash : ℕ → ℕ) (equals : ℕ → ℕ → Bool)
    → KeepsBehind memory_of (fix_class_variables nil fuel hash equals)
fix_class_variables-KeepsBehind nil fuel hash equals start v r after is run position behind low =
    let (headers, words) = fix_class_variables-OnlyAt nil fuel hash equals v r after run in
    let last = next_position_lem start v is in
    visit_at_kept (memory_of r) (memory_of after) position low headers
      (words position (omega (arith, is.pointer, is.placed)))
      (words (position + 16) (omega (arith, is.pointer, is.placed)))
