-- ===== src/StaticHeaps/Walking.antt =====
-- The walk over the objects of a heap.
use slvm_native.Common.{
  ℕ, suc, ◌+◌, ◌*◌, ◌^◌, ◌<◌, ◌≤◌, ◌≡◌, refl, ◌∙◌, arith, true, false, ltb, List, [], ◌∷◌, Outcome,
  ok, aborted, out_of_fuel, ◌>>=◌, ==_refl, length,
}
use slvm_native.Common.Words.{add_word, mul_word}
use slvm_native.Common.Bits.{bit_and_down16}
use slvm_native.ObjectModel.{ObjectMemory}
use slvm_native.StaticHeaps.{Visit, visit_at, next_position, heap_iterate}

-- The object that the walk meets at `position` lies behind it and inside of the address space.
pub record IsInside (position : ℕ) (v : Visit) : Type 0 where
  pub pointer : v.forwarding_pointer ≡ position
  pub placed : position + 8 ≤ v.header
  pub slots : v.oop_slots ≤ v.total_slots
  pub room : v.header + v.total_slots * 8 + 32 < 2 ^ 64

-- The objects of a heap from `position` to `end`, one behind the other.
pub data LaidOut (m : ObjectMemory) (end : ℕ) : ℕ → List Visit → Type 0 where
  nothing_left : LaidOut m end end []
  object_first :
      (position : ℕ) (v : Visit) (vs : List Visit)
      → position < end
      → visit_at m position ≡ ok v
      → IsInside position v
      → LaidOut m end (next_position v) vs
      → LaidOut m end position (v ∷ vs)

-- The next position is behind the slots of the object.
pub next_position_lem :
    (position : ℕ) (v : Visit)
    → IsInside position v
    → v.header + 8 + v.total_slots * 8 ≤ next_position v
unfolding next_position
next_position_lem position v is =
    let size : mul_word v.total_slots 8 ≡ v.total_slots * 8 = omega (arith, is.room) in
    let start : add_word v.header 8 ≡ v.header + 8 = omega (arith, is.room) in
    let last : add_word (v.header + 8) (v.total_slots * 8) ≡ v.header + 8 + v.total_slots * 8 =
      omega (arith, is.room) in
    let up : add_word (v.header + 8 + v.total_slots * 8) 15
        ≡ v.header + 8 + v.total_slots * 8 + 15 =
      omega (arith, is.room) in
    rw
      (
        size,
        start,
        last,
        up,
        bit_and_down16 (v.header + 8 + v.total_slots * 8 + 15) (omega (arith, is.room)),
      )
      (omega arith)

module _ {S : Type 0} (memory : S → ObjectMemory) (iterator : Visit → S → Outcome S) where
  -- The reference: the iterator on the objects, in their order.
  unfoldable pub in_order : List Visit → S → Outcome S
  in_order [] s = ok s
  in_order (v ∷ vs) s = iterator v s >>= λ after. in_order vs after

  -- On an object, the iterator leaves what the walk reads at the places behind the object.
  abbrev pub KeepsBehind : Type 0
  KeepsBehind =
      (start : ℕ) (v : Visit) (s after : S)
      → IsInside start v
      → iterator v s ≡ ok after
      → (position : ℕ) → next_position v ≤ position
      → position + 24 < 2 ^ 64
      → visit_at (memory after) position ≡ visit_at (memory s) position

-- What is kept from a place on keeps the layout from there.
LaidOut-kept :
    (m after : ObjectMemory) (end floor position : ℕ) (vs : List Visit)
    → ((p : ℕ) → floor ≤ p → p + 24 < 2 ^ 64 → visit_at after p ≡ visit_at m p)
    → floor ≤ position
    → LaidOut m end position vs
    → LaidOut after end position vs
LaidOut-kept m after end floor position vs same low nothing_left = nothing_left
LaidOut-kept m after end floor position vs same low (object_first p v rest before here is behind) =
    object_first p v rest before (same p low (omega (arith, is.placed, is.room)) ∙ here) is (
      LaidOut-kept m after end floor _ rest same
        (omega (arith, is.placed, next_position_lem p v is)) behind)

module _ {S : Type 0} (memory : S → ObjectMemory) (iterator : Visit → S → Outcome S) where
  -- The walk from an object to the rest.
  walk_on :
      (fuel end : ℕ) (v : Visit) (vs : List Visit) (s : S) (r : Outcome S)
      → iterator v s ≡ r
      → ((after : S)
          → iterator v s ≡ ok after
          → heap_iterate memory iterator fuel (next_position v) end after
            ≡ in_order memory iterator vs after)
      → (r >>= λ after. heap_iterate memory iterator fuel (next_position v) end after)
        ≡ (r >>= λ after. in_order memory iterator vs after)
  walk_on fuel end v vs s (ok after) run next = next after run
  walk_on fuel end v vs s aborted run next = refl
  walk_on fuel end v vs s out_of_fuel run next = refl

  -- In a heap whose objects lie one behind the other up to its end, inside of the address space,
  -- with an iterator that, on an object, leaves what the walk reads at the places behind the
  -- object, and with fuel for one step more than there are objects, the walk calls the iterator on
  -- the objects in their order and returns what it then returns.
  pub heap_iterate-in_order :
      KeepsBehind memory iterator
      → (position end : ℕ) (vs : List Visit) (s : S) → LaidOut (memory s) end position vs
      → heap_iterate memory iterator (suc (length vs)) position end s
        ≡ in_order memory iterator vs s
  unfolding heap_iterate in_order
  heap_iterate-in_order keeps position end [] s nothing_left =
      let stop : ltb end end ≡ false = ground arith in rw (stop, ==_refl end) refl
  heap_iterate-in_order keeps position end (v ∷ vs) s (object_first p _ _ low here is behind) =
      let more : ltb p end ≡ true = ground arith in
      rw (more, here)
        (walk_on (suc (length vs)) end v vs s (iterator v s) refl λ after run.
          heap_iterate-in_order keeps (next_position v) end vs after (
            LaidOut-kept (memory s) (memory after) end (next_position v) _ vs
              (keeps p v s after is run) (omega arith) behind))
