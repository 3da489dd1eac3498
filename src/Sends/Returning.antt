-- ===== src/Sends/Returning.antt =====
-- A frame that moves to a new stack segment, and the way back.
use slvm_native.Common.{
  ℕ, ◌+◌, ◌-◌, ◌/◌, ◌%◌, ◌^◌, ◌≤◌, ◌<◌, ◌≡◌, ◌≢◌, ◌⊎◌, refl, sym, subst, ◌∙◌, ap, arith, List, [],
  ◌∷◌, ◌++◌, ok, ◌>>=◌, Returns, Returns_bind, Returns_eq, ne→==, false,
}
use mathlib.Core.List.{append-nil}
use slvm_native.Common.Words.{add_word, sub_word}
use slvm_native.DataStructures.Chain.{has, has-append}
use slvm_native.ExecutionStack.{ExecutionStack, node_of, segment_of, pop_segment}
use slvm_native.ExecutionStack.Segments.{
  IsStacks, HasRoom, write_segment_lem, previous_of_append, node_of_lem,
}
use slvm_native.ExecutionStack.Allocating.{drop_first, IsPlaced}
use slvm_native.ExecutionStack.Moving.{Created, create_new_segment-Created}
use slvm_native.ExecutionStack.Popping.{pop_segment-IsStacks}
use slvm_native.Sends.{Machine, Activation, to_sender, Runtime, copy_words, move_stack}
use slvm_native.Sends.Overflow.{moved_size, move_frame, new_stack_segment, pop_stack_segment}
use slvm_native.Sends.Moved.{IsMoved, four_writes, four_writes-IsMoved, move_frame_lem}

-- The stack with a full segment `c` at its end, whose top frame of `bytes` bytes moves.
pub record IsFull (m : Machine) (free xs : List ℕ) (c bytes : ℕ) : Type 0 where
  pub stacks : IsStacks m.stack free (xs ++ node_of c ∷ [])
  pub room : HasRoom m.stack
  pub running : m.stack.current ≢ 0
  pub in_page : c < (m.stack.segments c).stack_pointer + 4032
  pub below_header : (m.stack.segments c).stack_pointer + bytes ≤ c
  pub high : c + 64 < 2 ^ 64
  pub whole_words : bytes % 8 ≡ 0
  pub fits : bytes + 8 ≤ 4032
  pub enough : 24 ≤ bytes

-- The frame has moved from the segment `c` to `s`.
pub record FrameMoved (t : Runtime) (m : Machine) (free xs : List ℕ) (c bytes : ℕ)
    (r : Activation × Machine) : Type 0 where
  pub segment : ℕ
  pub top : ℕ
  pub leaves : r.0 ≡ to_sender top 0
  pub reaches : top + 8 + bytes ≡ segment
  pub placed : IsPlaced m.stack.pool segment
  pub frame : ℕ
  pub moved :
      IsMoved m.words r.1.words
        (m.stack.segments c).stack_pointer
        bytes
        top
        t.pop_trap
        frame
        (m.stack.segments c).frame_pointer
  pub stacks : IsStacks r.1.stack (drop_first free) ((xs ++ node_of c ∷ []) ++ node_of segment ∷ [])
  pub running : r.1.stack.current ≢ 0
  pub left_at :
      (r.1.stack.segments c).stack_pointer ≡ (m.stack.segments c).stack_pointer + (bytes - 16)

-- The pages of two segments have no byte in common.
pages_apart :
    (c s : ℕ)
    → c + 64 < 2 ^ 64
    → s + 64 < 2 ^ 64
    → node_of c % 4096 ≡ 4080
    → node_of s % 4096 ≡ 4080
    → c ≢ s
    → (c + 4096 ≤ s) ⊎ (s + 4096 ≤ c)
pages_apart c s h k p q ne =
    let c_is = node_of_lem c (omega arith) in
    let s_is = node_of_lem s (omega arith) in
    let p' : (c + 48) % 4096 ≡ 4080 = rw c_is at p in
    let q' : (s + 48) % 4096 ≡ 4080 = rw s_is at q in omega (arith, p', q', ne)

not_among : (xs : List ℕ) (c s : ℕ) → has (node_of s) (xs ++ node_of c ∷ []) ≡ false → c ≢ s
not_among xs c s out same =
    ground (arith, has-append (node_of s) xs (node_of c ∷ []), ap node_of same)

moved-IsStacks :
    (e : ExecutionStack) (free used : List ℕ) (s c p q : ℕ)
    → IsStacks e free used
    → IsStacks (move_stack (move_stack e s p) c q) free used
moved-IsStacks e free used s c p q is = record {
  pool = is.pool;
  requested = is.requested;
  free_is = is.free_is;
  used_is = is.used_is;
  apart = is.apart;
  free_nodes = is.free_nodes;
  used_nodes = is.used_nodes;
}

move_frame-FrameMoved :
    (t : Runtime) (m : Machine) (free xs : List ℕ) (c bytes s : ℕ) (e : ExecutionStack)
    → IsFull m free xs c bytes
    → Created m.stack free (xs ++ node_of c ∷ []) (s, e)
    → Returns (move_frame t bytes c s m e) (FrameMoved t m free xs c bytes)
move_frame-FrameMoved t m free xs c bytes s e full made =
    let other = not_among xs c s made.new in
    let same = made.others c other in
    let from_is : (e.segments c).stack_pointer ≡ (m.stack.segments c).stack_pointer =
      ap (λ g. g.stack_pointer) same in
    let node_c =
      full.stacks.used_nodes (node_of c)
        (ground (arith, has-append (node_of c) xs (node_of c ∷ []))) in
    let node_s =
      made.stacks.used_nodes (node_of s)
        (ground (arith, has-append (node_of s) (xs ++ node_of c ∷ []) (node_of s ∷ []))) in
    let apart = pages_apart c s full.high made.placed.high node_c.at_end node_s.at_end other in
    let top = s - (bytes + 8) in
    let reaches : top + 8 + bytes ≡ s = omega (arith, full.fits, made.placed.above) in
    let ends : (e.segments c).stack_pointer + bytes ≤ c =
      omega (arith, from_is, full.below_header) in
    let begins : c < (e.segments c).stack_pointer + 4032 = omega (arith, from_is, full.in_page) in
    let copied = copy_words m.words (top + 8) (e.segments c).stack_pointer (bytes / 8) in
    let new_words =
      four_writes copied top ((e.segments c).stack_pointer + (bytes - 16)) t.pop_trap
        (e.segments s).frame_pointer (e.segments c).frame_pointer (copied (top + 16)) in
    (
      _,
      move_frame_lem t bytes c s top m e full.enough (omega (arith, ends, full.high))
          (made.empty ∙ sym reaches) (omega (arith, reaches, made.placed.high)),
      record {
        segment = s;
        top = top;
        leaves = refl;
        reaches = reaches;
        placed = made.placed;
        frame = (e.segments s).frame_pointer;
        moved =
            subst
              (λ g.
                IsMoved m.words new_words g.stack_pointer bytes top t.pop_trap
                  (e.segments s).frame_pointer g.frame_pointer)
              same
              (four_writes-IsMoved m.words (e.segments c).stack_pointer bytes top t.pop_trap
                (e.segments s).frame_pointer (e.segments c).frame_pointer full.enough
                full.whole_words (omega (arith, ends, full.high))
                (omega (arith, reaches, made.placed.high))
                (omega (arith, reaches, ends, begins, apart, full.fits)));
        stacks = moved-IsStacks e _ _ s c top _ made.stacks;
        running = λ z. full.running (sym made.same_current ∙ z);
        left_at =
            ap (λ g. g.stack_pointer) (write_segment_lem (move_stack e s top).segments c _)
            ∙ ap (λ p. p + (bytes - 16)) from_is;
      },
    )

new_stack_segment-FrameMoved :
    (t : Runtime) (m : Machine) (free xs : List ℕ) (c descriptor : ℕ)
    → IsFull m free xs c (moved_size descriptor)
    → Returns
        (new_stack_segment t (add_word c 64) descriptor m)
        (FrameMoved t m free xs c (moved_size descriptor))
unfolding new_stack_segment
new_stack_segment-FrameMoved t m free xs c descriptor full =
    let head : sub_word (add_word c 64) 64 ≡ c = omega (arith, full.high) in
    rw head (
      Returns_bind _
        (create_new_segment-Created m.stack free (xs ++ node_of c ∷ []) full.stacks full.room
          full.running)
        λ (s, e) made. move_frame-FrameMoved t m free xs c (moved_size descriptor) s e full made)

pop_stack_segment_previous :
    (m : Machine) (s previous value : ℕ)
    → m.stack.links.previous (node_of s) ≡ previous
    → previous ≢ 0
    → s + 64 < 2 ^ 64
    → pop_stack_segment (add_word s 64) value m ≡ (
        pop_segment m.stack s >>= λ e.
        ok (
          to_sender (e.segments (segment_of previous)).stack_pointer value,
          record m { stack = e },
        ))
unfolding pop_stack_segment
pop_stack_segment_previous m s previous value same there high =
    let head : sub_word (add_word s 64) 64 ≡ s = omega arith in
    rw (head, same, ne→== previous 0 there) refl

-- When the frames of the last segment `s` have returned, the stack goes on where the segment `c`
-- before it was left.
pop_stack_segment-back :
    (m : Machine) (free xs : List ℕ) (c s value : ℕ)
    → IsStacks m.stack free ((xs ++ node_of c ∷ []) ++ node_of s ∷ [])
    → m.stack.current ≢ 0
    → c + 64 < 2 ^ 64
    → s + 64 < 2 ^ 64
    → Returns (pop_stack_segment (add_word s 64) value m) λ r.
      (r.0 ≡ to_sender (m.stack.segments c).stack_pointer value)
      × IsStacks r.1.stack (free ++ node_of s ∷ []) (xs ++ node_of c ∷ [])
      × (r.1.words ≡ m.words)
pop_stack_segment-back m free xs c s value is running high high' =
    let before = previous_of_append m.stack.links _ xs (node_of c) (node_of s) is.used_is in
    let node_c = is.used_nodes (node_of c) (
      ground (
        arith,
        has-append (node_of c) xs (node_of c ∷ []),
        has-append (node_of c) (xs ++ node_of c ∷ []) (node_of s ∷ []),
      )) in
    let segment_is : segment_of (node_of c) ≡ c = omega arith in
    Returns_eq
      (pop_stack_segment_previous m s (node_of c) value before (omega (arith, node_c.at_end)) high')
      (Returns_bind _ (pop_segment-IsStacks m.stack free (xs ++ node_of c ∷ []) s [] is running)
        λ e (stacks, _, same). (
          _,
          refl,
          (
            ap (λ p. to_sender p value)
                (ap (λ q. (e.segments q).stack_pointer) segment_is
                  ∙ ap (λ f. (f c).stack_pointer) same),
            subst (IsStacks e (free ++ node_of s ∷ [])) (append-nil (xs ++ node_of c ∷ [])) stacks,
            refl,
          ),
        ))

-- A full segment, the last one of a running thread, whose top frame of whole words fits in a page:
-- the call of a method that needs more stack goes on in a segment that was not in use, which holds
-- the return into the method, the trap in place of the sender's return address, the receiver and the
-- arguments. When the method has returned through the trap with a value, whatever it wrote to
-- memory, the value goes back on the old segment, at the frame pointer and return address of the
-- sender that were left there in place of the last arguments; the thread has its old segments
-- again, and the other one is free.
pub new_stack_segment-return :
    (t : Runtime) (m : Machine) (free xs : List ℕ) (c descriptor value : ℕ) (later : ℕ → ℕ)
    → IsFull m free xs c (moved_size descriptor)
    → Returns (new_stack_segment t (add_word c 64) descriptor m) λ r.
      (f : FrameMoved t m free xs c (moved_size descriptor) r) × Returns
        (pop_stack_segment (add_word f.segment 64) value (record r.1 { words = later }))
        λ q.
          (q.0
            ≡ to_sender ((m.stack.segments c).stack_pointer + (moved_size descriptor - 16)) value)
          × IsStacks q.1.stack (drop_first free ++ node_of f.segment ∷ []) (xs ++ node_of c ∷ [])
new_stack_segment-return t m free xs c descriptor value later full =
    let (r, runs, f) = new_stack_segment-FrameMoved t m free xs c descriptor full in
    let (q, back, (leaves, stacks, _)) =
      pop_stack_segment-back (record r.1 { words = later }) (drop_first free) xs c f.segment value
        f.stacks f.running full.high f.placed.high in
    (r, runs, (f, (q, back, (leaves ∙ ap (λ p. to_sender p value) f.left_at, stacks))))
