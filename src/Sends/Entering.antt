-- ===== src/Sends/Entering.antt =====
-- The first Smalltalk activation of a C thread: the message's arguments on a new stack segment.
use slvm_native.Common.{
  ℕ, ◌+◌, ◌-◌, ◌*◌, ◌/◌, ◌%◌, ◌^◌, ◌≤◌, ◌<◌, ◌≡◌, ◌⊎◌, inl, refl, sym, ◌∙◌, ap, arith, List, [],
  ◌∷◌, Outcome, ok, ◌>>=◌, bind_ok, eq→==,
}
use slvm_native.Common.Words.{add_word, sub_word}
use slvm_native.Memory.Bump.{align_word_lem}
use slvm_native.ExecutionStack.{ExecutionStack, node_of, pop_segment}
use slvm_native.ExecutionStack.Segments.{IsStacks, HasRoom, write_segment_lem}
use slvm_native.ExecutionStack.Allocating.{drop_first, IsPlaced}
use slvm_native.ExecutionStack.Threads.{get_valid_segment-start}
use slvm_native.Sends.{
  Machine, Activation, returns, Runtime, Metadata, converted_metadata, copy_words, move_stack,
  total_argument_size, push_c_arguments, pop_base, enter_smalltalk,
}
use slvm_native.Sends.Frames.{copy_words_lem, write_word_same, write_word_other}

-- The bytes of the receiver and the arguments, in whole pairs of words.
total_argument_size_lem :
    (d : Metadata)
    → d.oop_count < 2 ^ 16
    → d.native_size < 2 ^ 16
    → (total_argument_size d % 16 ≡ 0)
      × ((d.oop_count + 1) * 8 + d.native_size ≤ total_argument_size d)
      × (total_argument_size d < (d.oop_count + 1) * 8 + d.native_size + 16)
unfolding total_argument_size
total_argument_size_lem d h k =
    align_word_lem ((d.oop_count + 1) * 8 + d.native_size) 16 (inl refl) (omega arith)

converted_metadata_bounds :
    (words : ℕ → ℕ) (sp : ℕ)
    → ((converted_metadata words sp).oop_count < 2 ^ 16)
      × ((converted_metadata words sp).native_size < 2 ^ 16)
unfolding converted_metadata
converted_metadata_bounds words sp = (omega arith, omega arith)

-- The stack of the segment `s` when Smalltalk begins to run: the trampoline back to C on top, then
-- the `bytes` bytes from `source` on, the receiver first, up to `bottom`; no other word has changed.
pub record IsEntered (t : Runtime) (m : Machine) (source bytes bottom s : ℕ) (n : Machine)
    : Type 0 where
  pub top : ℕ
  pub stack_is : (n.stack.segments s).stack_pointer ≡ top
  pub reaches : top + 8 + bytes ≡ bottom
  pub way_back : n.words top ≡ t.return_to_c
  pub arguments : (i : ℕ) → i < bytes / 8 → n.words (top + 8 + 8 * i) ≡ m.words (source + 8 * i)
  pub others : (a : ℕ) → (a < top) ⊎ (bottom ≤ a) → n.words a ≡ m.words a

-- The C frame from `source` on lies outside the pool, as far as it may grow.
abbrev pub OutsidePool : ExecutionStack → ℕ → ℕ → Type 0
OutsidePool e source bytes =
    (source + bytes ≤ e.pool.start) ⊎ (e.pool.start + e.pool.size + 16384 ≤ source)

push_c_arguments-IsEntered :
    (t : Runtime) (sp s : ℕ) (m : Machine) (e : ExecutionStack) (bottom : ℕ)
    → (e.segments s).stack_pointer ≡ bottom
    → bottom < 2 ^ 64
    → total_argument_size (converted_metadata m.words sp) + 8 ≤ bottom
    → sp + 32 + total_argument_size (converted_metadata m.words sp) < 2 ^ 64
    → (sp
          + 32
          + total_argument_size (converted_metadata m.words sp)
          + total_argument_size (converted_metadata m.words sp)
        ≤ bottom)
      ⊎ (bottom ≤ sp + 32)
    → IsEntered t m
        (sp + 32)
        (total_argument_size (converted_metadata m.words sp))
        bottom
        s
        (push_c_arguments t sp s m e)
unfolding push_c_arguments
push_c_arguments-IsEntered t sp s m e bottom place high fits room apart =
    let total = total_argument_size (converted_metadata m.words sp) in
    let (c, n) = converted_metadata_bounds m.words sp in
    let (whole, _, _) = total_argument_size_lem (converted_metadata m.words sp) c n in
    let args = sub_word (e.segments s).stack_pointer total in
    let arguments_is : args ≡ bottom - total = ap (λ p. sub_word p total) place ∙ omega arith in
    let top_is : sub_word args 8 + 8 ≡ args = omega (arith, arguments_is) in
    let source_is : add_word sp 32 ≡ sp + 32 = omega arith in
    let (inside, outside) =
      copy_words_lem (total / 8) m.words args (add_word sp 32) (omega (arith, arguments_is))
        (omega (arith, source_is)) (omega (arith, arguments_is, source_is)) in
    let copied = copy_words m.words args (add_word sp 32) (total / 8) in
    let top = sub_word args 8 in
    record {
      top = top;
      stack_is = ap (λ g. g.stack_pointer) (write_segment_lem e.segments s _);
      reaches = omega (arith, top_is, arguments_is);
      way_back = write_word_same copied top t.return_to_c top refl;
      arguments = λ i h.
          write_word_other copied top t.return_to_c (top + 8 + 8 * i) (omega arith)
          ∙ ap copied (omega (arith, top_is))
          ∙ inside i h
          ∙ ap m.words (omega (arith, source_is));
      others = λ a out.
          write_word_other copied top t.return_to_c a (omega (arith, top_is))
          ∙ outside a (omega (arith, top_is, arguments_is));
    }

move_stack-IsStacks :
    (e : ExecutionStack) (free used : List ℕ) (s p : ℕ)
    → IsStacks e free used
    → IsStacks (move_stack e s p) free used
move_stack-IsStacks e free used s p is = record {
  pool = is.pool;
  requested = is.requested;
  free_is = is.free_is;
  used_is = is.used_is;
  apart = is.apart;
  free_nodes = is.free_nodes;
  used_nodes = is.used_nodes;
}

push_c_arguments-IsStacks :
    (t : Runtime) (sp s : ℕ) (m : Machine) (e : ExecutionStack) (free used : List ℕ)
    → IsStacks e free used
    → IsStacks (push_c_arguments t sp s m e).stack free used
unfolding push_c_arguments
push_c_arguments-IsStacks t sp s m e free used is = move_stack-IsStacks e free used s _ is

-- The switch to Smalltalk at the end of the segment `s`, and after it the end of the thread.
abbrev pub switch_and_pop : Runtime → ℕ → ℕ → Machine → Outcome (Activation × Machine)
switch_and_pop t s entry n = t.switch_to_smalltalk (add_word s 64) entry n >>= λ r.
    pop_segment r.1.stack s >>= λ popped. ok (returns r.0, record r.1 { stack = popped })

pop_base_started :
    (e : ExecutionStack) (s result : ℕ) (after : Machine)
    → (e.segments s).stack_pointer ≡ (e.segments s).thread_data
    → pop_base e s result after ≡ (
        pop_segment after.stack s >>= λ popped.
        ok (returns result, record after { stack = popped }))
unfolding pop_base
pop_base_started e s result after same =
    rw (eq→== (e.segments s).stack_pointer (e.segments s).thread_data same) refl

-- What the C side prepares for the method.
pub record Prepared (t : Runtime) (sp entry : ℕ) (m : Machine) (free : List ℕ) : Type 0 where
  pub segment : ℕ
  pub machine : Machine
  pub placed : IsPlaced m.stack.pool segment
  pub entered :
      IsEntered t m
        (sp + 32)
        (total_argument_size (converted_metadata m.words sp))
        (segment - 48)
        segment
        machine
  pub stacks : IsStacks machine.stack (drop_first free) (node_of segment ∷ [])
  pub runs : enter_smalltalk t sp entry m ≡ switch_and_pop t segment entry machine

-- A send from C, by a thread without a stack, of a Smalltalk method, when the message's receiver and
-- arguments fit in a segment and lie outside the pool and all below the end of the address space:
-- Smalltalk runs from `entry` on a new segment of the pool, the only one of the thread, whose stack
-- holds the address of the way back to C and then the receiver and all arguments in their order;
-- when it comes back the segment is popped and its result is the send's.
pub enter_smalltalk-Prepared :
    (t : Runtime) (sp entry : ℕ) (m : Machine) (free : List ℕ)
    → IsStacks m.stack free []
    → HasRoom m.stack
    → m.stack.current ≡ 0
    → total_argument_size (converted_metadata m.words sp) + 8 ≤ 3984
    → sp + 32 + total_argument_size (converted_metadata m.words sp) < 2 ^ 64
    → OutsidePool m.stack (sp + 32) (total_argument_size (converted_metadata m.words sp))
    → Prepared t sp entry m free
unfolding enter_smalltalk
enter_smalltalk-Prepared t sp entry m free is room none fits high outside =
    let ((s, e), got, started) = get_valid_segment-start m.stack free is room none in
    let place = started.placed in
    let bottom : (e.segments s).stack_pointer ≡ s - 48 =
      started.below_thread ∙ omega (arith, started.thread) in
    record {
      segment = s;
      machine = push_c_arguments t sp s m e;
      placed = place;
      entered =
          push_c_arguments-IsEntered t sp s m e (s - 48) bottom (omega (arith, place.high))
            (omega (arith, place.above)) high (omega (arith, place.above, place.below, outside));
      stacks =
          push_c_arguments-IsStacks t sp s m e (drop_first free) (node_of s ∷ []) started.stacks;
      runs = bind_ok _ got ∙ λ i.
          t.switch_to_smalltalk (add_word s 64) entry (push_c_arguments t sp s m e) >>= λ r.
          pop_base_started e s r.0 r.1 (started.below_thread ∙ sym started.has_thread) i;
    }
