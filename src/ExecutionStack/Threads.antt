-- ===== src/ExecutionStack/Threads.antt =====
-- The first and the last segment of a thread: the start of its thread data and its end.
use slvm_native.Common.{
  ℕ, ◌+◌, ◌-◌, ◌^◌, ◌≤◌, ◌<◌, ◌≡◌, ◌≢◌, inl, inr, refl, sym, subst, false, ◌==◌, arith, List, [],
  ◌∷◌, ◌++◌, ok, ◌>>=◌, Returns, Returns_bind, Returns_eq, ne→==, ==_refl, ap, ◌∙◌, Bool-cases,
}
use slvm_native.Common.Words.{sub_word}
use slvm_native.DataStructures.{Links}
use slvm_native.DataStructures.Chain.{has, IsList}
use slvm_native.Memory.{StackHeap}
use slvm_native.ExecutionStack.{
  ExecutionStack, node_of, start_thread, valid_segment, add_to_thread, allocate_segment,
  get_valid_segment, get_first_segment, get_last_segment,
}
use slvm_native.ExecutionStack.Segments.{
  last_of_append, thread_list, IsNode, IsStacks, HasRoom, node_of_lem, write_segment_lem,
}
use slvm_native.ExecutionStack.Allocating.{IsPlaced, drop_first, allocate_segment-IsStacks}
use slvm_native.ExecutionStack.Moving.{thread_list_running, add_to_thread-IsStacks}

-- A thread that has just started has no segment yet.
just_started :
    (e : ExecutionStack) (s : ℕ) → thread_list (start_thread e s) ≡ record { first = 0; last = 0 }
just_started e s =
    let bottom = sub_word (e.segments s).stack_pointer 48 in
    elim (Bool-cases (bottom == 0)) [
      | inl zero_is ↦ rw zero_is refl
      | inr there ↦ rw (there, ==_refl bottom) refl
    ]

-- Without a thread the list of its segments is empty.
no_thread_list :
    (e : ExecutionStack) (m : Links) (used : List ℕ)
    → e.current ≡ 0
    → IsList m (thread_list e) used
    → IsList m (record { first = 0; last = 0 }) used
no_thread_list e m used none is = subst (λ l. IsList m l used) (ground arith) is

start_thread-IsStacks :
    (e : ExecutionStack) (free used : List ℕ) (s : ℕ)
    → e.current ≡ 0
    → IsStacks e free used
    → IsStacks (start_thread e s) free used
start_thread-IsStacks e free used s none is = record {
  pool = is.pool;
  requested = is.requested;
  free_is = is.free_is;
  used_is =
      subst (λ l. IsList e.links l used) (sym (just_started e s))
        (no_thread_list e e.links used none is.used_is);
  apart = is.apart;
  free_nodes = is.free_nodes;
  used_nodes = is.used_nodes;
}

-- The numbers of the first segment.
start_lem : (s : ℕ) → 4032 ≤ s → s < 2 ^ 64 → (sub_word s 48 ≡ s - 48) × (sub_word s 48 ≢ 0)
start_lem s low high = (omega arith, omega arith)

get_valid_segment_none :
    (e : ExecutionStack)
    → e.current ≡ 0
    → get_valid_segment e ≡ (allocate_segment e >>= λ r. valid_segment r.0 r.1)
unfolding get_valid_segment get_last_segment
get_valid_segment_none e none = rw none refl

valid_segment_none :
    (e : ExecutionStack) (s : ℕ)
    → e.current ≡ 0
    → valid_segment s e ≡ (add_to_thread (start_thread e s) s >>= λ added. ok (s, added))
unfolding valid_segment get_first_segment
valid_segment_none e s none = rw none refl

-- The thread starts in the segment `s`: it is the only one, the thread's data takes the 48 bytes
-- below its header, and the stack goes on below those.
pub record Started (pool : StackHeap) (free : List ℕ) (r : ℕ × ExecutionStack) : Type 0 where
  pub placed : IsPlaced pool r.0
  pub stacks : IsStacks r.1 free (node_of r.0 ∷ [])
  pub thread : r.1.current + 48 ≡ r.0
  pub below_thread : (r.1.segments r.0).stack_pointer ≡ r.1.current
  pub has_thread : (r.1.segments r.0).thread_data ≡ r.1.current

valid_segment-start :
    (pool : StackHeap) (e : ExecutionStack) (free : List ℕ) (s : ℕ)
    → IsStacks e free []
    → IsNode e.pool (node_of s)
    → has (node_of s) free ≡ false
    → e.current ≡ 0
    → (e.segments s).stack_pointer ≡ s
    → IsPlaced pool s
    → Returns (valid_segment s e) (Started pool free)
valid_segment-start pool e free s is node out none empty placed =
    let (down, ne) = start_lem s (omega (arith, placed.above)) (omega (arith, placed.high)) in
    let bottom : sub_word (e.segments s).stack_pointer 48 ≡ sub_word s 48 =
      ap (λ p. sub_word p 48) empty in
    let running : (start_thread e s).current ≢ 0 = λ z. ne (sym bottom ∙ z) in
    Returns_eq (valid_segment_none e s none) (
      Returns_bind _
        (add_to_thread-IsStacks (start_thread e s) free [] s
          (start_thread-IsStacks e free [] s none is) running node out refl)
        λ d (stacks, current, segments).
          let written = ap (λ f. f s) segments ∙ write_segment_lem e.segments s _ in
          let here : d.current ≡ sub_word s 48 = current ∙ bottom in
          (
            _,
            refl,
            record {
              placed = placed;
              stacks = stacks;
              thread = omega (arith, here, placed.above, placed.high);
              below_thread = ap (λ t. t.stack_pointer) written ∙ sym current;
              has_thread = ap (λ t. t.thread_data) written ∙ sym current;
            },
          ))

-- Without a thread, below the end of the address space, the call starts one: it returns a segment
-- that was not in use, which becomes the thread's only segment, with the thread's data in the 48
-- bytes below its header and the stack below those.
pub get_valid_segment-start :
    (e : ExecutionStack) (free : List ℕ)
    → IsStacks e free []
    → HasRoom e
    → e.current ≡ 0
    → Returns (get_valid_segment e) (Started e.pool (drop_first free))
get_valid_segment-start e free is room none = Returns_eq (get_valid_segment_none e none) (
    Returns_bind _ (allocate_segment-IsStacks e free [] is room) λ (s, made) a.
      valid_segment-start e.pool made (drop_first free) s a.stacks a.node a.not_free
        (a.same_current ∙ none) a.empty a.placed)

get_valid_segment_last :
    (e : ExecutionStack) (n : ℕ) → get_last_segment e ≡ n → n ≢ 0 → get_valid_segment e ≡ ok (n, e)
unfolding get_valid_segment
get_valid_segment_last e n same ne =
    let there : get_last_segment e ≢ 0 = λ z. ne (sym same ∙ z) in
    rw (ne→== (get_last_segment e) 0 there) (ap (λ t. ok (t, e)) same)

get_last_segment_running :
    (e : ExecutionStack)
    → e.current ≢ 0
    → get_last_segment e ≡ (e.threads e.current).segment_list.last
unfolding get_last_segment
get_last_segment_running e busy = rw (ne→== e.current 0 busy) refl

-- With a running thread the call returns the list node of its last segment, and not the segment,
-- whose header starts 48 bytes below.
pub get_valid_segment-node :
    (e : ExecutionStack) (free xs : List ℕ) (s : ℕ)
    → IsStacks e free (xs ++ node_of s ∷ [])
    → e.current ≢ 0
    → s + 48 < 2 ^ 64
    → get_valid_segment e ≡ ok (s + 48, e)
get_valid_segment-node e free xs s is busy high =
    let last : (e.threads e.current).segment_list.last ≡ s + 48 =
      last_of_append e.links (e.threads e.current).segment_list xs (node_of s) (
        subst (λ l. IsList e.links l (xs ++ node_of s ∷ [])) (thread_list_running e busy)
          is.used_is)
      ∙ node_of_lem s high in
    get_valid_segment_last e (s + 48) (get_last_segment_running e busy ∙ last) (omega arith)
