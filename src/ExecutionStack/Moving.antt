-- ===== src/ExecutionStack/Moving.antt =====
-- The segments of a thread: taken when it starts or needs one more, given back when popped.
use slvm_native.Common.{
  ℕ, ◌≡◌, ◌≢◌, refl, sym, subst, false, arith, List, [], ◌∷◌, ◌++◌, Returns, Returns_bind, ne→==,
  ap, ◌∙◌,
}
use slvm_native.DataStructures.Chain.{has, IsList, Apart, has-append}
use slvm_native.DataStructures.Update.{add_node-append}
use slvm_native.ExecutionStack.{
  ExecutionStack, node_of, write_thread, with_thread, add_to_thread, create_new_segment,
}
use slvm_native.ExecutionStack.Segments.{
  untouched, Nodes-append, thread_list, IsNode, IsStacks, HasRoom, write_segment_lem,
  write_segment_other, write_thread_lem,
}
use slvm_native.ExecutionStack.Allocating.{IsPlaced, drop_first, allocate_segment-IsStacks}

-- The running thread's list.
pub thread_list_running :
    (e : ExecutionStack) → e.current ≢ 0 → thread_list e ≡ (e.threads e.current).segment_list
thread_list_running e busy = rw (ne→== e.current 0 busy) refl

pub Apart-extend :
    (xs ys : List ℕ) (n : ℕ) → Apart xs ys → has n xs ≡ false → Apart xs (ys ++ n ∷ [])
Apart-extend [] ys n apart out = tt
Apart-extend (x ∷ xs) ys n (new, apart) out =
    (ground (arith, has-append x ys (n ∷ [])), Apart-extend xs ys n apart (ground arith))

-- Adding a segment outside both lists to the running thread.
pub add_to_thread-IsStacks :
    (e : ExecutionStack) (free used : List ℕ) (s : ℕ)
    → IsStacks e free used
    → e.current ≢ 0
    → IsNode e.pool (node_of s)
    → has (node_of s) free ≡ false
    → has (node_of s) used ≡ false
    → Returns (add_to_thread e s) λ d.
      IsStacks d free (used ++ node_of s ∷ []) × (d.current ≡ e.current) × (d.segments ≡ e.segments)
unfolding add_to_thread
add_to_thread-IsStacks e free used s is busy node out out' =
    let running = thread_list_running e busy in
    let list = subst (λ l. IsList e.links l used) running is.used_is in
    Returns_bind _
      (add_node-append e.links (e.threads e.current).segment_list used (node_of s) list
        (omega (arith, node.at_end)) out')
      λ r (added, others).
        let d = record e {
          threads =
              write_thread e.threads e.current
                (record (e.threads e.current) { segment_list = r.0 });
          links = r.1;
        } in
        let now : thread_list d ≡ r.0 =
          thread_list_running d busy
          ∙ ap (λ t. t.segment_list) (write_thread_lem e.threads e.current _) in
        (
          d,
          refl,
          (
            record {
              pool = is.pool;
              requested = is.requested;
              free_is =
                  untouched e.links r.1 e.free_list free _
                    (Apart-extend free used (node_of s) is.apart out) others is.free_is;
              used_is = subst (λ l. IsList r.1 l (used ++ node_of s ∷ [])) (sym now) added;
              apart = Apart-extend free used (node_of s) is.apart out;
              free_nodes = is.free_nodes;
              used_nodes = Nodes-append e.pool used (node_of s) is.used_nodes node;
            },
            refl,
            refl,
          ),
        )

-- Setting the thread data of a segment.
with_thread-IsStacks :
    (e : ExecutionStack) (free used : List ℕ) (s : ℕ)
    → IsStacks e free used
    → IsStacks (with_thread e s) free used
with_thread-IsStacks e free used s is = record {
  pool = is.pool;
  requested = is.requested;
  free_is = is.free_is;
  used_is = is.used_is;
  apart = is.apart;
  free_nodes = is.free_nodes;
  used_nodes = is.used_nodes;
}

-- The thread has one more segment.
pub record Created (e : ExecutionStack) (free used : List ℕ) (r : ℕ × ExecutionStack) : Type 0 where
  pub stacks : IsStacks r.1 (drop_first free) (used ++ node_of r.0 ∷ [])
  pub placed : IsPlaced e.pool r.0
  pub new : has (node_of r.0) used ≡ false
  pub same_current : r.1.current ≡ e.current
  pub empty : (r.1.segments r.0).stack_pointer ≡ r.0
  pub has_thread : (r.1.segments r.0).thread_data ≡ e.current
  pub others : (t : ℕ) → t ≢ r.0 → r.1.segments t ≡ e.segments t

-- A running thread takes one more segment below the end of the address space: the call returns a
-- segment that was not in use, puts it behind the thread's segments, takes it off the free list if
-- it came from there, leaves its stack empty, makes it point to the thread, and writes to no other
-- segment.
pub create_new_segment-Created :
    (e : ExecutionStack) (free used : List ℕ)
    → IsStacks e free used
    → HasRoom e
    → e.current ≢ 0
    → Returns (create_new_segment e) (Created e free used)
unfolding create_new_segment
create_new_segment-Created e free used is room busy = rw (ne→== e.current 0 busy) (
    Returns_bind _ (allocate_segment-IsStacks e free used is room) λ (s, made) a.
      let busy' : made.current ≢ 0 = λ z. busy (sym a.same_current ∙ z) in
      Returns_bind _
        (add_to_thread-IsStacks (with_thread made s) (drop_first free) used s
          (with_thread-IsStacks made _ used s a.stacks) busy' a.node a.not_free a.not_used)
        λ d (stacks, current, segments).
          let written = ap (λ f. f s) segments ∙ write_segment_lem made.segments s _ in
          (
            _,
            refl,
            record {
              stacks = stacks;
              placed = a.placed;
              new = a.not_used;
              same_current = current ∙ a.same_current;
              empty = ap (λ t. t.stack_pointer) written ∙ a.empty;
              has_thread = ap (λ t. t.thread_data) written ∙ a.same_current;
              others = λ t ne.
                  ap (λ f. f t) segments
                  ∙ write_segment_other made.segments s t _ ne
                  ∙ a.others t ne;
            },
          ))
