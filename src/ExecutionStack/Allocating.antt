-- ===== src/ExecutionStack/Allocating.antt =====
-- slvm_ExecutionStack_allocateSegment: the first free segment, or a new page of the pool.
use slvm_native.Common.{
  ℕ, ◌+◌, ◌^◌, ◌≤◌, ◌<◌, ◌≡◌, ◌≢◌, inr, refl, sym, subst, false, arith, List, [], ◌∷◌, ◌++◌,
  Returns, Returns_bind, Returns_eq, ne→==, ap, ◌∙◌,
}
use slvm_native.Common.Words.{add_word, sub_word}
use slvm_native.DataStructures.Chain.{has}
use slvm_native.DataStructures.Removal.{remove_node-erase}
use slvm_native.Memory.{StackHeap}
use slvm_native.Memory.Bump.{stack_heap_allocate-IsBlock}
use slvm_native.ExecutionStack.{
  ExecutionStack, node_of, segment_of, clear_segment, reuse_segment, fresh_segment,
  allocate_segment,
}
use slvm_native.ExecutionStack.Segments.{
  write_segment_lem, write_segment_other, Nodes-grown, not_has_above, not_has_of_Apart_right,
  IsNode, IsNode-bounds, IsStacks, HasRoom, IsList-frame, outside, node_of_lem, segment_of_lem,
}

abbrev pub drop_first : List ℕ → List ℕ
drop_first [] = []
drop_first (x ∷ xs) = xs

-- A segment's header ends a page that lies in the pool, or in its next two pages.
pub record IsPlaced (pool : StackHeap) (s : ℕ) : Type 0 where
  pub above : pool.start + 4032 ≤ s
  pub below : s + 64 ≤ pool.start + pool.size + 8192
  pub high : s + 64 < 2 ^ 64

-- The first free segment if there is one, and a page behind the used part of the pool if not.
abbrev pub IsFirstOf : ExecutionStack → List ℕ → ℕ × ExecutionStack → Type 0
IsFirstOf e [] r =
    (e.pool.start + e.pool.size + 4032 ≤ r.0) × (r.0 + 64 ≡ r.1.pool.start + r.1.pool.size)
IsFirstOf e (n ∷ rest) r = (node_of r.0 ≡ n) × (r.1.pool ≡ e.pool)

-- What the allocation gives: a segment in neither list, with an empty stack.
pub record IsAllocated (e : ExecutionStack) (free used : List ℕ) (r : ℕ × ExecutionStack)
    : Type 0 where
  pub first : IsFirstOf e free r
  pub node : IsNode r.1.pool (node_of r.0)
  pub not_free : has (node_of r.0) (drop_first free) ≡ false
  pub not_used : has (node_of r.0) used ≡ false
  pub stacks : IsStacks r.1 (drop_first free) used
  pub same_current : r.1.current ≡ e.current
  pub same_threads : r.1.threads ≡ e.threads
  pub empty : (r.1.segments r.0).stack_pointer ≡ r.0
  pub placed : IsPlaced e.pool r.0
  pub others : (t : ℕ) → t ≢ r.0 → r.1.segments t ≡ e.segments t

clear_segment-IsStacks :
    (e : ExecutionStack) (free used : List ℕ) (s : ℕ)
    → IsStacks e free used
    → has (node_of s) free ≡ false
    → has (node_of s) used ≡ false
    → IsStacks (clear_segment e s) free used
clear_segment-IsStacks e free used s is out out' = record {
  pool = is.pool;
  requested = is.requested;
  free_is = outside e.links e.free_list free (node_of s) 0 0 out is.free_is;
  used_is = outside e.links _ used (node_of s) 0 0 out' is.used_is;
  apart = is.apart;
  free_nodes = is.free_nodes;
  used_nodes = is.used_nodes;
}

allocate_reuse :
    (e : ExecutionStack) (n : ℕ)
    → e.free_list.first ≡ n
    → n ≢ 0
    → allocate_segment e ≡ reuse_segment e n
unfolding allocate_segment
allocate_reuse e n same ne =
    let there : e.free_list.first ≢ 0 = λ z. ne (sym same ∙ z) in
    rw (ne→== e.free_list.first 0 there) (ap (reuse_segment e) same)

allocate_fresh : (e : ExecutionStack) → e.free_list.first ≡ 0 → allocate_segment e ≡ fresh_segment e
unfolding allocate_segment
allocate_fresh e same = ground arith

-- A free segment is used again.
allocate_segment_free :
    (e : ExecutionStack) (n : ℕ) (rest used : List ℕ)
    → IsStacks e (n ∷ rest) used
    → HasRoom e
    → Returns (allocate_segment e) (IsAllocated e (n ∷ rest) used)
unfolding reuse_segment
allocate_segment_free e n rest used is room =
    let (first_is, ne, _, _) = is.free_is.chain in
    let node = is.free_nodes n (ground arith) in
    let (low, high) = IsNode-bounds e n node room in
    let base = segment_of_lem n (omega arith) high in
    let same : node_of (segment_of n) ≡ n = node_of_lem (segment_of n) (omega arith) ∙ base in
    let out : has n used ≡ false = is.apart.0 in
    Returns_eq (allocate_reuse e n first_is ne) (
      Returns_bind _ (remove_node-erase e.links e.free_list [] n rest is.free_is)
        λ r (list, _, _, others).
          let cut : IsStacks (record e { free_list = r.0; links = r.1 }) rest used = record {
            pool = is.pool;
            requested = is.requested;
            free_is = list;
            used_is =
                IsList-frame e.links r.1 _ used
                  (λ y h. others y (not_has_of_Apart_right y (n ∷ rest) used is.apart h))
                  is.used_is;
            apart = is.apart.1;
            free_nodes = λ y h. is.free_nodes y (ground arith);
            used_nodes = is.used_nodes;
          } in
          (
            _,
            refl,
            record {
              first = (same, refl);
              node = subst (IsNode e.pool) (sym same) node;
              not_free = rw same is.free_is.distinct.0;
              not_used = rw same out;
              stacks =
                  clear_segment-IsStacks _ rest used (segment_of n) cut
                    (rw same is.free_is.distinct.0) (rw same out);
              same_current = refl;
              same_threads = refl;
              empty = ap (λ t. t.stack_pointer) (write_segment_lem e.segments (segment_of n) _);
              others = λ t ne. write_segment_other e.segments (segment_of n) t _ ne;
              placed = record {
                above = omega (arith, base, node.above);
                below = omega (arith, base, node.below);
                high = omega (arith, base);
              };
            },
          ))

-- The numbers of a new page: the segment's header and its node end the page.
page_end_lem :
    (block : ℕ) → block + 4096 < 2 ^ 64 → sub_word (add_word block 4096) 64 ≡ block + 4032
page_end_lem block h = omega arith

-- Without free segments the pool gives a page.
allocate_segment_fresh :
    (e : ExecutionStack) (used : List ℕ)
    → IsStacks e [] used
    → HasRoom e
    → Returns (allocate_segment e) (IsAllocated e [] used)
unfolding fresh_segment
allocate_segment_fresh e used is room =
    let first_is = is.free_is.chain.0 in
    Returns_eq (allocate_fresh e first_is) (
      Returns_bind _
        (stack_heap_allocate-IsBlock e.pool 4096 4096 e.calls is.pool is.requested (inr refl)
          (omega arith))
        λ a (block, requested).
          let s = sub_word (add_word a.block 4096) 64 in
          let place : s ≡ a.block + 4032 = page_end_lem a.block (omega (arith, block.tight)) in
          let node_is : node_of s ≡ a.block + 4080 =
            node_of_lem s (omega (arith, place, block.tight)) ∙ omega (arith, place) in
          let node : IsNode a.heap (node_of s) = record {
            at_end = omega (arith, node_is, block.aligned);
            above = omega (arith, node_is, block.above, block.same_start);
            below = omega (arith, node_is, block.ends, block.same_start);
          } in
          let out : has (node_of s) used ≡ false =
            not_has_above e.pool used (node_of s) is.used_nodes
              (omega (arith, node_is, block.above)) in
          let more : IsStacks (record e { pool = a.heap; calls = a.commits ++ e.calls }) [] used =
            record {
              pool = block.valid;
              requested = requested;
              free_is = is.free_is;
              used_is = is.used_is;
              apart = tt;
              free_nodes = λ n h. ground arith;
              used_nodes =
                  Nodes-grown e.pool a.heap used block.same_start
                    (omega (arith, block.above, block.ends, block.same_start)) is.used_nodes;
            } in
          (
            _,
            refl,
            record {
              first = (
                omega (arith, place, block.above),
                omega (arith, place, block.ends, block.same_start),
              );
              node = node;
              not_free = refl;
              not_used = out;
              stacks = clear_segment-IsStacks _ [] used s more refl out;
              same_current = refl;
              same_threads = refl;
              empty = ap (λ t. t.stack_pointer) (write_segment_lem e.segments s _);
              others = λ t ne. write_segment_other e.segments s t _ ne;
              placed = record {
                above = omega (arith, place, block.above);
                below = omega (arith, place, block.tight);
                high = omega (arith, place, block.tight);
              };
            },
          ))

pub allocate_segment-IsStacks :
    (e : ExecutionStack) (free used : List ℕ)
    → IsStacks e free used
    → HasRoom e
    → Returns (allocate_segment e) (IsAllocated e free used)
allocate_segment-IsStacks e [] used is room = allocate_segment_fresh e used is room
allocate_segment-IsStacks e (n ∷ rest) used is room = allocate_segment_free e n rest used is room
