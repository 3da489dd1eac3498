-- ===== src/ExecutionStack.antt =====
-- The segmented execution stack of src/memory.c: segments of one page with their header at the end,
-- in the list of the thread's segments or in the free list.
pub mod Segments
pub mod Allocating
pub mod Moving
pub mod Threads
pub mod Popping
use slvm_native.Common.{
  ℕ, ◌+◌, ◌-◌, Bool, Option, ◌==◌, if◌then◌else◌, List, [], ◌∷◌, ◌++◌, Outcome, ok, aborted, ◌>>=◌,
}
use slvm_native.Common.Words.{add_word, sub_word}
use slvm_native.DataStructures.{
  Links, LinkedList, set_previous, set_next, list_add_node, list_remove_node,
}
use slvm_native.Memory.{StackHeap, Mprotect, stack_heap_create, stack_heap_allocate}

-- `SLVM_ExecutionStackSegmentHeader`, but for its list node, which stands 48 bytes further.
pub record Segment : Type 0 where
  pub base_frame_pointer : ℕ
  pub segment_size : ℕ
  pub thread_data : ℕ
  pub link_pointer : ℕ
  pub frame_pointer : ℕ
  pub stack_pointer : ℕ

-- `SLVM_ThreadStackData`
pub record ThreadStackData : Type 0 where
  pub cstack_pointer : ℕ
  pub cframe_pointer : ℕ
  pub creturn_pointer : ℕ
  pub cextra_pointer : ℕ
  pub segment_list : LinkedList

-- The statics of the file with the objects that they lead to, by their addresses, the links of all
-- nodes, and the mprotect calls so far. `current` is `currentThreadStackData`.
pub record ExecutionStack : Type 0 where
  pub pool : StackHeap
  pub free_list : LinkedList
  pub current : ℕ
  pub segments : ℕ → Segment
  pub threads : ℕ → ThreadStackData
  pub links : Links
  pub calls : List Mprotect

abbrev pub segment_normal_size : ℕ
segment_normal_size = 4096

-- `sizeof(SLVM_ExecutionStackSegmentHeader)`, `sizeof(SLVM_LinkedListNode)`, and the offset of the
-- field `header`.
abbrev pub header_size : ℕ
header_size = 64

abbrev pub node_size : ℕ
node_size = 16

abbrev pub node_of : ℕ → ℕ
node_of segment = add_word segment 48

-- `(uint8_t*)node + sizeof(SLVM_LinkedListNode) - sizeof(SLVM_ExecutionStackSegmentHeader)`
abbrev pub segment_of : ℕ → ℕ
segment_of node = sub_word (add_word node node_size) header_size

abbrev pub blank_segment : Segment
blank_segment = record {
  base_frame_pointer = 0;
  segment_size = 0;
  thread_data = 0;
  link_pointer = 0;
  frame_pointer = 0;
  stack_pointer = 0;
}

abbrev pub blank_thread : ThreadStackData
blank_thread = record {
  cstack_pointer = 0;
  cframe_pointer = 0;
  creturn_pointer = 0;
  cextra_pointer = 0;
  segment_list = record { first = 0; last = 0 };
}

abbrev pub write_segment : (ℕ → Segment) → ℕ → Segment → ℕ → Segment
write_segment segments s segment t = if t == s then segment else segments t

abbrev pub write_thread : (ℕ → ThreadStackData) → ℕ → ThreadStackData → ℕ → ThreadStackData
write_thread threads s thread t = if t == s then thread else threads t

-- `slvm_ExecutionStack_initialize`: the pool, or the `abort` when there is no address space.
unfoldable pub initialize : (ℕ → Option ℕ) → Outcome StackHeap
initialize mmap =
    let (pool, created) = stack_heap_create mmap 67108864 3 in if created then ok pool else aborted

-- `slvm_ExecutionStack_getFirstSegment` and `_getLastSegment`: the address of the list node.
unfoldable pub get_first_segment : ExecutionStack → ℕ
get_first_segment e = if e.current == 0 then 0 else (e.threads e.current).segment_list.first

unfoldable pub get_last_segment : ExecutionStack → ℕ
get_last_segment e = if e.current == 0 then 0 else (e.threads e.current).segment_list.last

-- The header is cleared, its list node included, and the stack pointer set.
abbrev pub clear_segment : ExecutionStack → ℕ → ExecutionStack
clear_segment e s = record e {
  segments = write_segment e.segments s (record blank_segment { stack_pointer = s });
  links = set_next (set_previous e.links (node_of s) 0) (node_of s) 0;
}

-- The two branches of the allocation: the first node of the free list, or a new page.
unfoldable pub reuse_segment : ExecutionStack → ℕ → Outcome (ℕ × ExecutionStack)
reuse_segment e node = list_remove_node e.free_list node e.links >>= λ r.
    ok
      (segment_of node, clear_segment (record e { free_list = r.0; links = r.1 }) (segment_of node))

unfoldable pub fresh_segment : ExecutionStack → Outcome (ℕ × ExecutionStack)
fresh_segment e = stack_heap_allocate e.pool segment_normal_size segment_normal_size >>= λ a.
    let s = sub_word (add_word a.block segment_normal_size) header_size in
    ok (s, clear_segment (record e { pool = a.heap; calls = a.commits ++ e.calls }) s)

-- `slvm_ExecutionStack_allocateSegment`
unfoldable pub allocate_segment : ExecutionStack → Outcome (ℕ × ExecutionStack)
allocate_segment e =
    if e.free_list.first == 0 then fresh_segment e else reuse_segment e e.free_list.first

-- `slvm_list_addNode(&currentThreadStackData->segmentList, &segment->header)`
unfoldable pub add_to_thread : ExecutionStack → ℕ → Outcome ExecutionStack
add_to_thread e s =
    let thread = e.threads e.current in
    list_add_node thread.segment_list (node_of s) e.links >>= λ r. ok (record e {
      threads = write_thread e.threads e.current (record thread { segment_list = r.0 });
      links = r.1;
    })

-- A new segment of the current thread.
abbrev pub with_thread : ExecutionStack → ℕ → ExecutionStack
with_thread e s = record e {
  segments = write_segment e.segments s (record (e.segments s) { thread_data = e.current });
}

-- The thread data at the bottom of the first segment.
abbrev pub start_thread : ExecutionStack → ℕ → ExecutionStack
start_thread e s =
    let bottom = sub_word (e.segments s).stack_pointer 48 in
    record e {
      segments =
          write_segment e.segments s
            (record (e.segments s) { stack_pointer = bottom; thread_data = bottom });
      current = bottom;
      threads = write_thread e.threads bottom blank_thread;
    }

-- What `slvm_ExecutionStack_getValidSegment` does with the new segment.
unfoldable pub valid_segment : ℕ → ExecutionStack → Outcome (ℕ × ExecutionStack)
valid_segment s made =
    (if get_first_segment made == 0
      then ok (start_thread made s)
      else if made.current == 0
      then aborted
      else ok (with_thread made s))
    >>= λ threaded. add_to_thread threaded s >>= λ added. ok (s, added)

-- `slvm_ExecutionStack_getValidSegment`
unfoldable pub get_valid_segment : ExecutionStack → Outcome (ℕ × ExecutionStack)
get_valid_segment e =
    if get_last_segment e == 0
    then (allocate_segment e >>= λ r. valid_segment r.0 r.1)
    else ok (get_last_segment e, e)

-- `slvm_ExecutionStack_createNewSegment`
unfoldable pub create_new_segment : ExecutionStack → Outcome (ℕ × ExecutionStack)
create_new_segment e =
    if e.current == 0
    then aborted
    else (allocate_segment e >>= λ r.
        let (s, made) = r in add_to_thread (with_thread made s) s >>= λ added. ok (s, added))

-- The thread after its list of segments became `list`: gone when that is empty.
abbrev pub shortened : ExecutionStack → LinkedList → Links → ExecutionStack
shortened e list m = record e {
  threads = write_thread e.threads e.current (record (e.threads e.current) { segment_list = list });
  links = m;
  current = if list.first == 0 then 0 else e.current;
}

-- `slvm_ExecutionStack_popSegment`; without a thread the code reads through NULL.
unfoldable pub pop_segment : ExecutionStack → ℕ → Outcome ExecutionStack
pop_segment e s =
    if e.current == 0
    then aborted
    else (list_remove_node (e.threads e.current).segment_list (node_of s) e.links >>= λ r.
        list_add_node e.free_list (node_of s) r.1 >>= λ f.
        ok (record (shortened e r.0 f.1) { free_list = f.0 }))
