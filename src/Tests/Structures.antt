-- ===== src/Tests/Structures.antt =====
-- Lists of nodes, and the stack heap, at concrete inputs.
use slvm_native.Common.{
  ◌+◌, ◌&&◌, Bool, leb, refl, inl, true, false, ◌==◌, if◌then◌else◌, arith, List, [], ◌∷◌, ◌++◌,
  Returns,
}
use slvm_native.DataStructures.{Links, LinkedList, list_remove_node}
use slvm_native.DataStructures.Chain.{IsList}
use slvm_native.DataStructures.Removal.{Removed, remove_node-erase}
use slvm_native.Memory.{map_permissions, StackHeap, Mprotect, stack_heap_allocate}
use slvm_native.Memory.Bump.{IsHeap, IsBlock}
use slvm_native.Memory.Committed.{
  protection_at, HasCapacity, OpensReserved, IsCommitted, stack_heap_allocate-IsCommitted,
}

-- The nodes 10, 20 and 30, in this order.
abbrev three_nodes : Links
three_nodes = record {
  previous = λ p. if p == 20 then 10 else if p == 30 then 20 else 0;
  next = λ p. if p == 10 then 20 else if p == 20 then 30 else 0;
}

abbrev three_list : LinkedList
three_list = record { first = 10; last = 30 }

three_list-IsList : IsList three_nodes three_list (10 ∷ 20 ∷ 30 ∷ [])
three_list-IsList = record { chain = ground arith; distinct = ground arith }

remove_node-erase_example :
    Returns
      (list_remove_node three_list 20 three_nodes)
      (Removed three_nodes (10 ∷ []) 20 (30 ∷ []))
remove_node-erase_example =
    remove_node-erase three_nodes three_list (10 ∷ []) 20 (30 ∷ []) three_list-IsList

-- A heap at 65536 with 100 bytes in use and one page committed.
abbrev small_heap : StackHeap
small_heap = record {
  size = 100;
  flags = 1024;
  start = 65536;
  capacity = 1048576;
  commited_capacity = 4096;
  permissions = 3;
}

abbrev first_page : List Mprotect
first_page =
    record {
      address = 65536;
      bytes = 4096;
      protection = record { read = true; write = true; exec = false };
    }
    ∷ []

small_heap-IsHeap : IsHeap small_heap
small_heap-IsHeap = record {
  mapped = omega arith;
  at_page = refl;
  within = omega arith;
  whole_pages = refl;
}

-- The kernel accepts the calls inside of the megabyte at 65536, and no others.
abbrev accepts_inside : Mprotect → Bool
accepts_inside c = leb 65536 c.address && leb (c.address + c.bytes) 1114112

small_heap-HasCapacity : HasCapacity small_heap
small_heap-HasCapacity = record { whole = refl; reserved = omega arith }

accepts_inside-OpensReserved : OpensReserved accepts_inside small_heap
accepts_inside-OpensReserved c pages low high = ground arith

small_heap-IsCommitted : IsCommitted accepts_inside small_heap first_page
unfolding protection_at map_permissions
small_heap-IsCommitted i h = ground arith

stack_heap_allocate-IsCommitted_example : Returns (stack_heap_allocate small_heap 16 5000) λ r.
    IsBlock small_heap 16 5000 r
    × HasCapacity r.heap
    × IsCommitted accepts_inside r.heap (r.commits ++ first_page)
stack_heap_allocate-IsCommitted_example =
    stack_heap_allocate-IsCommitted accepts_inside small_heap 16 5000 first_page small_heap-IsHeap
      small_heap-HasCapacity (inl refl) (omega arith) accepts_inside-OpensReserved
      small_heap-IsCommitted (omega arith)
