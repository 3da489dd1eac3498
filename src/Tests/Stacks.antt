-- ===== src/Tests/Stacks.antt =====
-- The execution stack at concrete inputs.
use slvm_native.Common.{ℕ, ◌≡◌, refl, inl, ◌==◌, arith, [], ◌∷◌, ok, Returns, true, false, ◌||◌}
use slvm_native.Memory.{map_permissions}
use slvm_native.ExecutionStack.{
  ExecutionStack, blank_segment, blank_thread, create_new_segment, get_valid_segment, pop_segment,
}
use slvm_native.ExecutionStack.Segments.{IsStacks, IsNode}
use slvm_native.ExecutionStack.Moving.{Created, create_new_segment-Created}
use slvm_native.ExecutionStack.Threads.{Started, get_valid_segment-start, get_valid_segment-node}
use slvm_native.ExecutionStack.Popping.{pop_segment-IsStacks}

-- Two pages of a pool at 65536 in use: the segment 69568, with its node at 69616, belongs to the
-- thread whose data is at 69520, and the segment 73664, with its node at 73712, is free.
abbrev pub two_segments : ExecutionStack
two_segments = record {
  pool = record {
    size = 8192;
    flags = 0;
    start = 65536;
    capacity = 67108864;
    commited_capacity = 8192;
    permissions = 3;
  };
  free_list = record { first = 73712; last = 73712 };
  current = 69520;
  segments = λ s. record blank_segment { stack_pointer = 69000 };
  threads = λ t. record blank_thread { segment_list = record { first = 69616; last = 69616 } };
  links = record { previous = λ n. 0; next = λ n. 0 };
  calls = record { address = 65536; bytes = 8192; protection = map_permissions 3 } ∷ [];
}

two_segments_nodes :
    (n k : ℕ) → (n == k || false) ≡ true → IsNode two_segments.pool k → IsNode two_segments.pool n
two_segments_nodes n k h is = record {
  at_end = ground (arith, is.at_end);
  above = ground (arith, is.above);
  below = ground (arith, is.below);
}

pub two_segments-IsStacks : IsStacks two_segments (73712 ∷ []) (69616 ∷ [])
two_segments-IsStacks = record {
  pool = record { mapped = omega arith; at_page = refl; within = omega arith; whole_pages = refl };
  requested = λ i h. inl (omega arith, omega arith, refl);
  free_is = record { chain = (refl, omega arith, refl, (refl, refl)); distinct = (refl, tt) };
  used_is = record { chain = (refl, omega arith, refl, (refl, refl)); distinct = (refl, tt) };
  apart = (refl, tt);
  free_nodes = λ n h.
      two_segments_nodes n 73712 h
        (record { at_end = refl; above = omega arith; below = omega arith });
  used_nodes = λ n h.
      two_segments_nodes n 69616 h
        (record { at_end = refl; above = omega arith; below = omega arith });
}

-- The same without a thread and with nothing in use.
abbrev pub one_free : ExecutionStack
one_free = record two_segments { current = 0 }

pub one_free-IsStacks : IsStacks one_free (73712 ∷ []) []
one_free-IsStacks = record {
  pool = two_segments-IsStacks.pool;
  requested = two_segments-IsStacks.requested;
  free_is = two_segments-IsStacks.free_is;
  used_is = record { chain = (refl, refl); distinct = tt };
  apart = (refl, tt);
  free_nodes = two_segments-IsStacks.free_nodes;
  used_nodes = λ n h. ground arith;
}

create_new_segment-Created_example :
    Returns (create_new_segment two_segments) (Created two_segments (73712 ∷ []) (69616 ∷ []))
create_new_segment-Created_example =
    create_new_segment-Created two_segments (73712 ∷ []) (69616 ∷ []) two_segments-IsStacks
      (omega arith) (omega arith)

get_valid_segment-start_example : Returns (get_valid_segment one_free) (Started one_free.pool [])
get_valid_segment-start_example =
    get_valid_segment-start one_free (73712 ∷ []) one_free-IsStacks (omega arith) refl

get_valid_segment-node_example : get_valid_segment two_segments ≡ ok (69616, two_segments)
get_valid_segment-node_example =
    get_valid_segment-node two_segments (73712 ∷ []) [] 69568 two_segments-IsStacks (omega arith)
      (omega arith)

pop_segment-IsStacks_example :
    Returns (pop_segment two_segments 69568) λ d.
      IsStacks d (73712 ∷ 69616 ∷ []) [] × (d.current ≡ 0) × (d.segments ≡ two_segments.segments)
pop_segment-IsStacks_example =
    pop_segment-IsStacks two_segments (73712 ∷ []) [] 69568 [] two_segments-IsStacks (omega arith)
