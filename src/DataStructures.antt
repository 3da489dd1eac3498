-- ===== src/DataStructures.antt =====
-- src/datastructures.c: the intrusive doubly linked list. A node is an address, 0 is NULL, and the
-- two link fields of all nodes are functions of the address.
pub mod Chain
pub mod Update
pub mod Removal
use slvm_native.Common.{ℕ, ◌==◌, if◌then◌else◌, Outcome, ok, aborted}

-- `SLVM_LinkedListNode`, for every node at once.
pub record Links : Type 0 where
  pub previous : ℕ → ℕ
  pub next : ℕ → ℕ

-- `SLVM_LinkedList`
pub record LinkedList : Type 0 where
  pub first : ℕ
  pub last : ℕ

-- The write of one field.
abbrev pub write : (ℕ → ℕ) → ℕ → ℕ → ℕ → ℕ
write f p v q = if q == p then v else f q

-- `node->previous = v` and `node->next = v`
abbrev pub set_previous : Links → ℕ → ℕ → Links
set_previous m p v = record m { previous = write m.previous p v }

abbrev pub set_next : Links → ℕ → ℕ → Links
set_next m p v = record m { next = write m.next p v }

-- The update of the previous node's link, or of the list's head.
link_previous : LinkedList → ℕ → Links → LinkedList × Links
link_previous list node m =
    if m.previous node == 0
    then (record list { first = node }, m)
    else (list, set_next m (m.previous node) node)

-- `slvm_list_addNode`
pub list_add_node : LinkedList → ℕ → Links → Outcome (LinkedList × Links)
unfolding link_previous
list_add_node list node m =
    if node == 0
    then aborted
    else (let linked = set_next (set_previous m node list.last) node 0 in
        ok (link_previous (record list { last = node }) node linked))

-- The first half of the removal: what points forward to the node.
unlink_forward : LinkedList → ℕ → Links → LinkedList × Links
unlink_forward list node m =
    if m.previous node == 0
    then (record list { first = m.next node }, m)
    else (list, set_next m (m.previous node) (m.next node))

-- The second half: what points backward to the node.
unlink_backward : LinkedList → ℕ → Links → LinkedList × Links
unlink_backward list node m =
    if m.next node == 0
    then (record list { last = m.previous node }, m)
    else (list, set_previous m (m.next node) (m.previous node))

-- `slvm_list_removeNode`
pub list_remove_node : LinkedList → ℕ → Links → Outcome (LinkedList × Links)
unfolding unlink_forward unlink_backward
list_remove_node list node m =
    if node == 0
    then aborted
    else (let (forward, m₁) = unlink_forward list node m in
        let (backward, m₂) = unlink_backward forward node m₁ in
        ok (backward, set_previous (set_next m₂ node 0) node 0))
