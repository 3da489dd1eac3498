-- ===== src/DataStructures/Removal.antt =====
-- slvm_list_removeNode against lists of nodes.
use slvm_native.Common.{
  ℕ, ◌≡◌, refl, false, List, [], ◌∷◌, ◌++◌, arith, ◌==◌, Returns, sym, subst, ne→==,
}
use mathlib.Core.List.{append-nil}
use slvm_native.DataStructures.{
  Links, LinkedList, set_previous, set_next, unlink_forward, unlink_backward, list_remove_node,
}
use slvm_native.DataStructures.Chain.{
  has, Distinct, Chain, IsList, last_mem, Chain-after, Chain-before, Chain-split, Chain-join,
  Distinct-split, Distinct-join, Apart, not_has_of_Apart, has-append,
}
use slvm_native.DataStructures.Update.{SameOutside}

-- The outcome of removing `node` from between `xs` and `ys`.
abbrev pub Removed : Links → List ℕ → ℕ → List ℕ → LinkedList × Links → Type 0
Removed m xs node ys (l, n) =
    IsList n l (xs ++ ys)
    × (n.previous node ≡ 0)
    × (n.next node ≡ 0)
    × SameOutside (xs ++ node ∷ ys) m n

Apart-tail : (xs : List ℕ) (node : ℕ) (ys : List ℕ) → Apart xs (node ∷ ys) → Apart xs ys
Apart-tail [] node ys r = tt
Apart-tail (x ∷ xs) node ys (out, r) = (ground arith, Apart-tail xs node ys r)

pub Apart-head : (xs : List ℕ) (node : ℕ) (ys : List ℕ) → Apart xs (node ∷ ys) → has node xs ≡ false
Apart-head [] node ys r = refl
Apart-head (x ∷ xs) node ys (out, r) = ground (arith, Apart-head xs node ys r)

Distinct-without :
    (xs : List ℕ) (node : ℕ) (ys : List ℕ) → Distinct (xs ++ node ∷ ys) → Distinct (xs ++ ys)
Distinct-without xs node ys d =
    let (p, q, r) = Distinct-split xs (node ∷ ys) d in
    Distinct-join xs ys p q.1 (Apart-tail xs node ys r)

-- The only node.
remove_node_single :
    (m : Links) (list : LinkedList) (node : ℕ)
    → IsList m list (node ∷ [])
    → Returns (list_remove_node list node m) (Removed m [] node [])
unfolding list_remove_node unlink_forward unlink_backward
remove_node_single m list node is =
    let (first_is, ne, back, (fore, last_is)) = is.chain in
    let present : (node == 0) ≡ false = ne→== node 0 ne in
    (
      (
        record { first = m.next node; last = m.previous node },
        set_previous (set_next m node 0) node 0,
      ),
      ground arith,
      (
        record { chain = ground arith; distinct = tt },
        ground arith,
        ground arith,
        λ y h. ground arith,
      ),
    )

-- The first node.
remove_node_first :
    (m : Links) (list : LinkedList) (node y : ℕ) (ys : List ℕ)
    → IsList m list (node ∷ (y ∷ ys))
    → Returns (list_remove_node list node m) (Removed m [] node (y ∷ ys))
unfolding list_remove_node unlink_forward unlink_backward
remove_node_first m list node y ys is =
    let (first_is, ne, back, (fore, ne', back', rest)) = is.chain in
    let present : (node == 0) ≡ false = ne→== node 0 ne in
    let n =
      set_previous (set_next (set_previous m (m.next node) (m.previous node)) node 0) node 0 in
    let right : Chain n 0 (m.next node) list.last 0 (y ∷ ys) =
      Chain-before m n node 0 (m.next node) list.last 0 y ys is.distinct.1 (λ z h. ground arith)
        (λ z h. ground arith) (ground arith) (fore, ne', back', rest) in
    (
      (record { first = m.next node; last = list.last }, n),
      ground arith,
      (
        record { chain = right; distinct = is.distinct.1 },
        ground arith,
        ground arith,
        λ z h. ground arith,
      ),
    )

-- The last node.
remove_node_last :
    (m : Links) (list : LinkedList) (x : ℕ) (xs : List ℕ) (node : ℕ)
    → IsList m list ((x ∷ xs) ++ node ∷ [])
    → Returns (list_remove_node list node m) (Removed m (x ∷ xs) node [])
unfolding list_remove_node unlink_forward unlink_backward
remove_node_last m list x xs node is =
    let (l, f, c, (f_is, ne, back, (fore, last_is))) =
      Chain-split m 0 list.first list.last 0 (x ∷ xs) (node ∷ []) is.chain in
    let (here, nonzero) = last_mem m 0 list.first l f x xs c in
    let (p, q, apart) = Distinct-split (x ∷ xs) (node ∷ []) is.distinct in
    let absent = Apart-head (x ∷ xs) node [] apart in
    let n = set_previous (set_next (set_next m l (m.next node)) node 0) node 0 in
    let left : Chain n 0 list.first l 0 (x ∷ xs) =
      Chain-after m n 0 list.first l f 0 x xs p (λ z h. ground arith) (λ z h e. ground arith)
        (ground arith) c in
    (
      (record { first = list.first; last = l }, n),
      ground arith,
      (
        record {
          chain = subst (Chain n 0 list.first l 0) (sym (append-nil (x ∷ xs))) left;
          distinct = Distinct-without (x ∷ xs) node [] is.distinct;
        },
        ground arith,
        ground arith,
        λ z h. ground (arith, has-append z (x ∷ xs) (node ∷ [])),
      ),
    )

-- A node with neighbours.
remove_node_inner :
    (m : Links) (list : LinkedList) (x : ℕ) (xs : List ℕ) (node y : ℕ) (ys : List ℕ)
    → IsList m list ((x ∷ xs) ++ node ∷ (y ∷ ys))
    → Returns (list_remove_node list node m) (Removed m (x ∷ xs) node (y ∷ ys))
unfolding list_remove_node unlink_forward unlink_backward
remove_node_inner m list x xs node y ys is =
    let (l, f, c, (f_is, ne, back, (fore, ne', back', rest))) =
      Chain-split m 0 list.first list.last 0 (x ∷ xs) (node ∷ y ∷ ys) is.chain in
    let (here, nonzero) = last_mem m 0 list.first l f x xs c in
    let (p, q, apart) = Distinct-split (x ∷ xs) (node ∷ y ∷ ys) is.distinct in
    let absent = Apart-head (x ∷ xs) node (y ∷ ys) apart in
    let apart' = Apart-tail (x ∷ xs) node (y ∷ ys) apart in
    let n =
      set_previous (set_next (set_previous (set_next m l (m.next node)) (m.next node) l) node 0)
        node 0 in
    let left : Chain n 0 list.first l y (x ∷ xs) =
      Chain-after m n 0 list.first l f y x xs p
        (λ z h. ground (arith, not_has_of_Apart z (x ∷ xs) (y ∷ ys) apart')) (λ z h e. ground arith)
        (ground (arith, not_has_of_Apart l (x ∷ xs) (y ∷ ys) apart')) c in
    let right : Chain n l y list.last 0 (y ∷ ys) =
      Chain-before m n node l y list.last 0 y ys q.1
        (λ z h. ground (arith, not_has_of_Apart l (x ∷ xs) (y ∷ ys) apart')) (λ z h. ground arith)
        (ground arith) (refl, ne', back', rest) in
    (
      (record { first = list.first; last = list.last }, n),
      ground arith,
      (
        record {
          chain = Chain-join n 0 list.first l y list.last 0 (x ∷ xs) (y ∷ ys) left right;
          distinct = Distinct-without (x ∷ xs) node (y ∷ ys) is.distinct;
        },
        ground arith,
        ground arith,
        λ z h. ground (arith, has-append z (x ∷ xs) (node ∷ y ∷ ys)),
      ),
    )

-- Removing a node of a well-formed list returns, leaves the other nodes in order, clears the links
-- of the node and writes no link outside the list.
pub remove_node-erase :
    (m : Links) (list : LinkedList) (xs : List ℕ) (node : ℕ) (ys : List ℕ)
    → IsList m list (xs ++ node ∷ ys)
    → Returns (list_remove_node list node m) (Removed m xs node ys)
remove_node-erase m list [] node [] is = remove_node_single m list node is
remove_node-erase m list [] node (y ∷ ys) is = remove_node_first m list node y ys is
remove_node-erase m list (x ∷ xs) node [] is = remove_node_last m list x xs node is
remove_node-erase m list (x ∷ xs) node (y ∷ ys) is = remove_node_inner m list x xs node y ys is
