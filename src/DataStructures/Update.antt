-- ===== src/DataStructures/Update.antt =====
-- slvm_list_addNode against lists of nodes.
use slvm_native.Common.{ℕ, ◌≡◌, ◌≢◌, refl, false, List, [], ◌∷◌, ◌++◌, arith, ◌==◌, Returns, ne→==}
use slvm_native.DataStructures.{
  Links, LinkedList, set_previous, set_next, link_previous, list_add_node,
}
use slvm_native.DataStructures.Chain.{
  has, Chain, IsList, last_mem, Chain-after, Chain-join, Distinct-join, Apart, has-append,
}

-- The links of every node outside `xs` are the same.
abbrev pub SameOutside : List ℕ → Links → Links → Type 0
SameOutside xs m n =
    (y : ℕ) → has y xs ≡ false → (n.previous y ≡ m.previous y) × (n.next y ≡ m.next y)

-- The outcome of adding `node` behind `xs`.
abbrev pub Added : Links → List ℕ → ℕ → LinkedList × Links → Type 0
Added m xs node (l, n) = IsList n l (xs ++ node ∷ []) × SameOutside (xs ++ node ∷ []) m n

Apart-single : (xs : List ℕ) (node : ℕ) → has node xs ≡ false → Apart xs (node ∷ [])
Apart-single [] node out = tt
Apart-single (x ∷ xs) node out = (ground arith, Apart-single xs node (ground arith))

-- Adding a new node to a well-formed list returns, puts the node last, and writes no other link.
pub add_node-append :
    (m : Links) (list : LinkedList) (xs : List ℕ) (node : ℕ)
    → IsList m list xs
    → node ≢ 0
    → has node xs ≡ false
    → Returns (list_add_node list node m) (Added m xs node)
unfolding list_add_node link_previous
add_node-append m list [] node is ne out =
    let absent : (node == 0) ≡ false = ne→== node 0 ne in
    let (e, e') = is.chain in
    (
      (record { first = node; last = node }, set_next (set_previous m node list.last) node 0),
      ground arith,
      (record { chain = ground arith; distinct = ground arith }, λ y h. ground arith),
    )
add_node-append m list (x ∷ xs) node is ne out =
    let absent : (node == 0) ≡ false = ne→== node 0 ne in
    let (here, nonzero) = last_mem m 0 list.first list.last 0 x xs is.chain in
    let linked = set_next (set_previous m node list.last) node 0 in
    let n = set_next linked list.last node in
    let old : Chain n 0 list.first list.last node (x ∷ xs) =
      Chain-after m n 0 list.first list.last 0 node x xs is.distinct (λ y h. ground arith)
        (λ y h e. ground arith) (ground arith) is.chain in
    let chain =
      Chain-join n 0 list.first list.last node node 0 (x ∷ xs) (node ∷ []) old
        (refl, ne, ground arith, (ground arith, refl)) in
    (
      (record { first = list.first; last = node }, n),
      ground arith,
      (
        record {
          chain = chain;
          distinct =
              Distinct-join (x ∷ xs) (node ∷ []) is.distinct (refl, tt)
                (Apart-single (x ∷ xs) node out);
        },
        λ y h. ground (arith, has-append y (x ∷ xs) (node ∷ [])),
      ),
    )
