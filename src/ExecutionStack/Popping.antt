-- ===== src/ExecutionStack/Popping.antt =====
-- slvm_ExecutionStack_popSegment: a segment leaves its thread and joins the free list.
use slvm_native.Common.{
  ℕ, ◌≡◌, ◌≢◌, inl, inr, refl, sym, subst, true, false, ◌==◌, arith, List, [], ◌∷◌, ◌++◌, ok, ◌>>=◌,
  Returns, Returns_bind, Returns_eq, ne→==, ==_refl, ◌∙◌, Bool-cases, ==→eq,
}
use slvm_native.DataStructures.{Links, LinkedList, list_add_node, list_remove_node}
use slvm_native.DataStructures.Chain.{Distinct, has, IsList, Apart, has-append, Distinct-split}
use slvm_native.DataStructures.Removal.{Apart-head, remove_node-erase}
use slvm_native.DataStructures.Update.{add_node-append}
use slvm_native.ExecutionStack.{ExecutionStack, node_of, shortened, pop_segment}
use slvm_native.ExecutionStack.Segments.{
  IsList-frame, untouched, Nodes-append, thread_list, IsStacks, not_has_of_Apart_right, Apart-swap,
}
use slvm_native.ExecutionStack.Moving.{thread_list_running}

-- The list structure is empty exactly when its first node is NULL.
empty_of_first :
    (m : Links) (list : LinkedList) (xs : List ℕ) → IsList m list xs → list.first ≡ 0 → xs ≡ []
empty_of_first m list [] is h = refl
empty_of_first m list (x ∷ xs) is h = absurd (is.chain.1 (sym is.chain.0 ∙ h))

still_running :
    (e : ExecutionStack) (list : LinkedList) (m : Links)
    → e.current ≢ 0
    → list.first == 0 ≡ false
    → thread_list (shortened e list m) ≡ list
still_running e list m busy more = rw (more, ne→== e.current 0 busy, ==_refl e.current) refl

thread_list_after :
    (e : ExecutionStack) (list : LinkedList) (m n : Links) (xs : List ℕ)
    → e.current ≢ 0
    → IsList n list xs
    → IsList n (thread_list (shortened e list m)) xs
thread_list_after e list m n xs busy is = elim (Bool-cases (list.first == 0)) [
  | inl gone ↦ rw gone (
      subst (IsList n _) (sym (empty_of_first n list xs is (==→eq list.first 0 gone)))
        record { chain = (refl, refl); distinct = tt })
  | inr more ↦ subst (λ l. IsList n l xs) (sym (still_running e list m busy more)) is
]

-- The nodes that stay behind when `n` is taken from between `xs` and `ys`.
stays :
    (xs : List ℕ) (n : ℕ) (ys : List ℕ) (y : ℕ)
    → Distinct (xs ++ n ∷ ys)
    → has y (xs ++ ys) ≡ true
    → (has y (xs ++ n ∷ ys) ≡ true) × (y == n ≡ false)
stays xs n ys y d h =
    let (p, q, apart) = Distinct-split xs (n ∷ ys) d in
    let absent = Apart-head xs n ys apart in
    elim (Bool-cases (y == n)) [
      | inl e ↦ ground (arith, ==→eq y n e, has-append y xs ys)
      | inr e ↦ (ground (arith, has-append y xs ys, has-append y xs (n ∷ ys)), e)
    ]

moved :
    (free xs : List ℕ) (n : ℕ) (ys : List ℕ)
    → Distinct (xs ++ n ∷ ys)
    → Apart free (xs ++ n ∷ ys)
    → Apart (free ++ n ∷ []) (xs ++ ys)
moved free xs n ys d apart = Apart-swap (free ++ n ∷ []) (xs ++ ys) λ y h.
    let (there, other) = stays xs n ys y d h in
    ground
      (arith, has-append y free (n ∷ []), not_has_of_Apart_right y free (xs ++ n ∷ ys) apart there)

-- The thread that is left when it has the segments `xs`.
abbrev pub remaining : List ℕ → ℕ → ℕ
remaining [] thread = 0
remaining (x ∷ xs) thread = thread

shortened-remaining :
    (e : ExecutionStack) (list : LinkedList) (m : Links) (xs : List ℕ)
    → IsList m list xs
    → (shortened e list m).current ≡ remaining xs e.current
shortened-remaining e list m [] is = rw is.chain.0 refl
shortened-remaining e list m (x ∷ xs) is =
    let there : list.first ≢ 0 = λ z. is.chain.1 (sym is.chain.0 ∙ z) in
    rw (ne→== list.first 0 there) refl

pop_segment_running :
    (e : ExecutionStack) (s : ℕ)
    → e.current ≢ 0
    → pop_segment e s ≡ (
        list_remove_node (e.threads e.current).segment_list (node_of s) e.links >>= λ r.
        list_add_node e.free_list (node_of s) r.1 >>= λ f.
        ok (record (shortened e r.0 f.1) { free_list = f.0 }))
unfolding pop_segment
pop_segment_running e s busy = rw (ne→== e.current 0 busy) refl

-- Popping a segment, below the end of the address space: it leaves the thread's segments in their
-- order, joins the end of the free list, and the thread ends exactly with its last segment.
pub pop_segment-IsStacks :
    (e : ExecutionStack) (free xs : List ℕ) (s : ℕ) (ys : List ℕ)
    → IsStacks e free (xs ++ node_of s ∷ ys)
    → e.current ≢ 0
    → Returns (pop_segment e s) λ d.
      IsStacks d (free ++ node_of s ∷ []) (xs ++ ys)
      × (d.current ≡ remaining (xs ++ ys) e.current)
      × (d.segments ≡ e.segments)
pop_segment-IsStacks e free xs s ys is busy =
    let list =
      subst (λ l. IsList e.links l (xs ++ node_of s ∷ ys)) (thread_list_running e busy)
        is.used_is in
    let among : has (node_of s) (xs ++ node_of s ∷ ys) ≡ true =
      ground (arith, has-append (node_of s) xs (node_of s ∷ ys)) in
    let out = not_has_of_Apart_right (node_of s) free (xs ++ node_of s ∷ ys) is.apart among in
    let node = is.used_nodes (node_of s) among in
    Returns_eq (pop_segment_running e s busy) (
      Returns_bind _
        (remove_node-erase e.links (e.threads e.current).segment_list xs (node_of s) ys list)
        λ r (cut, _, _, others).
          let free_is =
            untouched e.links r.1 e.free_list free (xs ++ node_of s ∷ ys) is.apart others
              is.free_is in
          let apart = moved free xs (node_of s) ys is.used_is.distinct is.apart in
          Returns_bind _
            (add_node-append r.1 e.free_list free (node_of s) free_is (omega (arith, node.at_end))
              out)
            λ f (joined, others').
              let left : IsList f.1 r.0 (xs ++ ys) =
                IsList-frame r.1 f.1 r.0 (xs ++ ys)
                  (λ y h.
                    others' y
                      (not_has_of_Apart_right y (free ++ node_of s ∷ []) (xs ++ ys) apart h))
                  cut in
              (
                _,
                refl,
                (
                  record {
                    pool = is.pool;
                    requested = is.requested;
                    free_is = joined;
                    used_is = thread_list_after e r.0 f.1 f.1 (xs ++ ys) busy left;
                    apart = apart;
                    free_nodes = Nodes-append e.pool free (node_of s) is.free_nodes node;
                    used_nodes =
                        λ y h. is.used_nodes y (stays xs (node_of s) ys y is.used_is.distinct h).0;
                  },
                  shortened-remaining e r.0 f.1 (xs ++ ys) left,
                  refl,
                ),
              ))
