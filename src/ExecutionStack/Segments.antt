-- ===== src/ExecutionStack/Segments.antt =====
-- The invariant of the execution stack: two lists of nodes in one store, the free segments and the
-- thread's, with no segment in both.
use slvm_native.Common.{
  ℕ, ◌+◌, ◌%◌, ◌^◌, ◌≤◌, ◌<◌, ◌≡◌, ◌≢◌, Bool-cases, ==→eq, ==_refl, ne→==, inl, inr, refl, ◌∙◌, sym,
  subst, true, false, ◌==◌, if◌then◌else◌, arith, List, [], ◌∷◌, ◌++◌,
}
use slvm_native.DataStructures.{Links, LinkedList, set_previous, set_next}
use slvm_native.DataStructures.Chain.{
  has, Chain-split, Chain-frame, IsList, Apart, not_has_of_Apart, has-append,
}
use slvm_native.DataStructures.Update.{SameOutside}
use slvm_native.Memory.{StackHeap}
use slvm_native.Memory.Bump.{IsHeap, IsRequested}
use slvm_native.ExecutionStack.{
  ExecutionStack, Segment, ThreadStackData, write_segment, write_thread, node_of, segment_of,
}

pub IsList-frame :
    (m n : Links) (list : LinkedList) (xs : List ℕ)
    → ((y : ℕ) → has y xs ≡ true → (n.previous y ≡ m.previous y) × (n.next y ≡ m.next y))
    → IsList m list xs
    → IsList n list xs
IsList-frame m n list xs same is = record {
  chain = Chain-frame m n 0 list.first list.last 0 xs same is.chain;
  distinct = is.distinct;
}

-- A node of a segment: the last 16 bytes of a page of the pool.
pub record IsNode (pool : StackHeap) (n : ℕ) : Type 0 where
  pub at_end : n % 4096 ≡ 4080
  pub above : pool.start + 4080 ≤ n
  pub below : n + 16 ≤ pool.start + pool.size

abbrev pub Nodes : StackHeap → List ℕ → Type 0
Nodes pool xs = (n : ℕ) → has n xs ≡ true → IsNode pool n

-- The list of the thread's segments, empty without a thread.
abbrev pub thread_list : ExecutionStack → LinkedList
thread_list e =
    if e.current == 0 then record { first = 0; last = 0 } else (e.threads e.current).segment_list

pub record IsStacks (e : ExecutionStack) (free used : List ℕ) : Type 0 where
  pub pool : IsHeap e.pool
  pub requested : IsRequested e.pool e.calls
  pub free_is : IsList e.links e.free_list free
  pub used_is : IsList e.links (thread_list e) used
  pub apart : Apart free used
  pub free_nodes : Nodes e.pool free
  pub used_nodes : Nodes e.pool used

-- Below the end of the address space.
abbrev pub HasRoom : ExecutionStack → Type 0
HasRoom e = e.pool.start + e.pool.size + 16384 < 2 ^ 64

pub segment_of_lem : (n : ℕ) → 48 ≤ n → n + 16 < 2 ^ 64 → segment_of n + 48 ≡ n
segment_of_lem n h k = omega arith

pub node_of_lem : (s : ℕ) → s + 48 < 2 ^ 64 → node_of s ≡ s + 48
node_of_lem s h = omega arith

pub IsNode-bounds :
    (e : ExecutionStack) (n : ℕ) → IsNode e.pool n → HasRoom e → (4080 ≤ n) × (n + 16 < 2 ^ 64)
IsNode-bounds e n is room = omega (arith, is.above, is.below)

pub Apart-swap : (xs ys : List ℕ) → ((y : ℕ) → has y ys ≡ true → has y xs ≡ false) → Apart xs ys
Apart-swap [] ys h = tt
Apart-swap (x ∷ xs) ys h = (not_true x, Apart-swap xs ys λ y p. ground (arith, h y p))
  where
    not_true : (x' : ℕ) → has x ys ≡ false
    not_true x' = ground (arith, h x)

-- A node outside both lists may take any links.
pub outside :
    (m : Links) (list : LinkedList) (xs : List ℕ) (n p q : ℕ)
    → has n xs ≡ false
    → IsList m list xs
    → IsList (set_next (set_previous m n p) n q) list xs
outside m list xs n p q out is =
    IsList-frame m (set_next (set_previous m n p) n q) list xs (λ y h. ground arith) is

-- The pool only grows.
pub Nodes-grown :
    (p q : StackHeap) (xs : List ℕ) → q.start ≡ p.start → p.size ≤ q.size → Nodes p xs → Nodes q xs
Nodes-grown p q xs same more all n h =
    let is = all n h in
    record { at_end = is.at_end; above = omega (arith, is.above); below = omega (arith, is.below) }

-- A node above the used part of the pool stands in no list.
pub not_has_above :
    (p : StackHeap) (xs : List ℕ) (n : ℕ) → Nodes p xs → p.start + p.size ≤ n → has n xs ≡ false
not_has_above p xs n all h = elim (Bool-cases (has n xs)) [
  | inl e ↦ absurd (omega (arith, (all n e).below))
  | inr e ↦ e
]

pub not_has_of_Apart_right :
    (y : ℕ) (xs ys : List ℕ) → Apart xs ys → has y ys ≡ true → has y xs ≡ false
not_has_of_Apart_right y xs ys apart h = elim (Bool-cases (has y xs)) [
  | inl e ↦ ground (arith, not_has_of_Apart y xs ys apart e)
  | inr e ↦ e
]

-- Reading what was just written.
pub write_segment_lem : (f : ℕ → Segment) (s : ℕ) (v : Segment) → write_segment f s v s ≡ v
write_segment_lem f s v = rw (==_refl s) refl

pub write_segment_other :
    (f : ℕ → Segment) (s t : ℕ) (v : Segment) → t ≢ s → write_segment f s v t ≡ f t
write_segment_other f s t v ne = rw (ne→== t s ne) refl

pub write_thread_lem :
    (f : ℕ → ThreadStackData) (s : ℕ) (v : ThreadStackData) → write_thread f s v s ≡ v
write_thread_lem f s v = rw (==_refl s) refl

-- A list is untouched by what is written to the nodes of another.
pub untouched :
    (m n : Links) (list : LinkedList) (xs ys : List ℕ)
    → Apart xs ys
    → SameOutside ys m n
    → IsList m list xs
    → IsList n list xs
untouched m n list xs ys apart same is =
    IsList-frame m n list xs (λ y h. same y (not_has_of_Apart y xs ys apart h)) is

pub Nodes-append :
    (p : StackHeap) (xs : List ℕ) (n : ℕ) → Nodes p xs → IsNode p n → Nodes p (xs ++ n ∷ [])
Nodes-append p xs n all is y h = elim (Bool-cases (y == n)) [
  | inl e ↦ subst (IsNode p) (sym (==→eq y n e)) is
  | inr e ↦ all y (ground (arith, has-append y xs (n ∷ [])))
]

pub previous_of_append :
    (m : Links) (list : LinkedList) (xs : List ℕ) (a b : ℕ)
    → IsList m list ((xs ++ a ∷ []) ++ b ∷ [])
    → m.previous b ≡ a
previous_of_append m list xs a b is =
    let (l, f, c, (_, _, back, _)) =
      Chain-split m 0 list.first list.last 0 (xs ++ a ∷ []) (b ∷ []) is.chain in
    let (_, _, _, (_, _, _, (_, last_is))) = Chain-split m 0 list.first l f xs (a ∷ []) c in
    back ∙ last_is

pub last_of_append :
    (m : Links) (list : LinkedList) (xs : List ℕ) (n : ℕ)
    → IsList m list (xs ++ n ∷ [])
    → list.last ≡ n
last_of_append m list xs n is =
    let (l, f, c, (f_is, ne, back, (fore, last_is))) =
      Chain-split m 0 list.first list.last 0 xs (n ∷ []) is.chain in
    last_is
