-- ===== src/DataStructures/Chain.antt =====
-- What a list of nodes looks like in memory, and how a chain changes with its links.
use slvm_native.Common.{
  ℕ, ◌≡◌, ◌≢◌, refl, Bool, true, false, ◌||◌, List, [], ◌∷◌, ◌++◌, arith, ◌==◌, sym, subst,
  Bool-cases, ==→eq, inl, inr,
}
use slvm_native.DataStructures.{Links, LinkedList}

abbrev pub has : ℕ → List ℕ → Bool
has y [] = false
has y (x ∷ xs) = (y == x) || has y xs

-- No node stands twice.
abbrev pub Distinct : List ℕ → Type 0
Distinct [] = Unit
Distinct (x ∷ xs) = (has x xs ≡ false) × Distinct xs

-- From `first` the links lead through `xs` to `last`; `before` and `after` are the outer links.
abbrev pub Chain : Links → ℕ → ℕ → ℕ → ℕ → List ℕ → Type 0
Chain m before first last after [] = (first ≡ after) × (last ≡ before)
Chain m before first last after (x ∷ xs) =
    (first ≡ x) × (x ≢ 0) × (m.previous x ≡ before) × Chain m x (m.next x) last after xs

-- The list structure holds exactly the nodes `xs`, in order.
pub record IsList (m : Links) (list : LinkedList) (xs : List ℕ) : Type 0 where
  pub chain : Chain m 0 list.first list.last 0 xs
  pub distinct : Distinct xs

pub Chain-frame :
    (m n : Links) (before first last after : ℕ) (xs : List ℕ)
    → ((y : ℕ) → has y xs ≡ true → (n.previous y ≡ m.previous y) × (n.next y ≡ m.next y))
    → Chain m before first last after xs
    → Chain n before first last after xs
Chain-frame m n before first last after [] same c = c
Chain-frame m n before first last after (x ∷ xs) same (here, ne, back, rest) = (
  here,
  ne,
  ground (arith, same x),
  ground (
    arith,
    same x,
    Chain-frame m n x (m.next x) last after xs (λ y h. same y (ground arith)) rest,
  ),
)

pub last_mem :
    (m : Links) (before first last after x : ℕ) (xs : List ℕ)
    → Chain m before first last after (x ∷ xs)
    → (has last (x ∷ xs) ≡ true) × (last ≢ 0)
last_mem m before first last after x [] (here, ne, back, rest) = ground arith
last_mem m before first last after x (y ∷ ys) (here, ne, back, rest) =
    ground (arith, last_mem m x (m.next x) last after y ys rest)

-- A new successor of the last node.
pub Chain-after :
    (m n : Links) (before first last after after' x : ℕ) (xs : List ℕ)
    → Distinct (x ∷ xs)
    → ((y : ℕ) → has y (x ∷ xs) ≡ true → n.previous y ≡ m.previous y)
    → ((y : ℕ) → has y (x ∷ xs) ≡ true → y ≢ last → n.next y ≡ m.next y)
    → n.next last ≡ after'
    → Chain m before first last after (x ∷ xs)
    → Chain n before first last after' (x ∷ xs)
Chain-after m n before first last after after' x [] d back fore new (here, ne, p, rest) =
    ground (arith, back x)
Chain-after m n before first last after after' x (y ∷ ys) d back fore new (here, ne, p, rest) =
    let member = last_mem m x (m.next x) last after y ys rest in
    let tail =
      Chain-after m n x (m.next x) last after after' y ys d.1 (λ z h. back z (ground arith))
        (λ z h. fore z (ground arith)) new rest in
    let moved : n.next x ≡ m.next x = ground (arith, fore x) in
    (
      here,
      ne,
      ground (arith, back x),
      subst (λ t. Chain n x t last after' (y ∷ ys)) (sym moved) tail,
    )

-- A new predecessor of the first node.
pub Chain-before :
    (m n : Links) (before before' first last after x : ℕ) (xs : List ℕ)
    → Distinct (x ∷ xs)
    → ((y : ℕ) → has y (x ∷ xs) ≡ true → n.next y ≡ m.next y)
    → ((y : ℕ) → has y xs ≡ true → n.previous y ≡ m.previous y)
    → n.previous x ≡ before'
    → Chain m before first last after (x ∷ xs)
    → Chain n before' first last after (x ∷ xs)
Chain-before m n before before' first last after x xs d fore back new (here, ne, p, rest) =
    let moved : n.next x ≡ m.next x = fore x (ground arith) in
    let tail =
      Chain-frame m n x (m.next x) last after xs (λ y h. (back y h, fore y (ground arith))) rest in
    (here, ne, new, subst (λ t. Chain n x t last after xs) (sym moved) tail)

-- A chain of two parts is two chains that meet.
pub Chain-split :
    (m : Links) (before first last after : ℕ) (xs ys : List ℕ)
    → Chain m before first last after (xs ++ ys)
    → (l : ℕ) × (f : ℕ) × Chain m before first l f xs × Chain m l f last after ys
Chain-split m before first last after [] ys c = (before, first, (refl, refl), c)
Chain-split m before first last after (x ∷ xs) ys (here, ne, back, rest) =
    let (l, f, c, d) = Chain-split m x (m.next x) last after xs ys rest in
    (l, f, (here, ne, back, c), d)

pub Chain-join :
    (m : Links) (before first l f last after : ℕ) (xs ys : List ℕ)
    → Chain m before first l f xs
    → Chain m l f last after ys
    → Chain m before first last after (xs ++ ys)
Chain-join m before first l f last after [] ys (p, q) d =
    subst (λ t. Chain m before t last after ys) (sym p) (subst (λ t. Chain m t f last after ys) q d)
Chain-join m before first l f last after (x ∷ xs) ys (here, ne, back, rest) d =
    (here, ne, back, Chain-join m x (m.next x) l f last after xs ys rest d)

pub has-append : (y : ℕ) (xs ys : List ℕ) → has y (xs ++ ys) ≡ (has y xs || has y ys)
has-append y [] ys = refl
has-append y (x ∷ xs) ys = ground (arith, has-append y xs ys)

-- No node of the first list stands in the second.
abbrev pub Apart : List ℕ → List ℕ → Type 0
Apart [] ys = Unit
Apart (x ∷ xs) ys = (has x ys ≡ false) × Apart xs ys

pub Distinct-split :
    (xs ys : List ℕ) → Distinct (xs ++ ys) → Distinct xs × Distinct ys × Apart xs ys
Distinct-split [] ys d = (tt, d, tt)
Distinct-split (x ∷ xs) ys (new, d) =
    let (p, q, r) = Distinct-split xs ys d in
    ((ground (arith, has-append x xs ys), p), q, (ground (arith, has-append x xs ys), r))

pub Distinct-join : (xs ys : List ℕ) → Distinct xs → Distinct ys → Apart xs ys → Distinct (xs ++ ys)
Distinct-join [] ys p q r = q
Distinct-join (x ∷ xs) ys (new, p) q (out, r) =
    (ground (arith, has-append x xs ys), Distinct-join xs ys p q r)

pub not_has_of_Apart : (y : ℕ) (xs ys : List ℕ) → Apart xs ys → has y xs ≡ true → has y ys ≡ false
not_has_of_Apart y [] ys r h = cc
not_has_of_Apart y (x ∷ xs) ys (out, r) h = elim (Bool-cases (y == x)) [
  | inl e ↦ rw (==→eq y x e) out
  | inr e ↦ not_has_of_Apart y xs ys r (ground arith)
]
