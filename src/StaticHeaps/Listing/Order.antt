-- ===== src/StaticHeaps/Listing/Order.antt =====
-- The heaps are initialized in the order of their registration.
use mathlib.Core.List.{append-nil, append_assoc}
use slvm_native.Common.{
  ℕ, zero, suc, Bool, true, false, ◌<◌, ◌≡◌, ◌≢◌, ◌++◌, refl, sym, subst, ◌∙◌, ap, arith,
  if◌then◌else◌, List, [], ◌∷◌, length, Outcome, ok, aborted, out_of_fuel, ◌>>=◌, bind_ok, Returns,
  ne→==,
}
use slvm_native.DataStructures.Chain.{has, Chain, IsList}
use slvm_native.DataStructures.Update.{add_node-append}
use slvm_native.Collections.Symbols.{SymbolClasses}
use slvm_native.StaticHeaps.{HeapInformation}
use slvm_native.StaticHeaps.Fixing.{Runtime, init_static_heap}
use slvm_native.StaticHeaps.Listing.{
  HeapList, with_heap, init_heap_at, register_static_heap, init_heaps_from, init_static_heaps,
}

-- Continuations that agree on what comes of a call.
after_same {ℓ κ ι} :
    {A : Type ℓ} {B : Type κ} {C : Type ι} (f g : B → Outcome C) (k : A → B) (r : Outcome A)
    → ((a : A) → f (k a) ≡ g (k a))
    → ((r >>= λ a. ok (k a)) >>= f) ≡ ((r >>= λ a. ok (k a)) >>= g)
after_same f g k (ok a) same = same a
after_same f g k aborted same = refl
after_same f g k out_of_fuel same = refl

module _ (c : SymbolClasses) (fuel steps : ℕ) (hash : ℕ → ℕ) (equals : ℕ → ℕ → Bool)
    (register : ℕ → Runtime → Outcome Runtime) where
  -- The reference: the heaps of a list, one after the other.
  pub init_each : List ℕ → HeapList → Runtime → Outcome (HeapList × Runtime)
  init_each [] s r = ok (s, r)
  init_each (x ∷ xs) s r =
      init_heap_at c fuel steps hash equals register x s r >>= λ d. init_each xs d.0 d.1

  init_heaps_from-in_order :
      (rounds before node : ℕ) (xs : List ℕ) (s : HeapList) (r : Runtime)
      → Chain s.links before node s.list.last 0 xs
      → length xs < rounds
      → init_heaps_from c fuel steps hash equals register rounds node s r ≡ init_each xs s r
  unfolding init_heaps_from init_each init_heap_at
  init_heaps_from-in_order zero before node xs s r chain enough = absurd (omega arith)
  init_heaps_from-in_order (suc rounds) before node [] s r chain enough = rw (chain.0) refl
  init_heaps_from-in_order (suc rounds) before node (x ∷ xs) s r (here, real, back, rest) enough =
      rw (here, ne→== x 0 real)
        (after_same {B = HeapList × Runtime}
          (λ d. init_heaps_from c fuel steps hash equals register rounds (d.0.links.next x) d.0 d.1)
          (λ d. init_each xs d.0 d.1) (λ (d : HeapInformation × Runtime). (with_heap x d.0 s, d.1))
          (init_static_heap c fuel steps hash equals register (s.heaps x) r)
          λ d.
            init_heaps_from-in_order rounds x (s.links.next x) xs (with_heap x d.0 s) d.1 rest
              (omega arith))

  -- When the kernel is initialized, the heaps of a well-formed list are initialized one after the
  -- other in the order of the list, with one round for each heap and one for the end.
  pub init_static_heaps-init_each :
      (rounds : ℕ) (xs : List ℕ) (s : HeapList) (r : Runtime)
      → IsList s.links s.list xs
      → s.kernel_initialized ≡ true
      → length xs < rounds
      → init_static_heaps c fuel steps hash equals register rounds s r ≡ init_each xs s r
  unfolding init_static_heaps
  init_static_heaps-init_each rounds xs s r is started enough =
      ap
        (λ b.
          if b
          then init_heaps_from c fuel steps hash equals register rounds s.list.first s r
          else aborted)
        started
      ∙ init_heaps_from-in_order rounds 0 s.list.first xs s r is.chain enough

  -- Heaps that are registered one after the other.
  pub register_each : List ℕ → HeapList → Runtime → Outcome (HeapList × Runtime)
  register_each [] s r = ok (s, r)
  register_each (x ∷ xs) s r =
      register_static_heap c fuel steps hash equals register x s r >>= λ d. register_each xs d.0 d.1

  -- No heap is registered twice, and none is at 0.
  abbrev pub AllNew : List ℕ → List ℕ → Type 0
  AllNew old [] = Unit
  AllNew old (x ∷ xs) = (x ≢ 0) × (has x old ≡ false) × AllNew (old ++ x ∷ []) xs

  -- The list after registrations that do not initialize.
  record IsListed (s : HeapList) (r : Runtime) (xs : List ℕ) (d : HeapList × Runtime) : Type 0 where
    list : IsList d.0.links d.0.list xs
    heaps : d.0.heaps ≡ s.heaps
    runtime : d.1 ≡ r

  register_each-IsListed :
      (old xs : List ℕ) (s : HeapList) (r : Runtime)
      → IsList s.links s.list old
      → AllNew old xs
      → s.kernel_initialized ≡ false
      → Returns (register_each xs s r) (IsListed s r (old ++ xs))
  unfolding register_each register_static_heap
  register_each-IsListed old [] s r is new early = (
    (s, r),
    refl,
    record {
      list = subst (IsList s.links s.list) (sym (append-nil old)) is;
      heaps = refl;
      runtime = refl;
    },
  )
  register_each-IsListed old (x ∷ xs) s r is (real, out, rest) early =
      let (l, run, (list, outside)) = add_node-append s.links s.list old x is real out in
      let added = record s { list = l.0; links = l.1 } in
      let (d, done, listed) = register_each-IsListed (old ++ x ∷ []) xs added r list rest early in
      (
        d,
        bind_ok _ (
              bind_ok _ run
              ∙ ap
                  (λ b.
                    if b
                    then init_heap_at c fuel steps hash equals register x added r
                    else ok (added, r))
                  early)
            ∙ done,
        record {
          list = subst (IsList d.0.links d.0.list) (append_assoc old (x ∷ []) xs) listed.list;
          heaps = listed.heaps;
          runtime = listed.runtime;
        },
      )

  -- Different heaps that are registered before the kernel is initialized are listed and left as
  -- they are; when the kernel is initialized, they are initialized one after the other in the order
  -- of their registration, with one round for each heap and one for the end.
  pub register_each-init_each :
      (rounds : ℕ) (xs : List ℕ) (s : HeapList) (r : Runtime)
      → IsList s.links s.list []
      → AllNew [] xs
      → s.kernel_initialized ≡ false
      → length xs < rounds
      → Returns (register_each xs s r) λ d.
        (d.0.heaps ≡ s.heaps)
        × (d.1 ≡ r)
        × (let started = record (d.0) { kernel_initialized = true } in
            init_static_heaps c fuel steps hash equals register rounds started r
            ≡ init_each xs started r)
  register_each-init_each rounds xs s r is new early enough =
      let (d, run, listed) = register_each-IsListed [] xs s r is new early in
      (
        d,
        run,
        (
          listed.heaps,
          listed.runtime,
          init_static_heaps-init_each rounds xs (record (d.0) { kernel_initialized = true }) r
              listed.list refl enough,
        ),
      )
