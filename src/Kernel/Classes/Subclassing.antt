-- ===== src/Kernel/Classes/Subclassing.antt =====
-- slvm_dynrun_subclassWithSomeNames: a new class under a new name.
use slvm_native.Common.{
  ℕ, suc, ◌+◌, ◌*◌, ◌^◌, ◌≤◌, ◌<◌, ◌≡◌, ◌≢◌, Bool, false, refl, sym, subst, ap, ◌∙◌, arith, none,
  ok, bind_ok, Returns, ne→==, ==_refl,
}
use slvm_native.Oop.{oop_is_immediate, identity_hash_of}
use slvm_native.ObjectModel.{ObjectMemory, decode_format, decode_fixed_size}
use slvm_native.Collections.Dictionary.{HashedCollection}
use slvm_native.Collections.Dictionary.Making.{end_of, MakesObjects}
use slvm_native.Collections.Dictionary.Elsewhere.{IsOpen-agreed, search_agreed}
use slvm_native.Collections.IdentityDictionary.{identical}
use slvm_native.Collections.IdentityDictionary.Reading.{identical-IsEquality, identity_search}
use slvm_native.Collections.Dictionary.Elsewhere.{IsOpen-IsDictionary}
use slvm_native.Collections.Dictionary.Reading.{at_or_nil-search, value_or_nil_association}
use slvm_native.Kernel.{Kernel, globals_at_or_nil, globals_at_put}
use slvm_native.Kernel.Classes.{
  KernelClasses, Description, make_pair, class_set_metadata, subclass_with_some_names,
}
use slvm_native.Kernel.Classes.Making.{CanMakeClasses}
use slvm_native.Kernel.Classes.Pairs.{IsPair, make_pair-IsPair}
use slvm_native.Kernel.Classes.Metadata.{class_set_metadata-IsFurnished}
use slvm_native.Kernel.Classes.Naming.{IsOpenIn, HasGlobals, IsNamed, globals_at_put-IsNamed}
use slvm_native.Kernel.Classes.Furnishing.{
  Settled, has-Settled, paired-AgreesIn, furnished_names, furnished-KeepsInFront, furnished_name,
}
use slvm_native.Kernel.Classes.Inheriting.{makes_kept, IsSubclassed, paired-IsSubclassed}

-- The stages of the creation.
stages :
    (c : KernelClasses) (k : Kernel) (hash : ℕ → ℕ) (equals : ℕ → ℕ → Bool)
    (fuel super_class_name name superclass : ℕ) (d : Description) (r : ℕ × (ℕ × Kernel))
    (named k' : Kernel)
    → globals_at_or_nil c.nil k name ≡ ok c.nil
    → globals_at_or_nil c.nil k super_class_name ≡ ok superclass
    → superclass ≢ c.nil
    → oop_is_immediate superclass ≡ false
    → make_pair c superclass name d k ≡ ok r
    → globals_at_put c.nil c.association_class fuel r.1.1 name r.1.0 ≡ ok named
    → class_set_metadata c hash equals fuel r.1.0 d named ≡ ok k'
    → subclass_with_some_names c hash equals fuel super_class_name name d k ≡ ok (r.1.0, k')
unfolding subclass_with_some_names
stages c k hash equals fuel super_class_name name superclass d r named k' fresh known real pointer
      run₁ run₂ run₃ =
    bind_ok _ fresh
    ∙ rw (==_refl c.nil) (
        bind_ok _ known
        ∙ rw (ne→== superclass c.nil real, pointer)
            (bind_ok _ run₁ ∙ bind_ok _ run₂ ∙ bind_ok _ run₃))

module _ (c : KernelClasses) (k : Kernel) (hash : ℕ → ℕ) (equals : ℕ → ℕ → Bool)
    (fuel super_class_name name superclass slots : ℕ) (d : Description) (can : CanMakeClasses c k)
    (has : HasGlobals c.nil k)
    (associations : MakesObjects c.nil k.behaviors k.memory c.association_class 2)
    (pools : MakesObjects c.nil k.behaviors k.memory c.dictionary_class 2)
    (format : decode_format d.meta_format ≡ 1) (fixed : decode_fixed_size d.meta_format ≡ slots)
    (wide : 14 ≤ slots) (plain : d.class_variable_associations ≡ c.nil)
    (fresh : identity_search c.nil k.memory.headers k.memory.words k.globals name ≡ none)
    (known : globals_at_or_nil c.nil k super_class_name ≡ ok superclass) (real : superclass ≢ c.nil)
    (pointer : oop_is_immediate superclass ≡ false) (low : name < end_of k.memory)
    (room : end_of k.memory + slots * 8 + 7500 < 2 ^ 64) where
  unknown : globals_at_or_nil c.nil k name ≡ ok c.nil
  unfolding globals_at_or_nil
  unknown =
      at_or_nil-search c.nil (identity_hash_of k.memory.headers) identical
        (identical-IsEquality c.nil k.memory.headers) k.memory.words k.globals name
        (IsOpen-IsDictionary c.nil (identity_hash_of k.memory.headers) identical
          (identical-IsEquality c.nil k.memory.headers) k.memory.words k.globals has.ready)
      ∙ ap (λ o. ok (value_or_nil_association c.nil k.memory.words o)) fresh

  module _ (r : ℕ × (ℕ × Kernel)) (pair : IsPair c k superclass name slots r) where
    -- The globals of the kernel with the pair.
    globals_open : IsOpenIn c.nil k.memory.headers k.memory.words r.1.1.globals
    globals_open =
        subst (IsOpenIn c.nil k.memory.headers k.memory.words) (sym pair.globals) has.ready

    settled : Settled c.nil (end_of k.memory) k.memory.words r.1.1.globals
    settled = has-Settled c.nil k r.1.1.globals has pair.globals

    paired_name :
        (fuel' : ℕ)
        → (m : ObjectMemory) × (g : HashedCollection) × (globals_at_put c.nil c.association_class
              (suc fuel')
              r.1.1
              name
              r.1.0
            ≡ ok (record (r.1.1) { memory = m; globals = g }))
          × IsNamed c.nil r.1.1.memory r.1.1.globals name r.1.0 (m, g)
    paired_name fuel' =
        let agree = paired-AgreesIn c superclass name slots k r r.1.1.globals settled pair in
        globals_at_put-IsNamed c.nil c.association_class fuel' r.1.1 name r.1.0
          (IsOpen-agreed c.nil identical (identity_hash_of k.memory.headers)
            (identity_hash_of r.1.1.memory.headers) (identical-IsEquality c.nil k.memory.headers)
            (identical-IsEquality c.nil r.1.1.memory.headers) k.memory.words r.1.1.memory.words
            r.1.1.globals agree globals_open)
          pair.memory
          (makes_kept c.nil k r.1.1 (end_of k.memory) c.association_class 2 associations pair.kept
            refl (omega (arith, pair.above, pair.order, pair.inside)))
          (omega (arith, can.low, pair.above, pair.order, pair.inside))
          (λ i full. omega (arith, (settled i full).0, pair.above, pair.order, pair.inside))
          (search_agreed c.nil identical (identity_hash_of k.memory.headers)
              (identity_hash_of r.1.1.memory.headers) (identical-IsEquality c.nil k.memory.headers)
              (identical-IsEquality c.nil r.1.1.memory.headers) k.memory.words r.1.1.memory.words
              r.1.1.globals agree name
            ∙ ap (λ g. identity_search c.nil k.memory.headers k.memory.words g name) pair.globals
            ∙ fresh)
          (rw pair.globals has.small) (omega (arith, pair.bounded))

  -- A class of fixed slots, 14 or more, without class variables, under a name that the globals do
  -- not have, for a superclass that they name: with the kernel classes in place, the globals open,
  -- fewer than 511 classes registered and the heap below 2 ^ 64, the call returns a new class. It has
  -- its name, its superclass, a new method dictionary without methods, and as its class a new
  -- metaclass, which is an instance of the kernel's Metaclass; the globals give it for the name, and
  -- for every other name what they gave; a second call with the name returns it and changes nothing;
  -- the headers, behaviors and method dictionaries in front of the end of the heap are as before;
  -- and for selectors, and lineages with dictionaries, in front of the end of the heap, lookup from
  -- the class finds what lookup from the superclass found, lookup from the metaclass what lookup
  -- from the class of the superclass found, and lookup from any other behavior what it found before.
  pub subclass_with_some_names-IsSubclassed :
      Returns
        (subclass_with_some_names c hash equals (suc fuel) super_class_name name d k)
        (IsSubclassed c k superclass name)
  subclass_with_some_names-IsSubclassed =
      let (r, run₁, pair) =
        make_pair-IsPair c k superclass name slots d can format fixed wide (omega arith) in
      let (m, g, run₂, named) = paired_name r pair fuel in
      let named_kernel : Kernel = record (r.1.1) { memory = m; globals = g } in
      let (k', run₃, done) =
        class_set_metadata-IsFurnished c hash equals (suc fuel) r.1.0 d named_kernel
          named.follows.memory
          (let pools' =
              makes_kept c.nil k r.1.1 (end_of k.memory) c.dictionary_class 2 pools pair.kept refl
                (omega (arith, pair.above, pair.order, pair.inside)) in
            record {
              real = pools'.real;
              in_front = omega (arith, pools'.in_front, named.follows.above, named.follows.ends);
              format = pools'.format;
              fixed = pools'.fixed;
            })
          plain (omega (arith, pair.bounded, named.follows.near, named.follows.ends)) in
      let s = settled r pair in
      (
        (r.1.0, k'),
        stages c k hash equals (suc fuel) super_class_name name superclass d r named_kernel k'
            unknown known real pointer run₁ run₂ run₃,
        paired-IsSubclassed c k k' superclass name slots r can.low pair
            (furnished-KeepsInFront c superclass name slots r.1.0 k k' r m g s pair wide low named
              done)
            (omega (arith, named.follows.above, named.follows.ends, done.wider)) done.table
            (furnished_name c superclass name slots r.1.0 k k' r m g s pair wide low named done)
            (λ q.
              furnished_names c superclass name slots r.1.0 k k' r m g s pair wide low named done q
                (globals_open r pair)),
      )
