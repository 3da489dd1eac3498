-- ===== src/Kernel/Classes/Furnishing.antt =====
-- The globals and the new class, from the making of the class to its metadata.
use slvm_native.Kernel.Classes.{KernelClasses}
use slvm_native.Common.{
  ℕ, ◌+◌, ◌≤◌, ◌<◌, ◌≡◌, ◌≢◌, ◌⊎◌, inl, inr, refl, sym, subst, ap, ◌∙◌, ◌==◌, if◌then◌else◌, arith,
  get_or, ok,
}
use slvm_native.Oop.{identity_hash_of}
use slvm_native.ObjectModel.{ObjectMemory}
use slvm_native.Collections.Dictionary.{HashedCollection}
use slvm_native.Collections.Dictionary.Making.{end_of}
use slvm_native.Collections.Dictionary.Elsewhere.{at_or_nil_agreed}
use slvm_native.Collections.IdentityDictionary as Identity
use slvm_native.Collections.IdentityDictionary.{identical}
use slvm_native.Collections.IdentityDictionary.Reading.{identical-IsEquality}
use slvm_native.Kernel.{Kernel, class_name_of, globals_at_or_nil}
use slvm_native.Kernel.Classes.Metaclasses.{KeepsInFront}
use slvm_native.Kernel.Classes.Pairs.{IsPair}
use slvm_native.Kernel.Classes.Metadata.{IsFurnished}
use slvm_native.Kernel.Classes.Naming.{IsOpenIn, AgreesIn, HasGlobals, agrees_in, IsNamed}

-- Associations and keys in front of an address.
abbrev pub Settled : ℕ → ℕ → (ℕ → ℕ) → HashedCollection → Type 0
Settled nil e words d =
    (i : ℕ)
    → get_or d.array i nil ≢ nil
    → (get_or d.array i nil + 24 ≤ e) × (words (get_or d.array i nil + 8) < e)

pub has-Settled :
    (nil : ℕ) (k : Kernel) (g : HashedCollection)
    → HasGlobals nil k
    → g ≡ k.globals
    → Settled nil (end_of k.memory) k.memory.words g
has-Settled nil k g has same =
    subst (Settled nil (end_of k.memory) k.memory.words) (sym same)
      λ i real. (has.places i real, has.keys i real)

-- The globals in the kernel with the new pair.
pub paired-AgreesIn :
    (c : KernelClasses) (superclass name slots : ℕ) (k : Kernel) (r : ℕ × (ℕ × Kernel))
    (g : HashedCollection)
    → Settled c.nil (end_of k.memory) k.memory.words g
    → IsPair c k superclass name slots r
    → AgreesIn c.nil k.memory.headers k.memory.words r.1.1.memory.headers r.1.1.memory.words g
paired-AgreesIn c superclass name slots k r g settled pair =
    agrees_in c.nil k.memory.headers r.1.1.memory.headers k.memory.words r.1.1.memory.words g
      λ i real. (
        pair.old_words _ (omega (arith, (settled i real).0)),
        pair.old_words _ (omega (arith, (settled i real).0)),
        pair.kept.headers _ ((settled i real).1),
      )

-- The globals with the new name, in the kernel with the metadata.
module _ (c : KernelClasses) (superclass name slots value : ℕ) (k k' : Kernel)
    (r : ℕ × (ℕ × Kernel)) (m : ObjectMemory) (d : HashedCollection)
    (settled : Settled c.nil (end_of k.memory) k.memory.words r.1.1.globals)
    (pair : IsPair c k superclass name slots r) (wide : 14 ≤ slots) (low : name < end_of k.memory)
    (named : IsNamed c.nil r.1.1.memory r.1.1.globals name value (m, d))
    (done : IsFurnished (record (r.1.1) { memory = m; globals = d }) r.1.0 k') where
  -- An association is an old one or the new one, and its key is an old object.
  placed :
      (i : ℕ)
      → get_or d.array i c.nil ≢ c.nil
      → ((get_or d.array i c.nil + 24 ≤ end_of k.memory) ⊎ (named.oop ≡ get_or d.array i c.nil))
        × (m.words (get_or d.array i c.nil + 8) < end_of k.memory)
  placed i real = elim (named.places i real) [
    | inl same ↦ (inr same, rw (← same) (rw named.keyed low))
    | inr (j, same, full) ↦
        let (place, key) = rw same at (settled j (λ z. full (sym same ∙ z))) in
        let e = get_or d.array i c.nil in
        let read : m.words (e + 8) ≡ k.memory.words (e + 8) =
          named.follows.old_words (e + 8) (omega (arith, pair.above, pair.order, pair.inside))
          ∙ pair.old_words (e + 8) (omega arith) in
        (inl place, rw read key)
  ]

  old_header : (o : ℕ) → o < end_of k.memory → k'.memory.headers o ≡ r.1.1.memory.headers o
  old_header o h =
      done.kept.headers o (
        omega (arith, pair.above, pair.order, pair.inside, named.follows.above, named.follows.ends))
      ∙ named.follows.old_headers o
          (omega (arith, pair.above, pair.order, pair.inside, named.follows.above))

  old_word :
      (x a : ℕ)
      → (a + 24 ≤ end_of k.memory) ⊎ (named.oop ≡ a)
      → a + 8 ≤ x
      → x < a + 24
      → k'.memory.words x ≡ m.words x
  old_word x a place from to =
      done.other_words x
        (omega
          (arith, pair.above, pair.order, pair.inside, named.follows.above, named.follows.ends))
        (omega (arith, pair.above, pair.order, pair.inside, named.follows.above))

  furnished-AgreesIn :
      AgreesIn c.nil r.1.1.memory.headers m.words k'.memory.headers k'.memory.words d
  furnished-AgreesIn =
      agrees_in c.nil r.1.1.memory.headers k'.memory.headers m.words k'.memory.words d λ i real.
        let e = get_or d.array i c.nil in
        let (place, key) = placed i real in
        (
          old_word (e + 8) e place (omega arith) (omega arith),
          old_word (e + 16) e place (omega arith) (omega arith),
          old_header (m.words (e + 8)) key,
        )

  -- The names in the end.
  pub furnished_names :
      (q : ℕ)
      → IsOpenIn c.nil k.memory.headers k.memory.words r.1.1.globals
      → globals_at_or_nil c.nil k' q ≡ (if name == q then ok value else globals_at_or_nil c.nil k q)
  unfolding globals_at_or_nil
  furnished_names q open' =
      ap (λ g. Identity.at_or_nil c.nil k'.memory.headers k'.memory.words g q) done.globals
      ∙ at_or_nil_agreed c.nil identical (identity_hash_of r.1.1.memory.headers)
          (identity_hash_of k'.memory.headers) (identical-IsEquality c.nil r.1.1.memory.headers)
          (identical-IsEquality c.nil k'.memory.headers) m.words k'.memory.words d
          furnished-AgreesIn q named.ready
      ∙ named.reads q
      ∙ ap (λ t. if name == q then ok value else t)
          (at_or_nil_agreed c.nil identical (identity_hash_of k.memory.headers)
              (identity_hash_of r.1.1.memory.headers) (identical-IsEquality c.nil k.memory.headers)
              (identical-IsEquality c.nil r.1.1.memory.headers) k.memory.words r.1.1.memory.words
              r.1.1.globals (paired-AgreesIn c superclass name slots k r r.1.1.globals settled pair)
              q open'
            ∙ ap (λ g. Identity.at_or_nil c.nil k.memory.headers k.memory.words g q) pair.globals)

  -- What stands in front of the end of the heap with the pair stays until the end.
  pub furnished-KeepsInFront : KeepsInFront (end_of r.1.1.memory) r.1.1 k'
  furnished-KeepsInFront = record {
    headers = λ o h.
        done.kept.headers o (omega (arith, named.follows.above, named.follows.ends))
        ∙ named.follows.old_headers o (omega (arith, named.follows.above));
    behaviors =
        λ o h. done.kept.behaviors o (omega (arith, named.follows.above, named.follows.ends));
    dictionaries =
        λ o h. done.kept.dictionaries o (omega (arith, named.follows.above, named.follows.ends));
  }

  pub furnished_name : class_name_of k' r.1.0 ≡ name
  furnished_name =
      done.other_words (r.1.0 + 64)
        (omega (arith, pair.inside, named.follows.above, named.follows.ends)) (inr (inl refl))
      ∙ named.follows.old_words (r.1.0 + 64) (omega (arith, pair.inside))
      ∙ pair.name_is
