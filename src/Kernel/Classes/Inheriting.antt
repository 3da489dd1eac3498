-- ===== src/Kernel/Classes/Inheriting.antt =====
-- What a class that is new and named has: its name, its class, and the methods of its superclass.
use slvm_native.Common.{
  ℕ, suc, ◌≤◌, ◌<◌, ◌≡◌, ◌≢◌, Bool, refl, ap, ◌∙◌, ◌==◌, if◌then◌else◌, arith, List, ok, bind_ok,
  ne→==, ==_refl,
}
use slvm_native.Oop.{ObjectHeader, class_index_from_oop}
use slvm_native.ClassTable.{ClassTable, class_from_oop}
use slvm_native.Lookup.{lookup}
use slvm_native.Lookup.Lineage.{Lineage}
use slvm_native.Lookup.Later.{AgreesInFront, AllInFront, lookup_kept, lookup-empty}
use slvm_native.Collections.Dictionary.Making.{end_of, MakesObjects}
use slvm_native.Kernel.{Kernel, class_of, class_name_of, world_of, globals_at_or_nil}
use slvm_native.Kernel.Classes.{KernelClasses, Description, subclass_with_some_names}
use slvm_native.Kernel.Classes.Making.{StartsEmpty}
use slvm_native.Kernel.Classes.Metaclasses.{KeepsInFront, StartsEmpty-kept}
use slvm_native.Kernel.Classes.Pairs.{IsPair}

pub makes_kept :
    (nil : ℕ) (k k' : Kernel) (e class_oop slots : ℕ)
    → MakesObjects nil k.behaviors k.memory class_oop slots
    → KeepsInFront e k k'
    → e ≡ end_of k.memory
    → end_of k.memory ≤ end_of k'.memory
    → MakesObjects nil k'.behaviors k'.memory class_oop slots
makes_kept nil k k' e class_oop slots makes kept at_end wider =
    let same = kept.behaviors class_oop (omega (arith, makes.in_front)) in
    record {
      real = makes.real;
      in_front = omega (arith, makes.in_front);
      format = rw same makes.format;
      fixed = rw same makes.fixed;
    }

class_from_oop_kept :
    (t : ClassTable) (headers headers' : ℕ → ObjectHeader) (oop : ℕ)
    → headers' oop ≡ headers oop
    → class_from_oop t headers' oop ≡ class_from_oop t headers oop
unfolding class_from_oop class_index_from_oop
class_from_oop_kept t headers headers' oop same = rw same

-- A name that is known already.
known_class :
    (c : KernelClasses) (k : Kernel) (hash : ℕ → ℕ) (equals : ℕ → ℕ → Bool)
    (fuel super_class_name name oop : ℕ) (d : Description)
    → globals_at_or_nil c.nil k name ≡ ok oop
    → oop ≢ c.nil
    → subclass_with_some_names c hash equals fuel super_class_name name d k ≡ ok (oop, k)
unfolding subclass_with_some_names
known_class c k hash equals fuel super_class_name name oop d known real =
    bind_ok _ known ∙ rw (ne→== oop c.nil real) refl

-- The outcome of a new class.
pub record IsSubclassed (c : KernelClasses) (k : Kernel) (superclass name : ℕ) (r : ℕ × Kernel)
    : Type 0 where
  pub meta : ℕ
  pub class_is : class_of r.1 r.0 ≡ meta
  pub meta_kind :
      (r.1.memory.headers meta).class_index ≡ (k.memory.headers c.metaclass_class).identity_hash
  pub real : r.0 ≢ c.nil
  pub fresh : end_of k.memory ≤ (r.1.behaviors r.0).method_dict
  pub starts : StartsEmpty c.nil r.1 r.0 superclass
  pub old : AgreesInFront (end_of k.memory) (world_of k) (world_of r.1)
  pub name_is : class_name_of r.1 r.0 ≡ name
  pub named :
      (q : ℕ)
      → globals_at_or_nil c.nil r.1 q ≡ (if name == q then ok r.0 else globals_at_or_nil c.nil k q)
  pub again :
      (hash : ℕ → ℕ) (equals : ℕ → ℕ → Bool) (fuel super_class_name : ℕ) (d : Description)
      → subclass_with_some_names c hash equals fuel super_class_name name d r.1 ≡ ok r
  pub inherits :
      (fuel selector : ℕ) (xs : List ℕ)
      → Lineage c.nil (world_of k) superclass xs
      → AllInFront (world_of k) (end_of k.memory) xs
      → selector < end_of k.memory
      → lookup c.nil (suc fuel) (world_of r.1) r.0 selector
        ≡ lookup c.nil fuel (world_of k) superclass selector
  pub meta_inherits :
      (fuel selector : ℕ) (xs : List ℕ)
      → Lineage c.nil (world_of k) (class_of k superclass) xs
      → AllInFront (world_of k) (end_of k.memory) xs
      → selector < end_of k.memory
      → lookup c.nil (suc fuel) (world_of r.1) meta selector
        ≡ lookup c.nil fuel (world_of k) (class_of k superclass) selector
  pub others :
      (fuel current selector : ℕ) (xs : List ℕ)
      → Lineage c.nil (world_of k) current xs
      → AllInFront (world_of k) (end_of k.memory) xs
      → selector < end_of k.memory
      → lookup c.nil fuel (world_of r.1) current selector
        ≡ lookup c.nil fuel (world_of k) current selector

-- A new behavior looks up what its superclass does.
starts_lookup :
    (nil : ℕ) (k k' : Kernel) (e behavior superclass fuel selector : ℕ) (xs : List ℕ)
    → StartsEmpty nil k' behavior superclass
    → behavior ≢ nil
    → AgreesInFront e (world_of k) (world_of k')
    → Lineage nil (world_of k) superclass xs
    → AllInFront (world_of k) e xs
    → selector < e
    → lookup nil (suc fuel) (world_of k') behavior selector
      ≡ lookup nil fuel (world_of k) superclass selector
starts_lookup nil k k' e behavior superclass fuel selector xs starts real agree line front low =
    lookup-empty nil (world_of k') fuel behavior selector real starts.real starts.kind
      ((starts.empty k'.memory.headers).2 selector)
    ∙ ap (λ x. lookup nil fuel (world_of k') x selector) starts.its_superclass
    ∙ lookup_kept nil (world_of k) (world_of k') e fuel superclass selector xs agree line front low

module _ (c : KernelClasses) (k k' : Kernel) (superclass name slots : ℕ) (r : ℕ × (ℕ × Kernel))
    (low : c.nil < end_of k.memory) (pair : IsPair c k superclass name slots r)
    (kept : KeepsInFront (end_of r.1.1.memory) r.1.1 k')
    (wider : end_of r.1.1.memory ≤ end_of k'.memory) (table : k'.table ≡ r.1.1.table)
    (name_is : class_name_of k' r.1.0 ≡ name)
    (named : (q : ℕ)
      → globals_at_or_nil c.nil k' q
        ≡ (if name == q then ok r.1.0 else globals_at_or_nil c.nil k q)) where
  agrees : AgreesInFront (end_of k.memory) (world_of k) (world_of k')
  agrees = record {
    headers = λ o h.
        kept.headers o (omega (arith, pair.above, pair.order, pair.inside)) ∙ pair.kept.headers o h;
    behaviors = λ o h.
        kept.behaviors o (omega (arith, pair.above, pair.order, pair.inside))
        ∙ pair.kept.behaviors o h;
    dictionaries = λ o h.
        kept.dictionaries o (omega (arith, pair.above, pair.order, pair.inside))
        ∙ pair.kept.dictionaries o h;
  }

  pub paired-IsSubclassed : IsSubclassed c k superclass name (r.1.0, k')
  paired-IsSubclassed = record {
    meta = r.0;
    class_is =
        ap (λ t. class_from_oop t k'.memory.headers r.1.0) table
        ∙ class_from_oop_kept r.1.1.table r.1.1.memory.headers k'.memory.headers r.1.0
            (kept.headers r.1.0 (omega (arith, pair.inside)))
        ∙ pair.class_is;
    meta_kind =
        ap (λ (h : ObjectHeader). h.class_index)
          (kept.headers r.0 (omega (arith, pair.order, pair.inside)))
        ∙ pair.meta_kind;
    real = omega (arith, pair.above, pair.order);
    fresh = rw (kept.behaviors r.1.0 (omega (arith, pair.inside))) pair.fresh;
    starts =
        StartsEmpty-kept c.nil r.1.1 k' r.1.0 superclass pair.starts (omega (arith, pair.inside))
          wider kept;
    old = agrees;
    name_is = name_is;
    named = named;
    again = λ hash equals fuel super_class_name d.
        known_class c k' hash equals fuel super_class_name name r.1.0 d
          (named name ∙ rw (==_refl name) refl) (omega (arith, pair.above, pair.order));
    inherits = λ fuel selector xs line front here.
        starts_lookup c.nil k k' (end_of k.memory) r.1.0 superclass fuel selector xs
          (StartsEmpty-kept c.nil r.1.1 k' r.1.0 superclass pair.starts (omega (arith, pair.inside))
            wider kept)
          (omega (arith, pair.above, pair.order)) agrees line front here;
    meta_inherits = λ fuel selector xs line front here.
        starts_lookup c.nil k k' (end_of k.memory) r.0 (class_of k superclass) fuel selector xs
          (StartsEmpty-kept c.nil r.1.1 k' r.0 (class_of k superclass) pair.meta_starts
            (omega (arith, pair.order, pair.inside)) wider kept)
          (omega (arith, pair.above)) agrees line front here;
    others = λ fuel current selector xs line front here.
        lookup_kept c.nil (world_of k) (world_of k') (end_of k.memory) fuel current selector xs
          agrees line front here;
  }
