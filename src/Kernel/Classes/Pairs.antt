-- ===== src/Kernel/Classes/Pairs.antt =====
-- A new metaclass and its class, linked with each other.
use slvm_native.Common.{ap}
use slvm_native.Oop.{ObjectHeader}
use slvm_native.Common.{
  ℕ, ◌+◌, ◌*◌, ◌^◌, ◌≤◌, ◌<◌, ◌≡◌, refl, ◌∙◌, arith, bind_ok, Returns, ne→==, ==_refl,
}
use slvm_native.ObjectModel.{decode_format, decode_fixed_size}
use slvm_native.ObjectModel.Making.{IsMemory}
use slvm_native.Collections.Dictionary.Making.{end_of}
use slvm_native.Kernel.{Kernel, class_of, class_name_of, this_class_of}
use slvm_native.Kernel.Classes.{
  KernelClasses, Description, make_pair, set_field, instance_variables_field, name_field,
  this_class_field,
}
use slvm_native.Kernel.Classes.Making.{StartsEmpty, CanMakeClasses, IsClass, make_class-IsClass}
use slvm_native.Kernel.Classes.Metaclasses.{
  KeepsInFront, StartsEmpty-kept, IsMetaclass, new-IsMetaclass,
}

-- A class and its metaclass, of which the class has its name and no metadata yet.
pub record IsPair (c : KernelClasses) (k : Kernel) (superclass name slots : ℕ)
    (r : ℕ × (ℕ × Kernel)) : Type 0 where
  pub memory : IsMemory r.1.1.memory
  pub above : end_of k.memory + 8 ≤ r.0
  pub order : r.0 + 88 ≤ r.1.0
  pub inside : r.1.0 + 8 + slots * 8 ≤ end_of r.1.1.memory
  pub bounded : end_of r.1.1.memory < end_of k.memory + slots * 8 + 400
  pub old_words : (x : ℕ) → x < end_of k.memory → r.1.1.memory.words x ≡ k.memory.words x
  pub kept : KeepsInFront (end_of k.memory) k r.1.1
  pub class_is : class_of r.1.1 r.1.0 ≡ r.0
  pub fresh : end_of k.memory ≤ (r.1.1.behaviors r.1.0).method_dict
  pub starts : StartsEmpty c.nil r.1.1 r.1.0 superclass
  pub meta_kind :
      (r.1.1.memory.headers r.0).class_index ≡ (k.memory.headers c.metaclass_class).identity_hash
  pub meta_starts : StartsEmpty c.nil r.1.1 r.0 (class_of k superclass)
  pub name_is : class_name_of r.1.1 r.1.0 ≡ name
  pub this_is : this_class_of r.1.1 r.0 ≡ r.1.0
  pub globals : r.1.1.globals ≡ k.globals

-- The class is named, and its metaclass knows it.
linked-IsPair :
    (c : KernelClasses) (k kB kE : Kernel) (superclass name slots meta names oop : ℕ)
    → IsMetaclass c k superclass slots meta kB
    → IsClass c.nil (set_field meta instance_variables_field names kB) meta superclass slots oop kE
    → 14 ≤ slots
    → IsPair c k superclass name slots
        (meta, (oop, set_field meta this_class_field oop (set_field oop name_field name kE)))
linked-IsPair c k kB kE superclass name slots meta names oop m made wide =
    let linked : Kernel = set_field meta this_class_field oop (set_field oop name_field name kE) in
    let later : KeepsInFront (end_of kB.memory) kB linked = record {
      headers = made.old_headers;
      behaviors = made.old_behaviors;
      dictionaries = made.old_dictionaries;
    } in
    record {
      memory = record { heap = made.memory.heap; requested = made.memory.requested };
      above = m.above;
      order = omega (arith, m.inside, made.above);
      inside = made.inside;
      bounded = omega (arith, m.bounded, made.bounded);
      old_words = λ x h.
          rw
            (
              ne→== x (meta + 56) (omega (arith, m.above)),
              ne→== x (oop + 64) (omega (arith, m.above, m.inside, made.above)),
            )
            (made.old_words x (omega (arith, m.above, m.inside))
              ∙ rw (ne→== x (meta + 40) (omega (arith, m.above))) (m.old_words x h));
      kept = record {
        headers = λ o h. made.old_headers o (omega (arith, m.above, m.inside)) ∙ m.kept.headers o h;
        behaviors =
            λ o h. made.old_behaviors o (omega (arith, m.above, m.inside)) ∙ m.kept.behaviors o h;
        dictionaries = λ o h.
            made.old_dictionaries o (omega (arith, m.above, m.inside)) ∙ m.kept.dictionaries o h;
      };
      class_is = made.class_is;
      fresh = omega (arith, made.fresh, m.above, m.inside);
      starts = record {
        its_superclass = made.starts.its_superclass;
        real = made.starts.real;
        placed = made.starts.placed;
        kind = made.starts.kind;
        empty = made.starts.empty;
      };
      meta_kind =
          ap (λ (h : ObjectHeader). h.class_index) (made.old_headers meta (omega (arith, m.inside)))
          ∙ m.own_class;
      meta_starts =
          StartsEmpty-kept c.nil kB linked meta (class_of k superclass) m.starts
            (omega (arith, m.inside)) (omega (arith, made.above, made.inside)) later;
      name_is =
          rw
            (ne→== (oop + 64) (meta + 56) (omega (arith, m.inside, made.above)), ==_refl (oop + 64))
            refl;
      this_is = rw (==_refl (meta + 56)) refl;
      globals = made.globals ∙ m.globals;
    }

module _ (c : KernelClasses) where
  module _ (k : Kernel) (superclass name slots : ℕ) (d : Description) (can : CanMakeClasses c k)
      (format : decode_format d.meta_format ≡ 1) (fixed : decode_fixed_size d.meta_format ≡ slots)
      (wide : 14 ≤ slots) (room : end_of k.memory + slots * 8 + 7000 < 2 ^ 64) where
    pub make_pair-IsPair :
        Returns (make_pair c superclass name d k) (IsPair c k superclass name slots)
    unfolding make_pair
    make_pair-IsPair =
        let (meta, m₁, kB, run₁, run₂, m) =
          new-IsMetaclass c k superclass slots d can format fixed room in
        let names = d.meta_instance_variable_names in
        let kC : Kernel = set_field meta instance_variables_field names kB in
        let ((oop, kE), run₃, made) =
          make_class-IsClass c kC meta superclass d.format slots (512 + k.table.size)
            (record { heap = m.memory.heap; requested = m.memory.requested })
            (omega (arith, can.low, m.above, m.inside)) m.table.valid
            (omega (arith, m.table.size, can.few))
            (record {
              real = m.classes.real;
              in_front = m.classes.in_front;
              format = m.classes.format;
              fixed = m.classes.fixed;
            })
            (record {
              real = m.dictionaries.real;
              in_front = m.dictionaries.in_front;
              format = m.dictionaries.format;
              fixed = m.dictionaries.fixed;
            })
            m.kind m.own_hash (omega (arith, can.few)) (omega (arith, m.table.size)) m.table.entry
            (omega (arith, m.bounded)) in
        (
          _,
          bind_ok _ run₁ ∙ bind_ok _ run₂ ∙ bind_ok _ run₃,
          linked-IsPair c k kB kE superclass name slots meta names oop m made wide,
        )
