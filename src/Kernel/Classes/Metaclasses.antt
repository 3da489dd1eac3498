-- ===== src/Kernel/Classes/Metaclasses.antt =====
-- A new metaclass, registered and described.
use slvm_native.Common.{ℕ, ◌+◌, ◌*◌, ◌^◌, ◌≤◌, ◌<◌, ◌≡◌, ◌≢◌, ap, ◌∙◌, arith, ok}
use slvm_native.Oop.{ObjectHeader, class_index_from_oop}
use slvm_native.Lookup.{is_method_dictionary}
use slvm_native.ObjectModel.{ObjectMemory, decode_format, decode_fixed_size}
use slvm_native.ObjectModel.Making.{IsMemory}
use slvm_native.Collections.Dictionary.Making.{end_of, MakesObjects}
use slvm_native.Kernel.{Kernel, class_of}
use slvm_native.Kernel.Classes.{KernelClasses, Description, new_object, describe_behavior}
use slvm_native.Kernel.Classes.Objects.{IsObject, new_object-IsObject}
use slvm_native.Kernel.Classes.Describing.{Registers, IsDescribed, describe_behavior-IsDescribed}
use slvm_native.Kernel.Classes.Making.{StartsEmpty, CanMakeClasses, described-StartsEmpty}

-- The objects in front of an address are as before, but for their words.
pub record KeepsInFront (e : ℕ) (k k' : Kernel) : Type 0 where
  pub headers : (o : ℕ) → o < e → k'.memory.headers o ≡ k.memory.headers o
  pub behaviors : (o : ℕ) → o < e → k'.behaviors o ≡ k.behaviors o
  pub dictionaries : (o : ℕ) → o < e → k'.dictionaries o ≡ k.dictionaries o

-- A behavior without methods stays one while its dictionary and its header are left alone.
pub StartsEmpty-kept :
    (nil : ℕ) (k k' : Kernel) (behavior superclass : ℕ)
    → StartsEmpty nil k behavior superclass
    → behavior < end_of k.memory
    → end_of k.memory ≤ end_of k'.memory
    → KeepsInFront (end_of k.memory) k k'
    → StartsEmpty nil k' behavior superclass
unfolding is_method_dictionary class_index_from_oop
StartsEmpty-kept nil k k' behavior superclass is here wider kept =
    let same = kept.behaviors behavior here in
    record {
      its_superclass = rw same is.its_superclass;
      real = rw same is.real;
      placed = rw same (omega (arith, is.placed));
      kind = rw (same, kept.headers (k.behaviors behavior).method_dict is.placed) is.kind;
      empty = rw (same, kept.dictionaries (k.behaviors behavior).method_dict is.placed) is.empty;
    }

-- The kernel with a new metaclass, and what its first instance needs.
pub record IsMetaclass (c : KernelClasses) (k : Kernel) (superclass slots meta : ℕ) (k' : Kernel)
    : Type 0 where
  pub memory : IsMemory k'.memory
  pub above : end_of k.memory + 8 ≤ meta
  pub inside : meta + 80 ≤ end_of k'.memory
  pub bounded : end_of k'.memory < end_of k.memory + 240
  pub old_words : (x : ℕ) → x < end_of k.memory → k'.memory.words x ≡ k.memory.words x
  pub kept : KeepsInFront (end_of k.memory) k k'
  pub starts : StartsEmpty c.nil k' meta (class_of k superclass)
  pub classes : MakesObjects c.nil k'.behaviors k'.memory meta slots
  pub dictionaries : MakesObjects c.nil k'.behaviors k'.memory c.method_dictionary_class 3
  pub kind : (k'.memory.headers c.method_dictionary_class).identity_hash ≡ 164
  pub own_hash : (k'.memory.headers meta).identity_hash ≡ 512 + k.table.size
  pub own_class :
      (k'.memory.headers meta).class_index ≡ (k.memory.headers c.metaclass_class).identity_hash
  pub table : Registers k.table meta k'.table
  pub globals : k'.globals ≡ k.globals

module _ (c : KernelClasses) (k : Kernel) (superclass slots : ℕ) (d : Description)
    (can : CanMakeClasses c k) (format : decode_format d.meta_format ≡ 1)
    (fixed : decode_fixed_size d.meta_format ≡ slots)
    (room : end_of k.memory + slots * 8 + 7000 < 2 ^ 64) where
  described-IsMetaclass :
      (meta : ℕ) (m₁ : ObjectMemory) (kB : Kernel)
      → IsObject k.memory c.metaclass_class 9 meta m₁
      → IsDescribed c.nil (record k { memory = m₁ }) meta (class_of k superclass) d.meta_format kB
      → IsMetaclass c k superclass slots meta kB
  described-IsMetaclass meta m₁ kB new done =
      let behind : end_of k.memory + 80 < end_of m₁ =
        omega (arith, new.follows.above, new.follows.ends) in
      let far : c.method_dictionary_class ≢ meta =
        omega (arith, can.dictionaries.in_front, new.follows.above) in
      let headers : (o : ℕ) → o < end_of k.memory → kB.memory.headers o ≡ k.memory.headers o =
        λ o h.
          done.old_headers o (omega (arith, new.follows.above)) (omega (arith, done.above))
          ∙ new.follows.old_headers o (omega (arith, new.follows.above)) in
      let own = done.old_behaviors c.method_dictionary_class far in
      record {
        memory = done.memory;
        above = new.follows.above;
        inside = omega (arith, new.follows.ends, done.above, done.ends);
        bounded = omega (arith, new.follows.near, new.follows.ends, done.near, done.ends);
        old_words = λ x h. done.old_words x (omega arith) ∙ new.follows.old_words x h;
        kept = record {
          headers = headers;
          behaviors = λ o h. done.old_behaviors o (omega (arith, new.follows.above));
          dictionaries = λ o h. done.old_dictionaries o (omega (arith, done.above));
        };
        starts =
            described-StartsEmpty c (record k { memory = m₁ }) kB meta (class_of k superclass)
              d.meta_format (omega (arith, can.low)) done;
        classes = record {
          real = omega (arith, can.low, new.follows.above);
          in_front = omega (arith, new.follows.ends, done.above, done.ends);
          format = rw done.its_format format;
          fixed = rw done.its_format fixed;
        };
        dictionaries = record {
          real = can.dictionaries.real;
          in_front = omega (arith, can.dictionaries.in_front, done.above, done.ends);
          format = rw own can.dictionaries.format;
          fixed = rw own can.dictionaries.fixed;
        };
        kind =
            ap (λ (h : ObjectHeader). h.identity_hash)
              (headers c.method_dictionary_class can.dictionaries.in_front)
            ∙ can.kind;
        own_hash = done.own_hash;
        own_class = done.own_class ∙ new.class_is;
        table = done.table;
        globals = done.globals;
      }

  -- A new metaclass.
  pub new-IsMetaclass :
      (meta : ℕ) × (m₁ : ObjectMemory) × (kB : Kernel) × (new_object c c.metaclass_class k
        ≡ ok (meta, record k { memory = m₁ }))
      × (describe_behavior c meta (class_of k superclass) d.meta_format (record k { memory = m₁ })
          ≡ ok kB)
      × IsMetaclass c k superclass slots meta kB
  new-IsMetaclass =
      let (meta, m₁, run₁, new) =
        new_object-IsObject c k c.metaclass_class 9 can.memory can.metaclasses (omega arith) in
      let far : c.method_dictionary_class ≢ meta =
        omega (arith, can.dictionaries.in_front, new.follows.above) in
      let (kB, run₂, done) =
        describe_behavior-IsDescribed c (record k { memory = m₁ }) meta (class_of k superclass)
          d.meta_format new.follows.memory (omega (arith, new.follows.ends)) can.table
          (omega (arith, can.few))
          (record {
            real = can.dictionaries.real;
            in_front =
                omega (arith, can.dictionaries.in_front, new.follows.above, new.follows.ends);
            format = can.dictionaries.format;
            fixed = can.dictionaries.fixed;
          })
          far
          (ap (λ (h : ObjectHeader). h.identity_hash)
              (new.follows.old_headers c.method_dictionary_class far)
            ∙ can.kind)
          (omega (arith, new.follows.ends, new.follows.near)) in
      (meta, m₁, kB, run₁, run₂, described-IsMetaclass meta m₁ kB new done)
