-- ===== src/Kernel/Classes/Making.antt =====
-- The class of a new metaclass.
use slvm_native.Common.{
  ℕ, ◌+◌, ◌*◌, ◌^◌, ◌≤◌, ◌<◌, ◌≡◌, ◌≢◌, ap, ◌∙◌, true, arith, bind_ok, Returns, ==_refl,
}
use slvm_native.Oop.{ObjectHeader}
use slvm_native.ObjectModel.Making.{IsMemory}
use slvm_native.ClassTable.{class_at}
use slvm_native.ClassTable.Register.{IsClassTable}
use slvm_native.Lookup.{is_method_dictionary}
use slvm_native.Collections.Dictionary.Making.{end_of, MakesObjects}
use slvm_native.Kernel.{Kernel, class_of, world_of}
use slvm_native.Kernel.Instances.{class_from_oop_lem}
use slvm_native.Kernel.Classes.{KernelClasses, make_class}
use slvm_native.Kernel.Classes.Objects.{new_object-IsObject}
use slvm_native.Kernel.Classes.Describing.{
  IsEmptyDictionary, IsDescribed, describe_behavior-IsDescribed,
}

-- A behavior with a superclass and no methods yet.
pub record StartsEmpty (nil : ℕ) (k : Kernel) (behavior superclass : ℕ) : Type 0 where
  pub its_superclass : (k.behaviors behavior).superclass ≡ superclass
  pub real : (k.behaviors behavior).method_dict ≢ nil
  pub placed : (k.behaviors behavior).method_dict < end_of k.memory
  pub kind : is_method_dictionary nil (world_of k) (k.behaviors behavior).method_dict ≡ true
  pub empty : IsEmptyDictionary nil (k.dictionaries (k.behaviors behavior).method_dict)

-- What the creation of classes needs of the kernel: the memory, room in the class table, and the
-- formats of the kernel classes, which stand in front of the end of the heap.
pub record CanMakeClasses (c : KernelClasses) (k : Kernel) : Type 0 where
  pub memory : IsMemory k.memory
  pub table : IsClassTable k.table
  pub few : k.table.size + 1 < 512
  pub low : c.nil < end_of k.memory
  pub metaclasses : MakesObjects c.nil k.behaviors k.memory c.metaclass_class 9
  pub dictionaries : MakesObjects c.nil k.behaviors k.memory c.method_dictionary_class 3
  pub kind : (k.memory.headers c.method_dictionary_class).identity_hash ≡ 164

-- The class of a metaclass, before it has its name.
pub record IsClass (nil : ℕ) (k : Kernel) (metaclass superclass slots oop : ℕ) (k' : Kernel)
    : Type 0 where
  pub memory : IsMemory k'.memory
  pub above : end_of k.memory + 8 ≤ oop
  pub inside : oop + 8 + slots * 8 ≤ end_of k'.memory
  pub bounded : end_of k'.memory < end_of k.memory + slots * 8 + 120
  pub old_words : (x : ℕ) → x < end_of k.memory → k'.memory.words x ≡ k.memory.words x
  pub old_headers : (o : ℕ) → o < end_of k.memory → k'.memory.headers o ≡ k.memory.headers o
  pub old_behaviors : (o : ℕ) → o < end_of k.memory → k'.behaviors o ≡ k.behaviors o
  pub old_dictionaries : (o : ℕ) → o < end_of k.memory → k'.dictionaries o ≡ k.dictionaries o
  pub class_is : class_of k' oop ≡ metaclass
  pub fresh : end_of k.memory ≤ (k'.behaviors oop).method_dict
  pub starts : StartsEmpty nil k' oop superclass
  pub globals : k'.globals ≡ k.globals

module _ (c : KernelClasses) where
  pub described-StartsEmpty :
      (k k' : Kernel) (behavior superclass format : ℕ)
      → c.nil < end_of k.memory
      → IsDescribed c.nil k behavior superclass format k'
      → StartsEmpty c.nil k' behavior superclass
  described-StartsEmpty k k' behavior superclass format low is = record {
    its_superclass = is.its_superclass;
    real = omega (arith, is.its_dict, is.above);
    placed = omega (arith, is.its_dict, is.ends);
    kind = rw is.its_dict is.kind;
    empty = rw is.its_dict is.empty;
  }

  module _ (k : Kernel) (metaclass superclass format slots index : ℕ) (is : IsMemory k.memory)
      (low : c.nil < end_of k.memory) (table : IsClassTable k.table) (few : k.table.size < 512)
      (classes : MakesObjects c.nil k.behaviors k.memory metaclass slots)
      (dictionaries : MakesObjects c.nil k.behaviors k.memory c.method_dictionary_class 3)
      (hash : (k.memory.headers c.method_dictionary_class).identity_hash ≡ 164)
      (own_hash : (k.memory.headers metaclass).identity_hash ≡ index) (known : index < 1024)
      (apart : index ≢ 512 + k.table.size) (entry : class_at k.table index ≡ metaclass)
      (room : end_of k.memory + slots * 8 + 6200 < 2 ^ 64) where
    pub make_class-IsClass :
        Returns
          (make_class c metaclass superclass format k)
          λ r. IsClass c.nil k metaclass superclass slots r.0 r.1
    unfolding make_class
    make_class-IsClass =
        let (oop, made, run, new) =
          new_object-IsObject c k metaclass slots is classes (omega arith) in
        let k₁ : Kernel = record k { memory = made } in
        let index_is : (made.headers oop).class_index ≡ index = new.class_is ∙ own_hash in
        let checked : class_of k₁ oop ≡ metaclass =
          class_from_oop_lem k.table made.headers oop new.pointer
          ∙ ap (class_at k.table) index_is
          ∙ entry in
        let far : c.method_dictionary_class ≢ oop =
          omega (arith, dictionaries.in_front, new.follows.above) in
        let makes : MakesObjects c.nil k₁.behaviors made c.method_dictionary_class 3 = record {
          real = dictionaries.real;
          in_front = omega (arith, dictionaries.in_front, new.follows.above, new.follows.ends);
          format = dictionaries.format;
          fixed = dictionaries.fixed;
        } in
        let (k', run', done) =
          describe_behavior-IsDescribed c k₁ oop superclass format new.follows.memory
            (omega (arith, new.follows.ends)) table few makes far
            (ap (λ (h : ObjectHeader). h.identity_hash)
                (new.follows.old_headers c.method_dictionary_class far)
              ∙ hash)
            (omega (arith, new.follows.ends, new.follows.near)) in
        (
          (oop, k'),
          bind_ok _ run ∙ rw (checked, ==_refl metaclass) (bind_ok _ run'),
          record {
            memory = done.memory;
            above = new.follows.above;
            inside = omega (arith, new.follows.ends, done.above, done.ends);
            bounded = omega (arith, new.follows.near, new.follows.ends, done.near, done.ends);
            old_words = λ x h.
                done.old_words x (omega (arith, new.follows.above, new.follows.ends))
                ∙ new.follows.old_words x h;
            old_headers = λ o h.
                done.old_headers o (omega (arith, new.follows.above))
                  (omega (arith, done.above, new.follows.above, new.follows.ends))
                ∙ new.follows.old_headers o (omega (arith, new.follows.above));
            old_behaviors = λ o h. done.old_behaviors o (omega (arith, new.follows.above));
            old_dictionaries = λ o h.
                done.old_dictionaries o
                  (omega (arith, done.above, new.follows.above, new.follows.ends));
            class_is =
                class_from_oop_lem k'.table k'.memory.headers oop new.pointer
                ∙ ap (class_at k'.table) (done.own_class ∙ index_is)
                ∙ done.table.others index known apart
                ∙ entry;
            fresh = omega (arith, done.its_dict, done.above, new.follows.above, new.follows.ends);
            starts =
                described-StartsEmpty k₁ k' oop superclass format
                  (omega (arith, new.follows.above, new.follows.ends)) done;
            globals = done.globals;
          },
        )
