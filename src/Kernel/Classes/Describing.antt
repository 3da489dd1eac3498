-- ===== src/Kernel/Classes/Describing.antt =====
-- A behavior that is registered and described, with its new method dictionary.
use slvm_native.Collections.MethodDictionary.Insert.{IsReady}
use slvm_native.Common.{length}
use slvm_native.Common.{
  ℕ, ◌+◌, ◌^◌, ◌≤◌, ◌<◌, ◌≡◌, ◌≢◌, refl, ap, ◌∙◌, true, false, ◌==◌, ◌&&◌, if◌then◌else◌, arith, ok,
  bind_ok, Returns, ne→==, ==_refl,
}
use slvm_native.Oop.{ObjectHeader, oop_is_pointers, class_index_from_oop}
use slvm_native.ObjectModel.{ObjectMemory, Behavior}
use slvm_native.ObjectModel.Making.{IsMemory}
use slvm_native.ClassTable.{ClassTable, register_behavior, class_at}
use slvm_native.ClassTable.Register.{IsClassTable, register_behavior-class_at}
use slvm_native.Lookup.{is_method_dictionary}
use slvm_native.Collections.MethodDictionary as MethodDict
use slvm_native.Collections.MethodDictionary.{MethodDictionary, at_or_nil}
use slvm_native.Collections.MethodDictionary.Dict.{new-IsReady}
use slvm_native.Collections.Dictionary.Making.{end_of, MakesObjects}
use slvm_native.Kernel.{Kernel, world_of}
use slvm_native.Kernel.Classes.{
  KernelClasses, register, new_method_dictionary, describe_behavior, with_behavior,
}
use slvm_native.Kernel.Classes.Objects.{IsObject, new_object-IsObject}

-- A method dictionary without methods.
abbrev pub IsEmptyDictionary : ℕ → MethodDictionary → Type 0
IsEmptyDictionary nil d =
    (headers : ℕ → ObjectHeader)
    → IsReady nil headers d × (length d.keys ≡ 5) × ((q : ℕ) → at_or_nil nil headers d q ≡ nil)

new-IsEmptyDictionary :
    (nil : ℕ) (headers : ℕ → ObjectHeader) → IsEmptyDictionary nil (MethodDict.new nil headers)
unfolding MethodDict.new MethodDict.new_with_capacity
new-IsEmptyDictionary nil headers headers' =
    let is = new-IsReady nil headers' 5 in (is.0, refl, is.1)

-- The class table with one behavior more.
pub record Registers (t : ClassTable) (behavior : ℕ) (t' : ClassTable) : Type 0 where
  pub valid : IsClassTable t'
  pub size : t'.size ≡ t.size + 1
  pub entry : class_at t' (512 + t.size) ≡ behavior
  pub others : (i : ℕ) → i < 1024 → i ≢ 512 + t.size → class_at t' i ≡ class_at t i

-- The kernel with a behavior described, and its new method dictionary.
pub record IsDescribed (nil : ℕ) (k : Kernel) (behavior superclass format : ℕ) (k' : Kernel)
    : Type 0 where
  pub dict : ℕ
  pub memory : IsMemory k'.memory
  pub above : end_of k.memory + 8 ≤ dict
  pub near : dict < end_of k.memory + 40
  pub ends : dict + 32 ≡ end_of k'.memory
  pub old_words : (x : ℕ) → x < end_of k.memory → k'.memory.words x ≡ k.memory.words x
  pub old_headers : (o : ℕ) → o ≢ behavior → o ≢ dict → k'.memory.headers o ≡ k.memory.headers o
  pub own_class : (k'.memory.headers behavior).class_index ≡ (k.memory.headers behavior).class_index
  pub own_hash : (k'.memory.headers behavior).identity_hash ≡ 512 + k.table.size
  pub its_superclass : (k'.behaviors behavior).superclass ≡ superclass
  pub its_format : (k'.behaviors behavior).format ≡ format
  pub its_dict : (k'.behaviors behavior).method_dict ≡ dict
  pub old_behaviors : (o : ℕ) → o ≢ behavior → k'.behaviors o ≡ k.behaviors o
  pub kind : is_method_dictionary nil (world_of k') dict ≡ true
  pub empty : IsEmptyDictionary nil (k'.dictionaries dict)
  pub old_dictionaries : (o : ℕ) → o ≢ dict → k'.dictionaries o ≡ k.dictionaries o
  pub table : Registers k.table behavior k'.table
  pub globals : k'.globals ≡ k.globals

module _ (c : KernelClasses) where
  -- Registration.
  register-Registers :
      (k : Kernel) (behavior : ℕ)
      → IsClassTable k.table
      → k.table.size < 512
      → Registers k.table behavior (register c behavior k).table
        × (((register c behavior k).memory.headers behavior).identity_hash ≡ 512 + k.table.size)
  unfolding register
  register-Registers k behavior is few =
      let (valid, size, hash, entry, others) =
        register_behavior-class_at c.image k.table k.memory.headers behavior is few in
      (record { valid = valid; size = size; entry = entry; others = others }, hash)

  -- The header of the behavior gets its hash, and no other header changes.
  register_headers :
      (k : Kernel) (behavior : ℕ)
      → ((o : ℕ) → o ≢ behavior → (register c behavior k).memory.headers o ≡ k.memory.headers o)
        × (((register c behavior k).memory.headers behavior).class_index
            ≡ (k.memory.headers behavior).class_index)
  unfolding register register_behavior
  register_headers k behavior =
      (λ o other. rw (ne→== o behavior other) refl, rw (==_refl behavior) refl)

  -- The new dictionary.
  new_method_dictionary-IsObject :
      (k : Kernel)
      → IsMemory k.memory
      → MakesObjects c.nil k.behaviors k.memory c.method_dictionary_class 3
      → end_of k.memory + 6100 < 2 ^ 64
      → (dict : ℕ) × (made : ObjectMemory) × (new_method_dictionary c k
          ≡ ok (
            dict,
            record k {
              memory = made;
              dictionaries = λ o.
                  if o == dict then MethodDict.new c.nil k.memory.headers else k.dictionaries o;
            },
          ))
        × IsObject k.memory c.method_dictionary_class 3 dict made
  unfolding new_method_dictionary
  new_method_dictionary-IsObject k is makes room =
      let (oop, made, run, new) =
        new_object-IsObject c k c.method_dictionary_class 3 is makes (omega arith) in
      (oop, made, bind_ok _ run, new)

  dictionary_kind :
      (dict : ℕ) (made : ObjectMemory)
      → oop_is_pointers dict ≡ true
      → (made.headers dict).class_index ≡ 164
      → (oop_is_pointers dict && (class_index_from_oop made.headers dict == 164)) ≡ true
  unfolding class_index_from_oop
  dictionary_kind dict made pointer kind = rw (pointer, kind) refl

  module _ (k : Kernel) (behavior superclass format : ℕ) (is : IsMemory k.memory)
      (here : behavior < end_of k.memory) (table : IsClassTable k.table) (few : k.table.size < 512)
      (makes : MakesObjects c.nil k.behaviors k.memory c.method_dictionary_class 3)
      (other : c.method_dictionary_class ≢ behavior)
      (hash : (k.memory.headers c.method_dictionary_class).identity_hash ≡ 164)
      (room : end_of k.memory + 6100 < 2 ^ 64) where
    pub describe_behavior-IsDescribed :
        Returns
          (describe_behavior c behavior superclass format k)
          (IsDescribed c.nil k behavior superclass format)
    unfolding describe_behavior register is_method_dictionary
    describe_behavior-IsDescribed =
        let (registered, own) = register-Registers k behavior table few in
        let (others, class_kept) = register_headers k behavior in
        let described : Behavior = record (k.behaviors behavior) {
          superclass = superclass;
          format = format;
        } in
        let k₂ : Kernel = with_behavior behavior described (register c behavior k) in
        let same_class : (c.method_dictionary_class == behavior) ≡ false = ne→== _ _ other in
        let makes' : MakesObjects c.nil k₂.behaviors k₂.memory c.method_dictionary_class 3 =
          record {
            real = makes.real;
            in_front = makes.in_front;
            format = rw same_class makes.format;
            fixed = rw same_class makes.fixed;
          } in
        let (dict, made, run, new) =
          new_method_dictionary-IsObject k₂ (record { heap = is.heap; requested = is.requested })
            makes' room in
        let apart : behavior ≢ dict = omega (arith, new.follows.above) in
        let old = new.follows.old_headers in
        (
          _,
          bind_ok _ run,
          record {
            dict = dict;
            memory = new.follows.memory;
            above = new.follows.above;
            near = new.follows.near;
            ends = omega (arith, new.follows.ends);
            old_words = new.follows.old_words;
            old_headers = λ o h h'. old o h' ∙ others o h;
            own_class = ap (λ (h : ObjectHeader). h.class_index) (old behavior apart) ∙ class_kept;
            own_hash = ap (λ (h : ObjectHeader). h.identity_hash) (old behavior apart) ∙ own;
            its_superclass = rw (==_refl behavior) refl;
            its_format = rw (==_refl behavior) refl;
            its_dict = rw (==_refl behavior) refl;
            old_behaviors = λ o h. rw (ne→== o behavior h) refl;
            kind = dictionary_kind dict made new.pointer (
                new.class_is
                ∙ ap (λ (h : ObjectHeader). h.identity_hash)
                    (others c.method_dictionary_class other)
                ∙ hash);
            empty = rw (==_refl dict) (new-IsEmptyDictionary c.nil _);
            old_dictionaries = λ o h. rw (ne→== o dict h) refl;
            table = registered;
            globals = refl;
          },
        )
