-- ===== src/Kernel/Classes/Metadata.antt =====
-- slvm_dynrun_classSetMetadata for a class without class variables.
use slvm_native.Common.{
  ℕ, ◌+◌, ◌^◌, ◌≤◌, ◌<◌, ◌≡◌, ◌⊎◌, Bool, refl, ◌∙◌, ◌==◌, if◌then◌else◌, arith, bind_ok, Returns,
  ne→==, ==_refl,
}
use slvm_native.ObjectModel.{write_word}
use slvm_native.ObjectModel.Making.{IsMemory}
use slvm_native.Collections.Dictionary as Generic
use slvm_native.Collections.Dictionary.Making.{end_of, MakesObjects}
use slvm_native.Kernel.{Kernel}
use slvm_native.Kernel.Classes.{
  KernelClasses, Description, set_field, new_class_pool, class_set_metadata,
  instance_variables_field, category_field, class_pool_field, shared_pools_field,
}
use slvm_native.Kernel.Classes.Objects.{new_object-IsObject}
use slvm_native.Kernel.Classes.Metaclasses.{KeepsInFront}

-- The kernel with the metadata of a class: only the class has changed.
pub record IsFurnished (k : Kernel) (oop : ℕ) (k' : Kernel) : Type 0 where
  pub memory : IsMemory k'.memory
  pub wider : end_of k.memory ≤ end_of k'.memory
  pub other_words :
      (x : ℕ)
      → x < end_of k.memory
      → (x < oop + 40) ⊎ (x ≡ oop + 64) ⊎ (oop + 104 ≤ x)
      → k'.memory.words x ≡ k.memory.words x
  pub kept : KeepsInFront (end_of k.memory) k k'
  pub table : k'.table ≡ k.table
  pub globals : k'.globals ≡ k.globals

unfurnished :
    (words : ℕ → ℕ) (oop x v w : ℕ)
    → (x < oop + 40) ⊎ (x ≡ oop + 64) ⊎ (oop + 104 ≤ x)
    → write_word (write_word words (oop + 40) v) (oop + 96) w x ≡ words x
unfurnished words oop x v w h =
    rw (ne→== x (oop + 96) (omega arith), ne→== x (oop + 40) (omega arith)) refl

module _ (c : KernelClasses) (hash : ℕ → ℕ) (equals : ℕ → ℕ → Bool) (fuel oop : ℕ) (d : Description)
    (k : Kernel) (is : IsMemory k.memory)
    (pools : MakesObjects c.nil k.behaviors k.memory c.dictionary_class 2)
    (plain : d.class_variable_associations ≡ c.nil) (room : end_of k.memory + 6100 < 2 ^ 64) where
  pub class_set_metadata-IsFurnished :
      Returns (class_set_metadata c hash equals fuel oop d k) (IsFurnished k oop)
  unfolding class_set_metadata new_class_pool
  class_set_metadata-IsFurnished =
      let k₁ : Kernel =
        set_field oop category_field d.category_name
          (set_field oop instance_variables_field d.instance_variable_names k) in
      let (pool, made, run, new) =
        new_object-IsObject c k₁ c.dictionary_class 2
          (record { heap = is.heap; requested = is.requested })
          (record {
            real = pools.real;
            in_front = pools.in_front;
            format = pools.format;
            fixed = pools.fixed;
          })
          (omega arith) in
      let pooled : Kernel = set_field oop class_pool_field pool (record k₁ {
        memory = made;
        class_pools = λ o. if o == oop then Generic.new c.nil hash equals else k.class_pools o;
      }) in
      (
        set_field oop shared_pools_field d.pool_dictionaries pooled,
        bind_ok _ (bind_ok _ run) ∙ rw (plain, ==_refl c.nil) refl,
        record {
          memory = record {
            heap = new.follows.memory.heap;
            requested = new.follows.memory.requested;
          };
          wider = omega (arith, new.follows.above, new.follows.ends);
          other_words = λ x h apart.
              rw (ne→== x (oop + 80) (omega arith), ne→== x (oop + 72) (omega arith))
                (new.follows.old_words x h
                  ∙ unfurnished k.memory.words oop x d.instance_variable_names d.category_name
                      apart);
          kept = record {
            headers = λ o h. new.follows.old_headers o (omega (arith, new.follows.above));
            behaviors = λ o h. refl;
            dictionaries = λ o h. refl;
          };
          table = refl;
          globals = refl;
        },
      )
