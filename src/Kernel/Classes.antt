-- ===== src/Kernel/Classes.antt =====
-- src/classes/kernel.c: the creation of classes, slvm_dynrun_subclassWithSomeNames and
-- slvm_dynrun_classSetMetadata. Fields that no other function reads are words behind the header.
pub mod Objects
pub mod Describing
pub mod Making
pub mod Metaclasses
pub mod Pairs
pub mod Metadata
pub mod Naming
pub mod Furnishing
pub mod Inheriting
pub mod Subclassing
pub mod Loading
use slvm_native.Common.{
  ℕ, zero, suc, ◌+◌, ◌*◌, Bool, ◌==◌, ◌||◌, if◌then◌else◌, Outcome, ok, aborted, ◌>>=◌,
}
use slvm_native.Oop.{oop_is_immediate}
use slvm_native.ObjectModel.{ObjectMemory, Behavior, write_word, basic_new, basic_size}
use slvm_native.ClassTable.{Image, register_behavior}
use slvm_native.Collections.MethodDictionary as MethodDict
use slvm_native.Collections.Dictionary as Generic
use slvm_native.Collections.Dictionary.{HashedCollection}
use slvm_native.Kernel.{Kernel, class_of, globals_at_or_nil, globals_at_put}

-- The addresses of `slvm_nil` and of the kernel classes that are instantiated here.
pub record KernelClasses : Type 0 where
  pub nil : ℕ
  pub image : Image
  pub metaclass_class : ℕ
  pub method_dictionary_class : ℕ
  pub dictionary_class : ℕ
  pub association_class : ℕ

-- The arguments of `slvm_dynrun_subclassWithSomeNames` but for the two names.
pub record Description : Type 0 where
  pub instance_variable_names : ℕ
  pub format : ℕ
  pub meta_instance_variable_names : ℕ
  pub meta_format : ℕ
  pub class_variable_associations : ℕ
  pub pool_dictionaries : ℕ
  pub category_name : ℕ

-- `object->field = value`, for the field `offset` bytes behind the start of the object.
abbrev pub set_field : ℕ → ℕ → ℕ → Kernel → Kernel
set_field object offset value k = record k {
  memory = record (k.memory) { words = write_word k.memory.words (object + offset) value };
}

-- `instanceVariables`, `name`, `classPool`, `sharedPools` and `category` of a class, and `thisClass`
-- of a metaclass.
abbrev pub instance_variables_field : ℕ
instance_variables_field = 40

abbrev pub name_field : ℕ
name_field = 64

abbrev pub class_pool_field : ℕ
class_pool_field = 72

abbrev pub shared_pools_field : ℕ
shared_pools_field = 80

abbrev pub category_field : ℕ
category_field = 96

abbrev pub this_class_field : ℕ
this_class_field = 56

abbrev pub with_behavior : ℕ → Behavior → Kernel → Kernel
with_behavior behavior b k = record k {
  behaviors = λ o. if o == behavior then b else k.behaviors o;
}

module _ (c : KernelClasses) where
  -- `slvm_Behavior_basicNew(behavior, 0)`
  unfoldable pub new_object : ℕ → Kernel → Outcome (ℕ × Kernel)
  new_object behavior k =
      basic_new c.nil k.behaviors k.memory behavior 0 >>= λ r. ok (r.0, record k { memory = r.1 })

  -- `slvm_objectmodel_registerBehavior`
  unfoldable pub register : ℕ → Kernel → Kernel
  register behavior k =
      let r = register_behavior c.image behavior k.table k.memory.headers in
      record k { table = r.0; memory = record (k.memory) { headers = r.1 } }

  -- `slvm_MethodDictionary_new`
  unfoldable pub new_method_dictionary : Kernel → Outcome (ℕ × Kernel)
  new_method_dictionary k = new_object c.method_dictionary_class k >>= λ r. ok (
    r.0,
    record (r.1) {
      dictionaries =
          λ o. if o == r.0 then MethodDict.new c.nil k.memory.headers else r.1.dictionaries o;
    },
  )

  -- A new behavior is registered and gets its superclass, its format and its methods.
  unfoldable pub describe_behavior : ℕ → ℕ → ℕ → Kernel → Outcome Kernel
  describe_behavior behavior superclass format k =
      let registered = register behavior k in
      let described = record (registered.behaviors behavior) {
        superclass = superclass;
        format = format;
      } in
      new_method_dictionary (with_behavior behavior described registered) >>= λ r.
      ok (with_behavior behavior (record described { method_dict = r.0 }) r.1)

  -- `clazz->classPool = slvm_Dictionary_new(...)`
  unfoldable pub new_class_pool : (ℕ → ℕ) → (ℕ → ℕ → Bool) → ℕ → Kernel → Outcome Kernel
  new_class_pool hash equals class_oop k = new_object c.dictionary_class k >>= λ r. ok (
      set_field class_oop class_pool_field r.0 (record (r.1) {
        class_pools =
            λ o. if o == class_oop then Generic.new c.nil hash equals else r.1.class_pools o;
      }))

  -- The loop over the class variables: each becomes nil and goes into the class pool. The fuel is
  -- that of the dictionary.
  unfoldable pub add_class_variables :
      (ℕ → ℕ) → (ℕ → ℕ → Bool) → ℕ → ℕ → ℕ → ℕ → ℕ → Kernel → Outcome Kernel
  add_class_variables hash equals fuel class_oop array zero i k = ok k
  add_class_variables hash equals fuel class_oop array (suc rounds) i k =
      let variable = k.memory.words (array + 8 + i * 8) in
      let cleared = set_field variable 16 c.nil k in
      Generic.add_association c.nil hash equals fuel cleared.memory.words
        (cleared.class_pools class_oop) variable
      >>= (λ pool. ok (record cleared {
        class_pools = λ o. if o == class_oop then pool else cleared.class_pools o;
      }))
      >>= add_class_variables hash equals fuel class_oop array rounds (i + 1)

  -- `slvm_dynrun_classSetMetadata`, which does not read the variables of the metaclass. The hash
  -- and the equality are those of strings, for names that are strings, on which these two do not
  -- stop the process.
  unfoldable pub class_set_metadata :
      (ℕ → ℕ) → (ℕ → ℕ → Bool) → ℕ → ℕ → Description → Kernel → Outcome Kernel
  class_set_metadata hash equals fuel class_oop d k =
      new_class_pool hash equals class_oop (
        set_field class_oop category_field d.category_name
          (set_field class_oop instance_variables_field d.instance_variable_names k))
      >>= λ pooled.
          let shared = set_field class_oop shared_pools_field d.pool_dictionaries pooled in
          if d.class_variable_associations == c.nil
          then ok shared
          else add_class_variables hash equals fuel class_oop d.class_variable_associations
              (basic_size shared.memory d.class_variable_associations) 0 shared

  -- The class of a new metaclass, with the check of its class index.
  unfoldable pub make_class : ℕ → ℕ → ℕ → Kernel → Outcome (ℕ × Kernel)
  make_class metaclass superclass format k = new_object metaclass k >>= λ r.
      if class_of r.1 r.0 == metaclass
      then (describe_behavior r.0 superclass format r.1 >>= λ described. ok (r.0, described))
      else aborted

  -- The metaclass and the class, linked with each other: their addresses.
  unfoldable pub make_pair : ℕ → ℕ → Description → Kernel → Outcome (ℕ × (ℕ × Kernel))
  make_pair superclass name d k =
      let super_metaclass = class_of k superclass in
      new_object c.metaclass_class k >>= λ r.
      describe_behavior r.0 super_metaclass d.meta_format r.1 >>= λ described.
      make_class r.0 superclass d.format
        (set_field r.0 instance_variables_field d.meta_instance_variable_names described)
      >>= λ s.
          ok (r.0, (s.0, set_field r.0 this_class_field s.0 (set_field s.0 name_field name s.1)))

  -- `slvm_dynrun_subclassWithSomeNames`
  unfoldable pub subclass_with_some_names :
      (ℕ → ℕ) → (ℕ → ℕ → Bool) → ℕ → ℕ → ℕ → Description → Kernel → Outcome (ℕ × Kernel)
  subclass_with_some_names hash equals fuel super_class_name name d k =
      globals_at_or_nil c.nil k name >>= λ existing.
      if existing == c.nil
      then (globals_at_or_nil c.nil k super_class_name >>= λ superclass.
          if (superclass == c.nil) || oop_is_immediate superclass
          then aborted
          else (make_pair superclass name d k >>= λ r.
              globals_at_put c.nil c.association_class fuel r.1.1 name r.1.0 >>= λ named.
              class_set_metadata hash equals fuel r.1.0 d named >>= λ done. ok (r.1.0, done)))
      else ok (existing, k)
