-- ===== src/Kernel.antt =====
-- src/classes/kernel.c: the globals, the registration of methods, and the primitives of the kernel
-- classes.
pub mod Registration
pub mod Instances
pub mod Classes
use slvm_native.Common.{ℕ, ◌+◌, Bool, ◌==◌, if◌then◌else◌, not, Outcome, ok, aborted, ◌>>=◌}
use slvm_native.Oop.{
  ObjectHeader, oop_is_small_integer, class_index_from_oop, identity_hash_of, encode_small_integer,
  decode_small_integer,
}
use slvm_native.ObjectModel.{ObjectMemory, Behavior, basic_new, basic_size}
use slvm_native.ClassTable.{ClassTable, Image, register_behavior, class_from_oop}
use slvm_native.Lookup.{World}
use slvm_native.Collections.MethodDictionary as MethodDict
use slvm_native.Collections.MethodDictionary.{MethodDictionary}
use slvm_native.Collections.Dictionary as Generic
use slvm_native.Collections.Dictionary.{HashedCollection, key_of, value_of_association}
use slvm_native.Collections.IdentityDictionary as Identity
use slvm_native.Magnitude.{Booleans}
use slvm_native.Sends.{PrimitiveContext}

abbrev pub metaclass_index : ℕ
metaclass_index = 155

abbrev pub global_variable_index : ℕ
global_variable_index = 194

-- The objects that the functions of the file read and write: the memory with its headers, the
-- behaviors, method dictionaries and class pools by their addresses, the class table, and
-- `kernelRoots.globals`.
pub record Kernel : Type 0 where
  pub memory : ObjectMemory
  pub behaviors : ℕ → Behavior
  pub dictionaries : ℕ → MethodDictionary
  pub class_pools : ℕ → HashedCollection
  pub table : ClassTable
  pub globals : HashedCollection

-- What the lookup of methods sees.
abbrev pub world_of : Kernel → World
world_of k = record {
  headers = k.memory.headers;
  behaviors = k.behaviors;
  dictionaries = k.dictionaries;
}

-- `slvm_getClassFromOop`
abbrev pub class_of : Kernel → ℕ → ℕ
class_of k oop = class_from_oop k.table k.memory.headers oop

-- `object->name` of a class and `object->thisClass` of a metaclass, the eighth and the seventh word
-- behind the header.
abbrev pub class_name_of : Kernel → ℕ → ℕ
class_name_of k oop = k.memory.words (oop + 64)

abbrev pub this_class_of : Kernel → ℕ → ℕ
this_class_of k oop = k.memory.words (oop + 56)

-- `slvm_ProtoObject_primitive_asString`
unfoldable pub primitive_as_string : PrimitiveContext → Kernel → ℕ
primitive_as_string context k =
    let behavior = class_of k context.receiver in
    if class_index_from_oop k.memory.headers behavior == metaclass_index
    then class_name_of k (this_class_of k behavior)
    else class_name_of k behavior

-- `slvm_ProtoObject_primitive_basicSize`
unfoldable pub primitive_basic_size : PrimitiveContext → Kernel → ℕ
primitive_basic_size context k = encode_small_integer (basic_size k.memory context.receiver)

-- `slvm_ProtoObject_primitive_class`
unfoldable pub primitive_class : PrimitiveContext → Kernel → ℕ
primitive_class context k = class_of k context.receiver

-- `slvm_Object_primitive_value`
unfoldable pub primitive_value : PrimitiveContext → ℕ
primitive_value context = context.receiver

module _ (nil : ℕ) where
  -- `slvm_globals_atOrNil`
  unfoldable pub globals_at_or_nil : Kernel → ℕ → Outcome ℕ
  globals_at_or_nil k symbol =
      Identity.at_or_nil nil k.memory.headers k.memory.words k.globals symbol

  -- `slvm_globals_atPut`; the fuel is that of the dictionary.
  unfoldable pub globals_at_put : ℕ → ℕ → Kernel → ℕ → ℕ → Outcome Kernel
  globals_at_put association_class fuel k symbol value =
      Generic.at_put nil (identity_hash_of k.memory.headers) Identity.identical k.behaviors
        association_class fuel k.memory k.globals symbol value
      >>= λ r. ok (record k { memory = r.0; globals = r.1 })

  -- `slvm_globals_addIfNotExistent`
  unfoldable pub globals_add_if_not_existent : ℕ → Kernel → ℕ → Outcome (ℕ × Kernel)
  globals_add_if_not_existent fuel k variable =
      Identity.add_association_if_not_existent nil k.memory.headers fuel k.memory.words k.globals
        variable
      >>= λ r. ok (r.1, record k { globals = r.0 })

  -- `slvm_globals_fixClassVariable`, with `slvm_String_hash` and `slvm_String_equals` as parameters:
  -- for keys that are strings, on which these two do not stop the process.
  unfoldable pub globals_fix_class_variable : (ℕ → ℕ) → (ℕ → ℕ → Bool) → Kernel → ℕ → Outcome ℕ
  globals_fix_class_variable hash equals k variable =
      let value = value_of_association k.memory.words variable in
      let class_oop = value_of_association k.memory.words value in
      if class_index_from_oop k.memory.headers value == global_variable_index
      then (if class_oop == nil
          then aborted
          else Generic.association_at nil hash equals k.memory.words (k.class_pools class_oop)
              (key_of k.memory.words variable))
      else ok variable

  -- `slvm_MethodDictionary_atPut` on the dictionary of a behavior.
  unfoldable pub install_method : Kernel → ℕ → ℕ → ℕ → Outcome Kernel
  install_method k behavior selector method =
      let dict = (k.behaviors behavior).method_dict in
      MethodDict.at_put nil k.memory.headers 2 (k.dictionaries dict) selector method >>= λ r.
      ok (record k { dictionaries = λ o. if o == dict then r else k.dictionaries o })

  -- `slvm_dynrun_registerMethodWithNames`
  unfoldable pub register_method : Booleans → Kernel → ℕ → ℕ → ℕ → ℕ → Outcome (ℕ × Kernel)
  register_method b k method selector class_name class_side =
      globals_at_or_nil k class_name >>= λ class_oop.
      let metaclass = class_of k class_oop in
      if class_oop == nil
      then ok (b.false_oop, k)
      else if (k.memory.headers metaclass).class_index == metaclass_index
      then (install_method k (if class_side == b.true_oop then metaclass else class_oop) selector
            method
          >>= λ installed. ok (b.true_oop, installed))
      else aborted

  -- `slvm_Behavior_primitive_basicNew`
  unfoldable pub primitive_basic_new : PrimitiveContext → Kernel → Outcome (ℕ × Kernel)
  primitive_basic_new context k = basic_new nil k.behaviors k.memory context.receiver 0 >>= λ r.
      ok (r.0, record k { memory = r.1 })

  -- `slvm_Behavior_primitive_basicNewWithSize`: the error code, the result and the kernel.
  unfoldable pub primitive_basic_new_with_size :
      PrimitiveContext → Kernel → Outcome (ℕ × (ℕ × Kernel))
  primitive_basic_new_with_size context k =
      let size = k.memory.words context.oop_arguments in
      if oop_is_small_integer size
      then (basic_new nil k.behaviors k.memory context.receiver (decode_small_integer size) >>= λ r.
          ok (0, (r.0, record k { memory = r.1 })))
      else ok (3, (nil, k))

-- `slvm_Behavior_primitive_registerAsBehavior`
unfoldable pub primitive_register_as_behavior : Image → PrimitiveContext → Kernel → ℕ × Kernel
primitive_register_as_behavior image context k =
    let r = register_behavior image context.receiver k.table k.memory.headers in
    (context.receiver, record k { table = r.0; memory = record (k.memory) { headers = r.1 } })
