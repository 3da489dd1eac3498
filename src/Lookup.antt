-- ===== src/Lookup.antt =====
-- slvm_Behavior_lookup of src/classes/kernel.c: the search for a method in the behavior of the
-- receiver and in its superclasses.
pub mod Lineage
pub mod Registration
pub mod Later
pub mod Carrying
use slvm_native.Common.{
  ℕ, zero, suc, ◌≡◌, Bool, ◌==◌, ◌&&◌, if◌then◌else◌, Outcome, ok, aborted, out_of_fuel,
}
use slvm_native.Oop.{ObjectHeader, oop_is_pointers, class_index_from_oop}
use slvm_native.ObjectModel.{Behavior}
use slvm_native.Collections.MethodDictionary.{MethodDictionary, at_or_nil}

-- `SLVM_KCI_MethodDictionary`
abbrev pub method_dictionary_index : ℕ
method_dictionary_index = 164

-- What lookup reads: the headers, the behaviors and the method dictionaries by their addresses.
pub record World : Type 0 where
  pub headers : ℕ → ObjectHeader
  pub behaviors : ℕ → Behavior
  pub dictionaries : ℕ → MethodDictionary

module _ (nil : ℕ) where
  -- The check that a dictionary is not "a strange object".
  unfoldable pub is_method_dictionary : World → ℕ → Bool
  is_method_dictionary w oop =
      oop_is_pointers oop && (class_index_from_oop w.headers oop == method_dictionary_index)

  -- `slvm_Behavior_lookup`; the fuel bounds the number of behaviors, nil included.
  unfoldable pub lookup : ℕ → World → ℕ → ℕ → Outcome ℕ
  lookup zero w current selector = out_of_fuel
  lookup (suc fuel) w current selector =
      let method_dict = (w.behaviors current).method_dict in
      let rest = lookup fuel w (w.behaviors current).superclass selector in
      let value = at_or_nil nil w.headers (w.dictionaries method_dict) selector in
      if current == nil
      then ok nil
      else if method_dict == nil
      then rest
      else if is_method_dictionary w method_dict
      then (if value == nil then rest else ok value)
      else aborted
