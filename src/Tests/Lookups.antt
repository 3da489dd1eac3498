-- ===== src/Tests/Lookups.antt =====
-- Method lookup at a concrete input.
use slvm_native.Common.{
  ℕ, ◌/◌, ◌≡◌, refl, inl, inr, ◌==◌, if◌then◌else◌, arith, [], ◌∷◌, ok, Returns,
}
use slvm_native.Oop.{ObjectHeader, oop_is_pointers, class_index_from_oop}
use slvm_native.Collections.MethodDictionary.{new_with_capacity, at_put}
use slvm_native.Collections.MethodDictionary.Insert.{IsReady}
use slvm_native.Collections.MethodDictionary.Dict.{new-IsReady}
use slvm_native.Lookup.{World, is_method_dictionary, lookup}
use slvm_native.Lookup.Lineage.{Lineage, AllHaveMethods, inherited, lookup-inherited}
use slvm_native.Lookup.Registration.{with_dictionary, IsInstalled, lookup-at_put}

abbrev pub dictionary_headers : ℕ → ObjectHeader
dictionary_headers oop = record {
  class_index = 164;
  object_format = 1;
  gc_color = 0;
  identity_hash = oop / 16;
  is_pinned = 0;
  is_immutable = 0;
  slot_count = 3;
}

-- Behavior 320 with its superclass 640; nil is at 16. Behavior 320 has a dictionary, 640 has none.
abbrev pub small_world : World
small_world = record {
  headers = dictionary_headers;
  behaviors = λ b. record {
    superclass = if b == 320 then 640 else 16;
    method_dict = if b == 320 then 960 else 16;
    format = 9;
  };
  dictionaries = λ o. new_with_capacity 16 dictionary_headers 5;
}

small_world-IsReady : IsReady 16 dictionary_headers (new_with_capacity 16 dictionary_headers 5)
small_world-IsReady = (new-IsReady 16 dictionary_headers 5).0

pub small_world-Lineage : Lineage 16 small_world 320 (320 ∷ 640 ∷ [])
small_world-Lineage = (refl, omega arith, (refl, omega arith, refl))

pub small_world_methods : AllHaveMethods 16 small_world (320 ∷ 640 ∷ [])
unfolding is_method_dictionary oop_is_pointers class_index_from_oop
small_world_methods = (inr (omega arith, refl, small_world-IsReady.valid), (inl refl, tt))

lookup-inherited_example :
    lookup 16 3 small_world 320 176 ≡ ok (inherited 16 small_world (320 ∷ 640 ∷ []) 176)
lookup-inherited_example =
    lookup-inherited 16 3 small_world 320 (320 ∷ 640 ∷ []) 176 small_world-Lineage
      small_world_methods (omega arith)

lookup-at_put_example :
    Returns
      (at_put 16 dictionary_headers 2 (new_with_capacity 16 dictionary_headers 5) 176 4800)
      λ r.
        (lookup 16 3 (with_dictionary small_world 960 r) 320 176 ≡ ok 4800)
        × IsInstalled 16 small_world 3 960 176 4800 (with_dictionary small_world 960 r)
unfolding new_with_capacity
lookup-at_put_example =
    lookup-at_put 16 small_world 3 320 (640 ∷ []) 176 4800 small_world-Lineage small_world_methods
      (omega arith) (omega arith) small_world-IsReady (omega arith) (omega arith) (omega arith)
