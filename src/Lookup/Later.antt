-- ===== src/Lookup/Later.antt =====
-- Lookup in a later state of the world, and in a new behavior.
use slvm_native.Common.{
  ℕ, zero, suc, ◌<◌, ◌≡◌, ◌≢◌, refl, true, ◌==◌, arith, List, [], ◌∷◌, ne→==, ==_refl,
}
use slvm_native.Oop.{ObjectHeader, class_index_from_oop, identity_hash_of}
use slvm_native.Collections.MethodDictionary.{MethodDictionary, scan_for, value_at, at_or_nil}
use slvm_native.Lookup.{World, is_method_dictionary, lookup}
use slvm_native.Lookup.Lineage.{Lineage}

-- The worlds agree on what stands in front of an address.
pub record AgreesInFront (e : ℕ) (w w' : World) : Type 0 where
  pub headers : (o : ℕ) → o < e → w'.headers o ≡ w.headers o
  pub behaviors : (o : ℕ) → o < e → w'.behaviors o ≡ w.behaviors o
  pub dictionaries : (o : ℕ) → o < e → w'.dictionaries o ≡ w.dictionaries o

-- The behaviors and their method dictionaries stand in front of an address.
abbrev pub AllInFront : World → ℕ → List ℕ → Type 0
AllInFront w e [] = Unit
AllInFront w e (x ∷ xs) = (x < e) × ((w.behaviors x).method_dict < e) × AllInFront w e xs

at_or_nil_kept :
    (nil : ℕ) (headers headers' : ℕ → ObjectHeader) (d : MethodDictionary) (key : ℕ)
    → headers' key ≡ headers key
    → at_or_nil nil headers' d key ≡ at_or_nil nil headers d key
unfolding at_or_nil scan_for value_at identity_hash_of
at_or_nil_kept nil headers headers' d key same = rw same

pub kind_kept :
    (nil : ℕ) (w w' : World) (oop : ℕ)
    → w'.headers oop ≡ w.headers oop
    → is_method_dictionary nil w' oop ≡ is_method_dictionary nil w oop
unfolding is_method_dictionary class_index_from_oop
kind_kept nil w w' oop same = rw same

-- Along a lineage in front of the address lookup finds what it found.
pub lookup_kept :
    (nil : ℕ) (w w' : World) (e fuel current selector : ℕ) (xs : List ℕ)
    → AgreesInFront e w w'
    → Lineage nil w current xs
    → AllInFront w e xs
    → selector < e
    → lookup nil fuel w' current selector ≡ lookup nil fuel w current selector
unfolding lookup
lookup_kept nil w w' e zero current selector xs agree line front here = refl
lookup_kept nil w w' e (suc fuel) current selector [] agree line front here =
    let end : (current == nil) ≡ true = ground arith in rw end
lookup_kept nil w w' e (suc fuel) current selector (x ∷ xs) agree (same, real, line)
      (low, dict, front) here =
    let rest =
      lookup_kept nil w w' e fuel (w.behaviors x).superclass selector xs agree line front here in
    let md = (w.behaviors x).method_dict in
    let read =
      at_or_nil_kept nil w.headers w'.headers (w.dictionaries md) selector
        (agree.headers selector here) in
    rw (
      same,
      agree.behaviors x low,
      agree.dictionaries md dict,
      kind_kept nil w w' md (agree.headers md dict),
      read,
      rest,
    )

-- A behavior whose method dictionary is empty leaves lookup to its superclass.
pub lookup-empty :
    (nil : ℕ) (w : World) (fuel behavior selector : ℕ)
    → behavior ≢ nil
    → (w.behaviors behavior).method_dict ≢ nil
    → is_method_dictionary nil w (w.behaviors behavior).method_dict ≡ true
    → at_or_nil nil w.headers (w.dictionaries (w.behaviors behavior).method_dict) selector ≡ nil
    → lookup nil (suc fuel) w behavior selector
      ≡ lookup nil fuel w (w.behaviors behavior).superclass selector
unfolding lookup
lookup-empty nil w fuel behavior selector real dict kind nothing =
    rw (ne→== behavior nil real, ne→== _ nil dict, kind, nothing, ==_refl nil)
