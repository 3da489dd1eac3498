-- ===== src/Lookup/Carrying.antt =====
-- Lineages and their method dictionaries in a later state of the world.
use slvm_native.Common.{
  ℕ, zero, suc, ◌+◌, ◌<◌, ◌≡◌, ◌≢◌, inl, inr, refl, sym, ap, ◌∙◌, ◌==◌, if◌then◌else◌, List, [],
  ◌∷◌, length, get_or, ==→ne,
}
use slvm_native.Hashing.Table.{scan}
use slvm_native.Hashing.Count.{occupied}
use slvm_native.Oop.{ObjectHeader, identity_hash_of}
use slvm_native.Collections.Full.{tally_of}
use slvm_native.Collections.MethodDictionary.{MethodDictionary}
use slvm_native.Collections.MethodDictionary.Slots.{selectors, slots, IsDict}
use slvm_native.Lookup.{World}
use slvm_native.Lookup.Lineage.{Lineage, HasMethods, AllHaveMethods}
use slvm_native.Lookup.Later.{AgreesInFront, AllInFront, kind_kept}

-- The selectors of the dictionaries of a lineage stand in front of an address.
abbrev pub SelectorsInFront : ℕ → World → ℕ → List ℕ → Type 0
SelectorsInFront nil w e [] = Unit
SelectorsInFront nil w e (x ∷ xs) =
    ((i : ℕ)
      → get_or (w.dictionaries (w.behaviors x).method_dict).keys i nil ≢ nil
      → get_or (w.dictionaries (w.behaviors x).method_dict).keys i nil < e)
    × SelectorsInFront nil w e xs

module _ (nil : ℕ) (headers headers' : ℕ → ObjectHeader) (d : MethodDictionary) where
  occupied_same :
      (m : ℕ)
      → occupied (selectors nil headers') (slots nil headers' d) m
        ≡ occupied (selectors nil headers) (slots nil headers d) m
  unfolding occupied
  occupied_same zero = refl
  occupied_same (suc m) =
      ap (λ n. n + (if get_or d.keys m nil == nil then 0 else 1)) (occupied_same m)

  -- A scan for a key with the same header.
  scan_same :
      (key : ℕ)
      → headers' key ≡ headers key
      → scan (selectors nil headers') (slots nil headers' d) (length d.keys) key
        ≡ scan (selectors nil headers) (slots nil headers d) (length d.keys) key
  unfolding identity_hash_of
  scan_same key same = rw same refl

  pub IsDict-agreed :
      ((i : ℕ)
        → get_or d.keys i nil ≢ nil
        → headers' (get_or d.keys i nil) ≡ headers (get_or d.keys i nil))
      → IsDict nil headers d
      → IsDict nil headers' d
  IsDict-agreed same is = record {
    paired = is.paired;
    table =
        λ i h full. scan_same (get_or d.keys i nil) (same i (==→ne _ _ full)) ∙ is.table i h full;
    clear = is.clear;
    counted = is.counted ∙ ap tally_of (sym (occupied_same (length d.keys)));
  }

module _ (nil : ℕ) (w w' : World) (e : ℕ) (agree : AgreesInFront e w w') where
  pub Lineage-agreed :
      (current : ℕ) (xs : List ℕ)
      → Lineage nil w current xs
      → AllInFront w e xs
      → Lineage nil w' current xs
  Lineage-agreed current [] line front = line
  Lineage-agreed current (x ∷ xs) (same, real, line) (low, dict, front) = (
    same,
    real,
    rw (agree.behaviors x low) (Lineage-agreed (w.behaviors x).superclass xs line front),
  )

  HasMethods-agreed :
      (x : ℕ)
      → x < e
      → (w.behaviors x).method_dict < e
      → ((i : ℕ)
          → get_or (w.dictionaries (w.behaviors x).method_dict).keys i nil ≢ nil
          → get_or (w.dictionaries (w.behaviors x).method_dict).keys i nil < e)
      → HasMethods nil w x
      → HasMethods nil w' x
  HasMethods-agreed x low dict keys (inl none') = inl (rw (agree.behaviors x low) none')
  HasMethods-agreed x low dict keys (inr (some', kind, is)) =
      let md = (w.behaviors x).method_dict in
      rw (agree.behaviors x low, agree.dictionaries md dict)
        (inr (
          some',
          kind_kept nil w w' md (agree.headers md dict) ∙ kind,
          IsDict-agreed nil w.headers w'.headers (w.dictionaries md)
              (λ i real. agree.headers _ (keys i real)) is,
        ))

  pub AllHaveMethods-agreed :
      (xs : List ℕ)
      → AllInFront w e xs
      → SelectorsInFront nil w e xs
      → AllHaveMethods nil w xs
      → AllHaveMethods nil w' xs
  AllHaveMethods-agreed [] front keys all = tt
  AllHaveMethods-agreed (x ∷ xs) (low, dict, front) (mine, keys) (h, all) =
      (HasMethods-agreed x low dict mine h, AllHaveMethods-agreed xs front keys all)
