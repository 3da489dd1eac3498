-- ===== src/Lookup/Lineage.antt =====
-- Lookup finds the method of the first behavior of the lineage that has one.
use slvm_native.Common.{
  ℕ, zero, suc, ◌<◌, ◌≡◌, ◌≢◌, ◌⊎◌, inl, inr, true, ◌==◌, if◌then◌else◌, arith, List, [], ◌∷◌,
  length, ok, Bool-cases, ne→==, ==_refl,
}
use slvm_native.Collections.MethodDictionary.Slots.{IsDict, method_at, at_or_nil-method_at}
use slvm_native.Lookup.{World, is_method_dictionary, lookup}

module _ (nil : ℕ) where
  -- The superclass links lead from `current` through `xs` to nil.
  abbrev pub Lineage : World → ℕ → List ℕ → Type 0
  Lineage w current [] = current ≡ nil
  Lineage w current (x ∷ xs) = (current ≡ x) × (x ≢ nil) × Lineage w (w.behaviors x).superclass xs

  -- A behavior without methods, or with a dictionary that is well formed.
  abbrev pub HasMethods : World → ℕ → Type 0
  HasMethods w x =
      ((w.behaviors x).method_dict ≡ nil)
      ⊎ (((w.behaviors x).method_dict ≢ nil)
          × (is_method_dictionary nil w (w.behaviors x).method_dict ≡ true)
          × IsDict nil w.headers (w.dictionaries (w.behaviors x).method_dict))

  abbrev pub AllHaveMethods : World → List ℕ → Type 0
  AllHaveMethods w [] = Unit
  AllHaveMethods w (x ∷ xs) = HasMethods w x × AllHaveMethods w xs

  -- The method that a behavior has itself, by a linear search of its dictionary; nil if none.
  unfoldable pub own_method : World → ℕ → ℕ → ℕ
  own_method w x selector =
      if (w.behaviors x).method_dict == nil
      then nil
      else method_at nil w.headers (w.dictionaries (w.behaviors x).method_dict) selector

  -- The first method along the lineage.
  unfoldable pub inherited : World → List ℕ → ℕ → ℕ
  inherited w [] selector = nil
  inherited w (x ∷ xs) selector =
      if own_method w x selector == nil then inherited w xs selector else own_method w x selector

  -- Where superclass links lead from a behavior to nil and every dictionary is nil or well formed,
  -- fuel for the behaviors and nil is enough: lookup returns the first method along the lineage, as
  -- a linear search of the dictionaries finds it, or nil.
  pub lookup-inherited :
      (fuel : ℕ) (w : World) (current : ℕ) (xs : List ℕ) (selector : ℕ)
      → Lineage w current xs
      → AllHaveMethods w xs
      → length xs < fuel
      → lookup nil fuel w current selector ≡ ok (inherited w xs selector)
  unfolding lookup inherited own_method
  lookup-inherited zero w current xs selector line all h = absurd (omega arith)
  lookup-inherited (suc fuel) w current [] selector line all h =
      let end : (current == nil) ≡ true = ground arith in rw end
  lookup-inherited (suc fuel) w current (x ∷ xs) selector (same, real, line) (inl none', all) h =
      let rest =
        lookup-inherited fuel w (w.behaviors x).superclass xs selector line all (omega arith) in
      rw (same, ne→== x nil real, none', ==_refl nil) (rw (==_refl nil) rest)
  lookup-inherited (suc fuel) w current (x ∷ xs) selector (same, real, line)
        (inr (some', kind, is), all) h =
      let rest =
        lookup-inherited fuel w (w.behaviors x).superclass xs selector line all (omega arith) in
      let dict = (w.behaviors x).method_dict in
      let own = at_or_nil-method_at nil w.headers (w.dictionaries dict) selector is in
      elim (Bool-cases (method_at nil w.headers (w.dictionaries dict) selector == nil)) [
        | inl nothing ↦ rw (same, ne→== x nil real, ne→== dict nil some', kind, own, nothing) rest
        | inr method ↦ rw (same, ne→== x nil real, ne→== dict nil some', kind, own, method)
      ]
