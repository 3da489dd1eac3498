-- ===== src/Lookup/Registration.antt =====
-- Installing a method, as the registration of methods in src/classes/kernel.c does it: a put into
-- the method dictionary of a behavior.
use slvm_native.Common.{
  ℕ, ◌+◌, ◌^◌, ◌<◌, ◌≡◌, ◌≢◌, inl, inr, refl, sym, ap, ◌∙◌, false, ◌==◌, if◌then◌else◌, arith, List,
  [], ◌∷◌, length, ok, Returns, Bool-cases, ne→==, ==→eq, ==_refl,
}
use slvm_native.Collections.MethodDictionary.{MethodDictionary, at_put, at_or_nil}
use slvm_native.Collections.MethodDictionary.Slots.{IsDict, method_at, at_or_nil-method_at}
use slvm_native.Collections.MethodDictionary.Insert.{IsReady}
use slvm_native.Collections.MethodDictionary.Dict.{at_or_nil-at_put}
use slvm_native.Lookup.{World, is_method_dictionary, lookup}
use slvm_native.Lookup.Lineage.{
  Lineage, HasMethods, AllHaveMethods, own_method, inherited, lookup-inherited,
}

-- The dictionary at one address has changed.
abbrev pub with_dictionary : World → ℕ → MethodDictionary → World
with_dictionary w a r = record w { dictionaries = λ o. if o == a then r else w.dictionaries o }

-- No behavior of a list has the dictionary at `a`.
abbrev pub AllApart : World → ℕ → List ℕ → Type 0
AllApart w a [] = Unit
AllApart w a (x ∷ xs) = ((w.behaviors x).method_dict ≢ a) × AllApart w a xs

-- The first method along a lineage, when the behaviors with the dictionary at `a` have `method`.
unfoldable pub inherited_with : ℕ → World → ℕ → ℕ → List ℕ → ℕ → ℕ
inherited_with nil w a method [] selector = nil
inherited_with nil w a method (x ∷ xs) selector =
    let rest = inherited_with nil w a method xs selector in
    if (w.behaviors x).method_dict == a
    then method
    else if own_method nil w x selector == nil
    then rest
    else own_method nil w x selector

module _ (nil : ℕ) (w : World) (a : ℕ) (r : MethodDictionary) (selector method : ℕ)
    (before : IsDict nil w.headers (w.dictionaries a)) (after : IsDict nil w.headers r)
    (reads : (q : ℕ)
      → at_or_nil nil w.headers r q
        ≡ (if selector == q then method else at_or_nil nil w.headers (w.dictionaries a) q)) where
  Lineage-kept :
      (current : ℕ) (xs : List ℕ)
      → Lineage nil w current xs
      → Lineage nil (with_dictionary w a r) current xs
  Lineage-kept current [] line = line
  Lineage-kept current (x ∷ xs) (same, real, line) =
      (same, real, Lineage-kept (w.behaviors x).superclass xs line)

  HasMethods-kept : (x : ℕ) → HasMethods nil w x → HasMethods nil (with_dictionary w a r) x
  unfolding is_method_dictionary
  HasMethods-kept x (inl none') = inl none'
  HasMethods-kept x (inr (some', kind, is)) = elim (Bool-cases ((w.behaviors x).method_dict == a)) [
    | inl this ↦ inr (some', kind, rw this after)
    | inr other ↦ inr (some', kind, rw other is)
  ]

  AllHaveMethods-kept :
      (xs : List ℕ) → AllHaveMethods nil w xs → AllHaveMethods nil (with_dictionary w a r) xs
  AllHaveMethods-kept [] all = tt
  AllHaveMethods-kept (x ∷ xs) (h, all) = (HasMethods-kept x h, AllHaveMethods-kept xs all)

  method_at_reads :
      (q : ℕ)
      → method_at nil w.headers r q
        ≡ (if selector == q then method else method_at nil w.headers (w.dictionaries a) q)
  method_at_reads q =
      rw
        (
          sym (at_or_nil-method_at nil w.headers r q after),
          sym (at_or_nil-method_at nil w.headers (w.dictionaries a) q before),
        )
        (reads q)

  own_method_other :
      (x q : ℕ)
      → (selector == q) ≡ false
      → own_method nil (with_dictionary w a r) x q ≡ own_method nil w x q
  unfolding own_method
  own_method_other x q other = elim (Bool-cases ((w.behaviors x).method_dict == a)) [
    | inl this ↦
        let e = ==→eq _ _ this in
        let read = rw other at (method_at_reads q) in rw (e, ==_refl a, read)
    | inr elsewhere ↦ rw elsewhere
  ]

  inherited_other :
      (xs : List ℕ) (q : ℕ)
      → (selector == q) ≡ false
      → inherited nil (with_dictionary w a r) xs q ≡ inherited nil w xs q
  unfolding inherited
  inherited_other [] q other = refl
  inherited_other (x ∷ xs) q other = rw (own_method_other x q other, inherited_other xs q other)

  inherited_this :
      (x : ℕ) (xs : List ℕ)
      → (w.behaviors x).method_dict ≡ a
      → a ≢ nil
      → method ≢ nil
      → inherited nil (with_dictionary w a r) (x ∷ xs) selector ≡ method
  unfolding inherited own_method
  inherited_this x xs has real some' =
      let read = rw (==_refl selector) at (method_at_reads selector) in
      rw (has, ==_refl a, ne→== a nil real, read, ne→== method nil some')

  -- Behaviors with other dictionaries.
  own_method_elsewhere :
      (x q : ℕ)
      → (w.behaviors x).method_dict ≢ a
      → own_method nil (with_dictionary w a r) x q ≡ own_method nil w x q
  unfolding own_method
  own_method_elsewhere x q apart = rw (ne→== _ a apart)

  inherited_elsewhere :
      (xs : List ℕ) (q : ℕ)
      → AllApart w a xs
      → inherited nil (with_dictionary w a r) xs q ≡ inherited nil w xs q
  unfolding inherited
  inherited_elsewhere [] q apart = refl
  inherited_elsewhere (x ∷ xs) q (here, apart) =
      rw (own_method_elsewhere x q here, inherited_elsewhere xs q apart)

  inherited_below :
      (xs : List ℕ)
      → a ≢ nil
      → method ≢ nil
      → inherited nil (with_dictionary w a r) xs selector
        ≡ inherited_with nil w a method xs selector
  unfolding inherited inherited_with own_method
  inherited_below [] real some' = refl
  inherited_below (x ∷ xs) real some' = elim (Bool-cases ((w.behaviors x).method_dict == a)) [
    | inl this ↦
        let e = ==→eq _ _ this in
        let read = rw (==_refl selector) at (method_at_reads selector) in
        rw (e, ==_refl a, ne→== a nil real, read, ne→== method nil some')
    | inr elsewhere ↦ rw (elsewhere, inherited_below xs real some')
  ]

-- What lookup finds after a method was put under a selector into the dictionary at `a`.
pub record IsInstalled (nil : ℕ) (w : World) (fuel a selector method : ℕ) (w' : World)
    : Type 0 where
  -- Every behavior finds under every other selector what it found.
  pub others :
      (q current : ℕ) (ys : List ℕ)
      → selector ≢ q
      → Lineage nil w current ys
      → AllHaveMethods nil w ys
      → length ys < fuel
      → lookup nil fuel w' current q ≡ lookup nil fuel w current q
  -- A behavior whose lineage does not have the dictionary finds what it found.
  pub elsewhere :
      (q current : ℕ) (ys : List ℕ)
      → AllApart w a ys
      → Lineage nil w current ys
      → AllHaveMethods nil w ys
      → length ys < fuel
      → lookup nil fuel w' current q ≡ lookup nil fuel w current q
  -- Under the selector every behavior finds the first along its lineage, the new method included.
  pub below :
      (current : ℕ) (ys : List ℕ)
      → Lineage nil w current ys
      → AllHaveMethods nil w ys
      → length ys < fuel
      → lookup nil fuel w' current selector ≡ ok (inherited_with nil w a method ys selector)

-- Putting a method under a selector, neither of them nil, into the dictionary of a behavior
-- returns, where the dictionary is ready and below 2 ^ 58 slots and every dictionary of the
-- lineage is nil or well formed. Afterwards lookup from that behavior finds the method under the
-- selector; under every other selector lookup from every behavior with such a lineage finds what
-- it found before, and so it does under all selectors from behaviors whose lineage does not have
-- the dictionary; and under the selector every behavior with such a lineage finds the first method
-- along it, the new one included.
pub lookup-at_put :
    (nil : ℕ) (w : World) (fuel x : ℕ) (xs : List ℕ) (selector method : ℕ)
    → Lineage nil w x (x ∷ xs)
    → AllHaveMethods nil w (x ∷ xs)
    → length xs + 1 < fuel
    → (w.behaviors x).method_dict ≢ nil
    → IsReady nil w.headers (w.dictionaries (w.behaviors x).method_dict)
    → length (w.dictionaries (w.behaviors x).method_dict).keys < 2 ^ 58
    → selector ≢ nil
    → method ≢ nil
    → let a = (w.behaviors x).method_dict in
      Returns (at_put nil w.headers 2 (w.dictionaries a) selector method) λ r.
        (lookup nil fuel (with_dictionary w a r) x selector ≡ ok method)
        × IsInstalled nil w fuel a selector method (with_dictionary w a r)
lookup-at_put nil w fuel x xs selector method line all enough real ready small key value =
    let a = (w.behaviors x).method_dict in
    let (r, run, (ready', reads, count)) =
      at_or_nil-at_put nil w.headers 0 (w.dictionaries a) selector method ready key small in
    let before = ready.valid in
    let after = ready'.valid in
    let w' = with_dictionary w a r in
    let kept : (current : ℕ) (ys : List ℕ) (q : ℕ)
        → Lineage nil w current ys
        → AllHaveMethods nil w ys
        → length ys < fuel
        → lookup nil fuel w' current q ≡ ok (inherited nil w' ys q) =
      λ current ys q line' all' enough'.
        lookup-inherited nil fuel w' current ys q
          (Lineage-kept nil w a r selector method before after reads current ys line')
          (AllHaveMethods-kept nil w a r selector method before after reads ys all') enough' in
    (
      r,
      run,
      (
        kept x (x ∷ xs) selector line all (omega arith)
            ∙ ap ok
                (inherited_this nil w a r selector method before after reads x xs refl real value),
        record {
          others = λ q current ys other line' all' enough'.
              kept current ys q line' all' enough'
              ∙ ap ok (
                  inherited_other nil w a r selector method before after reads ys q
                    (ne→== selector q other))
              ∙ sym (lookup-inherited nil fuel w current ys q line' all' enough');
          elsewhere = λ q current ys apart line' all' enough'.
              kept current ys q line' all' enough'
              ∙ ap ok (inherited_elsewhere nil w a r selector method before after reads ys q apart)
              ∙ sym (lookup-inherited nil fuel w current ys q line' all' enough');
          below = λ current ys line' all' enough'.
              kept current ys selector line' all' enough'
              ∙ ap ok (inherited_below nil w a r selector method before after reads ys real value);
        },
      ),
    )
