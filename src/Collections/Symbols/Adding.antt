-- ===== src/Collections/Symbols/Adding.antt =====
-- Adding a new symbol to a set of symbols that does not grow.
use slvm_native.Common.{
  ℕ, ◌<◌, ◌≡◌, ◌≢◌, inl, inr, refl, sym, subst, ap, ◌∙◌, true, false, not, ◌&&◌, if◌then◌else◌,
  arith, length, set, length-set, get_or-set_self, get_or-set_ne, ok, bind_ok, none, some, Returns,
  ne→==, eq→==,
}
use native.Mathlib.Decide.{ℕ_discrete}
use slvm_native.Hashing.{Scan, found, missing, unfinished}
use slvm_native.Hashing.Table.{
  IsTable, scan, scan_finishes, scan_found, scan_room, IsWrite, write-IsTable,
}
use slvm_native.Hashing.Store.{entry_of, entry, entry-search_all, entry-write}
use slvm_native.Collections.Full.{full_condition, increase_tally}
use slvm_native.Collections.Strings.{StringObject, byte_string_equals, string_equals, string_hash}
use slvm_native.Collections.WeakSet.{WeakSet, put_at, do_add, add}
use slvm_native.Collections.Symbols.{add_symbol}
use slvm_native.Collections.Symbols.Interning.{
  symbols, is_symbol, elements, IsSymbolSet, search_symbol, scan_for_symbol,
}

-- The set with a symbol written.
abbrev pub with_symbol : WeakSet → ℕ → ℕ → WeakSet
with_symbol s p symbol = record s { array = set s.array p symbol; tally = increase_tally s.tally }

module _ (strings : ℕ → StringObject) (nil : ℕ) (s : WeakSet) (symbol : ℕ)
    (is : IsSymbolSet strings nil s) (kind : (strings symbol).class_index ≡ 173)
    (fresh : search_symbol strings s symbol ≡ none) where
  abbrev place : Scan
  place = scan (symbols strings) (elements strings s) (length s.array) symbol

  no_entry : entry_of (symbols strings) (elements strings s) place ≡ none
  no_entry =
      entry-search_all (symbols strings) (elements strings s) (length s.array) symbol is.some_slots
        is.table
      ∙ fresh

  -- The slot where the scan ends is free.
  flagged : (p : ℕ) → place ≡ found p → elements strings s p ≡ s.flag
  flagged p e = elim (is.kinds p) [
    | inl free ↦ free
    | inr full ↦
        let is_one : is_symbol strings (elements strings s p) ≡ true = eq→== _ 173 full in
        let nothing = ap (entry_of (symbols strings) (elements strings s)) (sym e) ∙ no_entry in
        absurd (cc (rw is_one at nothing))
  ]

  written :
      (p : ℕ)
      → p < length s.array
      → IsWrite
          (symbols strings)
          (elements strings s)
          (elements strings (with_symbol s p symbol))
          p
          symbol
  written p h = record {
    here = get_or-set_self s.array p symbol s.flag h;
    there = λ i ne. get_or-set_ne s.array p i symbol s.flag (λ e. ne (sym e));
  }

  with_symbol-IsSymbolSet :
      (p : ℕ)
      → place ≡ found p
      → p < length s.array
      → IsSymbolSet strings nil (with_symbol s p symbol)
  with_symbol-IsSymbolSet p e h =
      let full : not (is_symbol strings symbol) ≡ false = ap not (eq→== _ 173 kind) in
      let same : length (set s.array p symbol) ≡ length s.array = length-set s.array p symbol in
      record {
        some_slots = omega (arith, same, is.some_slots);
        table =
            subst (IsTable (symbols strings) (elements strings (with_symbol s p symbol))) (sym same)
              (write-IsTable (symbols strings) (elements strings s)
                (elements strings (with_symbol s p symbol)) (length s.array) p symbol is.some_slots
                full e (written p h) is.table);
        kinds = λ i. elim (ℕ_discrete i p) [
          | yes now ↦ inr (
              ap (λ o. (strings o).class_index)
                (ap (elements strings (with_symbol s p symbol)) now ∙ (written p h).here)
              ∙ kind)
          | no other ↦ elim (is.kinds i) [
            | inl free ↦ inl ((written p h).there i other ∙ free)
            | inr old ↦ inr (ap (λ o. (strings o).class_index) ((written p h).there i other) ∙ old)
          ]
        ];
        flag_is_none = is.flag_is_none;
        nil_is_none = is.nil_is_none;
      }

  -- Every byte string with the symbol's bytes leads to it, every other one where it led.
  with_symbol_reads :
      (p k : ℕ)
      → place ≡ found p
      → p < length s.array
      → search_symbol strings (with_symbol s p symbol) k ≡ (
          if byte_string_equals (strings k) (strings symbol)
          then some symbol
          else search_symbol strings s k)
  with_symbol_reads p k e h =
      let full : not (is_symbol strings symbol) ≡ false = ap not (eq→== _ 173 kind) in
      let is' = with_symbol-IsSymbolSet p e h in
      let same : length (set s.array p symbol) ≡ length s.array = length-set s.array p symbol in
      let new = elements strings (with_symbol s p symbol) in
      let is_one : is_symbol strings symbol ≡ true = eq→== _ 173 kind in
      sym (
        entry-search_all (symbols strings) new (length (set s.array p symbol)) k is'.some_slots
          is'.table)
      ∙ ap (λ n. entry (symbols strings) new n k) same
      ∙ entry-write (symbols strings) (elements strings s) new (length s.array) p symbol k
          is.some_slots is.table full h e (written p h)
      ∙ ap
          (λ b.
            if b && byte_string_equals (strings k) (strings symbol)
            then some symbol
            else entry (symbols strings) (elements strings s) (length s.array) k)
          is_one
      ∙ ap (λ o. if byte_string_equals (strings k) (strings symbol) then some symbol else o)
          (entry-search_all (symbols strings) (elements strings s) (length s.array) k is.some_slots
            is.table)

  do_add_symbol :
      (p : ℕ)
      → place ≡ found p
      → do_add nil (λ o. string_hash (strings o)) (string_equals strings) s symbol
        ≡ ok (with_symbol s p symbol)
  unfolding do_add put_at
  do_add_symbol p e =
      let free = flagged p e in
      let other : elements strings s p ≢ symbol =
        λ z. is.flag_is_none (ap (λ o. (strings o).class_index) (sym free ∙ z) ∙ kind) in
      bind_ok _ (scan_for_symbol strings nil s symbol is (inr kind) ∙ ap ok e)
      ∙ rw (ne→== (elements strings s p) symbol other) refl

  -- Adding the symbol, where a slot is free and the set is not full afterwards.
  pub add_symbol_reads :
      (i : ℕ)
      → i < length s.array
      → elements strings s i ≡ s.flag
      → full_condition (length s.array) (increase_tally s.tally) ≡ false
      → Returns (add_symbol nil strings s symbol) λ larger.
        IsSymbolSet strings nil larger
        × ((k : ℕ)
            → search_symbol strings larger k ≡ (
                if byte_string_equals (strings k) (strings symbol)
                then some symbol
                else search_symbol strings s k))
  unfolding add
  add_symbol_reads i h free room = go place refl
    where
      go :
          (r : Scan)
          → place ≡ r
          → Returns (add_symbol nil strings s symbol) λ larger.
            IsSymbolSet strings nil larger
            × ((k : ℕ)
                → search_symbol strings larger k ≡ (
                    if byte_string_equals (strings k) (strings symbol)
                    then some symbol
                    else search_symbol strings s k))
      go (found p) e =
          let inside =
            (scan_found (symbols strings) (elements strings s) (length s.array) p symbol
              is.some_slots e).0 in
          let same : length (set s.array p symbol) ≡ length s.array = length-set s.array p symbol in
          (
            with_symbol s p symbol,
            bind_ok _ (do_add_symbol p e) ∙ rw (same, room) refl,
            (with_symbol-IsSymbolSet p e inside, λ k. with_symbol_reads p k e inside),
          )
      go missing e =
          let none' : is_symbol strings (elements strings s i) ≡ false =
            ap (is_symbol strings) free ∙ ne→== _ 173 is.flag_is_none in
          absurd (
            scan_room (symbols strings) (elements strings s) (length s.array) i symbol h
              (ap not none') e)
      go unfinished e = absurd (
          scan_finishes (symbols strings) (elements strings s) (length s.array) symbol is.some_slots
            e)
