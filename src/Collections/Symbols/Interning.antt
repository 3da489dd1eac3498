-- ===== src/Collections/Symbols/Interning.antt =====
-- Interning against a search of all symbols.
use mathlib.Core.Path.{fun_ext}
use native.Mathlib.Decide.{ℕ_discrete}
use slvm_native.Common.{
  ℕ, ◌%◌, ◌<◌, ◌≡◌, ◌≢◌, ◌⊎◌, inl, inr, refl, sym, subst, ap, ◌∙◌, Bool, true, false, not, ◌||◌,
  ◌&&◌, ◌==◌, arith, length, get_or, Outcome, ok, bind_ok, Option, none, some, eq→==, ne→==,
  ==_refl,
}
use slvm_native.Hashing.{Scan, found, missing, unfinished, probe}
use slvm_native.Hashing.Table.{Keyed, IsTable, scan, scan_finishes}
use slvm_native.Hashing.Store.{search_all_cases, entry_of, search_all, entry-search_all}
use slvm_native.Collections.Strings.{
  StringObject, byte_string_equals, string_equals, byte_string_hash, string_hash,
}
use slvm_native.Collections.Strings.Equality.{
  IsBytes, bytes_hash, byte_string_hash-equals, compared,
}
use slvm_native.Collections.Strings.Sameness.{byte_string_equals_refl, byte_string_equals_same}
use slvm_native.Collections.WeakSet.{WeakSet, scan_for, element_at, find}
use slvm_native.Collections.Symbols.{
  SymbolClasses, SymbolRoots, find_symbol, intern_new, intern_string,
}

pub both : (a b : Bool) → not a ≡ false → b ≡ true → (a && b) ≡ true
both a b h k = ground arith

pub second_of : (a b : Bool) → (a && b) ≡ true → b ≡ true
second_of a b h = ground arith

module _ (strings : ℕ → StringObject) where
  abbrev pub is_symbol : ℕ → Bool
  is_symbol o = (strings o).class_index == 173

  -- Byte symbols as elements: each is its own key, and fits the byte strings with its bytes.
  abbrev pub symbols : Keyed ℕ ℕ
  symbols = record {
    vacant = λ e. not (is_symbol e);
    key = λ e. e;
    fits = λ e k. is_symbol e && byte_string_equals (strings k) (strings e);
    hash = λ k. byte_string_hash (strings k) 170;
    fits_own = λ e full. both (is_symbol e) _ full (byte_string_equals_refl (strings e));
    fits_same = λ e k full fit.
        let same : byte_string_equals (strings k) (strings e) ≡ true =
          second_of (is_symbol e) _ fit in
        (
          byte_string_hash-equals (strings k) (strings e) same,
          λ d.
              ap (λ b. is_symbol d && b)
                (byte_string_equals_same (strings k) (strings e) (strings d) same),
        );
  }

  abbrev pub elements : WeakSet → ℕ → ℕ
  elements s i = get_or s.array i s.flag

  -- A set of byte symbols with its free slots flagged, where every symbol is found.
  pub record IsSymbolSet (nil : ℕ) (s : WeakSet) : Type 0 where
    pub some_slots : 0 < length s.array
    pub table : IsTable symbols (elements s) (length s.array)
    pub kinds : (i : ℕ) → (elements s i ≡ s.flag) ⊎ ((strings (elements s i)).class_index ≡ 173)
    pub flag_is_none : (strings s.flag).class_index ≢ 173
    pub nil_is_none : (strings nil).class_index ≢ 173

  -- The reference: the symbol with the bytes of a string, by a search of all slots.
  abbrev pub search_symbol : WeakSet → ℕ → Option ℕ
  search_symbol s string = search_all symbols (elements s) (length s.array) string

  string_equals_self : (k : ℕ) → string_equals strings k k ≡ true
  unfolding string_equals
  string_equals_self k = rw (==_refl k) refl

  stops_symbol :
      (k e : ℕ)
      → IsBytes (strings k)
      → (strings e).class_index ≡ 173
      → string_equals strings k e ≡ byte_string_equals (strings k) (strings e)
  stops_symbol k e kind is = elim (ℕ_discrete k e) [
    | yes same ↦
        subst (λ x. string_equals strings k x ≡ byte_string_equals (strings k) (strings x)) same
          (string_equals_self k ∙ sym (byte_string_equals_refl (strings k)))
    | no apart ↦ compared strings k e apart kind (inl is)
  ]

  -- The test of the scan, slot by slot.
  stops_lem :
      (nil : ℕ) (s : WeakSet) (k i : ℕ)
      → IsSymbolSet nil s
      → IsBytes (strings k)
      → ((elements s i == s.flag) || string_equals strings k (elements s i)) ≡ (
          not (is_symbol (elements s i))
          || (is_symbol (elements s i) && byte_string_equals (strings k) (strings (elements s i))))
  stops_lem nil s k i is kind = elim (is.kinds i) [
    | inl free ↦
        let none' : is_symbol s.flag ≡ false = ne→== _ 173 is.flag_is_none in
        rw (free, ==_refl s.flag, none') refl
    | inr symbol ↦
        let other : elements s i ≢ s.flag =
          λ e. is.flag_is_none (ap (λ o. (strings o).class_index) (sym e) ∙ symbol) in
        let is_one : is_symbol (elements s i) ≡ true = eq→== _ 173 symbol in
        rw (ne→== (elements s i) s.flag other, is_one) (stops_symbol k (elements s i) kind symbol)
  ]

  pub scan_for_symbol :
      (nil : ℕ) (s : WeakSet) (k : ℕ)
      → IsSymbolSet nil s
      → IsBytes (strings k)
      → scan_for nil (λ o. string_hash (strings o)) (string_equals strings) s k
        ≡ ok (scan symbols (elements s) (length s.array) k)
  unfolding scan_for
  scan_for_symbol nil s k is kind =
      let some_slots : (length s.array == 0) ≡ false =
        ne→== (length s.array) 0 (omega (arith, is.some_slots)) in
      let n = length s.array in
      let start = byte_string_hash (strings k) 170 % n in
      rw some_slots (
        bind_ok _ (bytes_hash (strings k) kind)
        ∙ ap (λ f. ok (probe f n start n start)) (fun_ext λ i. stops_lem nil s k i is kind))

  abbrev pub or_nil : ℕ → Option ℕ → ℕ
  or_nil nil none = nil
  or_nil nil (some e) = e

  element_at_lem :
      (nil : ℕ) (s : WeakSet) (r : Scan)
      → IsSymbolSet nil s
      → r ≢ unfinished
      → element_at nil (λ o. string_hash (strings o)) (string_equals strings) s r
        ≡ ok (or_nil nil (entry_of symbols (elements s) r))
  unfolding element_at
  element_at_lem nil s (found i) is done = elim (is.kinds i) [
    | inl free ↦
        let none' : is_symbol s.flag ≡ false = ne→== _ 173 is.flag_is_none in
        rw (free, ==_refl s.flag, none') refl
    | inr symbol ↦
        let other : elements s i ≢ s.flag =
          λ e. is.flag_is_none (ap (λ o. (strings o).class_index) (sym e) ∙ symbol) in
        rw (ne→== (elements s i) s.flag other, symbol) refl
  ]
  element_at_lem nil s missing is done = refl
  element_at_lem nil s unfinished is done = absurd (done refl)

  -- Finding a byte string or symbol in a set of symbols.
  pub find_symbol-search_symbol :
      (nil : ℕ) (s : WeakSet) (k : ℕ)
      → IsSymbolSet nil s
      → IsBytes (strings k)
      → find_symbol nil strings s k ≡ ok (or_nil nil (search_symbol s k))
  unfolding find
  find_symbol-search_symbol nil s k is kind =
      bind_ok _ (scan_for_symbol nil s k is kind)
      ∙ element_at_lem nil s (scan symbols (elements s) (length s.array) k) is
          (scan_finishes symbols (elements s) (length s.array) k is.some_slots)
      ∙ ap (λ e. ok (or_nil nil e))
          (entry-search_all symbols (elements s) (length s.array) k is.some_slots is.table)

-- What interning does, by searches of all slots of the two sets.
unfoldable pub intern_by_search :
    SymbolClasses → SymbolRoots → ℕ → Option ℕ → Option ℕ → Outcome (ℕ × SymbolRoots)
intern_by_search c r string (some old) recent = ok (old, r)
intern_by_search c r string none (some recent) = ok (recent, r)
intern_by_search c r string none none = intern_new c r string

-- The elements of a set of symbols are not nil.
search_not_nil :
    (strings : ℕ → StringObject) (nil : ℕ) (s : WeakSet) (string : ℕ)
    → IsSymbolSet strings nil s
    → (e : ℕ) → search_symbol strings s string ≡ some e
    → e ≢ nil
search_not_nil strings nil s string is e found_it same =
    elim (search_all_cases (symbols strings) (elements strings s) (length s.array) string) [
      | inl (i, h, full, fit, there) ↦
          let here : elements strings s i ≡ e = ap (or_nil strings 0) (sym there ∙ found_it) in
          let none' : is_symbol strings nil ≡ false = ne→== _ 173 is.nil_is_none in
          absurd (cc (here, same, full, none'))
      | inr (all, none') ↦ cc (none', found_it)
    ]

found_symbol :
    (c : SymbolClasses) (r : SymbolRoots) (s : WeakSet) (string : ℕ) (o : Option ℕ)
    → IsSymbolSet r.strings c.nil s
    → IsBytes (r.strings string)
    → search_symbol r.strings s string ≡ o
    → find_symbol c.nil r.strings s string ≡ ok (or_nil r.strings c.nil o)
found_symbol c r s string o is kind same =
    find_symbol-search_symbol r.strings c.nil s string is kind
    ∙ ap (λ e. ok (or_nil r.strings c.nil e)) same

pub intern_by_cases :
    (c : SymbolClasses) (r : SymbolRoots) (string : ℕ) (old recent : Option ℕ)
    → IsSymbolSet r.strings c.nil r.symbol_table
    → IsSymbolSet r.strings c.nil r.new_symbols
    → IsBytes (r.strings string)
    → search_symbol r.strings r.symbol_table string ≡ old
    → search_symbol r.strings r.new_symbols string ≡ recent
    → intern_string c r string ≡ intern_by_search c r string old recent
unfolding intern_string intern_by_search
intern_by_cases c r string (some old) recent is is' kind h k =
    let ne = search_not_nil r.strings c.nil r.symbol_table string is old h in
    bind_ok _ (found_symbol c r r.symbol_table string (some old) is kind h)
    ∙ rw (ne→== old c.nil ne) refl
intern_by_cases c r string none (some recent) is is' kind h k =
    let ne = search_not_nil r.strings c.nil r.new_symbols string is' recent k in
    bind_ok _ (found_symbol c r r.symbol_table string none is kind h)
    ∙ rw (==_refl c.nil) (
        bind_ok _ (found_symbol c r r.new_symbols string (some recent) is' kind k)
        ∙ rw (ne→== recent c.nil ne) refl)
intern_by_cases c r string none none is is' kind h k =
    bind_ok _ (found_symbol c r r.symbol_table string none is kind h)
    ∙ rw (==_refl c.nil) (
        bind_ok _ (found_symbol c r r.new_symbols string none is' kind k) ∙ rw (==_refl c.nil) refl)

-- Interning a byte string or byte symbol, with two sets of byte symbols in which every symbol is
-- found and free slots hold the flag: it returns the symbol with the same bytes that a search of all
-- slots finds, in the symbol table first and then among the new symbols, and changes nothing;
-- without one it goes on to make a new symbol.
pub intern_string-intern_by_search :
    (c : SymbolClasses) (r : SymbolRoots) (string : ℕ)
    → IsSymbolSet r.strings c.nil r.symbol_table
    → IsSymbolSet r.strings c.nil r.new_symbols
    → IsBytes (r.strings string)
    → intern_string c r string
      ≡ intern_by_search c r string
          (search_symbol r.strings r.symbol_table string)
          (search_symbol r.strings r.new_symbols string)
intern_string-intern_by_search c r string is is' kind =
    intern_by_cases c r string _ _ is is' kind refl refl
