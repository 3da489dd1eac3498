-- ===== src/Collections/Symbols/Unique.antt =====
-- A symbol that is interned is the only one with its bytes.
use slvm_native.Common.{
  ℕ, zero, suc, ◌<◌, ◌≡◌, inr, refl, sym, ap, ◌∙◌, true, false, not, ◌&&◌, ◌==◌, if◌then◌else◌,
  length, ok, bind_ok, none, some, Returns, eq→==,
}
use slvm_native.Hashing.Store.{search_all, search_all-zero, search_all-suc}
use slvm_native.Collections.Full.{full_condition, increase_tally}
use slvm_native.Collections.Strings.{StringObject, byte_string_equals}
use slvm_native.Collections.Strings.Equality.{IsBytes}
use slvm_native.Collections.WeakSet.{WeakSet}
use slvm_native.Collections.Strings.Sameness.{byte_string_equals_same}
use slvm_native.Collections.Symbols.{
  SymbolClasses, SymbolRoots, symbol_of, add_symbol, intern_new, intern_string,
}
use slvm_native.Collections.Symbols.Interning.{
  intern_by_search, intern_by_cases, symbols, is_symbol, elements, IsSymbolSet, search_symbol,
}
use slvm_native.Collections.Symbols.Adding.{add_symbol_reads}

-- Strings with the same bytes find the same.
search_symbol_same :
    (strings : ℕ → StringObject) (t : ℕ → ℕ) (n k l : ℕ)
    → byte_string_equals (strings k) (strings l) ≡ true
    → search_all (symbols strings) t n k ≡ search_all (symbols strings) t n l
search_symbol_same strings t zero k l h =
    search_all-zero (symbols strings) t k ∙ sym (search_all-zero (symbols strings) t l)
search_symbol_same strings t (suc n) k l h =
    search_all-suc (symbols strings) t n k
    ∙ ap
        (λ b.
          if not (not (is_symbol strings (t n))) && (is_symbol strings (t n) && b)
          then some (t n)
          else search_all (symbols strings) t n k)
        (byte_string_equals_same (strings k) (strings l) (strings (t n)) h)
    ∙ ap
        (λ o.
          if not (not (is_symbol strings (t n)))
            && (is_symbol strings (t n) && byte_string_equals (strings l) (strings (t n)))
          then some (t n)
          else o)
        (search_symbol_same strings t n k l h)
    ∙ sym (search_all-suc (symbols strings) t n l)

intern_new_symbol :
    (c : SymbolClasses) (r : SymbolRoots) (symbol : ℕ) (larger : WeakSet)
    → (r.strings symbol).class_index ≡ 173
    → add_symbol c.nil r.strings r.new_symbols symbol ≡ ok larger
    → intern_new c r symbol ≡ ok (symbol, record r { new_symbols = larger })
unfolding intern_new symbol_of
intern_new_symbol c r symbol larger kind added =
    let is_one : ((r.strings symbol).class_index == 173) ≡ true = eq→== _ 173 kind in
    rw is_one (bind_ok _ added)

-- The symbol has become the one that all strings with its bytes are interned as.
pub record Interned (c : SymbolClasses) (r : SymbolRoots) (symbol : ℕ) (q : ℕ × SymbolRoots)
    : Type 0 where
  pub answer : q.0 ≡ symbol
  pub new_is : IsSymbolSet q.1.strings c.nil q.1.new_symbols
  pub same_table : q.1.symbol_table ≡ r.symbol_table
  pub again :
      (k : ℕ)
      → IsBytes (r.strings k)
      → byte_string_equals (r.strings k) (r.strings symbol) ≡ true
      → intern_string c q.1 k ≡ ok (symbol, q.1)

-- Interning a byte symbol whose bytes no interned symbol has, with two well-formed sets of byte
-- symbols, of which the one for new symbols has a free slot and is not full with one more: it
-- returns the symbol itself and keeps the sets well formed, and from then on interning any byte
-- string or symbol with the same bytes returns that symbol and changes nothing.
pub intern_string-Interned :
    (c : SymbolClasses) (r : SymbolRoots) (symbol i : ℕ)
    → IsSymbolSet r.strings c.nil r.symbol_table
    → IsSymbolSet r.strings c.nil r.new_symbols
    → (r.strings symbol).class_index ≡ 173
    → search_symbol r.strings r.symbol_table symbol ≡ none
    → search_symbol r.strings r.new_symbols symbol ≡ none
    → i < length r.new_symbols.array
    → elements r.strings r.new_symbols i ≡ r.new_symbols.flag
    → full_condition (length r.new_symbols.array) (increase_tally r.new_symbols.tally) ≡ false
    → Returns (intern_string c r symbol) (Interned c r symbol)
unfolding intern_by_search
intern_string-Interned c r symbol i is is' kind absent absent' h free room =
    let (larger, added, (valid, reads)) =
      add_symbol_reads r.strings c.nil r.new_symbols symbol is' kind absent' i h free room in
    let q = record r { new_symbols = larger } in
    (
      (symbol, q),
      intern_by_cases c r symbol none none is is' (inr kind) absent absent'
          ∙ intern_new_symbol c r symbol larger kind added,
      record {
        answer = refl;
        new_is = valid;
        same_table = refl;
        again = λ k bytes same.
            intern_by_cases c q k none (some symbol) is valid bytes
              (search_symbol_same r.strings (elements r.strings r.symbol_table)
                  (length r.symbol_table.array) k symbol same
                ∙ absent)
              (reads k ∙ rw same refl);
      },
    )
