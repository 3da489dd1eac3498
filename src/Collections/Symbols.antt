-- ===== src/Collections/Symbols.antt =====
-- slvm_Symbol_internString of src/classes/collections.c: symbols are unique, in two weak sets.
pub mod Interning
pub mod Adding
pub mod Unique
use slvm_native.Common.{
  ℕ, ◌*◌, Bool, ◌||◌, ◌==◌, if◌then◌else◌, List, length, get_or, Outcome, ok, aborted, ◌>>=◌,
}
use slvm_native.ObjectModel.{ObjectMemory, Behavior, basic_new, basic_size}
use slvm_native.Collections.Strings.{
  StringObject, byte_string_index, wide_string_index, byte_symbol_index, wide_symbol_index,
  string_equals, string_hash,
}
use slvm_native.Collections.WeakSet.{WeakSet}
use slvm_native.Collections.WeakSet as Weak

-- The strings by their addresses, the memory that new symbols come from, and `collectionRoots`.
pub record SymbolRoots : Type 0 where
  pub memory : ObjectMemory
  pub strings : ℕ → StringObject
  pub symbol_table : WeakSet
  pub new_symbols : WeakSet

-- The addresses of `slvm_nil` and of the classes ByteSymbol and WideSymbol, with all behaviors.
pub record SymbolClasses : Type 0 where
  pub nil : ℕ
  pub behaviors : ℕ → Behavior
  pub byte_symbol_class : ℕ
  pub wide_symbol_class : ℕ

-- A new symbol with the data of a string, of the size that `slvm_basicSize` reads of the new object:
-- for wide symbols this is not the size asked for.
unfoldable pub copy_symbol : SymbolClasses → SymbolRoots → ℕ → ℕ → ℕ → Outcome (ℕ × SymbolRoots)
copy_symbol c r class_oop class_index string =
    basic_new c.nil c.behaviors r.memory class_oop (r.strings string).size >>= λ made. ok (
      made.0,
      record r {
        memory = made.1;
        strings = λ o.
            if o == made.0
            then record (r.strings string) {
              class_index = class_index;
              size = basic_size made.1 made.0;
            }
            else r.strings o;
      },
    )

-- The symbol of a string that is not interned: the string itself, or a copy.
unfoldable pub symbol_of : SymbolClasses → SymbolRoots → ℕ → Outcome (ℕ × SymbolRoots)
symbol_of c r string =
    let kind = (r.strings string).class_index in
    if (kind == byte_symbol_index) || (kind == wide_symbol_index)
    then ok (string, r)
    else if kind == byte_string_index
    then copy_symbol c r c.byte_symbol_class byte_symbol_index string
    else if kind == wide_string_index
    then copy_symbol c r c.wide_symbol_class wide_symbol_index string
    else aborted

-- `slvm_WeakSet_find` and `_add` with `slvm_String_hash` and `slvm_String_equals`.
abbrev pub find_symbol : ℕ → (ℕ → StringObject) → WeakSet → ℕ → Outcome ℕ
find_symbol nil strings = Weak.find nil (λ o. string_hash (strings o)) (string_equals strings)

abbrev pub add_symbol : ℕ → (ℕ → StringObject) → WeakSet → ℕ → Outcome WeakSet
add_symbol nil strings = Weak.add nil (λ o. string_hash (strings o)) (string_equals strings)

-- The end of `slvm_Symbol_internString`: a new symbol.
unfoldable pub intern_new : SymbolClasses → SymbolRoots → ℕ → Outcome (ℕ × SymbolRoots)
intern_new c r string = symbol_of c r string >>= λ s.
    add_symbol c.nil s.1.strings s.1.new_symbols s.0 >>= λ larger.
    ok (s.0, record (s.1) { new_symbols = larger })

-- `slvm_Symbol_internString`
unfoldable pub intern_string : SymbolClasses → SymbolRoots → ℕ → Outcome (ℕ × SymbolRoots)
intern_string c r string = find_symbol c.nil r.strings r.symbol_table string >>= λ old.
    if old == c.nil
    then (find_symbol c.nil r.strings r.new_symbols string >>= λ recent.
        if recent == c.nil then intern_new c r string else ok (recent, r))
    else ok (old, r)

-- `slvm_Symbol_convertCString`, on the bytes of the string before its final zero.
unfoldable pub convert_c_string : SymbolClasses → SymbolRoots → List ℕ → Outcome (ℕ × SymbolRoots)
convert_c_string c r text =
    basic_new c.nil c.behaviors r.memory c.byte_symbol_class (length text) >>= λ made. ok (
      made.0,
      record r {
        memory = made.1;
        strings = λ o.
            if o == made.0
            then record {
              class_index = byte_symbol_index;
              size = length text;
              bytes = λ i. get_or text i 0;
            }
            else r.strings o;
      },
    )

-- `slvm_Symbol_internCString`
unfoldable pub intern_c_string : SymbolClasses → SymbolRoots → List ℕ → Outcome (ℕ × SymbolRoots)
intern_c_string c r text = convert_c_string c r text >>= λ s. intern_string c s.1 s.0
