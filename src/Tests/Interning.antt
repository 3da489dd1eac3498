-- ===== src/Tests/Interning.antt =====
-- Interning at concrete inputs.
use slvm_native.Common.{
  ℕ, ◌≡◌, refl, inl, false, ◌==◌, if◌then◌else◌, arith, replicate, get_or-replicate, Returns, none,
}
use slvm_native.Hashing.Store.{search_all}
use slvm_native.Oop.{encode_small_integer, encode_small_integer_offset, decode_small_integer}
use slvm_native.Collections.Full.{full_condition, increase_tally}
use slvm_native.Collections.Strings.{StringObject}
use slvm_native.Collections.WeakSet.{WeakSet}
use slvm_native.Collections.Symbols.{SymbolClasses, SymbolRoots, intern_string}
use slvm_native.Collections.Symbols.Interning.{
  IsSymbolSet, search_symbol, intern_by_search, intern_string-intern_by_search,
}
use slvm_native.Collections.Symbols.Unique.{Interned, intern_string-Interned}
use slvm_native.Tests.Instances.{used_memory}

-- Strings of one letter: the byte symbol at 976, and others that are byte strings; the flag of the
-- sets is at 1600 and nil at 16, neither a string.
abbrev letters : ℕ → StringObject
letters o = record {
  class_index = if o == 976 then 173 else if o == 960 then 170 else 4;
  size = 1;
  bytes = λ i. 65;
}

abbrev empty_set : WeakSet
empty_set = record { tally = encode_small_integer 0; array = replicate 8 1600; flag = 1600 }

abbrev pub letter_roots : SymbolRoots
letter_roots = record {
  memory = used_memory;
  strings = letters;
  symbol_table = empty_set;
  new_symbols = empty_set;
}

abbrev pub letter_classes : SymbolClasses
letter_classes = record {
  nil = 16;
  behaviors = λ b. record { superclass = 16; method_dict = 16; format = 9 };
  byte_symbol_class = 320;
  wide_symbol_class = 640;
}

empty_set-IsSymbolSet : IsSymbolSet letters 16 empty_set
empty_set-IsSymbolSet = record {
  some_slots = omega arith;
  table = λ i h full. ground (arith, full, get_or-replicate {A = ℕ} 8 i 1600);
  kinds = λ i. inl (get_or-replicate {A = ℕ} 8 i 1600);
  flag_is_none = omega arith;
  nil_is_none = omega arith;
}

empty_search : search_symbol letters empty_set 976 ≡ none
unfolding search_all
empty_search = refl

not_full_yet : full_condition 8 (increase_tally (encode_small_integer 0)) ≡ false
unfolding full_condition increase_tally encode_small_integer encode_small_integer_offset
    decode_small_integer
not_full_yet = refl

intern_string-intern_by_search_example :
    intern_string letter_classes letter_roots 960
    ≡ intern_by_search letter_classes letter_roots 960
        (search_symbol letters empty_set 960)
        (search_symbol letters empty_set 960)
intern_string-intern_by_search_example =
    intern_string-intern_by_search letter_classes letter_roots 960 empty_set-IsSymbolSet
      empty_set-IsSymbolSet (inl refl)

intern_string-Interned_example :
    Returns
      (intern_string letter_classes letter_roots 976)
      (Interned letter_classes letter_roots 976)
intern_string-Interned_example =
    intern_string-Interned letter_classes letter_roots 976 0 empty_set-IsSymbolSet
      empty_set-IsSymbolSet refl empty_search empty_search (omega arith) refl not_full_yet
