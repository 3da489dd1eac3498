-- ===== src/Tests/Classes.antt =====
-- The creation of a class at a concrete input.
use slvm_native.Common.{
  ℕ, zero, suc, ◌+◌, ◌/◌, ◌≤◌, ◌<◌, ◌≡◌, ◌≢◌, refl, false, ◌==◌, if◌then◌else◌, arith, [], ◌∷◌,
  get_or, replicate, get_or-replicate, none, ok, Returns,
}
use slvm_native.Hashing.{probe, found}
use slvm_native.Hashing.Table.{scan}
use slvm_native.Hashing.Store.{search_all}
use slvm_native.Hashing.Count.{occupied}
use slvm_native.Oop.{
  ObjectHeader, identity_hash_of, oop_is_immediate, decode_small_integer, encode_small_integer,
}
use slvm_native.ObjectModel.{decode_format, decode_fixed_size}
use slvm_native.Collections.Dictionary.{HashedCollection, add_association, at_put}
use slvm_native.Collections.Dictionary as Generic
use slvm_native.Collections.Dictionary.Reading.{search}
use slvm_native.Collections.Dictionary.Making.{MakesObjects}
use slvm_native.Collections.IdentityDictionary.{identical}
use slvm_native.Collections.IdentityDictionary.Reading.{identity_associations, identity_search}
use slvm_native.Kernel.{Kernel, globals_at_or_nil}
use slvm_native.Kernel.Classes.{KernelClasses, Description, subclass_with_some_names}
use slvm_native.Kernel.Classes.Making.{CanMakeClasses}
use slvm_native.Kernel.Classes.Naming.{HasGlobals, IsOpenIn}
use slvm_native.Kernel.Classes.Inheriting.{IsSubclassed}
use slvm_native.Kernel.Classes.Subclassing.{subclass_with_some_names-IsSubclassed}
use slvm_native.Tests.Instances.{used_memory, used_memory-IsMemory}
use slvm_native.Tests.Registrations.{small_image}

-- The superclass 320 under the name 5120, with the association 960. The classes Metaclass,
-- MethodDictionary, Dictionary and Association stand at 1600, 1616, 1632 and 1648.
abbrev pub class_headers : ℕ → ObjectHeader
class_headers o = record {
  class_index = 600;
  object_format = 1;
  gc_color = 0;
  identity_hash = if o == 1600 then 155 else if o == 1616 then 164 else o / 16;
  is_pinned = 0;
  is_immutable = 0;
  slot_count = 4;
}

abbrev pub class_words : ℕ → ℕ
class_words x = if x == 968 then 5120 else if x == 976 then 320 else 0

abbrev some_globals : HashedCollection
some_globals = record { tally = 9; array = 960 ∷ replicate 7 16 }

abbrev pub class_kernel : Kernel
class_kernel = record {
  memory = record used_memory { words = class_words; headers = class_headers };
  behaviors = λ b. record {
    superclass = 16;
    method_dict = 16;
    format = if b == 1600 then 524361 else if b == 1616 then 524313 else 524305;
  };
  dictionaries = λ o. record { tally = 1; keys = []; values = [] };
  class_pools = λ o. record { tally = 1; array = [] };
  table = record { page = λ p e. 320; page_count = 1; base_size = 512; size = 7 };
  globals = some_globals;
}

abbrev pub some_classes : KernelClasses
some_classes = record {
  nil = 16;
  image = small_image;
  metaclass_class = 1600;
  method_dictionary_class = 1616;
  dictionary_class = 1632;
  association_class = 1648;
}

abbrev pub some_description : Description
some_description = record {
  instance_variable_names = 16;
  format = 524305;
  meta_instance_variable_names = 16;
  meta_format = 524401;
  class_variable_associations = 16;
  pool_dictionaries = 16;
  category_name = 2048;
}

pub some_formats :
    (decode_format 524305 ≡ 1)
    × (decode_fixed_size 524305 ≡ 2)
    × (decode_format 524313 ≡ 1)
    × (decode_fixed_size 524313 ≡ 3)
    × (decode_format 524361 ≡ 1)
    × (decode_fixed_size 524361 ≡ 9)
    × (decode_format 524401 ≡ 1)
    × (decode_fixed_size 524401 ≡ 14)
unfolding decode_format decode_fixed_size decode_small_integer
some_formats = (refl, refl, refl, refl, refl, refl, refl, refl)

pub makes_two :
    (o : ℕ)
    → o ≢ 16
    → o < 2000
    → (class_kernel.behaviors o).format ≡ 524305
    → MakesObjects 16 class_kernel.behaviors class_kernel.memory o 2
makes_two o real low is = record {
  real = real;
  in_front = omega (arith, low);
  format = rw is some_formats.0;
  fixed = rw is some_formats.1;
}

pub class_kernel-CanMakeClasses : CanMakeClasses some_classes class_kernel
class_kernel-CanMakeClasses = record {
  memory = record { heap = used_memory-IsMemory.heap; requested = used_memory-IsMemory.requested };
  table = record { based = refl; one_page = omega arith };
  few = omega arith;
  low = omega arith;
  metaclasses = record {
    real = omega arith;
    in_front = omega arith;
    format = some_formats.4;
    fixed = some_formats.5;
  };
  dictionaries = record {
    real = omega arith;
    in_front = omega arith;
    format = some_formats.2;
    fixed = some_formats.3;
  };
  kind = refl;
}

places :
    (i : ℕ)
    → i < 8
    → (get_or some_globals.array i 16 == 16) ≡ false
    → scan
        (identity_associations 16 class_headers class_words)
        (λ j. get_or some_globals.array j 16)
        8
        (class_words (get_or some_globals.array i 16 + 8))
      ≡ found i
unfolding probe identity_hash_of oop_is_immediate
places zero h full = refl
places (suc i) h full = absurd (cc (rw (get_or-replicate {A = ℕ} 7 i 16) at full))

some_globals-IsOpen : IsOpenIn 16 class_headers class_words some_globals
unfolding occupied probe identity_hash_of oop_is_immediate encode_small_integer
some_globals-IsOpen = record {
  valid = record { table = places; counted = refl };
  room = omega arith;
}

settled_place :
    (P : ℕ → Type 0) (i : ℕ)
    → P 960
    → get_or some_globals.array i 16 ≢ 16
    → P (get_or some_globals.array i 16)
settled_place P zero is real = is
settled_place P (suc i) is real = absurd (real (get_or-replicate 7 i 16))

pub class_kernel-HasGlobals : HasGlobals 16 class_kernel
class_kernel-HasGlobals = record {
  ready = some_globals-IsOpen;
  small = omega arith;
  places = λ i. settled_place (λ o. o + 24 ≤ 65632) i (omega arith);
  keys = λ i. settled_place (λ o. class_words (o + 8) < 65632) i (omega arith);
}

pub new_name : identity_search 16 class_headers class_words some_globals 7680 ≡ none
unfolding search search_all
new_name = refl

pub super_name : globals_at_or_nil 16 class_kernel 5120 ≡ ok 320
unfolding globals_at_or_nil Generic.at_or_nil Generic.scan_for probe identity_hash_of
    oop_is_immediate
super_name = refl

pub class_immediate : oop_is_immediate 320 ≡ false
unfolding oop_is_immediate
class_immediate = refl

subclass_with_some_names-IsSubclassed_example :
    Returns
      (subclass_with_some_names some_classes
        (λ o. o / 16)
        identical
        2
        5120
        7680
        some_description
        class_kernel)
      (IsSubclassed some_classes class_kernel 320 7680)
subclass_with_some_names-IsSubclassed_example =
    subclass_with_some_names-IsSubclassed some_classes class_kernel (λ o. o / 16) identical 1 5120
      7680 320 14 some_description class_kernel-CanMakeClasses class_kernel-HasGlobals
      (makes_two 1648 (omega arith) (omega arith) refl)
      (makes_two 1632 (omega arith) (omega arith) refl) some_formats.6 some_formats.7 (omega arith)
      refl new_name super_name (omega arith) class_immediate (omega arith) (omega arith)
