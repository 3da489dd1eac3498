-- ===== src/Tests/Additions.antt =====
-- Additions to dictionaries of associations at concrete inputs.
use slvm_native.Common.{
  ℕ, zero, suc, ◌+◌, ◌≤◌, ◌<◌, ◌≡◌, ◌≢◌, refl, false, ◌==◌, arith, [], ◌∷◌, get_or, none, Returns,
}
use slvm_native.Hashing.{probe, found}
use slvm_native.Hashing.Table.{scan}
use slvm_native.Hashing.Store.{search_all}
use slvm_native.Hashing.Count.{occupied}
use slvm_native.Oop.{identity_hash_of, oop_is_immediate, encode_small_integer}
use slvm_native.Collections.Dictionary.{HashedCollection, add_association, at_put}
use slvm_native.Collections.Dictionary.Reading.{search}
use slvm_native.Collections.Dictionary.Adding.{IsAdded, add_association-IsAdded}
use slvm_native.Collections.Dictionary.Putting.{IsPutAnew, at_put-IsPutAnew}
use slvm_native.Collections.IdentityDictionary.{identical}
use slvm_native.Collections.IdentityDictionary.Reading.{
  identical-IsEquality, identity_associations, identity_search,
}
use slvm_native.Kernel.Classes.Naming.{IsOpenIn}
use slvm_native.Tests.Classes.{
  class_headers, class_words, class_kernel, class_kernel-CanMakeClasses, makes_two,
}

-- A dictionary that grows with the next new key.
abbrev small_globals : HashedCollection
small_globals = record { tally = 9; array = 960 ∷ 16 ∷ [] }

small_places :
    (i : ℕ)
    → i < 2
    → (get_or small_globals.array i 16 == 16) ≡ false
    → scan
        (identity_associations 16 class_headers class_words)
        (λ j. get_or small_globals.array j 16)
        2
        (class_words (get_or small_globals.array i 16 + 8))
      ≡ found i
unfolding probe identity_hash_of oop_is_immediate
small_places zero h full = refl
small_places (suc zero) h full = absurd (cc full)
small_places (suc (suc i)) h full = absurd (omega arith)

small_globals-IsOpen : IsOpenIn 16 class_headers class_words small_globals
unfolding occupied probe identity_hash_of oop_is_immediate encode_small_integer
small_globals-IsOpen = record {
  valid = record { table = small_places; counted = refl };
  room = omega arith;
}

add_association-IsAdded_example :
    Returns
      (add_association 16
        (identity_hash_of class_headers)
        identical
        2
        class_words
        small_globals
        1920)
      (IsAdded 16
        (identity_hash_of class_headers)
        identical
        (identical-IsEquality 16 class_headers)
        class_words
        small_globals
        1920)
add_association-IsAdded_example =
    add_association-IsAdded 16 (identity_hash_of class_headers) identical
      (identical-IsEquality 16 class_headers) class_words 0 small_globals 1920 small_globals-IsOpen
      (omega arith) (omega arith)

small_new_name : identity_search 16 class_headers class_words small_globals 7680 ≡ none
unfolding search search_all
small_new_name = refl

in_front :
    (i : ℕ) → get_or small_globals.array i 16 ≢ 16 → get_or small_globals.array i 16 + 24 ≤ 65632
in_front zero real = omega arith
in_front (suc zero) real = absurd (real refl)
in_front (suc (suc i)) real = absurd (real refl)

at_put-IsPutAnew_example :
    Returns
      (at_put 16
        (identity_hash_of class_headers)
        identical
        class_kernel.behaviors
        1648
        2
        class_kernel.memory
        small_globals
        7680
        48)
      (IsPutAnew 16
        (identity_hash_of class_headers)
        identical
        (identical-IsEquality 16 class_headers)
        class_kernel.memory
        small_globals
        7680
        48)
at_put-IsPutAnew_example =
    at_put-IsPutAnew 16 (identity_hash_of class_headers) identical
      (identical-IsEquality 16 class_headers) class_kernel.behaviors 1648 class_kernel.memory
      small_globals 7680 48 1 small_globals-IsOpen class_kernel-CanMakeClasses.memory
      (makes_two 1648 (omega arith) (omega arith) refl) (omega arith) in_front small_new_name
      (omega arith) (omega arith)
