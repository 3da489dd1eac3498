-- ===== src/Kernel/Classes/Naming.antt =====
-- A new name in the globals.
use slvm_native.Common.{ℕ, suc, ◌+◌, ◌^◌, ◌≤◌, ◌<◌, ◌≡◌, ◌≢◌, length, get_or, none, ok, bind_ok}
use slvm_native.Oop.{ObjectHeader, identity_hash_of}
use slvm_native.ObjectModel.{ObjectMemory}
use slvm_native.ObjectModel.Making.{IsMemory}
use slvm_native.Collections.Dictionary.{HashedCollection}
use slvm_native.Collections.Dictionary.Adding.{IsOpen}
use slvm_native.Collections.Dictionary.Making.{end_of, MakesObjects}
use slvm_native.Collections.Dictionary.Elsewhere.{Agrees}
use slvm_native.Collections.Dictionary.Putting.{IsPutAnew, at_put-IsPutAnew}
use slvm_native.Collections.IdentityDictionary.{identical}
use slvm_native.Collections.IdentityDictionary.Reading.{identical-IsEquality, identity_search}
use slvm_native.Kernel.{Kernel, globals_at_put}

-- Globals that are open, as headers and words show them.
abbrev pub IsOpenIn : ℕ → (ℕ → ObjectHeader) → (ℕ → ℕ) → HashedCollection → Type 0
IsOpenIn nil headers words d =
    IsOpen nil (identity_hash_of headers) identical (identical-IsEquality nil headers) words d

abbrev pub AgreesIn :
    ℕ → (ℕ → ObjectHeader) → (ℕ → ℕ) → (ℕ → ObjectHeader) → (ℕ → ℕ) → HashedCollection → Type 0
AgreesIn nil headers words headers' words' d =
    Agrees nil identical (identity_hash_of headers) (identity_hash_of headers')
      (identical-IsEquality nil headers) (identical-IsEquality nil headers') words words' d

-- The globals between calls: a free slot, fewer than 2 ^ 58 slots, and the associations and their
-- keys in front of the end of the heap.
pub record HasGlobals (nil : ℕ) (k : Kernel) : Type 0 where
  pub ready : IsOpenIn nil k.memory.headers k.memory.words k.globals
  pub small : length k.globals.array < 2 ^ 58
  pub places :
      (i : ℕ)
      → get_or k.globals.array i nil ≢ nil
      → get_or k.globals.array i nil + 24 ≤ end_of k.memory
  pub keys :
      (i : ℕ)
      → get_or k.globals.array i nil ≢ nil
      → k.memory.words (get_or k.globals.array i nil + 8) < end_of k.memory

identity_hash_kept :
    (headers headers' : ℕ → ObjectHeader) (oop : ℕ)
    → headers' oop ≡ headers oop
    → identity_hash_of headers' oop ≡ identity_hash_of headers oop
unfolding identity_hash_of
identity_hash_kept headers headers' oop same = rw same

module _ (nil : ℕ) where
  -- States that agree on the associations and on the headers of their keys.
  pub agrees_in :
      (headers headers' : ℕ → ObjectHeader) (words words' : ℕ → ℕ) (d : HashedCollection)
      → ((i : ℕ)
          → get_or d.array i nil ≢ nil
          → (words' (get_or d.array i nil + 8) ≡ words (get_or d.array i nil + 8))
            × (words' (get_or d.array i nil + 16) ≡ words (get_or d.array i nil + 16))
            × (headers' (words (get_or d.array i nil + 8))
                ≡ headers (words (get_or d.array i nil + 8))))
      → AgreesIn nil headers words headers' words' d
  agrees_in headers headers' words words' d all = record {
    keys = λ i real. (all i real).0;
    hashes = λ i real. identity_hash_kept headers headers' _ ((all i real).2);
    values = λ i real. (all i real).1;
  }

  -- What a new name leaves of the memory and the globals.
  abbrev pub IsNamed :
      ObjectMemory → HashedCollection → ℕ → ℕ → ObjectMemory × HashedCollection → Type 0
  IsNamed m d =
      IsPutAnew nil (identity_hash_of m.headers) identical (identical-IsEquality nil m.headers) m d

  -- A new name in the globals.
  pub globals_at_put-IsNamed :
      (association_class fuel : ℕ) (k : Kernel) (name value : ℕ)
      → IsOpenIn nil k.memory.headers k.memory.words k.globals
      → IsMemory k.memory
      → MakesObjects nil k.behaviors k.memory association_class 2
      → nil < end_of k.memory
      → ((i : ℕ)
          → get_or k.globals.array i nil ≢ nil
          → get_or k.globals.array i nil + 24 ≤ end_of k.memory)
      → identity_search nil k.memory.headers k.memory.words k.globals name ≡ none
      → length k.globals.array < 2 ^ 58
      → end_of k.memory + 6100 < 2 ^ 64
      → (m : ObjectMemory) × (d : HashedCollection) × (globals_at_put nil association_class
            (suc fuel)
            k
            name
            value
          ≡ ok (record k { memory = m; globals = d }))
        × IsNamed k.memory k.globals name value (m, d)
  unfolding globals_at_put
  globals_at_put-IsNamed association_class fuel k name value is memory makes low front fresh small
        room =
      let ((m, d), run, put) =
        at_put-IsPutAnew nil (identity_hash_of k.memory.headers) identical
          (identical-IsEquality nil k.memory.headers) k.behaviors association_class k.memory
          k.globals name value fuel is memory makes low front fresh small room in
      (m, d, bind_ok _ run, put)
