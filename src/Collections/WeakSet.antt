-- ===== src/Collections/WeakSet.antt =====
-- slvm_WeakSet_* of src/classes/collections.c: a set whose free slots hold a flag of its own. The
-- hash and the equality are arguments; the hash may stop the process.
use slvm_native.Common.{
  ℕ, ◌%◌, Bool, ◌||◌, ◌==◌, if◌then◌else◌, List, [], ◌∷◌, length, get_or, set, replicate, Outcome,
  ok, aborted, out_of_fuel, ◌>>=◌,
}
use slvm_native.Hashing.{Scan, found, missing, unfinished, probe}
use slvm_native.Oop.{encode_small_integer}
use slvm_native.Collections.Full.{full_condition, increase_tally, grown_size}

-- `SLVM_WeakSet`
pub record WeakSet : Type 0 where
  pub tally : ℕ
  pub array : List ℕ
  pub flag : ℕ

-- `slvm_WeakSet_newStorage`
abbrev pub new_storage : WeakSet → ℕ → List ℕ
new_storage s n = replicate n s.flag

-- `slvm_WeakSet_new`, with the address of its new flag.
unfoldable pub new : ℕ → ℕ → WeakSet
new flag n = record { tally = encode_small_integer 0; array = replicate n flag; flag = flag }

module _ (nil : ℕ) (hash : ℕ → Outcome ℕ) (equals : ℕ → ℕ → Bool) where
  -- `slvm_WeakSet_scanFor`
  unfoldable pub scan_for : WeakSet → ℕ → Outcome Scan
  scan_for s object =
      let n = length s.array in
      if n == 0
      then ok missing
      else (hash object >>= λ h. ok (
          probe
            (λ i. (get_or s.array i s.flag == s.flag) || equals object (get_or s.array i s.flag)) n
            (h % n) n (h % n)))

  -- What find does with the result of the scan.
  unfoldable pub element_at : WeakSet → Scan → Outcome ℕ
  element_at s missing = ok nil
  element_at s (found index) =
      let element = get_or s.array index s.flag in if element == s.flag then ok nil else ok element
  element_at s unfinished = out_of_fuel

  -- `slvm_WeakSet_find`
  unfoldable pub find : WeakSet → ℕ → Outcome ℕ
  find s object = scan_for s object >>= element_at s

  -- What doAdd does with the result of the scan.
  unfoldable pub put_at : WeakSet → ℕ → Scan → Outcome WeakSet
  put_at s object missing = aborted
  put_at s object (found index) =
      if get_or s.array index s.flag == object
      then ok s
      else ok (record s { array = set s.array index object; tally = increase_tally s.tally })
  put_at s object unfinished = out_of_fuel

  -- `slvm_WeakSet_doAdd`
  unfoldable pub do_add : WeakSet → ℕ → Outcome WeakSet
  do_add s object = scan_for s object >>= put_at s object

  -- The loop of `slvm_WeakSet_doGrow` over the old array.
  unfoldable pub reinsert : List ℕ → WeakSet → Outcome WeakSet
  reinsert [] s = ok s
  reinsert (element ∷ rest) s =
      (if element == s.flag then ok s else do_add s element) >>= reinsert rest

  -- `slvm_WeakSet_doGrow`
  unfoldable pub do_grow : WeakSet → ℕ → Outcome WeakSet
  do_grow s size =
      reinsert s.array (record s { tally = encode_small_integer 0; array = new_storage s size })

  -- `slvm_WeakSet_grow`
  unfoldable pub grow : WeakSet → Outcome WeakSet
  grow s = do_grow s (length s.array) >>= λ same.
      if full_condition (length same.array) same.tally
      then do_grow same (grown_size (length s.array))
      else ok same

  -- `slvm_WeakSet_add`
  unfoldable pub add : WeakSet → ℕ → Outcome WeakSet
  add s object = do_add s object >>= λ added.
      if full_condition (length added.array) added.tally then grow added else ok added
