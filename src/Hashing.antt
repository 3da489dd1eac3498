-- ===== src/Hashing.antt =====
-- The open addressing that the hashed collections of src/classes/collections.c share: the probe
-- loop of the four scanFor functions, as one loop, and the theory of a table that it searches.
pub mod Probe
pub mod Table
pub mod Store
pub mod Count
use slvm_native.Common.{ℕ, zero, suc, ◌+◌, ◌%◌, Bool, ◌==◌, if◌then◌else◌}

-- What a scanFor function returns: an index, or -1. `unfinished` is a spent fuel.
pub data Scan : Type 0 where
  found : ℕ → Scan
  missing : Scan
  unfinished : Scan

-- `do { if(stop) return index; index = (index + 1) % n; } while(index != start); return -1;`
unfoldable pub probe : (ℕ → Bool) → ℕ → ℕ → ℕ → ℕ → Scan
probe stop n start zero index = unfinished
probe stop n start (suc fuel) index =
    let next = (index + 1) % n in
    let rest = probe stop n start fuel next in
    if stop index then found index else if next == start then missing else rest
