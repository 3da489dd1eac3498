-- ===== src/Tests.antt =====
-- The theorems at concrete inputs.
mod Structures
mod Dictionaries
mod Objects
mod Instances
mod Lookups
mod Collections
mod Stacks
mod Messages
mod Registrations
mod Interning
mod Heaps
mod Classes
mod Loading
mod Additions
mod Contexts
