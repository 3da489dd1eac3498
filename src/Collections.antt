-- ===== src/Collections.antt =====
-- The hashed collections of src/classes/collections.c. A collection owns its arrays, so they stand
-- in it as lists of slots; associations are shared objects and stay in the object memory.
pub mod Full
pub mod MethodDictionary
pub mod Dictionary
pub mod IdentityDictionary
pub mod Strings
pub mod WeakSet
pub mod Symbols
