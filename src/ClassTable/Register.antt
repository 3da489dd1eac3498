-- ===== src/ClassTable/Register.antt =====
-- Registering behaviors: up to 512 of them get indices of their own, and from then on they
-- overwrite the kernel's.
use slvm_native.Common.{ℕ, ◌+◌, ◌/◌, ◌%◌, ◌^◌, ◌<◌, ◌≡◌, ◌≢◌, refl, true, ltb, arith, lt→ltb}
use slvm_native.Oop.{ObjectHeader}
use slvm_native.ClassTable.{ClassTable, Image, write_element, add_page, register_behavior, class_at}

-- The table between registrations.
pub record IsClassTable (t : ClassTable) : Type 0 where
  pub based : t.base_size ≡ 512
  pub one_page : 0 < t.page_count

module _ (image : Image) (t : ClassTable) (headers : ℕ → ObjectHeader) (behavior : ℕ)
    (is : IsClassTable t) where
  -- One of the first 512 behaviors to be registered gets the next class index, under which the
  -- table then holds it; every other class index below 1024 keeps its class.
  pub register_behavior-class_at :
      t.size < 512
      → let r = register_behavior image behavior t headers in
        IsClassTable r.0
        × (r.0.size ≡ t.size + 1)
        × ((r.1 behavior).identity_hash ≡ 512 + t.size)
        × (class_at r.0 (512 + t.size) ≡ behavior)
        × ((i : ℕ) → i < 1024 → i ≢ 512 + t.size → class_at r.0 i ≡ class_at t i)
  unfolding register_behavior class_at write_element add_page
  register_behavior-class_at h =
      let index : (t.base_size + t.size) % 2 ^ 32 ≡ 512 + t.size = omega (arith, is.based) in
      let page : (512 + t.size) / 2 ^ 12 ≡ 0 = omega arith in
      let element : (512 + t.size) % 1024 ≡ 512 + t.size = omega arith in
      let there : ltb 0 t.page_count ≡ true = lt→ltb 0 t.page_count is.one_page in
      rw (index, page, element, there)
        (
          record { based = is.based; one_page = is.one_page },
          refl,
          ground arith,
          ground arith,
          λ i small other.
              let first : i / 2 ^ 12 ≡ 0 = omega arith in
              let place : i % 1024 ≡ i = omega arith in rw (first, place) (ground arith),
        )

  -- The registration after j + 512 others, j below 1024, replaces the class with index j.
  pub register_behavior_overwrites :
      (j : ℕ)
      → j < 1024
      → t.size ≡ 512 + j
      → class_at (register_behavior image behavior t headers).0 j ≡ behavior
  unfolding register_behavior class_at write_element
  register_behavior_overwrites j h e =
      let index : (t.base_size + t.size) % 2 ^ 32 ≡ 1024 + j = omega (arith, is.based) in
      let page : (1024 + j) / 2 ^ 12 ≡ 0 = omega arith in
      let element : (1024 + j) % 1024 ≡ j = omega arith in
      let first : j / 2 ^ 12 ≡ 0 = omega arith in
      let place : j % 1024 ≡ j = omega arith in
      rw (index, page, element, first, place) (ground arith)
