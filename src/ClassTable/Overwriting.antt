-- ===== src/ClassTable/Overwriting.antt =====
-- The behaviors that are registered after the first 512: they overwrite the entries of the kernel.
use slvm_native.Common.{
  ℕ, ◌+◌, ◌/◌, ◌%◌, ◌^◌, ◌<◌, ◌≤◌, ◌≡◌, refl, ◌∙◌, true, ltb, arith, lt→ltb, List, [], ◌∷◌, length,
}
use slvm_native.Oop.{ObjectHeader}
use slvm_native.ClassTable.{
  ClassTable, Image, compact_indices, write_element, add_page, register_behavior, initialize,
  class_at,
}
use slvm_native.ClassTable.Register.{IsClassTable, register_behavior_overwrites}
use slvm_native.ClassTable.Initial.{names_index, name_of, initialize-class_at}

module _ (image : Image) where
  -- The behaviors of a list are registered, one after the other.
  unfoldable pub register_all :
      List ℕ → ClassTable × (ℕ → ObjectHeader) → ClassTable × (ℕ → ObjectHeader)
  register_all [] s = s
  register_all (b ∷ bs) s = register_all bs (register_behavior image b s.0 s.1)

  -- A registration writes into the entries 512 to 1535, taken modulo 1024.
  register_behavior_step :
      (t : ClassTable) (headers : ℕ → ObjectHeader) (behavior i : ℕ)
      → IsClassTable t
      → t.size < 512 + i
      → i < 512
      → let r = register_behavior image behavior t headers in
        IsClassTable r.0 × (r.0.size ≡ t.size + 1) × (class_at r.0 i ≡ class_at t i)
  unfolding register_behavior class_at write_element add_page
  register_behavior_step t headers behavior i is few low =
      let index : (t.base_size + t.size) % 2 ^ 32 ≡ 512 + t.size = omega (arith, is.based) in
      let page : (512 + t.size) / 2 ^ 12 ≡ 0 = omega arith in
      let there : ltb 0 t.page_count ≡ true = lt→ltb 0 t.page_count is.one_page in
      let first : i / 2 ^ 12 ≡ 0 = omega arith in
      let place : i % 1024 ≡ i = omega arith in
      rw (index, page, there, first, place)
        (record { based = is.based; one_page = is.one_page }, refl, ground arith)

  -- Up to the registration that meets it, an entry of the kernel stays.
  register_all_lem :
      (bs : List ℕ) (s : ClassTable × (ℕ → ObjectHeader)) (i : ℕ)
      → IsClassTable s.0
      → s.0.size + length bs ≤ 512 + i
      → i < 512
      → let r = register_all bs s in
        IsClassTable r.0 × (r.0.size ≡ s.0.size + length bs) × (class_at r.0 i ≡ class_at s.0 i)
  unfolding register_all
  register_all_lem [] s i is few low = (is, omega arith, refl)
  register_all_lem (b ∷ bs) s i is few low =
      let (is', size', same') = register_behavior_step s.0 s.1 b i is (omega arith) low in
      let (is'', size'', same'') =
        register_all_lem bs (register_behavior image b s.0 s.1) i is' (omega (arith, size')) low in
      (is'', omega (arith, size', size''), same'' ∙ same')

  -- When 512 + i behaviors were registered after the initialization, for a compact class index i,
  -- the table still has the kernel's class under i; the next registration puts its behavior there.
  pub register_behavior-initialize :
      (bs : List ℕ) (headers : ℕ → ObjectHeader) (behavior i : ℕ)
      → i < 256
      → names_index i compact_indices ≡ true
      → length bs ≡ 512 + i
      → let before = register_all bs (initialize image, headers) in
        (class_at before.0 i ≡ image.kernel_class (name_of i compact_indices))
        × (class_at (register_behavior image behavior before.0 before.1).0 i ≡ behavior)
  unfolding initialize
  register_behavior-initialize bs headers behavior i low named enough =
      let (is, kernel, _) = initialize-class_at image i low named in
      let (is', size', same') =
        register_all_lem bs (initialize image, headers) i is (omega (arith, enough))
          (omega arith) in
      let before = register_all bs (initialize image, headers) in
      (
        same' ∙ kernel,
        register_behavior_overwrites image before.0 before.1 behavior is' i (omega arith)
            (size' ∙ omega (arith, enough)),
      )
