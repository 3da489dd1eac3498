-- ===== src/ClassTable/Initial.antt =====
-- The table after initialisation.
use slvm_native.Common.{
  ℕ, ◌+◌, ◌/◌, ◌%◌, ◌^◌, ◌<◌, ◌≡◌, inl, inr, refl, Bool, true, false, not, ◌==◌, ◌&&◌, ◌||◌, ltb,
  if◌then◌else◌, arith, List, [], ◌∷◌, Bool-cases, ==→eq,
}
use slvm_native.ClassTable.{
  Image, compact_indices, write_element, add_compact, initialize, class_at,
}
use slvm_native.ClassTable.Register.{IsClassTable}

abbrev pub names_index : ℕ → List (ℕ × ℕ) → Bool
names_index i [] = false
names_index i ((index, name) ∷ rest) = (i == index) || names_index i rest

-- The canonical index of a compact index.
abbrev pub name_of : ℕ → List (ℕ × ℕ) → ℕ
name_of i [] = 0
name_of i ((index, name) ∷ rest) = if i == index then name else name_of i rest

-- Indices below 256, none twice.
abbrev separate : List (ℕ × ℕ) → Bool
separate [] = true
separate ((index, name) ∷ rest) = ltb index 256 && (not (names_index index rest) && separate rest)

module _ (image : Image) where
  abbrev written : ℕ → ℕ → (ℕ → ℕ → ℕ) → ℕ → ℕ → ℕ
  written index name page =
      write_element (write_element page 0 index (image.kernel_class name)) 0 (256 + index)
        (image.kernel_metaclass name)

  -- The writes for other indices leave a class and a metaclass alone.
  add_compact_class :
      (rest : List (ℕ × ℕ)) (page : ℕ → ℕ → ℕ) (i : ℕ)
      → i < 256
      → names_index i rest ≡ false
      → add_compact image rest page 0 i ≡ page 0 i
  unfolding add_compact write_element
  add_compact_class [] page i small out = refl
  add_compact_class ((index, name) ∷ rest) page i small out =
      ground (arith, add_compact_class rest (written index name page) i)

  add_compact_metaclass :
      (rest : List (ℕ × ℕ)) (page : ℕ → ℕ → ℕ) (i : ℕ)
      → separate rest ≡ true
      → names_index i rest ≡ false
      → add_compact image rest page 0 (256 + i) ≡ page 0 (256 + i)
  unfolding add_compact write_element
  add_compact_metaclass [] page i sep out = refl
  add_compact_metaclass ((index, name) ∷ rest) page i sep out =
      ground (arith, add_compact_metaclass rest (written index name page) i)

  add_compact_named :
      (rest : List (ℕ × ℕ)) (page : ℕ → ℕ → ℕ) (i : ℕ)
      → i < 256
      → separate rest ≡ true
      → names_index i rest ≡ true
      → (add_compact image rest page 0 i ≡ image.kernel_class (name_of i rest))
        × (add_compact image rest page 0 (256 + i) ≡ image.kernel_metaclass (name_of i rest))
  unfolding add_compact write_element
  add_compact_named [] page i small sep h = absurd (cc h)
  add_compact_named ((index, name) ∷ rest) page i small sep h = elim (Bool-cases (i == index)) [
    | inl same ↦
        let e = ==→eq i index same in
        rw (same, e)
          (ground (
            arith,
            add_compact_class rest (written index name page) index,
            add_compact_metaclass rest (written index name page) index,
          ))
    | inr other ↦
        rw other
          (add_compact_named rest (written index name page) i small (ground arith) (ground arith))
  ]

  compact_indices-separate : separate compact_indices ≡ true
  compact_indices-separate = refl

  -- After initialisation the table is in its starting state, every compact index leads to its
  -- kernel class, and 256 places further to that class's metaclass.
  pub initialize-class_at :
      (i : ℕ)
      → i < 256
      → names_index i compact_indices ≡ true
      → IsClassTable (initialize image)
        × (class_at (initialize image) i ≡ image.kernel_class (name_of i compact_indices))
        × (class_at (initialize image) (256 + i)
            ≡ image.kernel_metaclass (name_of i compact_indices))
  unfolding initialize class_at
  initialize-class_at i small named =
      let (c, m) =
        add_compact_named compact_indices (λ p e. image.nil) i small compact_indices-separate
          named in
      let p : i / 2 ^ 12 ≡ 0 = omega arith in
      let e : i % 1024 ≡ i = omega arith in
      let p' : (256 + i) / 2 ^ 12 ≡ 0 = omega arith in
      let e' : (256 + i) % 1024 ≡ 256 + i = omega arith in
      rw (p, e, p', e') (record { based = refl; one_page = omega arith }, c, m)
