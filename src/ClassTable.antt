-- ===== src/ClassTable.antt =====
-- The class table of src/spur/objectmodel.c with the compact class indices of
-- include/slvm/classes/compactIndices.inc: registration of behaviors, and the class of an oop.
pub mod Initial
pub mod Register
pub mod Overwriting
use slvm_native.Common.{
  ℕ, ◌+◌, ◌*◌, ◌/◌, ◌%◌, ◌^◌, Bool, ◌==◌, ◌&&◌, ltb, if◌then◌else◌, List, [], ◌∷◌,
}
use slvm_native.Oop.{ObjectHeader, class_index_from_oop}

-- `COMPACT_CLASS_INDEX` and its alias: the index, and the index by which the class is known in
-- `SLVM_KernelClassIndex`.
abbrev pub compact_indices : List (ℕ × ℕ)
compact_indices =
    (1, 1)
    ∷ (2, 2)
    ∷ (3, 1)
    ∷ (4, 4)
    ∷ (32, 32)
    ∷ (33, 33)
    ∷ (34, 34)
    ∷ (35, 35)
    ∷ (36, 36)
    ∷ (37, 37)
    ∷ (48, 48)
    ∷ (49, 49)
    ∷ (50, 50)
    ∷ (51, 51)
    ∷ (52, 52)
    ∷ (53, 53)
    ∷ (54, 54)
    ∷ (128, 128)
    ∷ (129, 129)
    ∷ (130, 130)
    ∷ (131, 131)
    ∷ (132, 132)
    ∷ (133, 133)
    ∷ (134, 134)
    ∷ (150, 150)
    ∷ (151, 151)
    ∷ (152, 152)
    ∷ (153, 153)
    ∷ (154, 154)
    ∷ (155, 155)
    ∷ (156, 156)
    ∷ (157, 157)
    ∷ (158, 158)
    ∷ (159, 159)
    ∷ (160, 160)
    ∷ (161, 161)
    ∷ (162, 162)
    ∷ (163, 163)
    ∷ (164, 164)
    ∷ (165, 165)
    ∷ (166, 166)
    ∷ (167, 167)
    ∷ (168, 168)
    ∷ (169, 169)
    ∷ (170, 170)
    ∷ (171, 171)
    ∷ (172, 172)
    ∷ (173, 173)
    ∷ (174, 174)
    ∷ (175, 175)
    ∷ (176, 176)
    ∷ (177, 177)
    ∷ (178, 178)
    ∷ (179, 179)
    ∷ (180, 180)
    ∷ (181, 181)
    ∷ (182, 182)
    ∷ (183, 183)
    ∷ (184, 184)
    ∷ (185, 185)
    ∷ (186, 186)
    ∷ (187, 187)
    ∷ (188, 188)
    ∷ (189, 189)
    ∷ (190, 190)
    ∷ (191, 191)
    ∷ (192, 192)
    ∷ (193, 193)
    ∷ (194, 194)
    ∷ (195, 195)
    ∷ (196, 196)
    ∷ (197, 197)
    ∷ []

-- The table and its counters: `page k` is `slvm_classTable[k]`, which is there below `page_count`.
pub record ClassTable : Type 0 where
  pub page : ℕ → ℕ → ℕ
  pub page_count : ℕ
  pub base_size : ℕ
  pub size : ℕ

-- `table[p][e] = value`
unfoldable pub write_element : (ℕ → ℕ → ℕ) → ℕ → ℕ → ℕ → ℕ → ℕ → ℕ
write_element page p e value q f = if (q == p) && (f == e) then value else page q f

-- The addresses that the linker gives to the kernel's objects: nil, and for each index of
-- `SLVM_KernelClassIndex` the class and the metaclass.
pub record Image : Type 0 where
  pub nil : ℕ
  pub kernel_class : ℕ → ℕ
  pub kernel_metaclass : ℕ → ℕ

module _ (image : Image) where
  -- The writes of `slvm_spur_initialize`, one pair for each compact index.
  unfoldable pub add_compact : List (ℕ × ℕ) → (ℕ → ℕ → ℕ) → ℕ → ℕ → ℕ
  add_compact [] page = page
  add_compact ((index, name) ∷ rest) page = add_compact rest (
      write_element (write_element page 0 index (image.kernel_class name)) 0 (256 + index)
        (image.kernel_metaclass name))

  -- `slvm_spur_initialize`, but for the heaps.
  unfoldable pub initialize : ClassTable
  initialize = record {
    page = add_compact compact_indices (λ p e. image.nil);
    page_count = 1;
    base_size = 512;
    size = 0;
  }

  -- A page that is not there yet, filled with nil.
  unfoldable pub add_page : ClassTable → ℕ → ClassTable
  add_page t page_index = record t {
    page = λ q f. if q == page_index then image.nil else t.page q f;
    page_count = t.page_count + 1;
  }

  -- `slvm_objectmodel_registerBehavior`: the table and the headers. The class index is stored in
  -- a field of 22 bits.
  unfoldable pub register_behavior :
      ℕ → ClassTable → (ℕ → ObjectHeader) → ClassTable × (ℕ → ObjectHeader)
  register_behavior behavior t headers =
      let class_index = (t.base_size + t.size) % 2 ^ 32 in
      let page_index = class_index / 2 ^ 12 in
      let element_index = class_index % 1024 in
      let there = if ltb page_index t.page_count then t else add_page t page_index in
      (
        record there {
          page = write_element there.page page_index element_index behavior;
          size = t.size + 1;
        },
        λ oop.
            if oop == behavior
            then record (headers behavior) { identity_hash = class_index % 2 ^ 22 }
            else headers oop,
      )

-- `slvm_classTable[index >> 12][index & 1023]`
unfoldable pub class_at : ClassTable → ℕ → ℕ
class_at t class_index = t.page (class_index / 2 ^ 12) (class_index % 1024)

-- `slvm_getClassFromOop`
unfoldable pub class_from_oop : ClassTable → (ℕ → ObjectHeader) → ℕ → ℕ
unfolding class_at
class_from_oop t headers oop = class_at t (class_index_from_oop headers oop)
