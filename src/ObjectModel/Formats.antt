-- ===== src/ObjectModel/Formats.antt =====
-- The object formats of include/slvm/spur/objectmodel.h, with the sizes that src/spur/objectmodel.c
-- reads from them.
use slvm_native.Common.{ℕ, ◌-◌, Bool, ◌==◌, ◌&&◌, leb, if◌then◌else◌}

abbrev pub of_indexable_64 : ℕ
of_indexable_64 = 9

abbrev pub of_indexable_32 : ℕ
of_indexable_32 = 10

abbrev pub of_indexable_16 : ℕ
of_indexable_16 = 12

abbrev pub of_indexable_8 : ℕ
of_indexable_8 = 16

abbrev pub of_mixed_object : ℕ
of_mixed_object = 24

-- The cases from `first` to `last` of a `switch`.
abbrev within : ℕ → ℕ → ℕ → Bool
within first last format = leb first format && leb format last

-- `slvm_spur_format_multiplier`, where an oop has eight bytes.
unfoldable pub format_multiplier : ℕ → ℕ
format_multiplier format =
    if format == of_indexable_64
    then 1
    else if within 10 11 format
    then 2
    else if within 12 15 format
    then 4
    else if within 16 23 format
    then 8
    else if within 24 31 format
    then 8
    else 1

-- `slvm_spur_formatExtraSize`
unfoldable pub format_extra_size : ℕ → ℕ
format_extra_size format =
    if format == 11
    then 1
    else if within 13 15 format
    then format - 12
    else if within 17 23 format
    then format - 16
    else if within 25 31 format
    then format - 24
    else 0
