-- ===== src/Tests/Loading.antt =====
-- The loading of a class with a method at a concrete input.
use slvm_native.Common.{◌/◌, refl, inl, arith, [], ◌∷◌, ok, ◌>>=◌, Returns}
use slvm_native.Collections.IdentityDictionary.{identical}
use slvm_native.Kernel.{register_method}
use slvm_native.Kernel.Classes.{subclass_with_some_names}
use slvm_native.Kernel.Classes.Loading.{IsLoaded, load_class-IsLoaded}
use slvm_native.Tests.Registrations.{small_booleans}
use slvm_native.Tests.Classes.{
  class_kernel, some_classes, some_description, some_formats, makes_two,
  class_kernel-CanMakeClasses, class_kernel-HasGlobals, new_name, super_name, class_immediate,
}

load_class-IsLoaded_example :
    Returns
      (subclass_with_some_names some_classes
          (λ o. o / 16)
          identical
          2
          5120
          7680
          some_description
          class_kernel
        >>= λ r. register_method 16 small_booleans r.1 5000 4800 7680 48 >>= λ t. ok (r.0, t))
      (IsLoaded 16 small_booleans class_kernel 320 2 4800 5000)
load_class-IsLoaded_example =
    load_class-IsLoaded some_classes class_kernel small_booleans 320 7680 2 4800 5000 48 (320 ∷ [])
      refl (refl, omega arith, refl) (omega arith, omega arith, tt)
      ((λ i real. absurd (real refl)), tt) (inl refl, tt) (omega arith) (omega arith) (omega arith)
      (omega arith) (λ o. o / 16) identical 1 5120 14 some_description class_kernel-CanMakeClasses
      class_kernel-HasGlobals (makes_two 1648 (omega arith) (omega arith) refl)
      (makes_two 1632 (omega arith) (omega arith) refl) some_formats.6 some_formats.7 (omega arith)
      refl new_name super_name (omega arith) class_immediate (omega arith) (omega arith)
