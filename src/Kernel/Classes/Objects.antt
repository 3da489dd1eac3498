-- ===== src/Kernel/Classes/Objects.antt =====
-- New objects of a kernel class, in front of which nothing changes.
use slvm_native.Common.{ℕ, ◌+◌, ◌*◌, ◌^◌, ◌<◌, ◌≡◌, inl, true, arith, ok, bind_ok}
use slvm_native.Oop.{oop_is_pointers}
use slvm_native.ObjectModel.{ObjectMemory}
use slvm_native.ObjectModel.Making.{IsMemory}
use slvm_native.ObjectModel.Instances.{basic_new-IsInstance}
use slvm_native.Collections.Dictionary.Making.{end_of, Follows, MakesObjects}
use slvm_native.Kernel.{Kernel}
use slvm_native.Kernel.Classes.{KernelClasses, new_object}

-- A new instance of a behavior behind everything in memory.
pub record IsObject (m : ObjectMemory) (behavior slots oop : ℕ) (made : ObjectMemory) : Type 0 where
  pub follows : Follows m made oop slots
  pub pointer : oop_is_pointers oop ≡ true
  pub class_is : (made.headers oop).class_index ≡ (m.headers behavior).identity_hash

module _ (c : KernelClasses) where
  pub new_object-IsObject :
      (k : Kernel) (behavior slots : ℕ)
      → IsMemory k.memory
      → MakesObjects c.nil k.behaviors k.memory behavior slots
      → end_of k.memory + slots * 8 + 6000 < 2 ^ 64
      → (oop : ℕ) × (made : ObjectMemory) × (new_object c behavior k
          ≡ ok (oop, record k { memory = made }))
        × IsObject k.memory behavior slots oop made
  unfolding new_object
  new_object-IsObject k behavior slots is makes room =
      let ((oop, made), run, new) =
        basic_new-IsInstance c.nil k.behaviors k.memory behavior 1 slots 0 is makes.real
          (inl makes.in_front) makes.format makes.fixed (inl (omega arith)) (omega arith) in
      (
        oop,
        made,
        bind_ok _ run,
        record {
          follows = record {
            memory = record { heap = new.memory.heap; requested = new.memory.requested };
            above = new.above;
            near = new.near;
            ends = omega (arith, new.ends);
            old_words = new.old_words;
            old_headers = new.old_headers;
          };
          pointer = new.pointer;
          class_is = new.class_is;
        },
      )
