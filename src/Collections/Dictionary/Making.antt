-- ===== src/Collections/Dictionary/Making.antt =====
-- slvm_Association_makeWithClass: a new association behind everything in memory.
use slvm_native.Common.{
  ℕ, ◌+◌, ◌*◌, ◌^◌, ◌≤◌, ◌<◌, ◌≡◌, ◌≢◌, inl, refl, Bool, arith, Returns, Returns_bind, ne→==,
  ==_refl,
}
use slvm_native.Common.Words.{add_word}
use slvm_native.ObjectModel.{ObjectMemory, Behavior, decode_format, decode_fixed_size}
use slvm_native.ObjectModel.Making.{IsMemory}
use slvm_native.ObjectModel.Instances.{basic_new-IsInstance}
use slvm_native.Collections.Dictionary.{key_of, value_of_association, make_association}

-- The end of the heap, where the next object goes.
abbrev pub end_of : ObjectMemory → ℕ
end_of m = m.heap.start + m.heap.size

-- A memory with one object more, behind the others.
pub record Follows (m made : ObjectMemory) (oop slots : ℕ) : Type 0 where
  pub memory : IsMemory made
  pub above : end_of m + 8 ≤ oop
  pub near : oop < end_of m + 40
  pub ends : oop + 8 + slots * 8 ≡ end_of made
  pub old_words : (x : ℕ) → x < end_of m → made.words x ≡ m.words x
  pub old_headers : (o : ℕ) → o ≢ oop → made.headers o ≡ m.headers o

-- A class of fixed slots, at an address in front of the end of the heap.
pub record MakesObjects (nil : ℕ) (behaviors : ℕ → Behavior) (m : ObjectMemory)
    (class_oop slots : ℕ) : Type 0 where
  pub real : class_oop ≢ nil
  pub in_front : class_oop < end_of m
  pub format : decode_format (behaviors class_oop).format ≡ 1
  pub fixed : decode_fixed_size (behaviors class_oop).format ≡ slots

-- A new association.
pub record IsAssociation (m : ObjectMemory) (key value : ℕ) (r : ℕ × ObjectMemory) : Type 0 where
  pub follows : Follows m r.1 r.0 2
  pub keyed : key_of r.1.words r.0 ≡ key
  pub valued : value_of_association r.1.words r.0 ≡ value

module _ (nil : ℕ) (hash : ℕ → ℕ) (equal : ℕ → ℕ → Bool) (behaviors : ℕ → Behavior)
    (association_class : ℕ) (m : ObjectMemory) (key value : ℕ) where
  pub make_association-IsAssociation :
      IsMemory m
      → MakesObjects nil behaviors m association_class 2
      → end_of m + 6100 < 2 ^ 64
      → Returns
          (make_association nil hash equal behaviors association_class m key value)
          (IsAssociation m key value)
  unfolding make_association
  make_association-IsAssociation is pairs room =
      Returns_bind _
        (basic_new-IsInstance nil behaviors m association_class 1 2 0 is pairs.real
          (inl pairs.in_front) pairs.format pairs.fixed (inl (omega arith)) (omega arith))
        λ (oop, made) new.
          let first : add_word oop 8 ≡ oop + 8 = omega (arith, new.near) in
          let second : add_word oop 16 ≡ oop + 16 = omega (arith, new.near) in
          (
            _,
            refl,
            record {
              follows = record {
                memory = record { heap = new.memory.heap; requested = new.memory.requested };
                above = new.above;
                near = new.near;
                ends = new.ends;
                old_words = λ x h.
                    rw
                      (
                        first,
                        second,
                        ne→== x (oop + 8) (omega (arith, new.above)),
                        ne→== x (oop + 16) (omega (arith, new.above)),
                      )
                      (new.old_words x h);
                old_headers = new.old_headers;
              };
              keyed =
                  rw (first, second, ne→== (oop + 8) (oop + 16) (omega arith), ==_refl (oop + 8));
              valued = rw (second, ==_refl (oop + 16));
            },
          )
