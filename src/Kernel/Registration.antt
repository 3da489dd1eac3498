-- ===== src/Kernel/Registration.antt =====
-- The registration of a method: slvm_dynrun_registerMethodWithNames, and the sends after it.
use slvm_native.Common.{
  ℕ, ◌+◌, ◌^◌, ◌<◌, ◌≡◌, ◌≢◌, refl, sym, ap, ◌∙◌, ◌==◌, if◌then◌else◌, List, ◌∷◌, length, ok, ◌>>=◌,
  Returns, Returns_eq, bind_ok, ne→==,
}
use slvm_native.Magnitude.{Booleans}
use slvm_native.Collections.MethodDictionary.Insert.{IsReady}
use slvm_native.Lookup.{lookup}
use slvm_native.Lookup.Lineage.{Lineage, AllHaveMethods}
use slvm_native.Lookup.Registration.{IsInstalled, lookup-at_put}
use slvm_native.Sends.{Machine, Runtime}
use slvm_native.Sends.Activating.{activate_method, look_up_and_activate, send_dispatch}
use slvm_native.Sends.Dispatch.{receiver_class, message_at}
use slvm_native.Kernel.{
  Kernel, metaclass_index, world_of, class_of, globals_at_or_nil, install_method, register_method,
}

-- The side of a class that a method is registered in.
abbrev pub side_of : Booleans → Kernel → ℕ → ℕ → ℕ
side_of b k class_oop class_side =
    if class_side == b.true_oop then class_of k class_oop else class_oop

pub register_method_found :
    (nil : ℕ) (b : Booleans) (k : Kernel) (method selector class_name class_side class_oop : ℕ)
    → globals_at_or_nil nil k class_name ≡ ok class_oop
    → class_oop ≢ nil
    → (k.memory.headers (class_of k class_oop)).class_index ≡ metaclass_index
    → register_method nil b k method selector class_name class_side ≡ (
        install_method nil k (side_of b k class_oop class_side) selector method >>= λ installed.
        ok (b.true_oop, installed))
unfolding register_method
register_method_found nil b k method selector class_name class_side class_oop known real kind =
    bind_ok _ known ∙ rw (ne→== class_oop nil real, kind) refl

-- A lookup that finds a method ends in its activation.
send_dispatch_found :
    (t : Runtime) (fuel convention sp behavior selector method : ℕ) (m : Machine)
    → receiver_class m sp ≡ behavior
    → message_at convention sp m ≡ selector
    → behavior ≢ t.nil
    → lookup t.nil fuel m.world behavior selector ≡ ok method
    → send_dispatch t fuel convention sp m ≡ activate_method t convention sp method m
unfolding send_dispatch look_up_and_activate
send_dispatch_found t fuel convention sp behavior selector method m class_is message_is real found =
    ap (λ x. look_up_and_activate t fuel convention sp x m) class_is
    ∙ rw (ne→== behavior t.nil real, message_is) (bind_ok _ found)

-- The methods of the kernel after a registration, seen by sends and by lookup.
pub record Registered (t : Runtime) (b : Booleans) (k : Kernel)
    (fuel convention sp behavior selector method : ℕ) (m : Machine) (r : ℕ × Kernel) : Type 0 where
  pub answer : r.0 ≡ b.true_oop
  pub sent :
      send_dispatch t fuel convention sp (record m { world = world_of r.1 })
      ≡ activate_method t convention sp method (record m { world = world_of r.1 })
  pub installed :
      IsInstalled t.nil
        (world_of k)
        fuel
        (k.behaviors behavior).method_dict
        selector
        method
        (world_of r.1)

-- Registering a method, not nil, under a selector, not nil, for a class that the globals name and
-- whose class is a metaclass: where the lineage of the class, or of the metaclass for the class
-- side, has well-formed dictionaries and its own one is ready and below 2 ^ 58 slots, the call
-- returns true. From then on a send of the selector to an instance of that behavior activates the
-- method. From every behavior with such a lineage, within the fuel, lookup of another selector
-- finds what it found before; where the lineage does not have the dictionary of the first behavior,
-- lookup of every selector finds what it found before; and lookup of the selector finds the first
-- method along the lineage, in which the behaviors with that dictionary have the new method.
pub register_method-Registered :
    (t : Runtime) (b : Booleans) (k : Kernel) (m : Machine)
    (fuel convention sp method selector class_name class_side class_oop x : ℕ) (xs : List ℕ)
    → globals_at_or_nil t.nil k class_name ≡ ok class_oop
    → class_oop ≢ t.nil
    → (k.memory.headers (class_of k class_oop)).class_index ≡ metaclass_index
    → side_of b k class_oop class_side ≡ x
    → Lineage t.nil (world_of k) x (x ∷ xs)
    → AllHaveMethods t.nil (world_of k) (x ∷ xs)
    → length xs + 1 < fuel
    → (k.behaviors x).method_dict ≢ t.nil
    → IsReady t.nil k.memory.headers (k.dictionaries (k.behaviors x).method_dict)
    → length (k.dictionaries (k.behaviors x).method_dict).keys < 2 ^ 58
    → selector ≢ t.nil
    → method ≢ t.nil
    → m.world ≡ world_of k
    → receiver_class m sp ≡ x
    → message_at convention sp m ≡ selector
    → Returns
        (register_method t.nil b k method selector class_name class_side)
        (Registered t b k fuel convention sp x selector method m)
unfolding install_method
register_method-Registered t b k m fuel convention sp method selector class_name class_side
      class_oop x xs known real kind side line all enough dict ready small key value world class_is
      message_is =
    let (d, run, (found, installed)) =
      lookup-at_put t.nil (world_of k) fuel x xs selector method line all enough dict ready small
        key value in
    let same_class = ap (λ w. receiver_class (record m { world = w }) sp) (sym world) ∙ class_is in
    Returns_eq
      (register_method_found t.nil b k method selector class_name class_side class_oop known real
          kind
        ∙ ap
            (λ y.
              install_method t.nil k y selector method >>= λ installed. ok (b.true_oop, installed))
            side
        ∙ bind_ok _ (bind_ok _ run))
      (
        _,
        refl,
        record {
          answer = refl;
          sent =
              send_dispatch_found t fuel convention sp x selector method _ same_class message_is
                line.1 found;
          installed = installed;
        },
      )
