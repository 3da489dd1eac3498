-- ===== src/Kernel/Classes/Loading.antt =====
-- What a package does when it is loaded: it makes a class and registers a method for it.
use slvm_native.Common.{
  ℕ, suc, ◌+◌, ◌*◌, ◌^◌, ◌≤◌, ◌<◌, ◌≡◌, ◌≢◌, inr, Bool, false, refl, ap, ◌∙◌, ◌==◌, if◌then◌else◌,
  arith, List, [], ◌∷◌, length, none, ok, ◌>>=◌, bind_ok, Returns, Returns_bind, ne→==, ==_refl,
}
use slvm_native.Oop.{oop_is_immediate}
use slvm_native.ObjectModel.{decode_format, decode_fixed_size}
use slvm_native.Magnitude.{Booleans}
use slvm_native.Collections.IdentityDictionary.Reading.{identity_search}
use slvm_native.Collections.Dictionary.Making.{end_of, MakesObjects}
use slvm_native.Lookup.{World, lookup}
use slvm_native.Lookup.Lineage.{Lineage, AllHaveMethods}
use slvm_native.Lookup.Later.{AllInFront, AgreesInFront}
use slvm_native.Lookup.Carrying.{SelectorsInFront, Lineage-agreed, AllHaveMethods-agreed}
use slvm_native.Lookup.Registration.{AllApart, lookup-at_put}
use slvm_native.Kernel.{
  Kernel, metaclass_index, world_of, globals_at_or_nil, install_method, register_method,
}
use slvm_native.Kernel.Registration.{register_method_found}
use slvm_native.Kernel.Classes.{KernelClasses, Description, subclass_with_some_names}
use slvm_native.Kernel.Classes.Making.{CanMakeClasses}
use slvm_native.Kernel.Classes.Naming.{HasGlobals}
use slvm_native.Kernel.Classes.Inheriting.{IsSubclassed}
use slvm_native.Kernel.Classes.Subclassing.{subclass_with_some_names-IsSubclassed}

-- The class `r.0` has its method, and inherits all others.
pub record IsLoaded (nil : ℕ) (b : Booleans) (k : Kernel) (superclass fuel selector method : ℕ)
    (r : ℕ × (ℕ × Kernel)) : Type 0 where
  pub answer : r.1.0 ≡ b.true_oop
  pub own : lookup nil (suc fuel) (world_of r.1.1) r.0 selector ≡ ok method
  pub inherits :
      (q : ℕ)
      → selector ≢ q
      → q < end_of k.memory
      → lookup nil (suc fuel) (world_of r.1.1) r.0 q ≡ lookup nil fuel (world_of k) superclass q
  pub others :
      (q current : ℕ) (ys : List ℕ)
      → q < end_of k.memory
      → Lineage nil (world_of k) current ys
      → AllInFront (world_of k) (end_of k.memory) ys
      → SelectorsInFront nil (world_of k) (end_of k.memory) ys
      → AllHaveMethods nil (world_of k) ys
      → length ys < suc fuel
      → lookup nil (suc fuel) (world_of r.1.1) current q
        ≡ lookup nil (suc fuel) (world_of k) current q

-- A dictionary behind an address is that of no behavior whose dictionary stands in front of it.
AllInFront-apart :
    (w w' : World) (e a : ℕ)
    → AgreesInFront e w w'
    → e ≤ a
    → (ys : List ℕ) → AllInFront w e ys
    → AllApart w' a ys
AllInFront-apart w w' e a agree behind [] front = tt
AllInFront-apart w w' e a agree behind (y ∷ ys) (low, dict, front) =
    (rw (agree.behaviors y low) (omega arith), AllInFront-apart w w' e a agree behind ys front)

module _ (c : KernelClasses) (k : Kernel) (b : Booleans)
    (superclass name fuel selector method class_side : ℕ) (xs : List ℕ)
    (kind : (k.memory.headers c.metaclass_class).identity_hash ≡ metaclass_index)
    (line : Lineage c.nil (world_of k) superclass xs)
    (front : AllInFront (world_of k) (end_of k.memory) xs)
    (keys : SelectorsInFront c.nil (world_of k) (end_of k.memory) xs)
    (all : AllHaveMethods c.nil (world_of k) xs) (enough : length xs < fuel)
    (side : class_side ≢ b.true_oop) (key : selector ≢ c.nil) (value : method ≢ c.nil) where
  -- A method for a class that is new.
  registered-IsLoaded :
      (r : ℕ × Kernel)
      → IsSubclassed c k superclass name r
      → Returns
          (register_method c.nil b r.1 method selector name class_side)
          λ t. IsLoaded c.nil b k superclass fuel selector method (r.0, t)
  unfolding install_method
  registered-IsLoaded r s =
      let w = world_of r.1 in
      let (ready, slots, nothing) = s.starts.empty r.1.memory.headers in
      let own_line : Lineage c.nil w r.0 (r.0 ∷ xs) = (
        refl,
        s.real,
        rw (s.starts.its_superclass)
            (Lineage-agreed c.nil (world_of k) w (end_of k.memory) s.old superclass xs line front),
      ) in
      let own_all : AllHaveMethods c.nil w (r.0 ∷ xs) = (
        inr (s.starts.real, s.starts.kind, ready.valid),
        AllHaveMethods-agreed c.nil (world_of k) w (end_of k.memory) s.old xs front keys all,
      ) in
      let (d, run, (found, installed)) =
        lookup-at_put c.nil w (suc fuel) r.0 xs selector method own_line own_all (omega arith)
          s.starts.real ready (omega (arith, slots)) key value in
      (
        (
          b.true_oop,
          record (r.1) {
            dictionaries =
                λ o. if o == (r.1.behaviors r.0).method_dict then d else r.1.dictionaries o;
          },
        ),
        register_method_found c.nil b r.1 method selector name class_side r.0
              (s.named name ∙ rw (==_refl name) refl) s.real
              (ap (λ o. (r.1.memory.headers o).class_index) s.class_is ∙ s.meta_kind ∙ kind)
            ∙ rw (ne→== class_side b.true_oop side) (bind_ok _ (bind_ok _ run)),
        record {
          answer = refl;
          own = found;
          inherits = λ q other here.
              installed.others q r.0 (r.0 ∷ xs) other own_line own_all (omega arith)
              ∙ s.inherits fuel q xs line front here;
          others = λ q current ys here line' front' keys' all' enough'.
              installed.elsewhere q current ys
                (AllInFront-apart (world_of k) w (end_of k.memory) _ s.old s.fresh ys front')
                (Lineage-agreed c.nil (world_of k) w (end_of k.memory) s.old current ys line'
                  front')
                (AllHaveMethods-agreed c.nil (world_of k) w (end_of k.memory) s.old ys front' keys'
                  all')
                enough'
              ∙ s.others (suc fuel) current q ys line' front' here;
        },
      )

  -- A class of fixed slots, 14 or more, without class variables, under a name that the globals do
  -- not have, for a superclass that they name, and then a method, not nil, for its instances: under
  -- the conditions of the creation of classes, when the lineage of the superclass has well-formed
  -- dictionaries whose selectors stand in front of the end of the heap, both calls return, and the
  -- registration answers true. Lookup of the method's selector from the class finds the method; for
  -- every other selector in front of the end of the heap it finds what lookup from the superclass
  -- found; and under every selector in front of the end of the heap, the method's own included,
  -- lookup from any behavior with such a lineage, all of it and its dictionaries in front of the
  -- end of the heap, finds what it found before.
  pub load_class-IsLoaded :
      (hash : ℕ → ℕ) (equals : ℕ → ℕ → Bool) (rounds super_class_name slots : ℕ) (d : Description)
      → CanMakeClasses c k
      → HasGlobals c.nil k
      → MakesObjects c.nil k.behaviors k.memory c.association_class 2
      → MakesObjects c.nil k.behaviors k.memory c.dictionary_class 2
      → decode_format d.meta_format ≡ 1
      → decode_fixed_size d.meta_format ≡ slots
      → 14 ≤ slots
      → d.class_variable_associations ≡ c.nil
      → identity_search c.nil k.memory.headers k.memory.words k.globals name ≡ none
      → globals_at_or_nil c.nil k super_class_name ≡ ok superclass
      → superclass ≢ c.nil
      → oop_is_immediate superclass ≡ false
      → name < end_of k.memory
      → end_of k.memory + slots * 8 + 7500 < 2 ^ 64
      → Returns
          (subclass_with_some_names c hash equals (suc rounds) super_class_name name d k >>= λ r.
            register_method c.nil b r.1 method selector name class_side >>= λ t. ok (r.0, t))
          (IsLoaded c.nil b k superclass fuel selector method)
  load_class-IsLoaded hash equals rounds super_class_name slots d can has associations pools format
        fixed wide plain fresh known real pointer low room =
      Returns_bind _
        (subclass_with_some_names-IsSubclassed c k hash equals rounds super_class_name name
          superclass slots d can has associations pools format fixed wide plain fresh known real
          pointer low room)
        λ r s. Returns_bind _ (registered-IsLoaded r s) λ t loaded. ((r.0, t), refl, loaded)
