-- ===== src/Sends/Dispatch.antt =====
-- Which method a send activates, and how the activation ends.
use slvm_native.Common.{
  ℕ, zero, suc, ◌+◌, ◌*◌, ◌^◌, ◌<◌, ◌≡◌, ◌≢◌, refl, sym, subst, ◌∙◌, ◌==◌, if◌then◌else◌, arith,
  List, ◌∷◌, length, Outcome, ok, aborted, Returns, bind_ok, ne→==,
}
use slvm_native.Common.Words.{add_word, sub_word}
use slvm_native.ClassTable.{class_from_oop}
use slvm_native.Lookup.Lineage.{Lineage, AllHaveMethods, inherited, lookup-inherited}
use slvm_native.Sends.{
  compiled_method_index, primitive_method_index, cc_cdecl, Machine, Activation, to_method, returns,
  Runtime, metadata, smalltalk_metadata, receiver_at,
}
use slvm_native.Sends.Frames.{PopsFrame, return_to_smalltalk_sender-PopsFrame}
use slvm_native.Sends.Activating.{
  calling_convention, activate_compiled, primitive_context, finish_primitive, activate_primitive,
  activate_method, look_up_and_activate, send_dispatch, supersend_dispatch,
}

-- The class of the receiver of the send at `sp`.
abbrev pub receiver_class : Machine → ℕ → ℕ
receiver_class m sp = class_from_oop m.table m.world.headers (receiver_at m.words sp)

-- The message of the send at `sp`.
abbrev pub message_at : ℕ → ℕ → Machine → ℕ
message_at convention sp m = (metadata convention m.words sp).message

look_up_and_activate-inherited :
    (t : Runtime) (fuel convention sp behavior x : ℕ) (xs : List ℕ) (m : Machine)
    → Lineage t.nil m.world behavior (x ∷ xs)
    → AllHaveMethods t.nil m.world (x ∷ xs)
    → length (x ∷ xs) < fuel
    → look_up_and_activate t fuel convention sp behavior m
      ≡ activate_method t convention sp
          (inherited t.nil m.world (x ∷ xs) (message_at convention sp m))
          m
unfolding look_up_and_activate
look_up_and_activate-inherited t fuel convention sp behavior x xs m line all h =
    let found =
      lookup-inherited t.nil fuel m.world behavior (x ∷ xs) (message_at convention sp m) line all
        h in
    let there : behavior ≢ t.nil = λ e. line.1 (sym line.0 ∙ e) in
    rw (ne→== behavior t.nil there)
      (bind_ok (λ method. activate_method t convention sp method m) found)

-- A send, by either calling convention, to a receiver whose class heads a lineage of behaviors with
-- well-formed dictionaries activates the first method for the message along that lineage, and a
-- super send the first one along the lineage of the behavior that it names; fuel for the behaviors
-- and nil is enough.
pub send_dispatch-inherited :
    (t : Runtime) (fuel convention sp behavior x y : ℕ) (xs ys : List ℕ) (m : Machine)
    → Lineage t.nil m.world (receiver_class m sp) (x ∷ xs)
    → AllHaveMethods t.nil m.world (x ∷ xs)
    → length (x ∷ xs) < fuel
    → Lineage t.nil m.world behavior (y ∷ ys)
    → AllHaveMethods t.nil m.world (y ∷ ys)
    → length (y ∷ ys) < fuel
    → (send_dispatch t fuel convention sp m
        ≡ activate_method t convention sp
            (inherited t.nil m.world (x ∷ xs) (message_at convention sp m))
            m)
      × (supersend_dispatch t fuel convention sp behavior m
          ≡ activate_method t convention sp
              (inherited t.nil m.world (y ∷ ys) (message_at convention sp m))
              m)
unfolding send_dispatch supersend_dispatch
send_dispatch-inherited t fuel convention sp behavior x y xs ys m line all h line' all' h' = (
  look_up_and_activate-inherited t fuel convention sp (receiver_class m sp) x xs m line all h,
  look_up_and_activate-inherited t fuel convention sp behavior y ys m line' all' h',
)

activate_method_compiled :
    (t : Runtime) (convention sp method : ℕ) (m : Machine)
    → method ≢ t.nil
    → (m.world.headers method).class_index ≡ compiled_method_index
    → activate_method t convention sp method m ≡ activate_compiled t convention sp method m
unfolding activate_method
activate_method_compiled t convention sp method m some_method kind =
    rw (ne→== method t.nil some_method, kind) refl

activate_method_primitive :
    (t : Runtime) (convention sp method : ℕ) (m : Machine)
    → method ≢ t.nil
    → (m.world.headers method).class_index ≡ primitive_method_index
    → activate_method t convention sp method m ≡ activate_primitive t convention sp method m
unfolding activate_method
activate_method_primitive t convention sp method m some_method kind =
    rw (ne→== method t.nil some_method, kind) refl

-- Where a method that both sides' convention suits begins to run.
abbrev pub JumpsTo : ℕ → ℕ → ℕ → Machine → Outcome (Activation × Machine) → Type 0
JumpsTo convention sp method m r =
    r
    ≡ ok (
      to_method (if convention == cc_cdecl then sp else add_word sp 16)
          (sub_word (m.compiled method).entry_point 1),
      m,
    )

pub activate_method-JumpsTo :
    (t : Runtime) (convention sp method : ℕ) (m : Machine)
    → method ≢ t.nil
    → (m.world.headers method).class_index ≡ compiled_method_index
    → convention < 2
    → calling_convention (m.compiled method) ≡ convention
    → JumpsTo convention sp method m (activate_method t convention sp method m)
unfolding activate_compiled
activate_method-JumpsTo t zero sp method m some_method kind known same =
    activate_method_compiled t 0 sp method m some_method kind ∙ rw same refl
activate_method-JumpsTo t (suc zero) sp method m some_method kind known same =
    activate_method_compiled t 1 sp method m some_method kind ∙ rw same refl
activate_method-JumpsTo t (suc (suc n)) sp method m some_method kind known same =
    absurd (omega arith)

-- How the activation of a primitive method ends, by the error code and the sender's convention:
-- with a frame return to Smalltalk, or with the result for C, and not at all after an error.
abbrev pub Finishes : ℕ → ℕ → ℕ → ℕ → Machine → Outcome (Activation × Machine) → Type 0
Finishes zero zero sp result after r = Returns r (PopsFrame after sp result)
Finishes zero (suc zero) sp result after r = r ≡ ok (returns result, after)
Finishes zero (suc (suc other)) sp result after r = r ≡ aborted
Finishes (suc error) convention sp result after r = r ≡ aborted

finish_primitive-Finishes :
    (error convention sp result : ℕ) (after : Machine)
    → sp
        + 40
        + (smalltalk_metadata after.words sp).oop_count * 8
        + (smalltalk_metadata after.words sp).native_size
      < 2 ^ 64
    → Finishes error convention sp result after
        (finish_primitive convention sp (error, (returns result, after)))
unfolding finish_primitive
finish_primitive-Finishes zero zero sp result after room =
    return_to_smalltalk_sender-PopsFrame sp result after room
finish_primitive-Finishes zero (suc zero) sp result after room = refl
finish_primitive-Finishes zero (suc (suc other)) sp result after room = ground arith
finish_primitive-Finishes (suc error) convention sp result after room = ground arith

-- The activation of a primitive method calls its function once, with the message's metadata as the
-- context. When that returns without an error and the frame lies below the end of the address
-- space, a Smalltalk sender gets the result through a frame that drops the receiver and all
-- arguments, and a C sender gets it as the value of the call; after an error code, or for another
-- convention, the process stops.
pub activate_method-Finishes :
    (t : Runtime) (error convention sp method result : ℕ) (m after : Machine)
    → method ≢ t.nil
    → (m.world.headers method).class_index ≡ primitive_method_index
    → t.primitive (m.primitive_entry method) (primitive_context convention sp m) m
      ≡ ok (error, (returns result, after))
    → sp
        + 40
        + (smalltalk_metadata after.words sp).oop_count * 8
        + (smalltalk_metadata after.words sp).native_size
      < 2 ^ 64
    → Finishes error convention sp result after (activate_method t convention sp method m)
unfolding activate_primitive
activate_method-Finishes t error convention sp method result m after some_method kind call room =
    let run =
      activate_method_primitive t convention sp method m some_method kind
      ∙ bind_ok (finish_primitive convention sp) call in
    subst (Finishes error convention sp result after) (sym run)
      (finish_primitive-Finishes error convention sp result after room)
