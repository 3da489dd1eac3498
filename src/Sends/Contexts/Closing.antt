-- ===== src/Sends/Contexts/Closing.antt =====
-- New closures, slvm_dynrun_primitive_createFullBlockClosure.
use slvm_native.Common.{
  ℕ, ◌+◌, ◌*◌, ◌%◌, ◌^◌, ◌≤◌, ◌<◌, ◌≡◌, ◌≢◌, ◌⊎◌, inl, inr, refl, sym, subst, ◌∙◌, ap, arith,
  Returns, Returns_bind,
}
use slvm_native.Common.Words.{add_word}
use slvm_native.Memory.{align_word}
use slvm_native.ObjectModel.{ObjectMemory, Behavior, write_word, decode_format, decode_fixed_size}
use slvm_native.ObjectModel.Making.{IsMemory}
use slvm_native.ObjectModel.Instances.{IsInstance, basic_new-IsInstance}
use slvm_native.Collections.Dictionary.Making.{end_of}
use slvm_native.Sends.{Activation, to_sender}
use slvm_native.Sends.Contexts.{primitive_argument, create_full_block_closure}
use slvm_native.Sends.Contexts.Fields.{LeavesTo, primitive_return-LeavesTo}

-- The fields of a closure at `c` for the method at `q`.
record HasClosure (w f : ℕ → ℕ) (c q outer receiver : ℕ) : Type 0 where
  outer_context : f (c + 8) ≡ outer
  startpc : f (c + 16) ≡ q
  num_args : f (c + 24) ≡ w (q + 24)
  its_receiver : f (c + 32) ≡ receiver
  others : (x : ℕ) → (x < c + 8) ⊎ (c + 40 ≤ x) → f x ≡ w x

closure_fields : (w : ℕ → ℕ) (c q outer receiver : ℕ) → ℕ → ℕ
closure_fields w c q outer receiver =
    let first = write_word w (c + 8) outer in
    write_word (write_word (write_word first (c + 24) (first (q + 24))) (c + 16) q) (c + 32)
      receiver

closure_fields-HasClosure :
    (w : ℕ → ℕ) (c q outer receiver : ℕ)
    → q + 24 < c
    → HasClosure w (closure_fields w c q outer receiver) c q outer receiver
unfolding closure_fields
closure_fields-HasClosure w c q outer receiver front = record {
  outer_context = ground arith;
  startpc = ground arith;
  num_args = ground arith;
  its_receiver = ground arith;
  others = λ x out. ground arith;
}

-- A new closure of the method at `q` with room for `n` copied values.
pub record IsClosure (nil : ℕ) (m : ObjectMemory) (class_oop sp q n : ℕ)
    (r : Activation × ObjectMemory) : Type 0 where
  pub closure : ℕ
  pub leaves : r.0 ≡ to_sender (sp + 32) closure
  pub frame_pointer : r.1.words (sp + 32) ≡ m.words sp
  pub return_pointer : r.1.words (sp + 40) ≡ m.words (sp + 8)
  pub fresh : end_of m + 8 ≤ closure
  pub memory : IsMemory r.1
  pub class_is : (r.1.headers closure).class_index ≡ (m.headers class_oop).identity_hash
  pub outer_context : r.1.words (closure + 8) ≡ primitive_argument m.words sp 0
  pub startpc : r.1.words (closure + 16) ≡ q
  pub num_args : r.1.words (closure + 24) ≡ m.words (q + 24)
  pub receiver : r.1.words (closure + 32) ≡ primitive_argument m.words sp 1
  pub copied : (i : ℕ) → i < n → r.1.words (closure + 40 + i * 8) ≡ nil
  pub old_words : (x : ℕ) → x < end_of m → x ≢ sp + 32 → x ≢ sp + 40 → r.1.words x ≡ m.words x
  pub old_headers : (o : ℕ) → o ≢ closure → r.1.headers o ≡ m.headers o

four_arguments : align_word (4 * 8) 16 ≡ 32
unfolding align_word
four_arguments = refl

module _ (nil : ℕ) (m : ObjectMemory) (class_oop sp q n : ℕ) (behind : sp + 48 ≤ end_of m)
    (method : q + 32 ≤ end_of m) (r : ℕ × ObjectMemory)
    (new : IsInstance m class_oop (4 + n) (4 + n) nil r) where
  abbrev fields : ℕ → ℕ
  fields =
      closure_fields r.1.words r.0 q (primitive_argument m.words sp 0)
        (primitive_argument m.words sp 1)

  closed-IsClosure :
      (ret : Activation × ObjectMemory)
      → LeavesTo (record (r.1) { words = fields }) sp (sp + 32) r.0 ret
      → IsClosure nil m class_oop sp q n ret
  closed-IsClosure ret back =
      let c = r.0 in
      let has =
        closure_fields-HasClosure r.1.words c q (primitive_argument m.words sp 0)
          (primitive_argument m.words sp 1) (omega (arith, new.above)) in
      let read : (x : ℕ) → sp + 40 < x → ret.1.words x ≡ fields x =
        λ x l. back.others x (omega arith) (omega arith) in
      let kept : (x : ℕ) → x < end_of m → fields x ≡ m.words x =
        λ x l. has.others x (inl (omega (arith, new.above))) ∙ new.old_words x l in
      record {
        closure = c;
        leaves = back.leaves;
        frame_pointer = back.frame_pointer ∙ kept sp (omega arith);
        return_pointer =
            ap ret.1.words (omega arith) ∙ back.return_pointer ∙ kept (sp + 8) (omega arith);
        fresh = new.above;
        memory =
            subst IsMemory (sym back.same)
              (record { heap = new.memory.heap; requested = new.memory.requested });
        class_is = ap (λ x. (x.headers c).class_index) back.same ∙ new.class_is;
        outer_context = read (c + 8) (omega (arith, new.above)) ∙ has.outer_context;
        startpc = read (c + 16) (omega (arith, new.above)) ∙ has.startpc;
        num_args =
            read (c + 24) (omega (arith, new.above))
            ∙ has.num_args
            ∙ new.old_words (q + 24) (omega arith);
        receiver = read (c + 32) (omega (arith, new.above)) ∙ has.its_receiver;
        copied = λ i l.
            read (c + 40 + i * 8) (omega (arith, new.above))
            ∙ has.others (c + 40 + i * 8) (inr (omega arith))
            ∙ ap r.1.words (omega arith)
            ∙ new.content_is (4 + i) (omega arith);
        old_words = λ x l p s. back.others x p (λ e. s (e ∙ omega arith)) ∙ kept x l;
        old_headers = λ o other. ap (λ x. x.headers o) back.same ∙ new.old_headers o other;
      }

-- For arguments of the call and a method in front of the end of the heap, with FullBlockClosure in
-- the format of four fixed slots and variables behind, and the heap below 2 ^ 64, the primitive
-- returns: a fresh closure holds the outer context and the receiver that were given, the method and
-- its argument descriptor, and nil in as many slots as the low 32 bits of the last argument say;
-- the sender gets it, with its own frame pointer and return address; and no other word in front of
-- the heap's end has changed.
pub create_full_block_closure-IsClosure :
    (nil : ℕ) (behaviors : ℕ → Behavior) (m : ObjectMemory) (class_oop sp q n : ℕ)
    → IsMemory m
    → class_oop ≢ nil
    → class_oop < end_of m
    → decode_format (behaviors class_oop).format ≡ 3
    → decode_fixed_size (behaviors class_oop).format ≡ 4
    → primitive_argument m.words sp 2 ≡ q
    → primitive_argument m.words sp 3 % 2 ^ 32 ≡ n
    → sp + 48 ≤ end_of m
    → q + 32 ≤ end_of m
    → end_of m + n * 8 + 6100 < 2 ^ 64
    → Returns
        (create_full_block_closure nil behaviors class_oop sp m)
        (IsClosure nil m class_oop sp q n)
unfolding create_full_block_closure closure_fields
create_full_block_closure-IsClosure nil behaviors m class_oop sp q n is real low has_format
      has_fixed code count behind method room =
    let q24 : add_word q 24 ≡ q + 24 = omega arith in
    rw (code, count, q24)
      (Returns_bind _
        (basic_new-IsInstance nil behaviors m class_oop 3 4 n is real (inl low) has_format has_fixed
          (inl (omega arith)) (omega arith))
        λ r new.
          let c8 : add_word r.0 8 ≡ r.0 + 8 = omega (arith, new.near) in
          let c16 : add_word r.0 16 ≡ r.0 + 16 = omega (arith, new.near) in
          let c24 : add_word r.0 24 ≡ r.0 + 24 = omega (arith, new.near) in
          let c32 : add_word r.0 32 ≡ r.0 + 32 = omega (arith, new.near) in
          (
            _,
            rw (c8, c16, c24, c32) refl,
            closed-IsClosure nil m class_oop sp q n behind method r new _ (
                primitive_return-LeavesTo sp 4 32 (sp + 32) r.0 _ four_arguments refl (omega arith)
                  (omega arith)),
          ))
