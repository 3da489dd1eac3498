-- ===== src/Sends/Contexts/Returning.antt =====
-- The context and its frame when the primitive returns.
use slvm_native.Common.{
  ℕ, ◌+◌, ◌*◌, ◌/◌, ◌^◌, ◌≤◌, ◌<◌, ◌≡◌, ◌≢◌, inl, inr, refl, sym, subst, ◌∙◌, ap, arith, ok,
}
use slvm_native.Common.Words.{sub_word}
use slvm_native.Oop.{encode_small_integer, encode_aligned_pointer, decode_aligned_pointer}
use slvm_native.Memory.{align_word}
use slvm_native.ObjectModel.{ObjectMemory, write_word, basic_size, first_native_data_pointer}
use slvm_native.ObjectModel.Making.{IsMemory}
use slvm_native.ObjectModel.Mixed.{IsMixedInstance}
use slvm_native.Collections.Dictionary.Making.{end_of}
use slvm_native.Sends.{Activation, to_sender, copy_words}
use slvm_native.Sends.Frames.{write_word_same, write_word_other, copy_words_lem}
use slvm_native.Sends.Contexts.{context_fields}
use slvm_native.Sends.Contexts.Fields.{
  HasFields, context_fields-HasFields, LeavesTo, native_pointer_kept, size_kept, HasArguments,
  copied-HasArguments,
}

-- The words of the context of a frame with its header at `h`, of `a` arguments, `b` temporaries and
-- `n` native bytes of arguments and `z` of temporaries: nil in the temporaries that are oops, and
-- zero in the words behind the native arguments.
pub record HasContext (nil : ℕ) (w : ℕ → ℕ) (h a b n z context : ℕ) (f : ℕ → ℕ) : Type 0 where
  pub sender : decode_aligned_pointer (f (context + 8)) ≡ h + 40
  pub pc : f (context + 16) ≡ encode_aligned_pointer (w (h + 40))
  pub stackp : f (context + 24) ≡ nil
  pub method : f (context + 32) ≡ w (h + 32)
  pub closure_or_nil : f (context + 40) ≡ nil
  pub receiver : f (context + 48) ≡ w (h + 56)
  pub arguments : f (context + 56) ≡ encode_small_integer (w (h + 16))
  pub temporaries : f (context + 64) ≡ encode_small_integer (w (h + 8))
  pub oops : (i : ℕ) → i < a → f (context + 72 + 8 * i) ≡ w (h + 64 + 8 * i)
  pub empty : (i : ℕ) → i < b → f (context + 72 + (a + i) * 8) ≡ nil
  pub natives :
      (i : ℕ) → i < n / 8 → f (context + 72 + (a + b) * 8 + 8 * i) ≡ w (h + 64 + a * 8 + 8 * i)
  pub zeros :
      (i : ℕ) → (n + 7) / 8 ≤ i → i < (n + z + 7) / 8 → f (context + 72 + (a + b) * 8 + 8 * i) ≡ 0

-- The frame is married to its context.
pub record IsMarried (nil : ℕ) (m : ObjectMemory) (class_oop sp h a b n z : ℕ)
    (r : Activation × ObjectMemory) : Type 0 where
  pub context : ℕ
  pub leaves : r.0 ≡ to_sender (sp + 16) context
  pub frame_pointer : r.1.words (sp + 16) ≡ m.words sp
  pub return_pointer : r.1.words (sp + 24) ≡ m.words (sp + 8)
  pub this_context : r.1.words (h + 24) ≡ context
  pub fresh : end_of m + 8 ≤ context
  pub memory : IsMemory r.1
  pub class_is : (r.1.headers context).class_index ≡ (m.headers class_oop).identity_hash
  pub size_is : basic_size r.1 context ≡ (8 + a + b) * 8 + (n + z)
  pub holds : HasContext nil m.words h a b n z context r.1.words
  pub old_words :
      (x : ℕ) → x < end_of m → x ≢ h + 24 → x ≢ sp + 16 → x ≢ sp + 24 → r.1.words x ≡ m.words x
  pub old_headers : (o : ℕ) → o ≢ context → r.1.headers o ≡ m.headers o

pub aligned_return : align_word (1 * 8) 16 ≡ 16
unfolding align_word
aligned_return = refl

pub decode_encoded :
    (p : ℕ) → p + 1 < 2 ^ 64 → decode_aligned_pointer (encode_aligned_pointer p) ≡ p
unfolding decode_aligned_pointer encode_aligned_pointer
decode_encoded p room = omega arith

module _ (nil : ℕ) (m : ObjectMemory) (class_oop sp h a b n z : ℕ) (behind : sp + 32 ≤ h)
    (front : h + 64 + a * 8 + n ≤ end_of m) (r : ℕ × ObjectMemory)
    (new : IsMixedInstance m class_oop nil (8 + (a + b)) (n + z) r)
    (room : end_of m + (a + b) * 8 + n + 200 < 2 ^ 64) where
  abbrev pub fields : ℕ → ℕ
  fields = context_fields r.0 (h + 40) h r.1.words

  abbrev pub copied : ℕ → ℕ
  copied = copy_words fields (r.0 + 72) (h + 64) a

  abbrev pub finished : ℕ → ℕ
  finished = copy_words copied (r.0 + 72 + (a + b) * 8) (h + 64 + a * 8) (n / 8)

  abbrev pub with_context : ObjectMemory
  with_context = record (r.1) { words = write_word finished (h + 24) r.0 }

  has_fields : HasFields r.1.words fields r.0 h
  has_fields =
      context_fields-HasFields r.1.words r.0 h (omega (arith, new.above)) (omega (arith, new.near))

  has_arguments : HasArguments fields finished r.0 h a b (n / 8)
  has_arguments =
      copied-HasArguments fields r.0 h a b (n / 8) (omega (arith, new.above))
        (omega (arith, new.near))

  copied_before : copied (sub_word r.0 8) ≡ r.1.words (sub_word r.0 8)
  copied_before =
      (copy_words_lem a fields (r.0 + 72) (h + 64) (omega (arith, new.near)) (omega arith)
          (inr (omega (arith, new.above)))).1
        (sub_word r.0 8) (inl (omega (arith, new.above, new.near)))
      ∙ has_fields.others (sub_word r.0 8) (inl (omega (arith, new.above, new.near)))

  pub native_data :
      first_native_data_pointer (record (r.1) { words = copied }) r.0 ≡ ok (r.0 + 72 + (a + b) * 8)
  native_data =
      native_pointer_kept r.1 copied r.0 copied_before
      ∙ new.bytes_are
      ∙ ap (λ x. ok x) (omega arith)

  kept_words : (x : ℕ) → x < end_of m → fields x ≡ m.words x
  kept_words x l = has_fields.others x (inl (omega (arith, new.above))) ∙ new.old_words x l

  module _ (ret : Activation × ObjectMemory)
      (back : LeavesTo with_context sp (sp + 16) r.0 ret) where
    -- The words when the primitive returns.
    returned_words : (x : ℕ) → x ≢ h + 24 → x ≢ sp + 16 → x ≢ sp + 24 → ret.1.words x ≡ finished x
    returned_words x p q s =
        back.others x q (omega arith) ∙ write_word_other finished (h + 24) r.0 x p

    returned_field : (x : ℕ) → h + 24 < x → x < r.0 + 72 → ret.1.words x ≡ fields x
    returned_field x l u =
        returned_words x (omega arith) (omega arith) (omega arith) ∙ has_arguments.fields x u

    returned_slot : (x i : ℕ) → i < 8 → x ≡ r.0 + 8 + i * 8 → r.1.words x ≡ nil
    returned_slot x i l e = ap r.1.words e ∙ new.oops_are i (omega arith)

    returned_argument : (x : ℕ) → r.0 ≤ x → ret.1.words x ≡ finished x
    returned_argument x l =
        returned_words x (omega (arith, new.above)) (omega (arith, new.above))
          (omega (arith, new.above))

    returned-HasContext : HasContext nil m.words h a b n z r.0 ret.1.words
    returned-HasContext =
        let c = r.0 in
        let field : (i : ℕ) → i < 72 → 1 ≤ i → ret.1.words (c + i) ≡ fields (c + i) =
          λ i l u. returned_field (c + i) (omega (arith, new.above)) (omega arith) in
        record {
          sender =
              ap decode_aligned_pointer (field 8 (omega arith) (omega arith) ∙ has_fields.sender)
              ∙ decode_encoded (h + 40) (omega arith);
          pc =
              field 16 (omega arith) (omega arith)
              ∙ has_fields.pc
              ∙ ap encode_aligned_pointer (new.old_words (h + 40) (omega arith));
          stackp =
              field 24 (omega arith) (omega arith)
              ∙ has_fields.stackp
              ∙ returned_slot (c + 24) 2 (omega arith) (omega arith);
          method =
              field 32 (omega arith) (omega arith)
              ∙ has_fields.method
              ∙ new.old_words (h + 32) (omega arith);
          closure_or_nil =
              field 40 (omega arith) (omega arith)
              ∙ has_fields.closure_or_nil
              ∙ returned_slot (c + 40) 4 (omega arith) (omega arith);
          receiver =
              field 48 (omega arith) (omega arith)
              ∙ has_fields.receiver
              ∙ new.old_words (h + 56) (omega arith);
          arguments =
              field 56 (omega arith) (omega arith)
              ∙ has_fields.arguments
              ∙ ap encode_small_integer (new.old_words (h + 16) (omega arith));
          temporaries =
              field 64 (omega arith) (omega arith)
              ∙ has_fields.temporaries
              ∙ ap encode_small_integer (new.old_words (h + 8) (omega arith));
          oops = λ i l.
              returned_argument (c + 72 + 8 * i) (omega arith)
              ∙ has_arguments.oops i l
              ∙ kept_words (h + 64 + 8 * i) (omega arith);
          empty = λ i l.
              returned_argument (c + 72 + (a + i) * 8) (omega arith)
              ∙ has_arguments.temporaries i l
              ∙ has_fields.others (c + 72 + (a + i) * 8) (inr (omega arith))
              ∙ ap r.1.words (omega arith)
              ∙ new.oops_are (8 + (a + i)) (omega arith);
          natives = λ i l.
              returned_argument (c + 72 + (a + b) * 8 + 8 * i) (omega arith)
              ∙ has_arguments.natives i l
              ∙ kept_words (h + 64 + a * 8 + 8 * i) (omega arith);
          zeros = λ i l u.
              returned_argument (c + 72 + (a + b) * 8 + 8 * i) (omega arith)
              ∙ has_arguments.behind (c + 72 + (a + b) * 8 + 8 * i) (omega arith)
              ∙ has_fields.others (c + 72 + (a + b) * 8 + 8 * i) (inr (omega arith))
              ∙ ap r.1.words (omega arith)
              ∙ new.zeros i u;
        }

    -- What the object model reads in front of the context.
    returned_before : ret.1.words (sub_word r.0 8) ≡ r.1.words (sub_word r.0 8)
    returned_before =
        returned_field (sub_word r.0 8) (omega (arith, new.above, new.near))
          (omega (arith, new.above, new.near))
        ∙ has_fields.others (sub_word r.0 8) (inl (omega (arith, new.above, new.near)))

    pub returned-IsMarried : IsMarried nil m class_oop sp h a b n z ret
    returned-IsMarried = record {
      context = r.0;
      leaves = back.leaves;
      frame_pointer =
          back.frame_pointer
          ∙ write_word_other finished (h + 24) r.0 sp (omega arith)
          ∙ has_arguments.fields sp (omega (arith, new.above))
          ∙ kept_words sp (omega arith);
      return_pointer =
          ap ret.1.words (omega arith)
          ∙ back.return_pointer
          ∙ write_word_other finished (h + 24) r.0 (sp + 8) (omega arith)
          ∙ has_arguments.fields (sp + 8) (omega (arith, new.above))
          ∙ kept_words (sp + 8) (omega arith);
      this_context =
          back.others (h + 24) (omega arith) (omega arith)
          ∙ write_word_same finished (h + 24) r.0 (h + 24) refl;
      fresh = new.above;
      memory =
          subst IsMemory (sym back.same)
            (record { heap = new.memory.heap; requested = new.memory.requested });
      class_is = ap (λ q. (q.headers r.0).class_index) back.same ∙ new.class_is;
      size_is =
          ap (λ q. basic_size q r.0) back.same
          ∙ size_kept r.1 ret.1.words r.0 returned_before
          ∙ new.size_is
          ∙ omega arith;
      holds = returned-HasContext;
      old_words = λ x l p q s.
          returned_words x p q s
          ∙ has_arguments.fields x (omega (arith, new.above))
          ∙ kept_words x l;
      old_headers = λ o other. ap (λ q. q.headers o) back.same ∙ new.old_headers o other;
    }
