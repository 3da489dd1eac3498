-- ===== src/Sends/Contexts/Fields.antt =====
-- What the runtime primitives write: the fields of a context, copies of arguments, the return frame.
use slvm_native.Common.{ℕ, ◌+◌, ◌*◌, ◌^◌, ◌≤◌, ◌<◌, ◌≡◌, ◌≢◌, ◌⊎◌, inl, inr, refl, ◌∙◌, arith}
use slvm_native.Common.Words.{add_word, sub_word}
use slvm_native.Oop.{encode_small_integer, encode_aligned_pointer}
use slvm_native.Memory.{align_word}
use slvm_native.ObjectModel.{ObjectMemory, basic_size, first_native_data_pointer}
use slvm_native.Sends.{Activation, to_sender, copy_words}
use slvm_native.Sends.Frames.{copy_words_lem}
use slvm_native.Sends.Contexts.{primitive_return, context_fields}

-- The fields of a context at `c` for the frame with the header at `h`.
pub record HasFields (w f : ℕ → ℕ) (c h : ℕ) : Type 0 where
  pub sender : f (c + 8) ≡ encode_aligned_pointer (h + 40)
  pub pc : f (c + 16) ≡ encode_aligned_pointer (w (h + 40))
  pub stackp : f (c + 24) ≡ w (c + 24)
  pub method : f (c + 32) ≡ w (h + 32)
  pub closure_or_nil : f (c + 40) ≡ w (c + 40)
  pub receiver : f (c + 48) ≡ w (h + 56)
  pub arguments : f (c + 56) ≡ encode_small_integer (w (h + 16))
  pub temporaries : f (c + 64) ≡ encode_small_integer (w (h + 8))
  pub others : (x : ℕ) → (x < c + 8) ⊎ (c + 72 ≤ x) → f x ≡ w x

pub context_fields-HasFields :
    (w : ℕ → ℕ) (c h : ℕ)
    → h + 64 ≤ c
    → c + 72 < 2 ^ 64
    → HasFields w (context_fields c (h + 40) h w) c h
unfolding context_fields
context_fields-HasFields w c h front room =
    let c8 : add_word c 8 ≡ c + 8 = omega arith in
    let c16 : add_word c 16 ≡ c + 16 = omega arith in
    let c32 : add_word c 32 ≡ c + 32 = omega arith in
    let c48 : add_word c 48 ≡ c + 48 = omega arith in
    let c56 : add_word c 56 ≡ c + 56 = omega arith in
    let c64 : add_word c 64 ≡ c + 64 = omega arith in
    let h8 : add_word h 8 ≡ h + 8 = omega arith in
    let h16 : add_word h 16 ≡ h + 16 = omega arith in
    let h32 : add_word h 32 ≡ h + 32 = omega arith in
    let h40 : add_word h 40 ≡ h + 40 = omega arith in
    let h56 : add_word h 56 ≡ h + 56 = omega arith in
    rw (c8, c16, c32, c48, c56, c64, h8, h16, h32, h40, h56)
      record {
        sender = ground arith;
        pc = ground arith;
        stackp = ground arith;
        method = ground arith;
        closure_or_nil = ground arith;
        receiver = ground arith;
        arguments = ground arith;
        temporaries = ground arith;
        others = λ x out. ground arith;
      }

-- The return of a runtime primitive: the trampoline finds the sender's frame pointer and return
-- address above the arguments, no other word has changed, and neither has the heap.
pub record LeavesTo (m : ObjectMemory) (sp frame value : ℕ) (r : Activation × ObjectMemory)
    : Type 0 where
  pub leaves : r.0 ≡ to_sender frame value
  pub frame_pointer : r.1.words frame ≡ m.words sp
  pub return_pointer : r.1.words (frame + 8) ≡ m.words (sp + 8)
  pub others : (x : ℕ) → x ≢ frame → x ≢ frame + 8 → r.1.words x ≡ m.words x
  pub same : r.1 ≡ record m { words = r.1.words }

pub primitive_return-LeavesTo :
    (sp pop_count size frame value : ℕ) (m : ObjectMemory)
    → align_word (pop_count * 8) 16 ≡ size
    → frame ≡ sp + size
    → 16 ≤ size
    → sp + size + 32 < 2 ^ 64
    → LeavesTo m sp frame value (primitive_return sp pop_count value m)
unfolding primitive_return
primitive_return-LeavesTo sp pop_count size frame value m aligned at wide room =
    let place : sub_word (add_word (add_word sp 16) size) 16 ≡ frame = omega arith in
    let next : add_word frame 8 ≡ frame + 8 = omega arith in
    let saved : add_word sp 8 ≡ sp + 8 = omega arith in
    rw (aligned, place, next, saved)
      record {
        leaves = refl;
        frame_pointer = ground arith;
        return_pointer = ground arith;
        others = λ x p q. ground arith;
        same = refl;
      }

-- What the object model reads of an object's words is the word in front of it.
pub native_pointer_kept :
    (m : ObjectMemory) (words : ℕ → ℕ) (oop : ℕ)
    → words (sub_word oop 8) ≡ m.words (sub_word oop 8)
    → first_native_data_pointer (record m { words = words }) oop ≡ first_native_data_pointer m oop
unfolding first_native_data_pointer
native_pointer_kept m words oop same = rw same

pub size_kept :
    (m : ObjectMemory) (words : ℕ → ℕ) (oop : ℕ)
    → words (sub_word oop 8) ≡ m.words (sub_word oop 8)
    → basic_size (record m { words = words }) oop ≡ basic_size m oop
unfolding basic_size
size_kept m words oop same = rw same

-- The words of the arguments and the native arguments of the frame, in the context.
pub record HasArguments (w f : ℕ → ℕ) (c h a b k : ℕ) : Type 0 where
  pub oops : (i : ℕ) → i < a → f (c + 72 + 8 * i) ≡ w (h + 64 + 8 * i)
  pub natives : (i : ℕ) → i < k → f (c + 72 + (a + b) * 8 + 8 * i) ≡ w (h + 64 + a * 8 + 8 * i)
  pub fields : (x : ℕ) → x < c + 72 → f x ≡ w x
  pub temporaries : (i : ℕ) → i < b → f (c + 72 + (a + i) * 8) ≡ w (c + 72 + (a + i) * 8)
  pub behind : (x : ℕ) → c + 72 + (a + b) * 8 + k * 8 ≤ x → f x ≡ w x

pub copied-HasArguments :
    (w : ℕ → ℕ) (c h a b k : ℕ)
    → h + 64 + a * 8 + k * 8 ≤ c
    → c + 72 + (a + b) * 8 + k * 8 < 2 ^ 64
    → let copied = copy_words w (c + 72) (h + 64) a in
      HasArguments w (copy_words copied (c + 72 + (a + b) * 8) (h + 64 + a * 8) k) c h a b k
copied-HasArguments w c h a b k front room =
    let copied = copy_words w (c + 72) (h + 64) a in
    let (inside, outside) =
      copy_words_lem a w (c + 72) (h + 64) (omega arith) (omega arith) (inr (omega arith)) in
    let (inside', outside') =
      copy_words_lem k copied (c + 72 + (a + b) * 8) (h + 64 + a * 8) (omega arith) (omega arith)
        (inr (omega arith)) in
    record {
      oops = λ i l. outside' (c + 72 + 8 * i) (inl (omega arith)) ∙ inside i l;
      natives = λ i l. inside' i l ∙ outside (h + 64 + a * 8 + 8 * i) (inl (omega arith));
      fields = λ x l. outside' x (inl (omega arith)) ∙ outside x (inl (omega arith));
      temporaries = λ i l.
          outside' (c + 72 + (a + i) * 8) (inl (omega arith))
          ∙ outside (c + 72 + (a + i) * 8) (inr (omega arith));
      behind = λ x l. outside' x (inr (omega arith)) ∙ outside x (inr (omega arith));
    }
