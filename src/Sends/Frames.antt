-- ===== src/Sends/Frames.antt =====
-- The return to a Smalltalk sender, and the copies of arguments.
use slvm_native.Common.{
  ℕ, zero, suc, ◌+◌, ◌*◌, ◌^◌, ◌≤◌, ◌<◌, ◌≡◌, ◌≢◌, ◌⊎◌, inl, inr, refl, sym, ◌∙◌, ap, arith,
  Returns,
}
use slvm_native.Common.Words.{add_word, sub_word}
use slvm_native.ObjectModel.{write_word}
use slvm_native.Sends.{
  Machine, Activation, to_sender, smalltalk_metadata, arguments_at, return_to_smalltalk_sender,
  copy_words,
}

-- What the trampoline finds: above the restored stack pointer the sender's frame pointer and return
-- address, and above those the end of the receiver and all arguments; no other word has changed.
pub record PopsFrame (m : Machine) (sp value : ℕ) (r : Activation × Machine) : Type 0 where
  pub frame : ℕ
  pub leaves : r.0 ≡ to_sender frame value
  pub behind :
      frame + 16
      ≡ sp
        + 40
        + (smalltalk_metadata m.words sp).oop_count * 8
        + (smalltalk_metadata m.words sp).native_size
  pub frame_pointer : r.1.words frame ≡ m.words (sp + 16)
  pub return_pointer : r.1.words (frame + 8) ≡ m.words (sp + 24)
  pub others : (a : ℕ) → a ≢ frame → a ≢ frame + 8 → r.1.words a ≡ m.words a
  pub same_stack : r.1.stack ≡ m.stack

pub write_word_same : (words : ℕ → ℕ) (p x a : ℕ) → a ≡ p → write_word words p x a ≡ x
write_word_same words p x a e = ground arith

pub write_word_other : (words : ℕ → ℕ) (p x a : ℕ) → a ≢ p → write_word words p x a ≡ words a
write_word_other words p x a ne = ground arith

saved_return_lem :
    (words : ℕ → ℕ) (sp : ℕ)
    → sp + 24 < 2 ^ 64
    → (smalltalk_metadata words sp).saved_return ≡ words (sp + 24)
unfolding smalltalk_metadata
saved_return_lem words sp room = ap words (omega arith)

-- Below the end of the address space the return to a Smalltalk sender drops the receiver and all
-- arguments, and leaves the sender's frame pointer and return address for the trampoline.
pub return_to_smalltalk_sender-PopsFrame :
    (sp value : ℕ) (m : Machine)
    → sp
        + 40
        + (smalltalk_metadata m.words sp).oop_count * 8
        + (smalltalk_metadata m.words sp).native_size
      < 2 ^ 64
    → Returns (return_to_smalltalk_sender sp value m) (PopsFrame m sp value)
unfolding return_to_smalltalk_sender
return_to_smalltalk_sender-PopsFrame sp value m room =
    let d = smalltalk_metadata m.words sp in
    let c = d.oop_count in
    let n = d.native_size in
    let frame = sub_word (add_word (add_word (arguments_at sp) (c * 8)) n) 16 in
    let place : frame + 16 ≡ sp + 40 + c * 8 + n = omega arith in
    let next : add_word frame 8 ≡ frame + 8 = omega (arith, place) in
    let base : add_word sp 16 ≡ sp + 16 = omega arith in
    let first_write = write_word m.words (add_word frame 8) d.saved_return in
    (
      _,
      refl,
      record {
        frame = frame;
        leaves = refl;
        behind = place;
        frame_pointer =
            write_word_same first_write frame _ frame refl
            ∙ write_word_other m.words _ d.saved_return (add_word sp 16) (omega (arith, place))
            ∙ ap m.words base;
        return_pointer =
            write_word_other first_write frame _ (frame + 8) (omega arith)
            ∙ write_word_same m.words _ d.saved_return (frame + 8) (sym next)
            ∙ saved_return_lem m.words sp (omega arith);
        others = λ a p q.
            write_word_other first_write frame _ a p
            ∙ write_word_other m.words _ d.saved_return a (λ e. q (e ∙ next));
        same_stack = refl;
      },
    )

zero_or_more : (i : ℕ) → (i ≡ 0) ⊎ ((j : ℕ) × (i ≡ j + 1))
zero_or_more zero = inl refl
zero_or_more (suc i) = inr (i, omega arith)

-- A copy to words that it does not read takes over every word of the source and keeps all others.
pub copy_words_lem :
    (n : ℕ) (words : ℕ → ℕ) (dest source : ℕ)
    → dest + 8 * n < 2 ^ 64
    → source + 8 * n < 2 ^ 64
    → (dest + 8 * n ≤ source) ⊎ (source + 8 * n ≤ dest)
    → ((i : ℕ) → i < n → copy_words words dest source n (dest + 8 * i) ≡ words (source + 8 * i))
      × ((a : ℕ) → (a < dest) ⊎ (dest + 8 * n ≤ a) → copy_words words dest source n a ≡ words a)
unfolding copy_words
copy_words_lem zero words dest source h k apart = (λ i l. absurd (omega arith), λ a out. refl)
copy_words_lem (suc n) words dest source h k apart =
    let moved : add_word dest 8 ≡ dest + 8 = omega arith in
    let read : add_word source 8 ≡ source + 8 = omega arith in
    let (inside, outside) =
      copy_words_lem n (write_word words dest (words source)) (dest + 8) (source + 8) (omega arith)
        (omega arith) (omega arith) in
    let rest = copy_words (write_word words dest (words source)) (dest + 8) (source + 8) n in
    rw (moved, read)
      (
        λ i l. elim (zero_or_more i) [
          | inl e ↦
              outside (dest + 8 * i) (inl (omega (arith, e)))
              ∙ write_word_same words dest (words source) (dest + 8 * i) (omega (arith, e))
              ∙ ap words (omega (arith, e))
          | inr (j, e) ↦
              ap rest (omega (arith, e))
              ∙ inside j (omega (arith, e))
              ∙ write_word_other words dest (words source) (source + 8 + 8 * j) (omega (arith, e))
              ∙ ap words (omega (arith, e))
        ],
        λ a out.
            outside a (omega arith) ∙ write_word_other words dest (words source) a (omega arith),
      )
