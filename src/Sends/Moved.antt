-- ===== src/Sends/Moved.antt =====
-- The words of memory when a frame moves to a new stack segment.
use slvm_native.Common.{
  ℕ, ◌+◌, ◌-◌, ◌*◌, ◌/◌, ◌%◌, ◌^◌, ◌≤◌, ◌<◌, ◌≡◌, ◌≢◌, ◌⊎◌, refl, ◌∙◌, ap, arith, ok,
}
use slvm_native.Common.Words.{add_word, sub_word}
use slvm_native.ObjectModel.{write_word}
use slvm_native.ExecutionStack.{ExecutionStack}
use slvm_native.Sends.{Machine, to_sender, Runtime, copy_words, move_stack}
use slvm_native.Sends.Overflow.{move_frame}
use slvm_native.Sends.Frames.{copy_words_lem, write_word_same}

-- The words after the move of `bytes` bytes at `from` to right above `top + 8`: on the new segment
-- the return into the method, the trap in place of the sender's return address, and the arguments;
-- on the old one the frame pointer and the sender's return address.
pub record IsMoved (words new_words : ℕ → ℕ) (from bytes top trap new_frame old_frame : ℕ)
    : Type 0 where
  pub frame : new_words top ≡ new_frame
  pub into_method : new_words (top + 8) ≡ words from
  pub trapped : new_words (top + 16) ≡ trap
  pub arguments :
      (i : ℕ) → 2 ≤ i → i < bytes / 8 → new_words (top + 8 + 8 * i) ≡ words (from + 8 * i)
  pub old_frame_pointer : new_words (from + bytes - 16) ≡ old_frame
  pub old_return : new_words (from + bytes - 8) ≡ words (from + 8)

-- The four writes that follow the copy.
abbrev pub four_writes : (ℕ → ℕ) → ℕ → ℕ → ℕ → ℕ → ℕ → ℕ → ℕ → ℕ
four_writes copied top old trap new_frame old_frame sender =
    write_word
      (write_word (write_word (write_word copied (top + 16) trap) top new_frame) old old_frame)
      (old + 8) sender

four_writes_other :
    (copied : ℕ → ℕ) (top old trap new_frame old_frame sender a : ℕ)
    → a ≢ top + 16
    → a ≢ top
    → a ≢ old
    → a ≢ old + 8
    → four_writes copied top old trap new_frame old_frame sender a ≡ copied a
four_writes_other copied top old trap new_frame old_frame sender a p q r s = ground arith

pub four_writes-IsMoved :
    (words : ℕ → ℕ) (from bytes top trap new_frame old_frame : ℕ)
    → 24 ≤ bytes
    → bytes % 8 ≡ 0
    → from + bytes < 2 ^ 64
    → top + 8 + bytes < 2 ^ 64
    → (top + 8 + bytes ≤ from) ⊎ (from + bytes ≤ top)
    → IsMoved words
        (four_writes
          (copy_words words (top + 8) from (bytes / 8))
          top
          (from + (bytes - 16))
          trap
          new_frame
          old_frame
          (copy_words words (top + 8) from (bytes / 8) (top + 16)))
        from
        bytes
        top
        trap
        new_frame
        old_frame
four_writes-IsMoved words from bytes top trap new_frame old_frame enough whole high high' apart =
    let copied = copy_words words (top + 8) from (bytes / 8) in
    let (inside, outside) =
      copy_words_lem (bytes / 8) words (top + 8) from (omega arith) (omega arith) (omega arith) in
    let old = from + (bytes - 16) in
    let other = four_writes_other copied top old trap new_frame old_frame (copied (top + 16)) in
    record {
      frame = ground arith;
      into_method =
          other (top + 8) (omega arith) (omega arith) (omega arith) (omega arith)
          ∙ ap copied (omega arith)
          ∙ inside 0 (omega arith)
          ∙ ap words (omega arith);
      trapped = ground arith;
      arguments = λ i l h.
          other (top + 8 + 8 * i) (omega arith) (omega arith) (omega arith) (omega arith)
          ∙ inside i h;
      old_frame_pointer = ground arith;
      old_return =
          write_word_same
            (write_word (write_word (write_word copied (top + 16) trap) top new_frame) old
              old_frame)
            (old + 8) (copied (top + 16)) (from + bytes - 8) (omega arith)
          ∙ ap copied (omega arith)
          ∙ inside 1 (omega arith)
          ∙ ap words (omega arith);
    }

-- The move, with its numbers written out.
pub move_frame_lem :
    (t : Runtime) (bytes current new top : ℕ) (m : Machine) (e : ExecutionStack)
    → 24 ≤ bytes
    → (e.segments current).stack_pointer + bytes < 2 ^ 64
    → (e.segments new).stack_pointer ≡ top + 8 + bytes
    → top + 8 + bytes < 2 ^ 64
    → move_frame t bytes current new m e
      ≡ ok (
        to_sender top 0,
        record m {
          words =
              four_writes
                (copy_words m.words (top + 8) (e.segments current).stack_pointer (bytes / 8))
                top
                ((e.segments current).stack_pointer + (bytes - 16))
                t.pop_trap
                (e.segments new).frame_pointer
                (e.segments current).frame_pointer
                (copy_words m.words
                  (top + 8)
                  (e.segments current).stack_pointer
                  (bytes / 8)
                  (top + 16));
          stack =
              move_stack
                (move_stack e new top)
                current
                ((e.segments current).stack_pointer + (bytes - 16));
        },
      )
unfolding move_frame
move_frame_lem t bytes current new top m e enough high place high' =
    let from = (e.segments current).stack_pointer in
    let dest : sub_word (e.segments new).stack_pointer bytes ≡ top + 8 = omega (arith, place) in
    let top_is : sub_word (top + 8) 8 ≡ top = omega arith in
    let return_is : add_word top 16 ≡ top + 16 = omega arith in
    let size_is : sub_word bytes 16 ≡ bytes - 16 = omega arith in
    let old_is : add_word from (bytes - 16) ≡ from + (bytes - 16) = omega arith in
    let next_is : add_word (from + (bytes - 16)) 8 ≡ from + (bytes - 16) + 8 = omega arith in
    rw (dest, top_is, return_is, size_is, old_is, next_is) refl
