-- ===== src/Sends/Overflow.antt =====
-- The moves between stack segments: slvm_dynrun_new_stack_segment when a segment is full, and
-- slvm_dynrun_pop_stack_segment when the frames of the new one have returned.
use slvm_native.Common.{ℕ, ◌+◌, ◌*◌, ◌/◌, ◌==◌, if◌then◌else◌, Outcome, ok, aborted, ◌>>=◌}
use slvm_native.Common.Words.{add_word, sub_word}
use slvm_native.ObjectModel.{write_word}
use slvm_native.ExecutionStack.{
  ExecutionStack, node_of, segment_of, create_new_segment, pop_segment,
}
use slvm_native.Sends.{
  Machine, Activation, to_sender, Runtime, oop_count_of, native_size_of, copy_words, move_stack,
}

-- `totalArgumentSize`: the native arguments, the oop arguments, the receiver and two return
-- pointers.
abbrev pub moved_size : ℕ → ℕ
moved_size descriptor = native_size_of descriptor + (oop_count_of descriptor + 1 + 2) * 8

-- The copy, and the return pointers of both segments.
unfoldable pub move_frame :
    Runtime → ℕ → ℕ → ℕ → Machine → ExecutionStack → Outcome (Activation × Machine)
move_frame t total current new m e =
    let from = (e.segments current).stack_pointer in
    let dest = sub_word (e.segments new).stack_pointer total in
    let copied = copy_words m.words dest from (total / 8) in
    let top = sub_word dest 8 in
    let trapped = write_word copied (add_word top 16) t.pop_trap in
    let framed = write_word trapped top (e.segments new).frame_pointer in
    let old = add_word from (sub_word total 16) in
    let linked = write_word framed old (e.segments current).frame_pointer in
    ok (
      to_sender top 0,
      record m {
        words = write_word linked (add_word old 8) (copied (add_word top 16));
        stack = move_stack (move_stack e new top) current old;
      },
    )

-- `slvm_dynrun_new_stack_segment`; native arguments are whole words.
unfoldable pub new_stack_segment : Runtime → ℕ → ℕ → Machine → Outcome (Activation × Machine)
new_stack_segment t head descriptor m = create_new_segment m.stack >>= λ r.
    move_frame t (moved_size descriptor) (sub_word head 64) r.0 m r.1

-- `slvm_dynrun_pop_stack_segment`
unfoldable pub pop_stack_segment : ℕ → ℕ → Machine → Outcome (Activation × Machine)
pop_stack_segment head result m =
    let current = sub_word head 64 in
    let previous = m.stack.links.previous (node_of current) in
    if previous == 0
    then aborted
    else (pop_segment m.stack current >>= λ e.
        ok (
          to_sender (e.segments (segment_of previous)).stack_pointer result,
          record m { stack = e },
        ))
