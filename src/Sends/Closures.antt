-- ===== src/Sends/Closures.antt =====
-- The activation of block closures: slvm_BlockClosure_primitive_activateClosure.
use slvm_native.Common.{
  ℕ, ◌+◌, ◌*◌, ◌%◌, ◌^◌, ◌<◌, ◌≡◌, refl, ◌∙◌, ap, ◌==◌, if◌then◌else◌, arith, Outcome, ok, ◌>>=◌,
  ◌&&◌,
}
use slvm_native.Common.BitOr.{bit_or_shift16}
use slvm_native.Oop.{decode_small_integer, encode_small_integer, class_index_from_oop}
use slvm_native.Collections.Full.{decode_tally}
use slvm_native.Sends.{
  compiled_method_index, Machine, Activation, returns, PrimitiveContext, Runtime,
}
use slvm_native.Sends.Activating.{
  activate_method, replace_context, argument_descriptor_make, invalid_argument_count,
  invalid_argument, activate_closure,
}

-- The descriptor of counts that fit in their 16 bits.
argument_descriptor_make_lem :
    (count size : ℕ)
    → count < 2 ^ 16
    → size < 2 ^ 16
    → argument_descriptor_make count size ≡ count + size * 2 ^ 16
unfolding argument_descriptor_make
argument_descriptor_make_lem count size h k =
    let small : size * 2 ^ 16 % 2 ^ 64 ≡ size * 2 ^ 16 = omega arith in
    rw small (bit_or_shift16 count size h)

-- The number of arguments that a closure takes.
abbrev pub Takes : Machine → ℕ → ℕ → ℕ → Type 0
Takes m closure count size =
    (m.closures closure).num_args ≡ encode_small_integer (argument_descriptor_make count size)

-- What the primitive does, with the counts compared one by one.
abbrev pub ClosureOutcome : Type 0
ClosureOutcome = Outcome (ℕ × (Activation × Machine))

unfoldable pub activate_taking : Runtime → PrimitiveContext → Machine → ℕ → ℕ → ClosureOutcome
activate_taking t context m count size =
    let code = (m.closures context.receiver).startpc in
    if (context.oop_argument_count == count) && (context.native_argument_size == size)
    then (if class_index_from_oop m.world.headers code == compiled_method_index
        then (activate_method t context.context_calling_convention context.stack_pointer code m
            >>= λ r. ok (0, r))
        else ok (invalid_argument, (returns t.nil, m)))
    else ok (invalid_argument_count, (returns t.nil, m))

-- Two descriptors are the same exactly when both counts are.
same_counts :
    (a b c d : ℕ)
    → a < 2 ^ 16
    → c < 2 ^ 16
    → (c + d * 2 ^ 16 == a + b * 2 ^ 16) ≡ ((a == c) && (b == d))
same_counts a b c d h k = ground arith

-- A closure that was made for `count` oop arguments and `size` native bytes, all counts below
-- 2 ^ 16: sent a message with just these, its code, a compiled method, is activated in place of the
-- message; with other counts the primitive fails with InvalidArgumentCount, and with other code
-- with InvalidArgument, and the process is as before.
pub activate_closure-activate_taking :
    (t : Runtime) (context : PrimitiveContext) (m : Machine) (count size : ℕ)
    → count < 2 ^ 16
    → size < 2 ^ 16
    → context.oop_argument_count < 2 ^ 16
    → context.native_argument_size < 2 ^ 16
    → Takes m context.receiver count size
    → activate_closure t context m ≡ activate_taking t context m count size
unfolding activate_closure replace_context activate_taking
activate_closure-activate_taking t context m count size h k h' k' takes =
    let made = argument_descriptor_make_lem count size h k in
    let sent =
      argument_descriptor_make_lem context.oop_argument_count context.native_argument_size h' k' in
    let decoded : decode_small_integer (m.closures context.receiver).num_args
        ≡ count + size * 2 ^ 16 =
      ap decode_small_integer takes ∙ decode_tally _ (omega (arith, made)) ∙ made in
    rw
      (
        decoded,
        sent,
        same_counts context.oop_argument_count context.native_argument_size count size h' h,
      )
      refl
