-- ===== src/Sends/Activating.antt =====
-- slvm_dynrun_send_activateMethod with its callers: the sends, the super sends, and the activation
-- of block closures of src/classes/context.c.
use Prim.Native.Nat.{bit_or, bit_and}
use slvm_native.Common.{ℕ, ◌*◌, ◌%◌, ◌^◌, ◌==◌, if◌then◌else◌, Outcome, ok, aborted, ◌>>=◌}
use slvm_native.Common.Words.{add_word, sub_word}
use slvm_native.Oop.{decode_small_integer, class_index_from_oop}
use slvm_native.ClassTable.{class_from_oop}
use slvm_native.Lookup.{lookup}
use slvm_native.Sends.{
  compiled_method_index, primitive_method_index, cc_smalltalk, cc_cdecl, CompiledMethod, Machine,
  Activation, to_sender, to_method, returns, PrimitiveContext, Runtime, metadata, receiver_at,
  arguments_at, return_to_smalltalk_sender, enter_smalltalk,
}

-- `slvm_CompiledMethod_getCallingConvention`
unfoldable pub calling_convention : CompiledMethod → ℕ
calling_convention method = bit_and (decode_small_integer method.method_flags) 7

-- The compiled method's branch. The entry point is stored with the tag of a small integer, which is 1.
unfoldable pub activate_compiled : Runtime → ℕ → ℕ → ℕ → Machine → Outcome (Activation × Machine)
activate_compiled t convention sp method m =
    let entry = sub_word (m.compiled method).entry_point 1 in
    let target = calling_convention (m.compiled method) in
    if convention == cc_smalltalk
    then (if target == cc_smalltalk then ok (to_method (add_word sp 16) entry, m) else aborted)
    else if convention == cc_cdecl
    then (if target == cc_cdecl
        then ok (to_method sp entry, m)
        else if target == cc_smalltalk
        then enter_smalltalk t sp entry m
        else aborted)
    else aborted

-- The context that a primitive gets.
unfoldable pub primitive_context : ℕ → ℕ → Machine → PrimitiveContext
primitive_context convention sp m =
    let d = metadata convention m.words sp in
    record {
      context_calling_convention = convention;
      stack_pointer = sp;
      selector = d.message;
      receiver = receiver_at m.words sp;
      oop_argument_count = d.oop_count;
      oop_arguments = arguments_at sp;
      native_argument_size = d.native_size;
      native_arguments = add_word (arguments_at sp) (d.oop_count * 8);
    }

-- What follows the call of the primitive, when that returns and does not jump.
unfoldable pub finish_primitive :
    ℕ → ℕ → ℕ × (Activation × Machine) → Outcome (Activation × Machine)
finish_primitive convention sp (error, (to_sender restore value, m)) =
    ok (to_sender restore value, m)
finish_primitive convention sp (error, (to_method restore entry, m)) =
    ok (to_method restore entry, m)
finish_primitive convention sp (error, (returns result, m)) =
    if error == 0
    then (if convention == cc_smalltalk
        then return_to_smalltalk_sender sp result m
        else if convention == cc_cdecl
        then ok (returns result, m)
        else aborted)
    else aborted

-- The primitive method's branch.
unfoldable pub activate_primitive : Runtime → ℕ → ℕ → ℕ → Machine → Outcome (Activation × Machine)
activate_primitive t convention sp method m =
    t.primitive (m.primitive_entry method) (primitive_context convention sp m) m
    >>= finish_primitive convention sp

-- `slvm_dynrun_send_activateMethod`
unfoldable pub activate_method : Runtime → ℕ → ℕ → ℕ → Machine → Outcome (Activation × Machine)
activate_method t convention sp method m =
    let kind = (m.world.headers method).class_index in
    if method == t.nil
    then aborted
    else if kind == compiled_method_index
    then activate_compiled t convention sp method m
    else if kind == primitive_method_index
    then activate_primitive t convention sp method m
    else aborted

-- The end of both dispatches: the lookup, and the activation of what it finds.
unfoldable pub look_up_and_activate :
    Runtime → ℕ → ℕ → ℕ → ℕ → Machine → Outcome (Activation × Machine)
look_up_and_activate t fuel convention sp behavior m =
    if behavior == t.nil
    then aborted
    else (lookup t.nil fuel m.world behavior (metadata convention m.words sp).message >>= λ method.
        activate_method t convention sp method m)

-- `slvm_dynrun_send_dispatch`; the fuel is that of the lookup.
unfoldable pub send_dispatch : Runtime → ℕ → ℕ → ℕ → Machine → Outcome (Activation × Machine)
send_dispatch t fuel convention sp m =
    look_up_and_activate t fuel convention sp
      (class_from_oop m.table m.world.headers (receiver_at m.words sp)) m

-- `slvm_dynrun_supersend_dispatch`
unfoldable pub supersend_dispatch :
    Runtime → ℕ → ℕ → ℕ → ℕ → Machine → Outcome (Activation × Machine)
supersend_dispatch = look_up_and_activate

-- `slvm_primitiveReplaceContextWithCompiledMethodActivation`
unfoldable pub replace_context :
    Runtime → PrimitiveContext → ℕ → Machine → Outcome (Activation × Machine)
replace_context t context method m =
    activate_method t context.context_calling_convention context.stack_pointer method m

-- `slvm_ArgumentDescriptor_make`, with the operands of `|` swapped.
unfoldable pub argument_descriptor_make : ℕ → ℕ → ℕ
argument_descriptor_make count native_size = bit_or count (native_size * 2 ^ 16 % 2 ^ 64)

-- The error codes of `slvm_primitiveFailWithError`.
abbrev pub invalid_argument_count : ℕ
invalid_argument_count = 2

abbrev pub invalid_argument : ℕ
invalid_argument = 3

-- `slvm_BlockClosure_primitive_activateClosure`
unfoldable pub activate_closure :
    Runtime → PrimitiveContext → Machine → Outcome (ℕ × (Activation × Machine))
activate_closure t context m =
    let closure = m.closures context.receiver in
    let expected =
      argument_descriptor_make context.oop_argument_count context.native_argument_size in
    if decode_small_integer closure.num_args == expected
    then (if class_index_from_oop m.world.headers closure.startpc == compiled_method_index
        then (replace_context t context closure.startpc m >>= λ r. ok (0, r))
        else ok (invalid_argument, (returns t.nil, m)))
    else ok (invalid_argument_count, (returns t.nil, m))
