-- ===== src/Lib.antt =====
-- Verification of the runtime of SLVM, a virtual machine for Smalltalk programs that are compiled to
-- native code.
--
-- The runtime keeps all objects in a growing heap, names classes by indices in a class table, keeps
-- methods in one hashed dictionary per class, and sends a message by looking its selector up along
-- the superclasses. The model is of the 64-bit variant with the Spur object model; a word is a number
-- below 2 ^ 64 with the wrap-around written out, and an oop is a word.
--
-- Parts, their files here, and the sources that they model:
--
--   Common, Common/*           shared names, Boolean tests, lists, words, bit operations, signed
--                              integers, and Outcome: a C call returns a value, stops the process
--                              (abort, or an assert that fails), or spends the fuel of the model.
--   DataStructures             src/datastructures.c, include/slvm/datastructures.h: the intrusive
--                              doubly linked list (slvm_list_addNode, slvm_list_removeNode). A node is
--                              an address, the links are functions of it.
--   Memory                     src/memory.c, src/memory_unix.c: slvm_StackHeap_create, _allocate, and
--                              the slvm_vm_* calls. mmap is a parameter, mprotect calls are
--                              emitted; a refused call is only printed by the source, and whether
--                              the kernel accepts a call is a parameter of Memory/Committed.
--   Oop                        include/slvm/spur/objectmodel.h: tags, small integers, hashes.
--   ObjectModel                src/spur/objectmodel.c: instantiation, slvm_Behavior_basicNew,
--                              slvm_Behavior_basicNewMixedNative, slvm_basicSize,
--                              slvm_firstNativeDataPointer. Memory is words and headers by address; it
--                              allocates through Memory.
--   ClassTable                 src/spur/objectmodel.c (slvm_spur_initialize,
--                              slvm_objectmodel_registerBehavior, slvm_getClassFromOop),
--                              include/slvm/classes/compactIndices.inc.
--   Hashing                    the probe loop of src/classes/collections.c and its theory, for any
--                              keys: the invariant, writes, counts, and a search that knows no hashes.
--   Collections/Full           slvm_HashedCollection_fullCondition and the tally.
--   Collections/MethodDictionary
--                              slvm_MethodDictionary_*: keys in one array, methods in another.
--   Collections/Dictionary     slvm_Dictionary_* and slvm_IdentityDictionary_*: associations in the
--                              object memory; the hash and the equality are parameters.
--   Collections/Strings        slvm_String_equals, slvm_String_hash and what they call.
--   Collections/WeakSet        slvm_WeakSet_*, with the hash and the equality as parameters.
--   Collections/Symbols        slvm_Symbol_internString and _internCString, on two weak sets.
--   Lookup                     src/classes/kernel.c: slvm_Behavior_lookup, which reads the headers
--                              through Oop and the methods through Collections/MethodDictionary.
--   ExecutionStack             src/memory.c: slvm_ExecutionStack_*. The segments of a thread and the
--                              free ones are two lists of DataStructures, in pages that come from
--                              Memory.
--   Sends                      src/native/x86/send.c: slvm_dynrun_send_dispatch and _supersend_dispatch,
--                              which find the method through ClassTable and Lookup, its activation, and
--                              slvm_dynrun_new_stack_segment and _pop_stack_segment on ExecutionStack;
--                              src/classes/context.c: the activation of block closures. Sends/Contexts
--                              models the runtime primitives marryThisContext, createFullBlockClosure
--                              and tempVectorCreate, and slvm_PrimitiveMethod_make.
--   Kernel                     src/classes/kernel.c: slvm_globals_*, slvm_dynrun_registerMethodWithNames
--                              on Collections, ClassTable and Lookup, and the primitives of the kernel
--                              classes on ObjectModel.
--   Kernel/Classes             src/classes/kernel.c: slvm_dynrun_subclassWithSomeNames and
--                              slvm_dynrun_classSetMetadata, on ObjectModel, ClassTable and Collections.
--                              The method dictionaries and the class pools stand in maps by the
--                              address of the behavior or the dictionary, other fields are words.
--   StaticHeaps                src/spur/objectmodel.c: slvm_spur_heap_iterate, forwarding, and the passes of
--                              slvm_internal_init_staticHeap, which intern through Collections/Symbols and
--                              read the globals of Kernel; the list of the heaps is one of DataStructures.
--   Magnitude                  src/classes/magnitude.c: the SmallInteger primitives.
--   Tests                      the theorems at concrete inputs.
--
-- Fuel. The probe loop runs on the size of the table, one round. atPut and grow call each other:
-- an atPut that grows only calls atPuts that do not, so that two levels are enough. Lookup needs
-- one unit for each behavior of the chain and one for nil, a walk over a heap one for each object
-- and one for the end, and the loop over the heaps one for each heap and one for the end. The
-- bounds on sizes (2 ^ 58 slots, addresses below 2 ^ 64) keep the products of sizes and eight
-- bytes from wrapping.
--
-- Collections own their arrays, which stand in them as lists and take no room in the modelled
-- heap. The addresses that the linker chooses (nil, true, false, the kernel's classes) are
-- parameters.
--
-- The assembly trampolines are seen from the C side: a jump through one is the outcome of the call,
-- and the switch to Smalltalk code and the C functions of primitives are parameters of Sends. Segment
-- headers and thread data are records by their addresses, apart from the words on the stacks; native
-- arguments are whole words.
--
-- Not modelled: the 32-bit variant; the assembly itself; printing; start up, which is a sequence
-- of calls; and the FFI classes, which are declarations.
pub mod Common
pub mod DataStructures
pub mod Memory
pub mod ExecutionStack
pub mod Hashing
pub mod Oop
pub mod Collections
pub mod ClassTable
pub mod ObjectModel
pub mod Lookup
pub mod Sends
pub mod Kernel
pub mod StaticHeaps
pub mod Magnitude
pub mod Tests
