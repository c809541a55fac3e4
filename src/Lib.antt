-- ===== src/Lib.antt =====
-- Verification of metaru, a native interpreter of EVM bytecode that a Java client calls with a
-- message frame in shared memory.
--
-- The parts of the program, and the files that model them:
--   * The message frame (include/message_frame_memory.h) is the state that the client fills and an
--     interpreter updates: Frame.antt has its fields as the record Frame, the ones that no
--     interpreter writes as Context, and the regions that its offsets lead to as arrays. An
--     operation is a Command: it may fail, and what it did to the frame before stays done.
--   * Stack items are 32 bytes: Word.antt has the helpers on one (word_to_u64, u64_to_word, is_zero),
--     Word/Laws.antt their laws. Frame/Stack.antt (stack_peek, stack_push, stack_pop) and
--     Frame/Memory.antt (ensure_memory) are the other helpers; Frame/Items.antt sees the stack as a
--     list.
--   * src/evm.cpp has a switch: Evm/Ops.antt is its op_* functions, Evm/Decode.antt the cases,
--     Evm/Run.antt execute_message.
--   * src/evm_jumptable.cpp has a table of handlers that return a price: Jumptable/Ops.antt is the
--     handlers, Jumptable/Table.antt JUMP_TABLE, Jumptable/Run.antt execute_message.
--   * src/evm_optimized.cpp has the same table with handlers that work in place, and SLOAD and SSTORE
--     at 0x44 and 0x45: Optimized/Ops.antt is the handlers, Optimized/Storage.antt the two on storage,
--     Optimized/Run.antt the table and execute_message.
--   * include/storage_memory.h is the array of storage entries: Storage.antt has find and add,
--     Storage/Map.antt sees the array as a map.
--   * include/account_witness.h is the array of accounts, which no interpreter reads yet:
--     Accounts.antt.
--   * src/types/uint256.cpp is a 256-bit integer that no interpreter uses: Uint256.antt, its
--     hexadecimal text in Uint256/Hex.antt.
--   * include/tracer_callback.h is a tracer that execute_message calls around each operation: the
--     calls are the events of Loop.antt, which has the loop that the three interpreters share in
--     shape. Loop/Laws.antt has what holds of it whatever a round does. Loop/Steps.antt sees
--     it as a relation, turn by turn. Interpreters.antt states what the three have in common, and
--     Interpreters/Turns.antt what holds at every turn.
--   * src/mock_evm_with_tracer.cpp has three operations in a loop of its own: Mock.antt.
--   * include/message_frame.h has the enums of states and reasons: Enums.antt.
--   * include/native_message_frame.h is a frame of C++ objects, of which the header has the short
--     operations: Native.antt.
--   * include/jni_helpers.h has two conversions of optional values from and to Java: Jni.antt, over a
--     Java virtual machine that is a parameter, with what java.util.Optional documents.
--   * include/message_frame_memory.h also has helpers that follow the offsets of a frame that lies in
--     one run of bytes: Layout.antt has them, and on the same bytes the helpers of src/evm.cpp and its
--     operations on memory. Layout/Laws.antt says when such bytes hold a Frame, Layout/Struct.antt
--     where the fields of the shared structs lie.
--   * zisk_demo/block_execution_demo.cpp runs a block of transactions on the in-place interpreter:
--     Demo.antt has its data, Demo/Witness.antt the accounts, Demo/Execution.antt the frames, the run
--     and its report, Demo/Text.antt what is printed. Demo/Bare.antt is the variant on arrays of a
--     fixed size (zisk_demo/block_execution_demo_baremetal.cpp).
--   * zisk_demo/block_execution_demo_riscv.cpp is one program of the in-place interpreter and the block
--     demo. It is modelled on the bytes that its pointers lead into, where the interpreters above have
--     a frame of arrays: Riscv.antt has the machine and the helpers, Riscv/Ops.antt the handlers,
--     Riscv/Storage.antt SLOAD and SSTORE, Riscv/Run.antt JUMP_TABLE and execute_message,
--     Riscv/Blocks.antt the buffer of a transaction, execute_block and main. Riscv/Holds.antt says when
--     the bytes hold a frame, and Riscv/Refine.antt that execution keeps the two alike, from what
--     Simulation, Handlers, Push, Access, Entries, Parts, Slots, Instructions, Turns and Room there have on
--     each step; Riscv/Programs.antt has whole programs. The fields of the struct are a record, not bytes.
-- The other files of a directory hold proofs and are named for what they prove: Effects (what an
-- operation leaves alone), Ends (a run returns), Bounds and Limits (pc and memory stay in bounds),
-- Tracing (what a tracer sees), Agree, Jumps, Dispatch and Equiv (two interpreters do the same), Items and
-- Values (the handlers against lists and arithmetic), Words, Programs and Execution (whole programs of
-- stack instructions against lists), Memory (MSTORE and MLOAD together), Regions and
-- Store (writes on bytes against writes on a frame), Overlap (what lies where in a frame). Testing/
-- runs the interpreters on small programs and has each property at concrete values. Common.antt
-- gathers the library's names and the lemmas on lists, numbers and bytes.
--
-- Numbers. Items and bytes are natural numbers with the wrap-around of uint8_t, uint32_t and uint64_t
-- written out. The two amounts of gas are integers without the bounds of int64_t; pc, stack_size and
-- memory_size are int32_t in the code and natural numbers here, since a client hands over sizes and
-- no run leaves them negative.
--
-- Fuel. The loop runs on fuel gas_remaining + 2. A round that goes on costs gas, or sets the state so
-- that the next test ends the loop, so this is enough. The loop of the mock has fuel gas_remaining + 1:
-- each round that goes on costs 3. The loop on bytes has fuel gas_remaining + 2.
--
-- Regions. But in Layout.antt and Riscv.antt the regions of a frame are arrays that do not overlap, which
-- holds of bytes that a client lays out apart, as long as no access of memory leaves the room that it has.
-- Riscv/Room.antt says when: an access whose rounded size wraps in 32 bits is let through, so for every
-- program it takes 2 ^ 32 + 32 bytes of room, and none for code without MLOAD, MSTORE and MSTORE8. The
-- buffer of the demo has 1024 bytes, so the model of its run on arrays is that of programs that stay in
-- them; the model on bytes is of all.
--
-- Not modelled: a null frame, which returns at once; a tracer that writes the frame; the labels that
-- are printed around values. Of the functions and classes in include/ that are declared only, no file of
-- the repository has the bodies, so they are left out (include/operation.h, include/besu_evm.h,
-- include/operation_tracer_jni.h, and much of include/message_frame.h and include/jni_helpers.h). So are
-- the start-up code and system calls in zisk_demo (syscalls.c, start.S). The one call of execute_message
-- in zisk_demo/block_execution_demo_riscv.cpp passes no tracer, so its loop is modelled without one, and
-- its mock block, its witness and what it prints repeat zisk_demo/block_execution_demo.cpp, whose models
-- stand for them.
pub mod Common
pub mod Word
pub mod Uint256
pub mod Frame
pub mod Instr
pub mod Loop
pub mod Evm
pub mod Jumptable
pub mod Storage
pub mod Accounts
pub mod Optimized
pub mod Interpreters
pub mod Mock
pub mod Native
pub mod Jni
pub mod Enums
pub mod Demo
pub mod Layout
pub mod Riscv
pub mod Testing
