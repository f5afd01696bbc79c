-- ===== src/Jit/Helpers.antt =====
-- The functions of src/execution_type/jit_executor.cpp that native code calls. They are `noexcept`:
-- whatever is thrown faults the context, and the native code goes on.
use toy_isa_v1_5_interpreter.Base.{ℕ}
use toy_isa_v1_5_interpreter.Instruction.{Opcode, Instruction}
use toy_isa_v1_5_interpreter.Machine.{fault}
use toy_isa_v1_5_interpreter.Machine.Monad.{
  M, Outcome, returned, thrown, undefined, diverged, load_word, store_word,
}
use toy_isa_v1_5_interpreter.Syscall.{Host}
use toy_isa_v1_5_interpreter.Engine.{execute_opcode}

-- `catch (...)`, with the value that the caller has set before.
abbrev pub caught : {A : Type 0} → A → Outcome A → Outcome A
caught before (returned a c) = returned a c
caught before (thrown e c) = returned before (record c { state = fault c.state })
caught before undefined = undefined
caught before diverged = diverged

unfoldable pub execute_helper : {A : Type 0} → A → M A → M A
execute_helper before action c = caught before (action c)

-- The handler is that of an operation code.
unfoldable pub execute_instruction_helper : Host → Instruction → Opcode → M (Unit {0})
unfolding execute_helper
execute_instruction_helper host inst op = execute_helper tt (execute_opcode host op inst)

unfoldable pub read_memory32 : ℕ → M ℕ
unfolding execute_helper load_word
read_memory32 address = execute_helper 0 (load_word address)

unfoldable pub write_memory32 : ℕ → ℕ → M (Unit {0})
unfolding execute_helper store_word
write_memory32 address value = execute_helper tt (store_word address value)
