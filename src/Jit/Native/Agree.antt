-- ===== src/Jit/Native/Agree.antt =====
-- Native code of a block (src/execution_type/jit_executor.cpp) against `executeSwitchBlock`
-- (src/execution_type/switch_executor.cpp).
use toy_isa_v1_5_interpreter.Base.{ℕ, ◌≡◌, List, [], ◌∷◌, ◌⊎◌}
use toy_isa_v1_5_interpreter.Instruction.{Opcode, Instruction}
use toy_isa_v1_5_interpreter.Machine.{fault}
use toy_isa_v1_5_interpreter.Machine.Monad.{Outcome, returned, thrown, undefined, diverged}
use toy_isa_v1_5_interpreter.Jit.Ir.{Builder}
use toy_isa_v1_5_interpreter.Jit.Native.{at_pc}
use toy_isa_v1_5_interpreter.Jit.Native.Finish.{native_end}

-- The operation of `Instructions.back()`.
abbrev pub last_op : List Instruction → Opcode
last_op [] = Opcode.invalid
last_op (inst ∷ []) = inst.op_code
last_op (inst ∷ (next ∷ rest)) = last_op (next ∷ rest)

-- What native code may make of the outcome of an interpreter, with the program counter at which
-- the block was entered and the operation at its end. It faults where the interpreter throws, with
-- the registers and the memory of the interpreter, and either program counter.
abbrev pub Agrees : ℕ → Opcode → Outcome (Unit {0}) → Outcome ℕ → Type 0
Agrees pc op (returned a c) r = r ≡ native_end op c
Agrees pc op (thrown e c) r =
    (p : ℕ) × ((p ≡ pc) ⊎ (p ≡ c.cpu.pc))
    × (r ≡ returned 0 (record (at_pc p c) { state = fault c.state }))
Agrees pc op undefined r = r ≡ undefined
Agrees pc op diverged r = r ≡ diverged

-- The builder with which `compileBlock` starts.
abbrev pub fresh : List (ℕ × ℕ) → Builder
fresh slots = record { count = 0; nodes = []; jit_entries = slots }
