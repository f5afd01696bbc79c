-- ===== src/Machine.antt =====
-- The state of `ExecutionContext` (include/toy/execution_context.hpp) with its parts:
-- `TICpuState`, `TIExecutionState`, `TIBasicBlock` and `TIBasicBlockCache`, and the monad in which
-- the methods that change it are written. A method may return, throw, or do what C++ leaves
-- undefined; a loop may go on for ever.
pub mod Monad
use toy_isa_v1_5_interpreter.Base.{ℕ, List, [], replicate}
use toy_isa_v1_5_interpreter.BitUtils.{register_count}
use toy_isa_v1_5_interpreter.Instruction.{Instruction}
use toy_isa_v1_5_interpreter.Memory.{Memory}
use toy_isa_v1_5_interpreter.Memory
use mathlib.Core.Bool.{Bool}

pub record CpuState : Type 0 where
  pub registers : List ℕ
  pub pc : ℕ

pub data ExecutionStatus : Type 0 where
  running halted faulted : ExecutionStatus

pub record ExecutionState : Type 0 where
  pub status : ExecutionStatus
  pub exit_code : ℕ

unfoldable pub reset : ExecutionState → ExecutionState
reset state = record { status = ExecutionStatus.running; exit_code = 0 }

unfoldable pub halt : ℕ → ExecutionState → ExecutionState
halt code state = record { status = ExecutionStatus.halted; exit_code = code }

unfoldable pub fault : ExecutionState → ExecutionState
fault state = record state { status = ExecutionStatus.faulted }

-- `TICompiledBlock`: the address of the native code, 0 for the null pointer, and its size.
pub record CompiledBlock : Type 0 where
  pub entry_point : ℕ
  pub code_size : ℕ

pub record BasicBlock : Type 0 where
  pub start_address : ℕ
  pub execution_count : ℕ
  pub is_valid : Bool
  pub instructions : List Instruction
  pub compiled_block : CompiledBlock

-- The two maps of the cache, by address; no address stands twice in one of them.
pub record BlockCache : Type 0 where
  pub blocks : List (ℕ × BasicBlock)
  pub jit_entries : List (ℕ × ℕ)

-- The calls that the program makes of the host, for `Host` of the system-call emulator.
pub data HostCall : Type 0 where
  read_call : ℕ → HostCall
  write_call : ℕ → List ℕ → HostCall
  read_number_call : HostCall

-- `calls` is the history of the calls of the host, the last one first. The members `Mode`,
-- `JitThreshold_` and `JitOptimizationLevel_` never change and are arguments of the methods that
-- read them; `Decoder` and `SyscallEmulator` have no state.
pub record Context : Type 0 where
  pub cpu : CpuState
  pub memory : Memory
  pub state : ExecutionState
  pub block_cache : BlockCache
  pub calls : List HostCall

-- The constructor of `ExecutionContext`.
unfoldable pub init : ℕ → Context
unfolding Memory.init
init memory_size = record {
  cpu = record { registers = replicate register_count 0; pc = 0 };
  memory = Memory.init memory_size;
  state = record { status = ExecutionStatus.running; exit_code = 0 };
  block_cache = record { blocks = []; jit_entries = [] };
  calls = [];
}
