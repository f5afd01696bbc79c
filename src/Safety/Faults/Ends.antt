-- ===== src/Safety/Faults/Ends.antt =====
-- Where the instructions that end a block and the system calls throw: src/toy/executor.cpp and
-- src/toy/syscall_emulator.cpp.
use toy_isa_v1_5_interpreter.Base.{
  ℕ, ◌≡◌, refl, false, ltb, length, Bool-cases, inl, inr, Option, none, some, List, ◌==◌, ◌||◌,
}
use toy_isa_v1_5_interpreter.Checked.{ErrorCode}
use toy_isa_v1_5_interpreter.Instruction.{Opcode, Instruction}
use toy_isa_v1_5_interpreter.Memory.{MemoryRange, readable_range, writable_range}
use toy_isa_v1_5_interpreter.Machine.{CpuState, Context, ExecutionStatus}
use toy_isa_v1_5_interpreter.Machine.Monad.{
  M, Outcome, returned, thrown, undefined, diverged, simulation, bind_outcome, get_pc, set_pc,
  advance_pc,
}
use toy_isa_v1_5_interpreter.BlockCache.{ends_block, flush_instruction_cache}
use toy_isa_v1_5_interpreter.Syscall
use toy_isa_v1_5_interpreter.Syscall.{
  Host, Reply, done, failed, SyscallHandler, handle_read, handle_write, handle_exit,
  handle_read_number, find_handler, host_read, host_write,
}
use toy_isa_v1_5_interpreter.Executor.{
  execute_flush, execute_beq, execute_j, execute_syscall, execute_invalid, advance_if_running,
}
use toy_isa_v1_5_interpreter.Engine.{execute_opcode}
use toy_isa_v1_5_interpreter.Safety.Faults.{
  After, Moves, Same, Next, Stays, Anywhere, after, Moves-if, checked-Same, operand-Same,
  get_register-Same, advance_pc-Next, set_register-Stays,
}
use toy_isa_v1_5_interpreter.Safety.Faults.Instructions.{
  li-Next, add-Next, addi-Next, or-Next, ld_reg-Next, ld_imm-Next, st-Next, stp-Next, clz-Next,
  ssat-Next, rori-Next, bext-Next,
}

set_pc-Anywhere : (pc : ℕ) → Moves Anywhere (set_pc pc)
unfolding set_pc
set_pc-Anywhere pc = record { at = λ c. tt }

get_pc-Same : Moves Same get_pc
unfolding get_pc
get_pc-Same = record { at = λ c. refl }

Moves-Anywhere :
    {A : Type 0} {R : CpuState → CpuState → Type 0} {m : M A} → Moves R m → Moves Anywhere m
Moves-Anywhere {A} {R} {m} h = record { at = λ c. weaken c (m c) (h.at c) }
  where
    weaken : (c : Context) (r : Outcome A) → After R c r → After Anywhere c r
    weaken c (returned a c') g = tt
    weaken c (thrown e c') g = g
    weaken c undefined g = tt
    weaken c diverged g = tt

flush_instruction_cache-Same : Moves Same flush_instruction_cache
unfolding flush_instruction_cache
flush_instruction_cache-Same = record { at = λ c. refl }

flush-Anywhere : (inst : Instruction) → Moves Anywhere (execute_flush inst)
unfolding execute_flush
flush-Anywhere inst = after flush_instruction_cache-Same λ _. Moves-Anywhere advance_pc-Next

beq-Anywhere : (inst : Instruction) → Moves Anywhere (execute_beq inst)
unfolding execute_beq
beq-Anywhere inst = after (operand-Same inst 0) λ rs. after (operand-Same inst 1) λ rt.
    after (get_register-Same rs) λ a. after (get_register-Same rt) λ b.
      Moves-if (a == b)
        (after (operand-Same inst 2) λ offset. after get_pc-Same λ pc. set_pc-Anywhere _)
        (Moves-Anywhere advance_pc-Next)

j-Anywhere : (inst : Instruction) → Moves Anywhere (execute_j inst)
unfolding execute_j
j-Anywhere inst = after (operand-Same inst 0) λ target. after get_pc-Same λ pc. set_pc-Anywhere _

invalid-Anywhere : (inst : Instruction) → Moves Anywhere (execute_invalid inst)
unfolding execute_invalid
invalid-Anywhere inst = record { at = λ c. refl }

module _ (host : Host) where
  host_read-Same : (buffer : MemoryRange) → Moves Same (host_read host buffer)
  unfolding host_read
  host_read-Same buffer = record { at = λ c. go c (host.read c.calls buffer.size) refl }
    where
      go :
          (c : Context) (r : Reply (List ℕ))
          → host.read c.calls buffer.size ≡ r
          → After Same c (host_read host buffer c)
      go c (failed errno) e = rw (e, host_read) refl
      go c (done bytes) e = elim (Bool-cases (ltb buffer.size (length bytes))) [
        | inl over ↦ rw (e, host_read, over) tt
        | inr fits ↦ rw (e, host_read, fits) refl
      ]

  read-Stays : Moves Stays (Syscall.read host)
  unfolding Syscall.read
  read-Stays = after (get_register-Same 0) λ descriptor. after (get_register-Same 1) λ address.
      after (get_register-Same 2) λ count.
        Moves-if (descriptor == 0)
          (after (checked-Same (λ c. writable_range c.memory address count))
            λ buffer. after (host_read-Same buffer) λ result. set_register-Stays 0 result)
          (set_register-Stays 0 _)

  host_write-Same :
      (descriptor : ℕ) (buffer : MemoryRange) → Moves Same (host_write host descriptor buffer)
  unfolding host_write
  host_write-Same descriptor buffer = record { at = λ c. refl }

  write-Stays : Moves Stays (Syscall.write host)
  unfolding Syscall.write
  write-Stays = after (get_register-Same 0) λ descriptor. after (get_register-Same 1) λ address.
      after (get_register-Same 2) λ count.
        Moves-if (descriptor == 1 || descriptor == 2)
          (after (checked-Same (λ c. readable_range c.memory address count)) λ buffer.
            after (host_write-Same descriptor buffer) λ result. set_register-Stays 0 result)
          (set_register-Stays 0 _)

  handle-Stays : (handler : SyscallHandler) → Moves Stays (Syscall.handle host handler)
  unfolding Syscall.handle Syscall.exit Syscall.read_number
  handle-Stays handle_read = read-Stays
  handle-Stays handle_write = write-Stays
  handle-Stays handle_exit = after (get_register-Same 0) λ code. record { at = λ c. refl }
  handle-Stays handle_read_number = record { at = λ c. (set_register-Stays 0 _).at _ }

  found-Stays :
      (r : Option SyscallHandler)
      → Moves Stays (elim r [
        | none ↦ λ c. thrown (simulation ErrorCode.unsupported_syscall) c
        | some handler ↦ Syscall.handle host handler
      ])
  found-Stays none = record { at = λ c. refl }
  found-Stays (some handler) = handle-Stays handler

  -- A system call leaves the program counter alone.
  pub execute-Stays : Moves Stays (Syscall.execute host)
  unfolding Syscall.execute
  execute-Stays = after (get_register-Same 8) λ n. found-Stays (find_handler n)

  -- What comes after a call that returned does not throw.
  advance_if_running-returns :
      (c : Context) (status : ExecutionStatus) (d : Context)
      → After Anywhere c (advance_if_running status d)
  unfolding advance_pc
  advance_if_running-returns c ExecutionStatus.running d = tt
  advance_if_running-returns c ExecutionStatus.halted d = tt
  advance_if_running-returns c ExecutionStatus.faulted d = tt

  syscall-Anywhere : (inst : Instruction) → Moves Anywhere (execute_syscall host inst)
  unfolding execute_syscall
  syscall-Anywhere inst = record {
    at = λ c. go c (Syscall.execute host c) ((Moves-Anywhere execute-Stays).at c);
  }
    where
      go :
          (c : Context) (r : Outcome (Unit {0}))
          → After Anywhere c r
          → After Anywhere c (bind_outcome r (λ _ d. advance_if_running d.state.status d))
      go c (returned a d) h = advance_if_running-returns c d.state.status d
      go c (thrown e d) h = h
      go c undefined h = tt
      go c diverged h = tt

  module _ (inst : Instruction) where
    pub execute_opcode-Anywhere : (op : Opcode) → Moves Anywhere (execute_opcode host op inst)
    unfolding execute_opcode
    execute_opcode-Anywhere Opcode.li = Moves-Anywhere (li-Next inst)
    execute_opcode-Anywhere Opcode.add = Moves-Anywhere (add-Next inst)
    execute_opcode-Anywhere Opcode.addi = Moves-Anywhere (addi-Next inst)
    execute_opcode-Anywhere Opcode.or = Moves-Anywhere (or-Next inst)
    execute_opcode-Anywhere Opcode.ld_reg = Moves-Anywhere (ld_reg-Next inst)
    execute_opcode-Anywhere Opcode.st = Moves-Anywhere (st-Next inst)
    execute_opcode-Anywhere Opcode.stp = Moves-Anywhere (stp-Next inst)
    execute_opcode-Anywhere Opcode.flush = flush-Anywhere inst
    execute_opcode-Anywhere Opcode.beq = beq-Anywhere inst
    execute_opcode-Anywhere Opcode.j = j-Anywhere inst
    execute_opcode-Anywhere Opcode.clz = Moves-Anywhere (clz-Next inst)
    execute_opcode-Anywhere Opcode.ssat = Moves-Anywhere (ssat-Next inst)
    execute_opcode-Anywhere Opcode.rori = Moves-Anywhere (rori-Next inst)
    execute_opcode-Anywhere Opcode.bext = Moves-Anywhere (bext-Next inst)
    execute_opcode-Anywhere Opcode.syscall = syscall-Anywhere inst
    execute_opcode-Anywhere Opcode.ld_imm = Moves-Anywhere (ld_imm-Next inst)
    execute_opcode-Anywhere Opcode.invalid = invalid-Anywhere inst

    pub execute_opcode-Next :
        (op : Opcode) → ends_block op ≡ false → Moves Next (execute_opcode host op inst)
    unfolding execute_opcode ends_block
    execute_opcode-Next Opcode.li h = li-Next inst
    execute_opcode-Next Opcode.add h = add-Next inst
    execute_opcode-Next Opcode.addi h = addi-Next inst
    execute_opcode-Next Opcode.or h = or-Next inst
    execute_opcode-Next Opcode.ld_reg h = ld_reg-Next inst
    execute_opcode-Next Opcode.st h = st-Next inst
    execute_opcode-Next Opcode.stp h = stp-Next inst
    execute_opcode-Next Opcode.clz h = clz-Next inst
    execute_opcode-Next Opcode.ssat h = ssat-Next inst
    execute_opcode-Next Opcode.rori h = rori-Next inst
    execute_opcode-Next Opcode.bext h = bext-Next inst
    execute_opcode-Next Opcode.ld_imm h = ld_imm-Next inst
    execute_opcode-Next Opcode.flush h = absurd (cc)
    execute_opcode-Next Opcode.beq h = absurd (cc)
    execute_opcode-Next Opcode.j h = absurd (cc)
    execute_opcode-Next Opcode.syscall h = absurd (cc)
    execute_opcode-Next Opcode.invalid h = absurd (cc)
