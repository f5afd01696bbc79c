-- ===== src/Safety/Faults.antt =====
-- What an instruction leaves of the registers and the program counter where it throws, and where
-- the program counter stands after it: the rules for src/toy/executor.cpp.
pub mod Instructions
pub mod Ends
pub mod Block
use toy_isa_v1_5_interpreter.Base.{
  ℕ, ◌+◌, ◌≡◌, refl, ap, subst, ◌∙◌, Bool, true, false, ltb, length, Bool-cases, inl, inr, Option,
  none, some, get_elem?, List, ◌==◌, ◌||◌, u32, if◌then◌else◌,
}
use toy_isa_v1_5_interpreter.Checked.{Checked, ok, fail, ErrorCode}
use toy_isa_v1_5_interpreter.Instruction.{Opcode, Operand, Instruction}
use toy_isa_v1_5_interpreter.Memory.{
  Memory, MemoryRange, read32, write32, readable_range, writable_range,
}
use toy_isa_v1_5_interpreter.Machine.{CpuState, Context, ExecutionStatus}
use toy_isa_v1_5_interpreter.Machine.Monad.{
  M, Outcome, returned, thrown, undefined, diverged, simulation, pure, bind_outcome, ◌>>=◌, ◌>>◌,
  or_undefined, lift_checked, operand, get_register, set_register, get_pc, set_pc, advance_pc,
  load_word, store_word,
}
use toy_isa_v1_5_interpreter.BlockCache.{ends_block, flush_instruction_cache}
use toy_isa_v1_5_interpreter.Syscall
use toy_isa_v1_5_interpreter.Syscall.{
  Host, Reply, done, failed, SyscallHandler, handle_read, handle_write, handle_exit,
  handle_read_number, find_handler, host_read, host_write,
}
use toy_isa_v1_5_interpreter.Executor.{
  execute_li, execute_add, execute_addi, execute_or, execute_ld_reg, execute_ld_imm, execute_st,
  execute_stp, execute_flush, execute_beq, execute_j, execute_clz, execute_ssat, execute_rori,
  execute_bext, execute_syscall, execute_invalid, advance_if_running,
}

-- From the registers and the program counter before a method: they are the same where it throws,
-- and meet `R` with those after it where it returns.
abbrev pub After : {A : Type 0} → (CpuState → CpuState → Type 0) → Context → Outcome A → Type 0
After R c (returned a c') = R c.cpu c'.cpu
After R c (thrown e c') = c'.cpu ≡ c.cpu
After R c undefined = Unit
After R c diverged = Unit

pub record Moves {A : Type 0} (R : CpuState → CpuState → Type 0) (m : M A) : Type 0 where
  pub at : (c : Context) → After R c (m c)

abbrev pub Same : CpuState → CpuState → Type 0
Same p q = q ≡ p

abbrev pub Next : CpuState → CpuState → Type 0
Next p q = q.pc ≡ u32 (p.pc + 4)

abbrev pub Stays : CpuState → CpuState → Type 0
Stays p q = q.pc ≡ p.pc

abbrev pub Anywhere : CpuState → CpuState → Type 0
Anywhere p q = Unit

module _ {A B : Type 0} {R : CpuState → CpuState → Type 0} where
  After-bind :
      (c : Context) (r : Outcome A) (k : A → M B)
      → After Same c r
      → ((a : A) → Moves R (k a))
      → After R c (bind_outcome r k)
  After-bind c (returned a c') k h f = shift (k a c') ((f a).at c')
    where
      shift : (s : Outcome B) → After R c' s → After R c s
      shift (returned b d) g = subst (λ (p : CpuState). R p d.cpu) h g
      shift (thrown e d) g = g ∙ h
      shift undefined g = tt
      shift diverged g = tt
  After-bind c (thrown e c') k h f = h
  After-bind c undefined k h f = tt
  After-bind c diverged k h f = tt

  pub after : {m : M A} {k : A → M B} → Moves Same m → ((a : A) → Moves R (k a)) → Moves R (m >>= k)
  after {m} {k} h f = record { at = λ c. After-bind c (m c) k (h.at c) f }

pub Moves-if :
    {A : Type 0} {R : CpuState → CpuState → Type 0} {m n : M A} (b : Bool)
    → Moves R m
    → Moves R n
    → Moves R (if b then m else n)
Moves-if true h k = h
Moves-if false h k = k

or_undefined-Same : {A : Type 0} (o : Option A) → Moves Same (or_undefined o)
or_undefined-Same none = record { at = λ c. tt }
or_undefined-Same (some a) = record { at = λ c. refl }

pub checked-Same : {A : Type 0} (r : Context → Checked A) → Moves Same (λ c. lift_checked (r c) c)
checked-Same r = record { at = λ c. one c (r c) }
  where
    one : {A : Type 0} (c : Context) (s : Checked A) → After Same c (lift_checked s c)
    one c (ok a) = refl
    one c (fail e) = refl

pub operand-Same : (inst : Instruction) (i : ℕ) → Moves Same (operand inst i)
unfolding operand
operand-Same inst i = record { at = λ c. value c (get_elem? inst.operands i) }
  where
    value :
        (c : Context) (o : Option Operand)
        → After Same c (bind_outcome (or_undefined o c) (λ o'. pure o'.value))
    value c none = tt
    value c (some o) = refl

pub get_register-Same : (i : ℕ) → Moves Same (get_register i)
unfolding get_register
get_register-Same i = record { at = λ c. (or_undefined-Same _).at c }

pub load_word-Same : (address : ℕ) → Moves Same (load_word address)
unfolding load_word
load_word-Same address = checked-Same (λ c. read32 c.memory address)

pub store_word-Same : (address value : ℕ) → Moves Same (store_word address value)
unfolding store_word
store_word-Same address value = record { at = λ c. stored c (write32 c.memory address value) }
  where
    stored :
        (c : Context) (r : Checked Memory)
        → After Same c (
            bind_outcome
              (lift_checked r c)
              (λ memory c'. returned tt (record c' { memory = memory })))
    stored c (ok memory) = refl
    stored c (fail e) = refl

-- The last act of most instructions: a result and the next instruction.
pub finish : (r v : ℕ) → Moves Next (set_register r v >> advance_pc)
unfolding set_register advance_pc
finish r v = record {
  at = λ c. elim (Bool-cases (ltb r (length c.cpu.registers))) [
    | inl there ↦ rw there refl
    | inr missing ↦ rw missing tt
  ];
}

pub advance_pc-Next : Moves Next advance_pc
unfolding advance_pc
advance_pc-Next = record { at = λ c. refl }

pub set_register-Stays : (r v : ℕ) → Moves Stays (set_register r v)
unfolding set_register
set_register-Stays r v = record {
  at = λ c. elim (Bool-cases (ltb r (length c.cpu.registers))) [
    | inl there ↦ rw there refl
    | inr missing ↦ rw missing tt
  ];
}
