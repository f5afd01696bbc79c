-- ===== src/Jit/Native/Finish.antt =====
-- How native code leaves a block, for the end of `compileBlock` in
-- src/execution_type/jit_executor.cpp.
use toy_isa_v1_5_interpreter.Base.{
  ℕ, ◌≡◌, refl, List, [], ◌∷◌, Bool, some, Option-cases, inl, inr, if◌then◌else◌, ◌==◌,
}
use toy_isa_v1_5_interpreter.Instruction.{Opcode, Instruction}
use toy_isa_v1_5_interpreter.Machine.{Context, fault}
use toy_isa_v1_5_interpreter.Machine.Monad.{
  Outcome, returned, thrown, undefined, diverged, or_undefined,
}
use toy_isa_v1_5_interpreter.BlockCache.{find}
use toy_isa_v1_5_interpreter.Syscall.{Host}
use toy_isa_v1_5_interpreter.Jit.Ir.{
  IrNode, load, return, jit_entry_at, Builder, Build, ◌>>=◌, ◌>>◌, pure, emit,
}
use toy_isa_v1_5_interpreter.Jit.Meaning.{Values, status_byte, active, run_nodes}
use toy_isa_v1_5_interpreter.Jit.Encode.{encode_pc}
use toy_isa_v1_5_interpreter.Jit.Compile.{updates_pc, encode_next_of}
use toy_isa_v1_5_interpreter.Jit.Native.{lookups, extend, at_pc, IsReady}

-- The entry in the slot of the program counter.
abbrev pub enter : Context → Outcome ℕ
enter c = or_undefined (find c.cpu.pc c.block_cache.jit_entries) c

-- What native code makes of an instruction that has returned, the last of its block.
abbrev pub native_end : Opcode → Context → Outcome ℕ
native_end Opcode.flush c = returned 0 c
native_end Opcode.syscall c =
    let on = enter c in if status_byte c.state.status == 0 then on else returned 0 c
native_end _ c = enter c

-- What native code makes of the outcome of the last instruction; `pc` is the program counter with
-- which the block was entered.
abbrev pub finish : Opcode → ℕ → Outcome (Unit {0}) → Outcome ℕ
finish op pc (returned a c) = native_end op c
finish op pc (thrown e c) =
    returned 0 (record (at_pc (if updates_pc op then c.cpu.pc else pc) c) { state = fault c.state })
finish op pc undefined = undefined
finish op pc diverged = diverged

abbrev pub slotted : List (ℕ × ℕ) → Builder → Builder
slotted slots b = record b { jit_entries = slots }

-- The nodes that `m` adds to a builder are the rest of a block, and give `result`.
pub record Finishes (host : Host) (m : Build (Unit {0})) (b : Builder)
    (result : Context → Outcome ℕ) : Type 0 where
  pub code : List IrNode
  pub slots : List (ℕ × ℕ)
  pub built : m b ≡ some (tt, slotted slots (extend code b))
  pub runs :
      (f : Values) (s : Bool) (d : Context)
      → IsReady d
      → run_nodes host code active b.count f s d ≡ result d

-- The end of `compileBlock` behind the last instruction `inst`, which stands at `address`.
abbrev pub ending : Opcode → Instruction → ℕ → ℕ → Build (Unit {0})
ending op inst address end_address =
    (if updates_pc op then pure tt else encode_pc end_address)
    >> (encode_next_of op inst address end_address >>= λ next. emit (return next) >> pure tt)

pub enters :
    (host : Host) (n address : ℕ) (f : Values) (s : Bool) (d : Context)
    → run_nodes host (load (jit_entry_at address) ∷ return n ∷ []) active n f s d
      ≡ or_undefined (find address d.block_cache.jit_entries) d
unfolding run_nodes
enters host n address f s d = elim (Option-cases (find address d.block_cache.jit_entries)) [
  | inl gone ↦ rw gone refl
  | inr (entry, e) ↦ simp (e, lookups)
]
