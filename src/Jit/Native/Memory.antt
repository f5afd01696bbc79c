-- ===== src/Jit/Native/Memory.antt =====
-- The instructions that read or write memory, which native code leaves to helpers.
use toy_isa_v1_5_interpreter.Base.{
  ℕ, Option, none, some, get_elem?, ◌+◌, ◌≡◌, refl, List, [], ◌∷◌, ◌++◌, inl, inr, u32,
}
use toy_isa_v1_5_interpreter.Checked.{Checked-cases}
use toy_isa_v1_5_interpreter.Instruction.{Opcode, Operand, ThreadedHandler, Instruction}
use toy_isa_v1_5_interpreter.Memory.{Memory, read32, write32}
use toy_isa_v1_5_interpreter.Machine.{Context, fault}
use toy_isa_v1_5_interpreter.Machine.Monad.{
  Exception, or_undefined, get_register, simulation, returned, thrown, operand, advance_pc,
  load_word, store_word,
}
use toy_isa_v1_5_interpreter.Decoder.Shape.{operand_kinds, HaveKinds}
use toy_isa_v1_5_interpreter.Executor.{execute_ld_reg, execute_ld_imm, execute_st, execute_stp}
use toy_isa_v1_5_interpreter.Safety.Arith.{u32-IsWord}
use toy_isa_v1_5_interpreter.Safety.Invariant.{IsWord, IsValid, load_word-Runs, store_word-Keeps}
use toy_isa_v1_5_interpreter.Syscall.{Host}
use toy_isa_v1_5_interpreter.Jit.Ir
use toy_isa_v1_5_interpreter.Jit.Ir.{
  IrNode, load, store, const, add, ne, branch, if_true, if_false, return, call_read_memory,
  call_write_memory, register_at, status_at, Builder,
}
use toy_isa_v1_5_interpreter.Jit.Helpers.{execute_helper, read_memory32, write_memory32}
use toy_isa_v1_5_interpreter.Jit.Meaning.{run_nodes}
use toy_isa_v1_5_interpreter.Jit.Encode.{
  encode_exit_if_stopped, encode_ld_reg, encode_ld_imm, encode_st, encode_stp,
}
use toy_isa_v1_5_interpreter.Jit.Native.{
  lookups, IsReady, Translates, at_pc, get_register-reads, set_register-writes,
}

-- A word is read alike at any program counter.
data Loads (w : ℕ) (d : Context) (a : ℕ) : Type 0 where
  loaded :
      (v : ℕ)
      → IsWord v
      → read_memory32 w d ≡ returned v d
      → load_word w (at_pc a d) ≡ returned v (at_pc a d)
      → Loads w d a
  failed :
      (e : Exception)
      → read_memory32 w d ≡ returned 0 (record d { state = fault d.state })
      → load_word w (at_pc a d) ≡ thrown e (at_pc a d)
      → Loads w d a

load_word-Loads : (w a : ℕ) (d : Context) → IsWord w → IsValid d → Loads w d a
unfolding read_memory32 execute_helper load_word
load_word-Loads w a d word valid = elim (Checked-cases (read32 d.memory w)) [
  | inl (v, e) ↦ loaded v (rw e at ((load_word-Runs w word).at d valid)).1 (rw e refl) (rw e refl)
  | inr (error, e) ↦ failed (simulation error) (rw e refl) (rw e refl)
]

abbrev with_memory : Memory → Context → Context
with_memory memory d = record d { memory = memory }

-- A word is written alike at any program counter.
data Stores (w v : ℕ) (d : Context) (a : ℕ) : Type 0 where
  stored :
      (memory : Memory)
      → IsReady (with_memory memory d)
      → write_memory32 w v d ≡ returned tt (with_memory memory d)
      → store_word w v (at_pc a d) ≡ returned tt (with_memory memory (at_pc a d))
      → Stores w v d a
  failed :
      (e : Exception)
      → write_memory32 w v d ≡ returned tt (record d { state = fault d.state })
      → store_word w v (at_pc a d) ≡ thrown e (at_pc a d)
      → Stores w v d a

store_word-Stores : (w v a : ℕ) (d : Context) → IsWord w → IsReady d → Stores w v d a
unfolding write_memory32 execute_helper store_word
store_word-Stores w v a d word ready = elim (Checked-cases (write32 d.memory w v)) [
  | inl (memory, e) ↦
      let valid = (rw e at ((store_word-Keeps w v word).at d ready.valid)).0 in
      stored memory (record { valid = valid; running = ready.running }) (rw e refl) (rw e refl)
  | inr (error, e) ↦ failed (simulation error) (rw e refl) (rw e refl)
]

or_undefined-move :
    (o : Option ℕ) (v : ℕ) (c d : Context)
    → or_undefined o c ≡ returned v c
    → or_undefined o d ≡ returned v d
or_undefined-move none v c d h = absurd (cc)
or_undefined-move (some w) v c d h = let e : w ≡ v = cc in rw e refl

-- A write of memory leaves the registers alone.
get_register-with_memory :
    (r v : ℕ) (memory : Memory) (d : Context)
    → get_register r d ≡ returned v d
    → get_register r (with_memory memory d) ≡ returned v (with_memory memory d)
unfolding get_register
get_register-with_memory r v memory d h =
    or_undefined-move (get_elem? d.cpu.registers r) v d (with_memory memory d) h

-- The nodes of `encodeExitIfStopped`, the first of which has the number `n`.
abbrev pub exit_nodes : ℕ → List IrNode
exit_nodes n =
    load status_at
    ∷ const 0
    ∷ ne n (n + 1)
    ∷ branch (n + 1 + 1)
    ∷ if_true (n + 1 + 1 + 1)
    ∷ const 0
    ∷ return (n + 1 + 1 + 1 + 1 + 1)
    ∷ if_false (n + 1 + 1 + 1)
    ∷ []

module _ (host : Host) (handler : ThreadedHandler) (b : Builder) (address : ℕ) where
  abbrev inst : Opcode → List Operand → Instruction
  inst op operands = record { op_code = op; operands = operands; threaded_handler = handler }

  pub ld_reg-Translates :
      (x y z : Operand)
      → HaveKinds (operand_kinds Opcode.ld_reg) (x ∷ y ∷ z ∷ [])
      → let i = inst Opcode.ld_reg (x ∷ y ∷ z ∷ []) in
        Translates host (encode_ld_reg i) b (execute_ld_reg i) address
  unfolding encode_ld_reg execute_ld_reg Ir.operand Ir.emit run_nodes operand advance_pc
      encode_exit_if_stopped fault
  ld_reg-Translates x y z h = record {
    code =
        load (register_at y.value)
        ∷ load (register_at z.value)
        ∷ add b.count (b.count + 1)
        ∷ call_read_memory (b.count + 1 + 1)
        ∷ (exit_nodes (b.count + 1 + 1 + 1 + 1)
            ++ store (register_at x.value) (b.count + 1 + 1 + 1) ∷ []);
    built = refl;
    runs = λ rest s next go f d ready.
        let (v, v-word, e, e') = get_register-reads y.value address d h.1.0.1 ready.valid in
        let (w, w-word, e1, e1') = get_register-reads z.value address d h.1.1.0.1 ready.valid in
        elim (load_word-Loads (u32 (v + w)) address d (u32-IsWord (v + w)) ready.valid) [
          | loaded r word e2 e2' ↦
              let (e3, e3', ready') = set_register-writes x.value r address d h.0.1 word ready in
              simp (e, e', e1, e1', lookups, e2, e2', ready.running, e3, e3') (go _ _ ready')
          | Loads.failed error e2 e2' ↦ simp (e, e', e1, e1', lookups, e2, e2')
        ];
  }

  pub ld_imm-Translates :
      (x y z : Operand)
      → HaveKinds (operand_kinds Opcode.ld_imm) (x ∷ y ∷ z ∷ [])
      → let i = inst Opcode.ld_imm (x ∷ y ∷ z ∷ []) in
        Translates host (encode_ld_imm i) b (execute_ld_imm i) address
  unfolding encode_ld_imm execute_ld_imm Ir.operand Ir.emit run_nodes operand advance_pc
      encode_exit_if_stopped fault
  ld_imm-Translates x y z h = record {
    code =
        load (register_at y.value)
        ∷ const z.value
        ∷ add b.count (b.count + 1)
        ∷ call_read_memory (b.count + 1 + 1)
        ∷ (exit_nodes (b.count + 1 + 1 + 1 + 1)
            ++ store (register_at x.value) (b.count + 1 + 1 + 1) ∷ []);
    built = refl;
    runs = λ rest s next go f d ready.
        let (v, v-word, e, e') = get_register-reads y.value address d h.1.0.1 ready.valid in
        elim (load_word-Loads (u32 (v + z.value)) address d (u32-IsWord (v + z.value))
          ready.valid) [
            | loaded r word e2 e2' ↦
                let (e3, e3', ready') = set_register-writes x.value r address d h.0.1 word ready in
                simp (e, e', lookups, e2, e2', ready.running, e3, e3') (go _ _ ready')
            | Loads.failed error e2 e2' ↦ simp (e, e', lookups, e2, e2')
          ];
  }

  pub st-Translates :
      (x y z : Operand)
      → HaveKinds (operand_kinds Opcode.st) (x ∷ y ∷ z ∷ [])
      → let i = inst Opcode.st (x ∷ y ∷ z ∷ []) in
        Translates host (encode_st i) b (execute_st i) address
  unfolding encode_st execute_st Ir.operand Ir.emit run_nodes operand advance_pc
      encode_exit_if_stopped fault
  st-Translates x y z h = record {
    code =
        load (register_at y.value)
        ∷ const z.value
        ∷ add b.count (b.count + 1)
        ∷ load (register_at x.value)
        ∷ call_write_memory (b.count + 1 + 1) (b.count + 1 + 1 + 1)
        ∷ exit_nodes (b.count + 1 + 1 + 1 + 1 + 1);
    built = refl;
    runs = λ rest s next go f d ready.
        let (v, v-word, e, e') = get_register-reads y.value address d h.1.0.1 ready.valid in
        let (w, w-word, e1, e1') = get_register-reads x.value address d h.0.1 ready.valid in
        elim (store_word-Stores (u32 (v + z.value)) w address d (u32-IsWord (v + z.value)) ready) [
          | stored memory ready' e2 e2' ↦
              simp (e, e', e1, e1', lookups, e2, e2', ready.running) (go _ _ ready')
          | Stores.failed error e2 e2' ↦ simp (e, e', e1, e1', lookups, e2, e2')
        ];
  }

  pub stp-Translates :
      (x1 x2 y z : Operand)
      → HaveKinds (operand_kinds Opcode.stp) (x1 ∷ x2 ∷ y ∷ z ∷ [])
      → let i = inst Opcode.stp (x1 ∷ x2 ∷ y ∷ z ∷ []) in
        Translates host (encode_stp i) b (execute_stp i) address
  unfolding encode_stp execute_stp Ir.operand Ir.emit run_nodes operand advance_pc
      encode_exit_if_stopped fault
  stp-Translates x1 x2 y z h = record {
    code =
        load (register_at y.value)
        ∷ const z.value
        ∷ add b.count (b.count + 1)
        ∷ const 4
        ∷ add (b.count + 1 + 1) (b.count + 1 + 1 + 1)
        ∷ load (register_at x1.value)
        ∷ load (register_at x2.value)
        ∷ call_write_memory (b.count + 1 + 1) (b.count + 1 + 1 + 1 + 1 + 1)
        ∷ (exit_nodes (b.count + 1 + 1 + 1 + 1 + 1 + 1 + 1 + 1)
            ++ call_write_memory (b.count + 1 + 1 + 1 + 1) (b.count + 1 + 1 + 1 + 1 + 1 + 1)
              ∷ exit_nodes
                  (b.count + 1 + 1 + 1 + 1 + 1 + 1 + 1 + 1 + 1 + 1 + 1 + 1 + 1 + 1 + 1 + 1 + 1));
    built = refl;
    runs = λ rest s next go f d ready.
        let (v, v-word, e, e') = get_register-reads y.value address d h.1.1.0.1 ready.valid in
        let (w1, w1-word, e1, e1') = get_register-reads x1.value address d h.0.1 ready.valid in
        let (w2, w2-word, e2, e2') = get_register-reads x2.value address d h.1.0.1 ready.valid in
        let base : ℕ = u32 (v + z.value) in
        elim (store_word-Stores base w1 address d (u32-IsWord (v + z.value)) ready) [
          | stored memory ready' e3 e3' ↦
              let e5 = get_register-with_memory x2.value w2 memory (at_pc address d) e2' in
              elim (store_word-Stores (u32 (base + 4)) w2 address (with_memory memory d)
                (u32-IsWord (base + 4)) ready') [
                  | stored memory' ready'' e4 e4' ↦
                      simp (e, e', e1, e1', e2, lookups, e3, e3', e5, e4, e4', ready.running)
                        (go _ _ ready'')
                  | Stores.failed error e4 e4' ↦
                      simp (e, e', e1, e1', e2, lookups, e3, e3', e5, e4, e4', ready.running)
                ]
          | Stores.failed error e3 e3' ↦ simp (e, e', e1, e1', e2, lookups, e3, e3')
        ];
  }
