-- ===== src/Jit/Native/Last.antt =====
-- The last instruction of a block with what `compileBlock` of src/execution_type/jit_executor.cpp
-- builds behind it.
use toy_isa_v1_5_interpreter.Base.{
  ℕ, ◌+◌, ◌^◌, ◌≡◌, refl, sym, ◌∙◌, ap, List, [], ◌∷◌, ◌++◌, Bool, false, Option, Option-cases, inl,
  inr, some, u32,
}
use toy_isa_v1_5_interpreter.Instruction.{Opcode, Operand, ThreadedHandler, Instruction}
use toy_isa_v1_5_interpreter.Machine.{Context}
use toy_isa_v1_5_interpreter.Machine.Monad.{Outcome, returned, thrown, undefined, diverged}
use toy_isa_v1_5_interpreter.Decoder.Shape.{below, register, word, operand_kinds, HaveKinds}
use toy_isa_v1_5_interpreter.BlockCache.{ends_block, find, emplace}
use toy_isa_v1_5_interpreter.Engine.{execute_opcode}
use toy_isa_v1_5_interpreter.Safety.Faults.{After, Next}
use toy_isa_v1_5_interpreter.Safety.Faults.Ends.{execute_opcode-Next}
use toy_isa_v1_5_interpreter.Syscall.{Host}
use toy_isa_v1_5_interpreter.Jit.Ir
use toy_isa_v1_5_interpreter.Jit.Ir.{
  IrNode, load, store, const, return, jit_entry_at, pc_at, Builder, Build, ◌>>=◌, ◌>>◌, pure, emit,
}
use toy_isa_v1_5_interpreter.Jit.Meaning.{Values, active, run_nodes}
use toy_isa_v1_5_interpreter.Jit.Encode.{encode_opcode, encode_pc}
use toy_isa_v1_5_interpreter.Jit.Compile.{updates_pc, encode_next_of, encode_jit_entry_load}
use toy_isa_v1_5_interpreter.Jit.Native.{lookups, extend, at_pc, follow, Translates}
use toy_isa_v1_5_interpreter.Jit.Native.Finish.{enter, finish, ending, Finishes}
use toy_isa_v1_5_interpreter.Jit.Native.Inner.{none_of, one_of, three_of, encode_opcode-Translates}
use toy_isa_v1_5_interpreter.Jit.Native.Ends.{
  j-Finishes, flush-Finishes, invalid-Finishes, syscall-Finishes,
}
use toy_isa_v1_5_interpreter.Jit.Native.Branch.{beq-Finishes}

pub extend-append : (c d : List IrNode) (b : Builder) → extend (c ++ d) b ≡ extend d (extend c b)
extend-append [] d b = refl
extend-append (node ∷ c) d b = extend-append c d _

pub jit_entries-extend : (c : List IrNode) (b : Builder) → (extend c b).jit_entries ≡ b.jit_entries
jit_entries-extend [] b = refl
jit_entries-extend (node ∷ c) b = jit_entries-extend c _

pub built-then :
    (m k : Build (Unit {0})) (b b' : Builder) {r : Option (Unit {0} × Builder)}
    → m b ≡ some (tt, b')
    → k b' ≡ r
    → (m >> k) b ≡ r
built-then m k b b' h e = rw (◌>>◌, ◌>>=◌, h) e

pub built-then_then :
    (m n k : Build (Unit {0})) (b b' : Builder) {r : Option (Unit {0} × Builder)}
    → m b ≡ some (tt, b')
    → (n >> k) b' ≡ r
    → ((m >> n) >> k) b ≡ r
built-then_then m n k b b' h e = rw (◌>>◌, ◌>>=◌, h) e

-- The encoding of the last instruction: a BEQ is left to `encodeBeq`.
abbrev pub encode_last : Opcode → Instruction → ℕ → Build (Unit {0})
encode_last Opcode.beq inst address = pure tt
encode_last op inst address = encode_opcode op inst address

abbrev pub plain_ending : ℕ → Build (Unit {0})
plain_ending end_address =
    encode_pc end_address
    >> (encode_jit_entry_load end_address >>= λ next. emit (return next) >> pure tt)

ending-inner :
    (op : Opcode) (inst : Instruction) (address end_address : ℕ)
    → ends_block op ≡ false
    → ending op inst address end_address ≡ plain_ending end_address
unfolding ends_block updates_pc encode_next_of
ending-inner Opcode.flush inst address end_address h = absurd (cc)
ending-inner Opcode.beq inst address end_address h = absurd (cc)
ending-inner Opcode.j inst address end_address h = absurd (cc)
ending-inner Opcode.syscall inst address end_address h = absurd (cc)
ending-inner Opcode.invalid inst address end_address h = absurd (cc)
ending-inner _ inst address end_address h = refl

finish-inner :
    (op : Opcode) (pc : ℕ) (c : Context) (r : Outcome (Unit {0}))
    → ends_block op ≡ false
    → After Next c r
    → follow pc r (λ d. enter (at_pc (u32 (c.cpu.pc + 4)) d)) ≡ finish op pc r
unfolding ends_block updates_pc
finish-inner Opcode.flush pc c r h next = absurd (cc)
finish-inner Opcode.beq pc c r h next = absurd (cc)
finish-inner Opcode.j pc c r h next = absurd (cc)
finish-inner Opcode.syscall pc c r h next = absurd (cc)
finish-inner Opcode.invalid pc c r h next = absurd (cc)
finish-inner _ pc c (returned a d) h next = ap (λ (p : ℕ). enter (at_pc p d)) (sym next)
finish-inner _ pc c (thrown e d) h next = refl
finish-inner _ pc c undefined h next = refl
finish-inner _ pc c diverged h next = refl

module _ (host : Host) (handler : ThreadedHandler) (b : Builder) (address : ℕ) where
  abbrev instruction : Opcode → List Operand → Instruction
  instruction op operands = record { op_code = op; operands = operands; threaded_handler = handler }

  abbrev AtEnd : Opcode → List Operand → Type 0
  AtEnd op os =
      let inst = instruction op os in
      Finishes host (encode_last op inst address >> ending op inst address (u32 (address + 4))) b
        (λ d. finish op d.cpu.pc (execute_opcode host op inst (at_pc address d)))

  -- The nodes of `plain_ending`, the first of which has the number `n`.
  abbrev end_nodes : ℕ → List IrNode
  end_nodes n =
      const (u32 (address + 4))
      ∷ store pc_at n
      ∷ load (jit_entry_at (u32 (address + 4)))
      ∷ return (n + 1 + 1)
      ∷ []

  end_nodes-run :
      (n : ℕ) (f : Values) (s : Bool) (d : Context)
      → run_nodes host (end_nodes n) active n f s d ≡ enter (at_pc (u32 (address + 4)) d)
  unfolding run_nodes
  end_nodes-run n f s d = elim (Option-cases (find (u32 (address + 4)) d.block_cache.jit_entries)) [
    | inl gone ↦ simp (gone, lookups)
    | inr (entry, e) ↦ simp (e, lookups)
  ]

  inner-Finishes :
      (op : Opcode) (os : List Operand)
      → ends_block op ≡ false
      → HaveKinds (operand_kinds op) os
      → let inst = instruction op os in
        Finishes host
          (encode_opcode op inst address >> ending op inst address (u32 (address + 4)))
          b
          (λ d. finish op d.cpu.pc (execute_opcode host op inst (at_pc address d)))
  unfolding encode_pc encode_jit_entry_load Ir.emit
  inner-Finishes op os h kinds =
      let inst : Instruction = instruction op os in
      let t : Translates host (encode_opcode op inst address) b (execute_opcode host op inst)
          address =
        encode_opcode-Translates host handler b address op os h kinds in
      let behind : Builder = extend t.code b in
      record {
        code = t.code ++ end_nodes behind.count;
        slots = emplace (u32 (address + 4)) 0 behind.jit_entries;
        built =
            built-then (encode_opcode op inst address) (ending op inst address (u32 (address + 4)))
              b behind t.built
              (rw
                (
                  ending-inner op inst address (u32 (address + 4)) h,
                  extend-append t.code (end_nodes behind.count) b,
                )
                refl);
        runs = λ f s d ready.
            t.runs (end_nodes behind.count) s (λ c. enter (at_pc (u32 (address + 4)) c))
              (λ g c _. end_nodes-run behind.count g s c) f d ready
            ∙ finish-inner op d.cpu.pc (at_pc address d)
                (execute_opcode host op inst (at_pc address d)) h
                ((execute_opcode-Next host inst op h).at (at_pc address d));
      }

  -- The nodes from the last instruction of a block to the return.
  pub last-Finishes :
      (op : Opcode) (os : List Operand) → HaveKinds (operand_kinds op) os → AtEnd op os
  unfolding execute_opcode ends_block
  last-Finishes Opcode.beq os kinds =
      three_of (AtEnd Opcode.beq) register register word (beq-Finishes host handler b address) os
        kinds
  last-Finishes Opcode.j os kinds =
      one_of (AtEnd Opcode.j) (below (2 ^ 26)) (λ x _. j-Finishes host handler b address x) os kinds
  last-Finishes Opcode.syscall os kinds =
      one_of (AtEnd Opcode.syscall) (below (2 ^ 20))
        (λ x _. syscall-Finishes host handler b address x) os kinds
  last-Finishes Opcode.flush os kinds =
      none_of (AtEnd Opcode.flush) os kinds (flush-Finishes host handler b address)
  last-Finishes Opcode.invalid os kinds =
      none_of (AtEnd Opcode.invalid) os kinds (invalid-Finishes host handler b address)
  last-Finishes Opcode.li os kinds = inner-Finishes Opcode.li os refl kinds
  last-Finishes Opcode.add os kinds = inner-Finishes Opcode.add os refl kinds
  last-Finishes Opcode.addi os kinds = inner-Finishes Opcode.addi os refl kinds
  last-Finishes Opcode.or os kinds = inner-Finishes Opcode.or os refl kinds
  last-Finishes Opcode.ld_reg os kinds = inner-Finishes Opcode.ld_reg os refl kinds
  last-Finishes Opcode.st os kinds = inner-Finishes Opcode.st os refl kinds
  last-Finishes Opcode.stp os kinds = inner-Finishes Opcode.stp os refl kinds
  last-Finishes Opcode.clz os kinds = inner-Finishes Opcode.clz os refl kinds
  last-Finishes Opcode.ssat os kinds = inner-Finishes Opcode.ssat os refl kinds
  last-Finishes Opcode.rori os kinds = inner-Finishes Opcode.rori os refl kinds
  last-Finishes Opcode.bext os kinds = inner-Finishes Opcode.bext os refl kinds
  last-Finishes Opcode.ld_imm os kinds = inner-Finishes Opcode.ld_imm os refl kinds
