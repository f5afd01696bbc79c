-- ===== src/Jit/Native.antt =====
-- How the nodes that src/execution_type/jit_executor.cpp builds for an instruction are compared
-- with the executor of this instruction. Native code leaves the program counter alone inside a
-- block, where the interpreters count it up.
pub mod Counting
pub mod Registers
pub mod Finish
pub mod Ends
pub mod Compiled
pub mod Agree
pub mod Block
pub mod Last
pub mod Inner
pub mod Branch
pub mod Memory
use toy_isa_v1_5_interpreter.Base.{
  ℕ, ◌+◌, ◌≡◌, refl, arith, List, [], ◌∷◌, ◌++◌, Bool, true, false, some, Option-cases, inl, inr,
  get_elem?, set, length, ltb, ◌<◌, ◌==◌, ==_refl,
}
use toy_isa_v1_5_interpreter.Machine.{ExecutionStatus, Context, fault}
use toy_isa_v1_5_interpreter.Machine.Monad.{
  M, Outcome, returned, thrown, undefined, diverged, get_register, set_register,
}
use toy_isa_v1_5_interpreter.Syscall.{Host}
use toy_isa_v1_5_interpreter.Safety.Invariant.{
  IsWord, IsValid, get_register-Runs, set_register-Keeps,
}
use toy_isa_v1_5_interpreter.Jit.Ir.{IrNode, load, store, register_at, Builder, Build}
use toy_isa_v1_5_interpreter.Jit.Meaning.{Values, put, active, run_nodes}

-- The builder after some nodes.
abbrev pub extend : List IrNode → Builder → Builder
extend [] b = b
extend (node ∷ nodes) b =
    extend nodes (record b { count = b.count + 1; nodes = b.nodes ++ node ∷ [] })

-- A context in which native code goes on.
pub record IsReady (d : Context) : Type 0 where
  pub valid : IsValid d
  pub running : d.state.status ≡ ExecutionStatus.running

abbrev pub at_pc : ℕ → Context → Context
at_pc pc c = record c { cpu = record (c.cpu) { pc = pc } }

-- What native code makes of the outcome of an executor, from a context with the program counter
-- `pc`: it goes on by `next`, or faults and returns to the caller.
abbrev pub follow : ℕ → Outcome (Unit {0}) → (Context → Outcome ℕ) → Outcome ℕ
follow pc (returned a c) next = next (at_pc pc c)
follow pc (thrown e c) next = returned 0 (record (at_pc pc c) { state = fault c.state })
follow pc undefined next = undefined
follow pc diverged next = diverged

-- The values of nodes in a row.
abbrev pub puts : ℕ → List ℕ → Values → Values
puts n [] f = f
puts n (v ∷ values) f = puts (n + 1) values (put n v f)

pub put_self : (n v : ℕ) (f : Values) → put n v f n ≡ v
unfolding put
put_self n v f = ground arith

pub put_lower : (n v m : ℕ) (f : Values) → m < n → put n v f m ≡ f m
unfolding put
put_lower n v m f h = ground arith

pub lt_1 : (m : ℕ) → m < m + 1
lt_1 m = omega arith

pub lt_2 : (m : ℕ) → m < m + 1 + 1
lt_2 m = omega arith

pub lt_3 : (m : ℕ) → m < m + 1 + 1 + 1
lt_3 m = omega arith

pub lt_4 : (m : ℕ) → m < m + 1 + 1 + 1 + 1
lt_4 m = omega arith

pub lt_over : (m n : ℕ) → m < n → m < n + 1 + 1 + 1 + 1
lt_over m n h = omega arith

pub above : (n m : ℕ) → m < n → (n == m) ≡ false
above n m h = ground arith

pub ruleset lookups = (put_self, put_lower, ==_refl, above, lt_1, lt_2, lt_3, lt_4, lt_over)

abbrev written : ℕ → ℕ → Context → Context
written r v d = record d { cpu = record (d.cpu) { registers = set d.cpu.registers r v } }

-- A register is read alike at any program counter.
pub get_register-reads :
    (r a : ℕ) (d : Context)
    → r < 32
    → IsValid d
    → (v : ℕ) × IsWord v
      × (get_register r d ≡ returned v d)
      × (get_register r (at_pc a d) ≡ returned v (at_pc a d))
unfolding get_register
get_register-reads r a d h valid = elim (Option-cases (get_elem? d.cpu.registers r)) [
  | inl gone ↦ absurd (rw gone at ((get_register-Runs r h).at d valid))
  | inr (v, e) ↦ (v, (rw e at ((get_register-Runs r h).at d valid)).1, rw e refl, rw e refl)
]

-- A write of a register is alike at any program counter.
pub set_register-writes :
    (r v a : ℕ) (d : Context)
    → r < 32
    → IsWord v
    → IsReady d
    → (set_register r v d ≡ returned tt (written r v d))
      × (set_register r v (at_pc a d) ≡ returned tt (written r v (at_pc a d)))
      × IsReady (written r v d)
unfolding set_register
set_register-writes r v a d h word ready =
    let there : ltb r (length d.cpu.registers) ≡ true =
      ground (arith, ready.valid.register_count) in
    let valid : IsValid (written r v d) =
      (rw there at ((set_register-Keeps r v h word).at d ready.valid)).0 in
    (rw there refl, rw there refl, record { valid = valid; running = ready.running })

module _ (host : Host) where
  -- The nodes do `next`, whatever values the nodes before them have.
  abbrev pub Does : List IrNode → ℕ → Bool → (Context → Outcome ℕ) → Type 0
  Does rest n s next =
      (f : Values) (d : Context) → IsReady d → run_nodes host rest active n f s d ≡ next d

  -- The nodes that `m` adds to a builder do what `execute` does at the address.
  pub record Translates (m : Build (Unit {0})) (b : Builder) (execute : M (Unit {0})) (address : ℕ)
      : Type 0 where
    pub code : List IrNode
    pub built : m b ≡ some (tt, extend code b)
    pub runs :
        (rest : List IrNode) (s : Bool) (next : Context → Outcome ℕ)
        → Does rest (extend code b).count s next
        → (f : Values) (d : Context) → IsReady d
        → run_nodes host (code ++ rest) active b.count f s d
          ≡ follow d.cpu.pc (execute (at_pc address d)) next
