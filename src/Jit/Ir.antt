-- ===== src/Jit/Ir.antt =====
-- The IR that src/execution_type/jit_executor.cpp builds. A call of a macro of <ir_builder.h>
-- appends a node, and an `ir_ref` is the number of a node. The addresses that the program puts
-- into the IR are the `Location`s of the context and of the slots of the cache.
use toy_isa_v1_5_interpreter.Base.{ℕ, Option, none, some, List, [], ◌∷◌, ◌++◌, ◌+◌, get_elem?}
use toy_isa_v1_5_interpreter.Instruction.{Opcode, Instruction}

pub data Location : Type 0 where
  register_at jit_entry_at : ℕ → Location
  pc_at status_at : Location

abbrev pub Ref : Type 0
Ref = ℕ

pub data IrNode : Type 0 where
  start param : IrNode
  const : ℕ → IrNode
  load : Location → IrNode
  store : Location → Ref → IrNode
  add or eq ne max_i32 min_i32 ror : Ref → Ref → IrNode
  zext ctlz bitcast : Ref → IrNode
  call_compress_bits call_write_memory : Ref → Ref → IrNode
  call_read_memory : Ref → IrNode
  call_helper : Instruction → Opcode → IrNode
  branch : Ref → IrNode
  if_true if_false : Ref → IrNode
  end : IrNode
  merge : Ref → Ref → IrNode
  phi : Ref → Ref → IrNode
  return : Ref → IrNode

-- The number of the next node, the nodes so far, and the slots that `jitEntrySlot` has made.
pub record Builder : Type 0 where
  pub count : ℕ
  pub nodes : List IrNode
  pub jit_entries : List (ℕ × ℕ)

-- `none` is an operand that is not there.
abbrev pub Build : Type 0 → Type 0
Build A = Builder → Option (A × Builder)

infixl 5 ◌>>=◌ ◌>>◌
abbrev pub ◌>>=◌ : {A B : Type 0} → Build A → (A → Build B) → Build B
◌>>=◌ m f b = elim (m b) [ none ↦ none | some (a, b') ↦ f a b' ]

abbrev pub ◌>>◌ : {A B : Type 0} → Build A → Build B → Build B
m >> k = m >>= λ _. k

abbrev pub pure : {A : Type 0} → A → Build A
pure a b = some (a, b)

unfoldable pub emit : IrNode → Build Ref
emit node b = some (b.count, record b { count = b.count + 1; nodes = b.nodes ++ node ∷ [] })

unfoldable pub operand : Instruction → ℕ → Build ℕ
operand inst index b = elim (get_elem? inst.operands index) [
  | none ↦ none
  | some o ↦ some (o.value, b)
]
