-- ===== src/Safety/Invariant.antt =====
-- A valid context: 32 registers and a program counter that are 32-bit words, memory made of bytes
-- and smaller than 2^32, and a cache that holds blocks as the decoder makes them. The rules below
-- are for methods that, from a valid context, return or throw with a valid one.
use mathlib.Core.Option.{some-injective}
use toy_isa_v1_5_interpreter.Base.{
  ℕ, zero, suc, subst, ◌^◌, ◌<◌, ◌≡◌, refl, arith, some, List, [], ◌∷◌, All, All-get_or, All-set,
  length, get_elem?, length-set, get_elem?-eq-get_or, lt→ltb, ◌∙◌, sym, ap, Bool, true, false,
  if◌then◌else◌,
}
use toy_isa_v1_5_interpreter.Checked.{Checked, ok, fail}
use toy_isa_v1_5_interpreter.BitUtils.{encode_little_endian_word}
use toy_isa_v1_5_interpreter.Instruction.{Instruction, Operand}
use toy_isa_v1_5_interpreter.Decoder.Shape.{OperandKind, register, below, HasKind, HaveKinds}
use toy_isa_v1_5_interpreter.Memory.{Memory, size, read32, write32, store_bytes}
use toy_isa_v1_5_interpreter.Memory.Access.{IsByte}
use toy_isa_v1_5_interpreter.Memory.Bytes.{
  length-store_bytes, All-store_bytes, encode_little_endian_word-bytes,
}
use toy_isa_v1_5_interpreter.Memory.ReadWrite.{write32_returns}
use toy_isa_v1_5_interpreter.Machine.{BasicBlock, Context}
use toy_isa_v1_5_interpreter.Machine.Monad.{
  M, Outcome, returned, thrown, undefined, diverged, pure, bind_outcome, ◌>>=◌, ◌>>◌, lift_checked,
  operand, get_register, set_register, get_pc, set_pc, advance_pc, load_word, store_word,
}
use toy_isa_v1_5_interpreter.BlockCache.Blocks.{IsBlock, read32-lt}

abbrev pub IsWord : ℕ → Type 0
IsWord w = w < 2 ^ 32

-- An entry of the cache.
abbrev pub IsEntry : ℕ × BasicBlock → Type 0
IsEntry (key, block) = (block.start_address ≡ key) × IsBlock block.instructions

pub record IsValidMemory (memory : Memory) : Type 0 where
  pub bytes : All IsByte memory.bytes
  pub small : size memory < 2 ^ 32

pub record IsValid (c : Context) : Type 0 where
  pub register_count : length c.cpu.registers ≡ 32
  pub registers : All IsWord c.cpu.registers
  pub pc : IsWord c.cpu.pc
  pub memory : IsValidMemory c.memory
  pub blocks : All IsEntry c.block_cache.blocks

-- The outcome is valid, and a result that is returned meets `P`.
abbrev pub Ends : {A : Type 0} → (A → Type 0) → Outcome A → Type 0
Ends P (returned a c) = IsValid c × P a
Ends P (thrown e c) = IsValid c
Ends P undefined = ⊥
Ends P diverged = ⊥

pub record Runs {A : Type 0} (m : M A) (P : A → Type 0) : Type 0 where
  pub at : (c : Context) → IsValid c → Ends P (m c)

-- For a method whose result says nothing.
abbrev pub Keeps : M (Unit {0}) → Type 0
Keeps m = Runs m (λ _. Unit)

module _ {A B : Type 0} {P : A → Type 0} {Q : B → Type 0} where
  Ends-bind :
      (r : Outcome A) (k : A → M B)
      → Ends P r
      → ((a : A) → P a → Runs (k a) Q)
      → Ends Q (bind_outcome r k)
  Ends-bind (returned a c) k h f = (f a h.1).at c h.0
  Ends-bind (thrown e c) k h f = h
  Ends-bind undefined k h f = h
  Ends-bind diverged k h f = h

  pub Runs-bind :
      {m : M A} {k : A → M B} → Runs m P → ((a : A) → P a → Runs (k a) Q) → Runs (m >>= k) Q
  Runs-bind {m} {k} h f = record { at = λ c v. Ends-bind (m c) k (h.at c v) f }

pub Runs-then :
    {B : Type 0} {Q : B → Type 0} {m : M (Unit {0})} {n : M B}
    → Keeps m
    → Runs n Q
    → Runs (m >> n) Q
Runs-then h f = Runs-bind h (λ _ _. f)

pub Runs-pure : {A : Type 0} {P : A → Type 0} (a : A) → P a → Runs (pure a) P
Runs-pure a p = record { at = λ c v. (v, p) }

pub Runs-if :
    {A : Type 0} {P : A → Type 0} {m n : M A} (b : Bool)
    → Runs m P
    → Runs n P
    → Runs (if b then m else n) P
Runs-if true h k = h
Runs-if false h k = k

-- The value of an operand of a kind.
abbrev pub InKind : OperandKind → ℕ → Type 0
InKind register v = v < 32
InKind (below bound) v = v < bound

HasKind-InKind : (k : OperandKind) (o : Operand) → HasKind k o → InKind k o.value
HasKind-InKind register o h = h.1
HasKind-InKind (below bound) o h = h.1

HaveKinds-get_elem? :
    (ks : List OperandKind) (os : List Operand) (i : ℕ) {k : OperandKind}
    → HaveKinds ks os
    → get_elem? ks i ≡ some k
    → (o : Operand) × (get_elem? os i ≡ some o) × InKind k o.value
HaveKinds-get_elem? [] os i h e = absurd (cc)
HaveKinds-get_elem? (k' ∷ ks) [] i h e = absurd h
HaveKinds-get_elem? (k' ∷ ks) (o ∷ os) zero h e = (
  o,
  refl,
  subst (λ (k : OperandKind). InKind k o.value) (some-injective k' _ e) (HasKind-InKind k' o h.0),
)
HaveKinds-get_elem? (k' ∷ ks) (o ∷ os) (suc i) h e = HaveKinds-get_elem? ks os i h.1 e

pub operand-Runs :
    (ks : List OperandKind) (inst : Instruction)
    → HaveKinds ks inst.operands
    → (i : ℕ) {k : OperandKind} → get_elem? ks i ≡ some k
    → Runs (operand inst i) (InKind k)
unfolding operand
operand-Runs ks inst h i e = record {
  at = λ c v. let (o, p, q) = HaveKinds-get_elem? ks inst.operands i h e in rw p (v, q);
}

pub get_register-Runs : (i : ℕ) → i < 32 → Runs (get_register i) IsWord
unfolding get_register
get_register-Runs i h = record {
  at = λ c v.
      rw (get_elem?-eq-get_or c.cpu.registers i 0 (rw (v.register_count) h))
        (v, All-get_or IsWord c.cpu.registers i 0 v.registers (omega arith));
}

pub set_register-Keeps : (i w : ℕ) → i < 32 → IsWord w → Keeps (set_register i w)
unfolding set_register
set_register-Keeps i w h fits = record {
  at = λ c v. rw (lt→ltb i (length c.cpu.registers) (rw v.register_count h)) (
    record {
      register_count = length-set c.cpu.registers i w ∙ v.register_count;
      registers = All-set IsWord c.cpu.registers i w v.registers fits;
      pc = v.pc;
      memory = v.memory;
      blocks = v.blocks;
    },
    tt,
  );
}

pub get_pc-Runs : Runs get_pc IsWord
unfolding get_pc
get_pc-Runs = record { at = λ c v. (v, v.pc) }

pub set_pc-Keeps : (pc : ℕ) → IsWord pc → Keeps (set_pc pc)
unfolding set_pc
set_pc-Keeps pc h = record {
  at = λ c v. (
    record {
      register_count = v.register_count;
      registers = v.registers;
      pc = h;
      memory = v.memory;
      blocks = v.blocks;
    },
    tt,
  );
}

pub advance_pc-Keeps : Keeps advance_pc
unfolding advance_pc
advance_pc-Keeps = record {
  at = λ c v. (
    record {
      register_count = v.register_count;
      registers = v.registers;
      pc = omega arith;
      memory = v.memory;
      blocks = v.blocks;
    },
    tt,
  );
}

pub lift_checked-Runs :
    {A : Type 0} {P : A → Type 0} (r : Checked A)
    → ((a : A) → r ≡ ok a → P a)
    → Runs (λ c. lift_checked r c) P
lift_checked-Runs (ok a) h = record { at = λ c v. (v, h a refl) }
lift_checked-Runs (fail e) h = record { at = λ c v. v }

pub with_memory-IsValid :
    {c : Context} (memory : Memory)
    → IsValidMemory memory
    → IsValid c
    → IsValid (record c { memory = memory })
with_memory-IsValid memory h v = record {
  register_count = v.register_count;
  registers = v.registers;
  pc = v.pc;
  memory = h;
  blocks = v.blocks;
}

pub load_word-Runs : (address : ℕ) → IsWord address → Runs (load_word address) IsWord
unfolding load_word
load_word-Runs address h = record {
  at = λ c v.
      (lift_checked-Runs (read32 c.memory address)
          (λ w e. read32-lt c.memory address v.memory.bytes h e)).at
        c v;
}

pub store_bytes-IsValidMemory :
    (memory : Memory) (address : ℕ) (new : List ℕ) (memory' : Memory)
    → All IsByte new
    → memory'.bytes ≡ store_bytes memory.bytes address new
    → IsValidMemory memory
    → IsValidMemory memory'
store_bytes-IsValidMemory memory address new memory' h e v = record {
  bytes = subst (All IsByte) (sym e) (All-store_bytes IsByte memory.bytes address new v.bytes h);
  small = omega (arith, ap length e, length-store_bytes memory.bytes address new, v.small);
}

write32-IsValidMemory :
    (memory memory' : Memory) (address value : ℕ)
    → IsWord address
    → write32 memory address value ≡ ok memory'
    → IsValidMemory memory
    → IsValidMemory memory'
write32-IsValidMemory memory memory' address value h e v =
    store_bytes-IsValidMemory memory address (encode_little_endian_word value) memory'
      (encode_little_endian_word-bytes value)
      (write32_returns memory memory' address value h e).stored v

pub store_word-Keeps : (address value : ℕ) → IsWord address → Keeps (store_word address value)
unfolding store_word
store_word-Keeps address value h = record {
  at = λ c v.
      (Runs-bind {P = IsValidMemory}
          (lift_checked-Runs (write32 c.memory address value)
            (λ memory e. write32-IsValidMemory c.memory memory address value h e v.memory))
          (λ memory m. record { at = λ c' v'. (with_memory-IsValid memory m v', tt) })).at
        c v;
}
