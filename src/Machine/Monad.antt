-- ===== src/Machine/Monad.antt =====
-- Methods of the machine: what they return or throw, and the context that they leave behind.
use toy_isa_v1_5_interpreter.Base.{
  ℕ, ◌+◌, ◌≡◌, refl, Option, none, some, get_elem?, set, length, ltb, if◌then◌else◌, u32,
}
use toy_isa_v1_5_interpreter.BitUtils.{instruction_size}
use toy_isa_v1_5_interpreter.Checked.{ErrorCode, Checked, ok, fail}
use toy_isa_v1_5_interpreter.Instruction.{Instruction}
use toy_isa_v1_5_interpreter.Memory.{read32, write32}
use toy_isa_v1_5_interpreter.Machine.{Context}
use mathlib.Core.Path.{fun_ext}

pub data Exception : Type 0 where
  simulation : ErrorCode → Exception
  runtime_error : Exception

-- `undefined` is what C++ leaves undefined (an index out of range, a null pointer); `diverged` is
-- a loop that has used up its fuel.
pub data Outcome (A : Type 0) : Type 0 where
  returned : A → Context → Outcome A
  thrown : Exception → Context → Outcome A
  undefined diverged : Outcome A

abbrev pub M : Type 0 → Type 0
M A = Context → Outcome A

abbrev pub pure : {A : Type 0} → A → M A
pure a c = returned a c

abbrev pub bind_outcome : {A B : Type 0} → Outcome A → (A → M B) → Outcome B
bind_outcome (returned a c) f = f a c
bind_outcome (thrown e c) f = thrown e c
bind_outcome undefined f = undefined
bind_outcome diverged f = diverged

infixl 5 ◌>>=◌ ◌>>◌
abbrev pub ◌>>=◌ : {A B : Type 0} → M A → (A → M B) → M B
◌>>=◌ m f c = bind_outcome (m c) f

abbrev pub ◌>>◌ : {A B : Type 0} → M A → M B → M B
m >> k = m >>= λ _. k

bind_outcome-pure : {A : Type 0} (r : Outcome A) → bind_outcome r pure ≡ r
bind_outcome-pure (returned a c) = refl
bind_outcome-pure (thrown e c) = refl
bind_outcome-pure undefined = refl
bind_outcome-pure diverged = refl

pub bind-pure : {A : Type 0} (m : M A) → (m >>= pure) ≡ m
bind-pure m = fun_ext λ c. bind_outcome-pure (m c)

-- A value that must be there.
abbrev pub or_undefined : {A : Type 0} → Option A → M A
or_undefined none c = undefined
or_undefined (some a) c = returned a c

abbrev pub lift_checked : {A : Type 0} → Checked A → M A
lift_checked (ok a) c = returned a c
lift_checked (fail e) c = thrown (simulation e) c

-- `Instruction.Operands[index].Value`
unfoldable pub operand : Instruction → ℕ → M ℕ
operand inst index = or_undefined (get_elem? inst.operands index) >>= λ o. pure o.value

-- `Cpu.Registers[index]`, read and written
unfoldable pub get_register : ℕ → M ℕ
get_register index c = or_undefined (get_elem? c.cpu.registers index) c

unfoldable pub set_register : ℕ → ℕ → M (Unit {0})
set_register index value c =
    if ltb index (length c.cpu.registers)
    then returned tt
        (record c { cpu = record (c.cpu) { registers = set c.cpu.registers index value } })
    else undefined

unfoldable pub get_pc : M ℕ
get_pc c = returned c.cpu.pc c

unfoldable pub set_pc : ℕ → M (Unit {0})
set_pc pc c = returned tt (record c { cpu = record (c.cpu) { pc = pc } })

-- `Cpu.PC += TI32::INSTRUCTION_SIZE`
unfoldable pub advance_pc : M (Unit {0})
advance_pc c =
    returned tt (record c { cpu = record (c.cpu) { pc = u32 (c.cpu.pc + instruction_size) } })

-- `Context.memory().read32(Address)` and `write32(Address, Value)`
unfoldable pub load_word : ℕ → M ℕ
load_word address c = lift_checked (read32 c.memory address) c

unfoldable pub store_word : ℕ → ℕ → M (Unit {0})
store_word address value c =
    (lift_checked (write32 c.memory address value) >>= λ memory c'.
    returned tt (record c' { memory = memory }))
      c
