-- ===== src/Jit/Meaning.antt =====
-- What the documentation of the IR library says of the nodes that the program builds: a run of
-- them, from `ir_START` to `ir_RETURN`, on the context into which their addresses point. A value
-- is a word, or the address of native code; a node that has none is given 0.
use toy_isa_v1_5_interpreter.Base.{
  ℕ, ◌+◌, ◌-◌, ◌*◌, ◌/◌, ◌%◌, ◌^◌, Bool, List, [], ◌∷◌, ltb, ◌==◌, if◌then◌else◌, u32, bit_or,
}
use toy_isa_v1_5_interpreter.Machine.{ExecutionStatus}
use toy_isa_v1_5_interpreter.Machine.Monad.{
  M, returned, undefined, pure, ◌>>=◌, ◌>>◌, or_undefined, get_register, set_register, get_pc,
  set_pc,
}
use toy_isa_v1_5_interpreter.BlockCache.{find}
use toy_isa_v1_5_interpreter.Arith.{count_leading_zeros, compress_bits}
use toy_isa_v1_5_interpreter.Syscall.{Host}
use toy_isa_v1_5_interpreter.Jit.Ir.{
  Location, register_at, jit_entry_at, pc_at, status_at, Ref, IrNode, const, load, store, add, or,
  eq, ne, max_i32, min_i32, ror, zext, ctlz, bitcast, call_compress_bits, call_write_memory,
  call_read_memory, call_helper, branch, if_true, if_false, end, merge, phi, return,
}
use toy_isa_v1_5_interpreter.Jit.Helpers.{execute_instruction_helper, read_memory32, write_memory32}

-- The byte of an `ExecutionStatus`.
abbrev pub status_byte : ExecutionStatus → ℕ
status_byte ExecutionStatus.running = 0
status_byte ExecutionStatus.halted = 1
status_byte ExecutionStatus.faulted = 2

unfoldable pub load_from : Location → M ℕ
unfolding get_register get_pc find
load_from (register_at r) = get_register r
load_from pc_at = get_pc
load_from status_at = λ c. returned (status_byte c.state.status) c
load_from (jit_entry_at a) = λ c. or_undefined (find a c.block_cache.jit_entries) c

unfoldable pub store_to : Location → ℕ → M (Unit {0})
unfolding set_register set_pc
store_to (register_at r) v = set_register r v
store_to pc_at v = set_pc v
store_to status_at v = λ c. undefined
store_to (jit_entry_at a) v = λ c. undefined

-- `<` on `int32_t`.
abbrev pub signed_lt : ℕ → ℕ → Bool
signed_lt a b = ltb (u32 (a + 2 ^ 31)) (u32 (b + 2 ^ 31))

abbrev pub Values : Type 0
Values = Ref → ℕ

unfoldable pub put : Ref → ℕ → Values → Values
put n v f r = if r == n then v else f r

-- The value of a node that does not direct the control flow. The count of leading zeros of 0 is
-- left open.
unfoldable pub value_of : Host → IrNode → Values → M ℕ
unfolding load_from store_to execute_instruction_helper read_memory32 write_memory32
value_of host (const v) f = pure v
value_of host (load l) f = load_from l
value_of host (store l a) f = store_to l (f a) >> pure 0
value_of host (add a b) f = pure (u32 (f a + f b))
value_of host (or a b) f = pure (bit_or (f a) (f b))
value_of host (eq a b) f = pure (if f a == f b then 1 else 0)
value_of host (ne a b) f = pure (if f a == f b then 0 else 1)
value_of host (max_i32 a b) f = pure (if signed_lt (f a) (f b) then f b else f a)
value_of host (min_i32 a b) f = pure (if signed_lt (f a) (f b) then f a else f b)
value_of host (ror a b) f = pure (f a % 2 ^ f b * 2 ^ (32 - f b) + f a / 2 ^ f b)
value_of host (zext a) f = pure (f a)
value_of host (ctlz a) f = if f a == 0 then (λ c. undefined) else pure (count_leading_zeros (f a))
value_of host (bitcast a) f = pure (f a)
value_of host (call_compress_bits a b) f = pure (compress_bits (f a) (f b))
value_of host (call_write_memory a b) f = write_memory32 (f a) (f b) >> pure 0
value_of host (call_read_memory a) f = read_memory32 (f a)
value_of host (call_helper inst op) f = execute_instruction_helper host inst op >> pure 0
value_of host (branch a) f = pure (f a)
value_of host _ f = pure 0

-- Where control is: at the next node, or past nodes up to an `IF_FALSE` or a `MERGE`.
pub data Mode : Type 0 where
  active : Mode
  until_false until_merge : Ref → Mode

-- A run of nodes, the first of which has the number `n`; `s` says whether the last `MERGE` was
-- entered by its first end.
unfoldable pub run_nodes : Host → List IrNode → Mode → ℕ → Values → Bool → M ℕ
unfolding value_of
run_nodes host [] mode n f s = λ c. undefined
run_nodes host (if_true r ∷ rest) active n f s =
    let taken = run_nodes host rest active (n + 1) f s in
    let passed = run_nodes host rest (until_false r) (n + 1) f s in
    if f r == 0 then passed else taken
run_nodes host (if_false r ∷ rest) active n f s = λ c. undefined
run_nodes host (end ∷ rest) active n f s = run_nodes host rest (until_merge n) (n + 1) f s
run_nodes host (merge a b ∷ rest) active n f s = λ c. undefined
run_nodes host (phi a b ∷ rest) active n f s =
    run_nodes host rest active (n + 1) (put n (if s then f a else f b) f) s
run_nodes host (return a ∷ rest) active n f s = pure (f a)
run_nodes host (node ∷ rest) active n f s =
    value_of host node f >>= λ v. run_nodes host rest active (n + 1) (put n v f) s
run_nodes host (if_false q ∷ rest) (until_false r) n f s =
    let reached = run_nodes host rest active (n + 1) f s in
    let passed = run_nodes host rest (until_false r) (n + 1) f s in
    if q == r then reached else passed
run_nodes host (node ∷ rest) (until_false r) n f s = run_nodes host rest (until_false r) (n + 1) f s
run_nodes host (merge a b ∷ rest) (until_merge e) n f s =
    run_nodes host rest active (n + 1) f (e == a)
run_nodes host (node ∷ rest) (until_merge e) n f s = run_nodes host rest (until_merge e) (n + 1) f s
