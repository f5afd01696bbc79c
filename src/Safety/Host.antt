-- ===== src/Safety/Host.antt =====
-- The system calls of src/toy/syscall_emulator.cpp and the invariant, for a host that reads bytes.
use toy_isa_v1_5_interpreter.Base.{
  ℕ, ◌≡◌, refl, arith, Option, none, some, List, All, ◌==◌, ◌||◌, u32, ◌≤◌, length, ge→ltb,
}
use toy_isa_v1_5_interpreter.Base.Int.{ℤ, pos, negsuc}
use toy_isa_v1_5_interpreter.Instruction.{Instruction}
use toy_isa_v1_5_interpreter.Memory.{
  Memory, MemoryRange, readable_range, writable_range, fill_range, range_bytes, store_bytes,
}
use toy_isa_v1_5_interpreter.Memory.Access.{IsByte}
use toy_isa_v1_5_interpreter.Machine.{
  ExecutionStatus, HostCall, read_call, write_call, read_number_call, Context,
}
use toy_isa_v1_5_interpreter.Checked.{ErrorCode, Checked}
use toy_isa_v1_5_interpreter.Machine.Monad.{thrown, simulation, lift_checked}
use toy_isa_v1_5_interpreter.Syscall.{
  Reply, done, failed, NumberReply, number, at_eof, malformed, Host, SyscallHandler, handle_read,
  handle_write, handle_exit, handle_read_number, find_handler, syscall_error, of_signed,
  record_call, host_read, host_write,
}
use toy_isa_v1_5_interpreter.Syscall
use toy_isa_v1_5_interpreter.Executor.{execute_syscall, advance_if_running}
use toy_isa_v1_5_interpreter.Safety.Invariant.{
  IsWord, IsValid, IsValidMemory, Ends, Runs, Keeps, Runs-bind, Runs-then, Runs-if,
  get_register-Runs, set_register-Keeps, advance_pc-Keeps, lift_checked-Runs, with_memory-IsValid,
  store_bytes-IsValidMemory,
}

-- What `read` puts into the buffer are bytes, and no more than it was asked for.
pub record ReadsBytes (host : Host) : Type 0 where
  pub at :
      (calls : List HostCall) (count : ℕ) {bytes : List ℕ}
      → host.read calls count ≡ done bytes
      → All IsByte bytes × (length bytes ≤ count)

record_call-IsValid : {c : Context} (call : HostCall) → IsValid c → IsValid (record_call call c)
record_call-IsValid call v = record {
  register_count = v.register_count;
  registers = v.registers;
  pc = v.pc;
  memory = v.memory;
  blocks = v.blocks;
}

syscall_error-IsWord : (errno : ℕ) → IsWord (syscall_error errno)
unfolding syscall_error
syscall_error-IsWord errno = omega arith

of_signed-IsWord : (value : ℤ) → IsWord (of_signed value)
unfolding of_signed
of_signed-IsWord (pos n) = omega arith
of_signed-IsWord (negsuc n) = omega arith

pub fill_range-IsValidMemory :
    (memory : Memory) (range : MemoryRange) (bytes : List ℕ)
    → All IsByte bytes
    → IsValidMemory memory
    → IsValidMemory (fill_range memory range bytes)
unfolding fill_range
fill_range-IsValidMemory memory range bytes h v = go range.start refl
  where
    go : (s : Option ℕ) → range.start ≡ s → IsValidMemory (fill_range memory range bytes)
    go none e = rw e v
    go (some address) e = rw e (
        store_bytes-IsValidMemory memory address bytes
          (record memory { bytes = store_bytes memory.bytes address bytes }) h refl v)

pub of_memory-Runs :
    {A : Type 0} (f : Memory → Checked A) → Runs (λ c. lift_checked (f c.memory) c) (λ _. Unit)
of_memory-Runs f = record { at = λ c v. (lift_checked-Runs (f c.memory) (λ _ _. tt)).at c v }

module _ (host : Host) where
  host_read-Runs : ReadsBytes host → (buffer : MemoryRange) → Runs (host_read host buffer) IsWord
  unfolding host_read
  host_read-Runs honest buffer = record { at = λ c v. go c v (host.read c.calls buffer.size) refl }
    where
      go :
          (c : Context)
          → IsValid c
          → (r : Reply (List ℕ)) → host.read c.calls buffer.size ≡ r
          → Ends IsWord (host_read host buffer c)
      go c v (failed errno) e =
          rw (e, host_read)
            (record_call-IsValid (read_call buffer.size) v, syscall_error-IsWord errno)
      go c v (done bytes) e =
          rw (e, host_read, ge→ltb buffer.size (length bytes) (honest.at c.calls buffer.size e).1)
            (
              record_call-IsValid (read_call buffer.size) (
                  with_memory-IsValid (fill_range c.memory buffer bytes)
                    (fill_range-IsValidMemory c.memory buffer bytes
                      (honest.at c.calls buffer.size e).0 v.memory)
                    v),
              omega arith,
            )

  written-IsWord :
      (r : Reply ℕ)
      → IsWord (elim r [ failed errno ↦ syscall_error errno | done count ↦ u32 count ])
  written-IsWord (failed errno) = syscall_error-IsWord errno
  written-IsWord (done count) = omega arith

  host_write-Runs :
      (descriptor : ℕ) (buffer : MemoryRange) → Runs (host_write host descriptor buffer) IsWord
  unfolding host_write
  host_write-Runs descriptor buffer = record {
    at = λ c v. (
      record_call-IsValid (write_call descriptor (range_bytes c.memory buffer)) v,
      written-IsWord (host.write c.calls descriptor (range_bytes c.memory buffer)),
    );
  }

  read-Keeps : ReadsBytes host → Keeps (Syscall.read host)
  unfolding Syscall.read
  read-Keeps honest = Runs-bind (get_register-Runs 0 (omega arith)) λ descriptor _.
      Runs-bind (get_register-Runs 1 (omega arith)) λ address _.
        Runs-bind (get_register-Runs 2 (omega arith)) λ count _.
          Runs-if (descriptor == 0)
            (Runs-bind (of_memory-Runs (λ memory. writable_range memory address count)) λ buffer _.
              Runs-bind (host_read-Runs honest buffer)
                λ result fits. set_register-Keeps 0 result (omega arith) fits)
            (set_register-Keeps 0 (syscall_error host.ebadf) (omega arith)
              (syscall_error-IsWord host.ebadf))

  write-Keeps : Keeps (Syscall.write host)
  unfolding Syscall.write
  write-Keeps = Runs-bind (get_register-Runs 0 (omega arith)) λ descriptor _.
      Runs-bind (get_register-Runs 1 (omega arith)) λ address _.
        Runs-bind (get_register-Runs 2 (omega arith)) λ count _.
          Runs-if (descriptor == 1 || descriptor == 2)
            (Runs-bind (of_memory-Runs (λ memory. readable_range memory address count)) λ buffer _.
              Runs-bind (host_write-Runs descriptor buffer)
                λ result fits. set_register-Keeps 0 result (omega arith) fits)
            (set_register-Keeps 0 (syscall_error host.ebadf) (omega arith)
              (syscall_error-IsWord host.ebadf))

  parsed-IsWord :
      (r : NumberReply)
      → IsWord (elim r [
        | number value ↦ of_signed value
        | at_eof ↦ syscall_error host.enodata
        | malformed ↦ syscall_error host.einval
      ])
  parsed-IsWord (number value) = of_signed-IsWord value
  parsed-IsWord at_eof = syscall_error-IsWord host.enodata
  parsed-IsWord malformed = syscall_error-IsWord host.einval

  read_number-Keeps : Keeps (Syscall.read_number host)
  unfolding Syscall.read_number
  read_number-Keeps = record {
    at = λ c v.
        (set_register-Keeps 0 _ (omega arith) (parsed-IsWord (host.read_number c.calls))).at
          (record_call read_number_call c) (record_call-IsValid read_number_call v);
  }

  exit-Keeps : Keeps (Syscall.exit host)
  unfolding Syscall.exit
  exit-Keeps = Runs-bind (get_register-Runs 0 (omega arith)) λ code _. record {
    at = λ c v. (
      record {
        register_count = v.register_count;
        registers = v.registers;
        pc = v.pc;
        memory = v.memory;
        blocks = v.blocks;
      },
      tt,
    );
  }

  handle-Keeps : ReadsBytes host → (handler : SyscallHandler) → Keeps (Syscall.handle host handler)
  unfolding Syscall.handle
  handle-Keeps honest handle_read = read-Keeps honest
  handle-Keeps honest handle_write = write-Keeps
  handle-Keeps honest handle_exit = exit-Keeps
  handle-Keeps honest handle_read_number = read_number-Keeps

  found-Keeps :
      ReadsBytes host
      → (r : Option SyscallHandler)
      → Keeps (elim r [
        | none ↦ λ c. thrown (simulation ErrorCode.unsupported_syscall) c
        | some handler ↦ Syscall.handle host handler
      ])
  found-Keeps honest none = record { at = λ c v. v }
  found-Keeps honest (some handler) = handle-Keeps honest handler

  execute-Keeps : ReadsBytes host → Keeps (Syscall.execute host)
  unfolding Syscall.execute
  execute-Keeps honest =
      Runs-bind (get_register-Runs 8 (omega arith)) λ n _. found-Keeps honest (find_handler n)

  advance_if_running-Keeps : (status : ExecutionStatus) → Keeps (advance_if_running status)
  advance_if_running-Keeps ExecutionStatus.running = advance_pc-Keeps
  advance_if_running-Keeps ExecutionStatus.halted = record { at = λ c v. (v, tt) }
  advance_if_running-Keeps ExecutionStatus.faulted = record { at = λ c v. (v, tt) }

  pub execute_syscall-Keeps :
      ReadsBytes host → (inst : Instruction) → Keeps (execute_syscall host inst)
  unfolding execute_syscall
  execute_syscall-Keeps honest inst =
      Runs-then (execute-Keeps honest)
        (record { at = λ c v. (advance_if_running-Keeps c.state.status).at c v })
