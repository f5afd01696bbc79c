-- ===== src/Syscall.antt =====
-- src/toy/syscall_emulator.cpp and include/toy/syscall_emulator.hpp: the four system calls. What
-- the operating system answers is the parameter `Host`: an answer may depend on all the calls made
-- before it. The error numbers are those of the host's <cerrno>.
use toy_isa_v1_5_interpreter.Base.{
  ℕ, ◌-◌, ◌^◌, ◌||◌, Option, none, some, List, ◌∷◌, length, ltb, ◌==◌, if◌then◌else◌, u32,
}
use toy_isa_v1_5_interpreter.Base.Int.{ℤ, pos, negsuc}
use toy_isa_v1_5_interpreter.Checked.{ErrorCode}
use toy_isa_v1_5_interpreter.Memory.{
  MemoryRange, readable_range, writable_range, range_bytes, fill_range,
}
use toy_isa_v1_5_interpreter.Machine.{
  HostCall, read_call, write_call, read_number_call, Context, halt,
}
use toy_isa_v1_5_interpreter.Machine.Monad.{
  M, returned, thrown, undefined, simulation, lift_checked, get_register, set_register, ◌>>=◌,
}

-- The result of `read` or `write`: its value, or -1 and `errno`.
pub data Reply (A : Type 0) : Type 0 where
  done : A → Reply A
  failed : ℕ → Reply A

-- The result of `std::cin >> Value`.
pub data NumberReply : Type 0 where
  number : ℤ → NumberReply
  at_eof malformed : NumberReply

-- `read` gives the bytes that it puts at the start of the buffer; more than the buffer takes would
-- overrun it.
pub record Host : Type 0 where
  pub read : List HostCall → ℕ → Reply (List ℕ)
  pub write : List HostCall → ℕ → List ℕ → Reply ℕ
  pub read_number : List HostCall → NumberReply
  pub ebadf : ℕ
  pub enodata : ℕ
  pub einval : ℕ

pub data SyscallHandler : Type 0 where
  handle_read handle_write handle_exit handle_read_number : SyscallHandler

abbrev pub read_number_syscall : ℕ
read_number_syscall = 337

abbrev pub stdin_fileno : ℕ
stdin_fileno = 0

abbrev pub stdout_fileno : ℕ
stdout_fileno = 1

abbrev pub stderr_fileno : ℕ
stderr_fileno = 2

-- `Handlers.find`
unfoldable pub find_handler : ℕ → Option SyscallHandler
find_handler syscall_number =
    if syscall_number == 0
    then some handle_read
    else if syscall_number == 1
    then some handle_write
    else if syscall_number == 60
    then some handle_exit
    else if syscall_number == read_number_syscall
    then some handle_read_number
    else none

-- `uint32_t{0} - static_cast<uint32_t>(errno)`
unfoldable pub syscall_error : ℕ → ℕ
syscall_error errno = u32 (2 ^ 32 - u32 errno)

-- `static_cast<uint32_t>` of an `int32_t`
unfoldable pub of_signed : ℤ → ℕ
of_signed (pos n) = u32 n
of_signed (negsuc n) = 2 ^ 32 - 1 - u32 n

-- A system call of the host is recorded in the history.
abbrev pub record_call : HostCall → Context → Context
record_call call c = record c { calls = call ∷ c.calls }

module _ (host : Host) where
  unfoldable pub host_read : MemoryRange → M ℕ
  unfolding fill_range syscall_error
  host_read buffer c = elim (host.read c.calls buffer.size) [
    | failed errno ↦ returned (syscall_error errno) (record_call (read_call buffer.size) c)
    | done bytes ↦
        if ltb buffer.size (length bytes)
        then undefined
        else returned (u32 (length bytes)) (
            record_call (read_call buffer.size)
              (record c { memory = fill_range c.memory buffer bytes }))
  ]

  unfoldable pub host_write : ℕ → MemoryRange → M ℕ
  unfolding range_bytes syscall_error
  host_write descriptor buffer c =
      let bytes = range_bytes c.memory buffer in
      returned
        (elim (host.write c.calls descriptor bytes) [
          | failed errno ↦ syscall_error errno
          | done count ↦ u32 count
        ])
        (record_call (write_call descriptor bytes) c)

  unfoldable pub read : M (Unit {0})
  unfolding host_read get_register set_register writable_range syscall_error
  read = do
    descriptor ← get_register 0
    address ← get_register 1
    byte_count ← get_register 2
    if descriptor == stdin_fileno
        then (do
          buffer ← λ c. lift_checked (writable_range c.memory address byte_count) c
          result ← host_read buffer
          set_register 0 result)
        else set_register 0 (syscall_error host.ebadf)

  unfoldable pub read_number : M (Unit {0})
  unfolding set_register syscall_error of_signed
  read_number c =
      set_register 0
        (elim (host.read_number c.calls) [
          | number value ↦ of_signed value
          | at_eof ↦ syscall_error host.enodata
          | malformed ↦ syscall_error host.einval
        ])
        (record_call read_number_call c)

  unfoldable pub write : M (Unit {0})
  unfolding host_write get_register set_register readable_range syscall_error
  write = do
    descriptor ← get_register 0
    address ← get_register 1
    byte_count ← get_register 2
    if descriptor == stdout_fileno || descriptor == stderr_fileno
        then (do
          buffer ← λ c. lift_checked (readable_range c.memory address byte_count) c
          result ← host_write descriptor buffer
          set_register 0 result)
        else set_register 0 (syscall_error host.ebadf)

  unfoldable pub exit : M (Unit {0})
  unfolding get_register halt
  exit = do code ← get_register 0; λ c. returned tt (record c { state = halt code c.state })

  unfoldable pub handle : SyscallHandler → M (Unit {0})
  unfolding read read_number write exit
  handle handle_read = read
  handle handle_write = write
  handle handle_exit = exit
  handle handle_read_number = read_number

  -- `TISyscallEmulator::execute`
  unfoldable pub execute : M (Unit {0})
  unfolding handle find_handler get_register
  execute = do
    syscall_number ← get_register 8
    elim (find_handler syscall_number) [
      | none ↦ λ c. thrown (simulation ErrorCode.unsupported_syscall) c
      | some handler ↦ handle handler
    ]
