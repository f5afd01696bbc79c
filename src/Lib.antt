-- ===== src/Lib.antt =====
-- A verification library for the Toy ISA interpreter: a machine of 32 registers and flat memory
-- that decodes guest code into basic blocks and executes them in one of three ways.
--
-- Parts and files
--
-- BitUtils: include/toy/bitutils.hpp and toy_constants.hpp. Words are numbers below 2^32, and the
--   wrap-around of `uint32_t` is `u32`, that of `std::size_t` is `u64`.
-- Instruction, Decoder: include/toy/instruction.hpp and src/toy/decoder.cpp. `decode` searches
--   the table `decode_vector` in order, with the mask and the pattern of each row.
-- Checked, Memory: include/toy/execution_state.hpp and memory.hpp. A `SimulationException` is its
--   error code. Guest memory is a list of bytes with the executable regions and the dirty ranges.
-- Machine, Machine/Monad: the members of `ExecutionContext`, and the monad `M` of its methods. A
--   method returns, throws, does what C++ leaves undefined, or has used up its fuel. An exception
--   keeps the context that it leaves behind.
-- Arith, Executor: src/toy/executor.cpp. One function for each instruction.
-- Syscall: src/toy/syscall_emulator.cpp. The operating system is the parameter `Host`, and its
--   answers may depend on the history of the calls.
-- BlockCache: src/toy/basic_block_cache.cpp and the flush of src/toy/execution_context.cpp. The
--   hash maps are lists of pairs.
-- Engine: src/execution_type/switch_executor.cpp and threaded_executor.cpp. The indirect calls
--   from handler to handler are a recursion on the instructions of the block.
-- Jit: src/execution_type/jit_executor.cpp. The IR library is the parameter `Ir`; the translation
--   is a list of `IrNode`s in the order in which the program builds them, and Jit/Helpers holds the
--   functions that native code calls. Jit/Meaning is what the IR library documents of the nodes: it
--   is the hypothesis `Compiles` of the results about native code, for an entry that is not null. Jit/Native compares the nodes of
--   each instruction with its executor, and then those of a block with switch execution.
-- ExecutionContext: `step`, `run` and `executeBlock` of src/toy/execution_context.cpp.
-- Loader: `loadBinary` of src/toy/execution_context.cpp. The file as ELFIO reads it is the parameter
--   `Elf`, and the constants of the format are the parameter `ElfFormat`. The bytes of a segment are
--   what ELFIO points to, which may be fewer than its header says.
-- ElfWriter: assembler/elf_writer.cpp. The ELFIO library is the parameter `save` of the writer, and
--   what it reads of a file that it has saved is the hypothesis `Rereads`.
-- CommandLine: src/main.cpp. A text is the list of its bytes; CommandLine/Stoull is `std::stoull`
--   of the C++ standard library.
-- Safety: proofs about whole steps and runs, for the modes `switch` and `threaded`; the one about the
--   end of `run` is for every mode.
-- Samples, Tests: a host, a program, and the theorems applied to them.
--
-- A step gets the block at the program counter from the cache, which decodes it if need be, and
-- hands it to the engine of the mode. FLUSH takes the dirty ranges from the memory and invalidates
-- the blocks that meet them.
--
-- Fuel
--
-- `decode_block` takes a round for each word of the memory and one more, and every round but the
-- last reads another word, so its fuel does not run out. `run` and the chain of native blocks may
-- go on for ever in the program too: their fuel is an argument, and the results about them hold
-- for every fuel. The loops of `Arith` have the 32 bits of a word.
--
-- Not modelled
--
-- The texts of error messages, the reading of the files of the ELF writer, the release of native
-- code, how the IR library compiles, and the assembler, the benchmarks and the tests.
pub mod Base
pub mod BitUtils
pub mod Instruction
pub mod Decoder
pub mod Checked
pub mod Memory
pub mod Machine
pub mod Arith
pub mod BlockCache
pub mod Syscall
pub mod Executor
pub mod Engine
pub mod Jit
pub mod ExecutionContext
pub mod Loader
pub mod ElfWriter
pub mod CommandLine
pub mod Safety
pub mod Samples
mod Tests
