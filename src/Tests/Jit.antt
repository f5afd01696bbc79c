-- ===== src/Tests/Jit.antt =====
-- The theorems of `Jit` on a block of the sample program.
use toy_isa_v1_5_interpreter.Base.{false, List, [], Option, none, some}
use toy_isa_v1_5_interpreter.Jit.Ir.{IrNode, Builder}
use toy_isa_v1_5_interpreter.Jit.Meaning.{active, run_nodes}
use toy_isa_v1_5_interpreter.Jit.Compile.{encode_block}
use toy_isa_v1_5_interpreter.Jit.Execute.{Ir}
use toy_isa_v1_5_interpreter.Jit.Native.Agree.{fresh}
use toy_isa_v1_5_interpreter.Tests.Safety.{two}
use toy_isa_v1_5_interpreter.Samples.{host}

abbrev nodes_of : Option (Unit {0} × Builder) → List IrNode
nodes_of none = []
nodes_of (some (_, built)) = built.nodes

-- An IR library whose only native code is that of `two`.
abbrev library : Ir
library = record {
  compile = λ nodes level. record { entry_point = 1; code_size = 64 };
  call = λ entry. run_nodes host (nodes_of (encode_block two (fresh []))) active 0 (λ _. 0) false;
}
