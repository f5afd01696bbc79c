-- ===== src/Safety/Agree.antt =====
-- Switch and threaded execution of whole runs (src/toy/execution_context.cpp).
use toy_isa_v1_5_interpreter.Base.{ℕ, zero, suc, ◌≡◌, refl, sym, ap, ◌∙◌}
use toy_isa_v1_5_interpreter.Machine.{ExecutionStatus, BasicBlock, Context}
use toy_isa_v1_5_interpreter.Machine.Monad.{
  M, Outcome, returned, thrown, undefined, diverged, bind_outcome, get_pc,
}
use toy_isa_v1_5_interpreter.BlockCache.{get_block}
use toy_isa_v1_5_interpreter.BlockCache.Blocks.{IsBlock}
use toy_isa_v1_5_interpreter.Syscall.{Host}
use toy_isa_v1_5_interpreter.Engine.Agree.{execute_threaded_block-eq-execute_switch_block}
use toy_isa_v1_5_interpreter.Jit.Execute.{Ir}
use toy_isa_v1_5_interpreter.ExecutionContext.{
  ExecutionMode, threaded, switch, Options, fault_on_exception, execute_mode, execute_block, step,
  run, while_running,
}
use toy_isa_v1_5_interpreter.Safety.Invariant.{IsValid, Ends}
use toy_isa_v1_5_interpreter.Safety.Cache.{IsBlockAt, get_block-Runs}
use toy_isa_v1_5_interpreter.Safety.Host.{ReadsBytes}
use toy_isa_v1_5_interpreter.Safety.Runs.{step-Keeps}

-- Continuations that agree on what a method may return.
bind_outcome-agree :
    {A B : Type 0} (P : A → Type 0) (r : Outcome A) (k k' : A → M B)
    → Ends P r
    → ((a : A) (c : Context) → IsValid c → P a → k a c ≡ k' a c)
    → bind_outcome r k ≡ bind_outcome r k'
bind_outcome-agree P (returned a c) k k' h f = f a c h.0 h.1
bind_outcome-agree P (thrown e c) k k' h f = refl
bind_outcome-agree P undefined k k' h f = refl
bind_outcome-agree P diverged k k' h f = refl

while_running-agree :
    (status : ExecutionStatus) (m n : M (Unit {0})) (c : Context)
    → m c ≡ n c
    → while_running status m c ≡ while_running status n c
while_running-agree ExecutionStatus.running m n c e = e
while_running-agree ExecutionStatus.halted m n c e = refl
while_running-agree ExecutionStatus.faulted m n c e = refl

module _ (host : Host) (ir : Ir) where
  execute_mode-agree :
      (m n : ExecutionMode) (o p : Options) (fuel : ℕ) (block : BasicBlock)
      → m ≡ switch
      → n ≡ threaded
      → IsBlock block.instructions
      → execute_mode host ir m o fuel block ≡ execute_mode host ir n p fuel block
  unfolding execute_mode
  execute_mode-agree m n o p fuel block e e' h =
      rw (e, e') (sym (execute_threaded_block-eq-execute_switch_block host block h))

  module _ (o p : Options) (is_switch : o.mode ≡ switch) (is_threaded : p.mode ≡ threaded) where
    execute_block-agree :
        (fuel : ℕ) (block : BasicBlock) (c : Context)
        → IsBlock block.instructions
        → execute_block host ir o fuel block c ≡ execute_block host ir p fuel block c
    unfolding execute_block
    execute_block-agree fuel block c h =
        ap (λ (m : M (Unit {0})). fault_on_exception (m c))
          (execute_mode-agree o.mode p.mode o p fuel block is_switch is_threaded h)

    -- From a valid context, a step in switch mode and a step in threaded mode have the same outcome.
    pub step-agree :
        (fuel : ℕ) (c : Context) → IsValid c → step host ir o fuel c ≡ step host ir p fuel c
    unfolding step get_pc
    step-agree fuel c v =
        bind_outcome-agree (IsBlockAt c.cpu.pc) (get_block c.cpu.pc c)
          (execute_block host ir o fuel) (execute_block host ir p fuel)
          ((get_block-Runs c.cpu.pc v.pc).at c v)
          (λ block c' v' at. execute_block-agree fuel block c' at.1)

    -- From a valid context, a run in switch mode and a run in threaded mode have the same outcome:
    -- the same final context, or the same exception with the same context. The host is one that
    -- reads bytes, and no more than the buffer takes.
    pub run-agree :
        ReadsBytes host
        → (fuel : ℕ) (c : Context) → IsValid c
        → run host ir o fuel c ≡ run host ir p fuel c
    unfolding run
    run-agree honest zero c v = refl
    run-agree honest (suc fuel) c v = while_running-agree c.state.status _ _ c (
        ap (λ (r : Outcome (Unit {0})). bind_outcome r (λ _. run host ir o fuel))
          (step-agree fuel c v)
        ∙ bind_outcome-agree (λ _. Unit {0}) (step host ir p fuel c) (λ _. run host ir o fuel)
            (λ _. run host ir p fuel)
            ((step-Keeps host honest ir p fuel (rw is_threaded tt)).at c v)
            (λ _ c' v' _. run-agree honest fuel c' v'))
