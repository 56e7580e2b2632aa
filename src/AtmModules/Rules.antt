-- ===== src/AtmModules/Rules.antt =====
-- Rules to follow a method of packages/atm-modules/src/index.ts step by step: a call may be replaced by
-- what is known of every way in which it ends.
use cashblocks.Prelude.{[], ◌≡◌, refl, List, String, Option}
use cashblocks.Prelude.Exec.{proceed, recover}
use cashblocks.Prelude.Result.{Result, ok, err}
use cashblocks.Contracts.{Payload, AdapterResult}
use cashblocks.Simulator.{Simulator}
use cashblocks.Validation.{AdapterKind, receipt_printer}
use cashblocks.Terminal.{
  Terminal, AdapterOperationContext, adapter_at, create_adapter_operation_context, log_diagnostic,
}
use cashblocks.AtmModules.Calls.{
  Outcome, settled, rejected, timed_out, Operation, Adapters, finish_call, call_adapter,
  print_receipt, receipt_error, adapter_timeout_result,
}

pub handlers_state :
    {A : Type 0} (p : Result String A × Terminal) → (proceed p (λ a t. (ok tt, t))).1 ≡ p.1
unfolding proceed
handlers_state (ok a, t) = refl
handlers_state (err m, t) = refl

-- What a call leaves alone, and whose simulator it leaves.
pub record CallsFrom {A : Type 0} (s : Simulator) (t : Terminal) (p : Result String A × Terminal)
    : Type 0 where
  pub simulator : p.1.simulator ≡ s
  pub journal : p.1.journal ≡ t.journal
  pub properties : p.1.properties ≡ t.properties

finish_call-CallsFrom :
    {A : Type 0} (slot : AdapterKind) (context : AdapterOperationContext)
    (on_timeout : AdapterOperationContext → A) (metadata : Payload) (o : Outcome A × Simulator)
    (t : Terminal)
    → CallsFrom o.1 t (finish_call slot context on_timeout metadata o t)
unfolding log_diagnostic
finish_call-CallsFrom slot context on_timeout metadata (settled a, s) t = record {
  simulator = refl;
  journal = refl;
  properties = refl;
}
finish_call-CallsFrom slot context on_timeout metadata (rejected m, s) t = record {
  simulator = refl;
  journal = refl;
  properties = refl;
}
finish_call-CallsFrom slot context on_timeout metadata (timed_out, s) t = record {
  simulator = refl;
  journal = refl;
  properties = refl;
}

-- The context of a call, and the runtime as the call finds it.
abbrev pub context_of :
    AdapterKind → String → String → Terminal → AdapterOperationContext × Terminal
context_of slot operation transaction t =
    create_adapter_operation_context (adapter_at slot t.adapters).id operation
      (Option.some transaction) t

pub call_adapter-CallsFrom :
    {A : Type 0} (slot : AdapterKind) (operation : String) (call : Operation A)
    (on_timeout : AdapterOperationContext → A) (transaction : String) (metadata : Payload)
    (t : Terminal)
    → CallsFrom
        (call (context_of slot operation transaction t).0 t.simulator).1
        t
        (call_adapter slot operation call on_timeout transaction metadata t)
unfolding call_adapter create_adapter_operation_context
call_adapter-CallsFrom slot operation call on_timeout transaction metadata t =
    let c =
      finish_call-CallsFrom slot (context_of slot operation transaction t).0 on_timeout _
        (call (context_of slot operation transaction t).0 t.simulator)
        (context_of slot operation transaction t).1 in
    record { simulator = c.simulator; journal = c.journal; properties = c.properties }

recover-CallsFrom :
    (s : Simulator) (t : Terminal) (p : Result String AdapterResult × Terminal)
    → CallsFrom s t p
    → CallsFrom s t (recover p receipt_error)
recover-CallsFrom s t (ok a, u) h = h
recover-CallsFrom s t (err m, u) h = record {
  simulator = h.simulator;
  journal = h.journal;
  properties = h.properties;
}

pub print_receipt-CallsFrom :
    (adapters : Adapters) (transaction : String) (lines : List String) (t : Terminal)
    → CallsFrom
        (adapters.print_receipt lines
          (context_of receipt_printer "printReceipt" transaction t).0
          t.simulator).1
        t
        (print_receipt adapters transaction lines t)
unfolding print_receipt
print_receipt-CallsFrom adapters transaction lines t = recover-CallsFrom _ t _ (
    call_adapter-CallsFrom receipt_printer "printReceipt" (adapters.print_receipt lines)
      adapter_timeout_result transaction [] t)
