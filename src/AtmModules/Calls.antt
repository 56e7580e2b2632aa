-- ===== src/AtmModules/Calls.antt =====
-- `callAdapter` and `printReceipt` of packages/atm-modules/src/index.ts. An adapter's operation is a
-- function of its context and of the simulator, which answers, throws, or is timed out; what it did to
-- the simulator by the time that the caller goes on is the second part of its answer.
use cashblocks.Prelude.{true, false, Option, none, some, List, [], ◌∷◌, ◌++◌, String, str_append}
use cashblocks.Prelude.Int.{ℤ, pos}
use cashblocks.Prelude.Exec.{Exec, recover, return}
use cashblocks.Prelude.Result.{Result, ok, err}
use cashblocks.Contracts.{
  text, num, bool, Payload, AdapterResult, PrinterStatus, HostAuthorizationRequest, from_module,
  device_status_changed,
}
use cashblocks.Simulator.{Simulator}
use cashblocks.Validation.{AdapterKind, slot_name, receipt_printer}
use cashblocks.Terminal.{
  Terminal, AdapterOperationContext, warn, error, adapter_at, create_adapter_operation_context,
  log_diagnostic, record_event,
}

pub data Outcome (A : Type 0) : Type 0 where
  settled : A → Outcome A
  rejected : String → Outcome A
  timed_out : Outcome A

abbrev pub Operation : Type 0 → Type 0
Operation A = AdapterOperationContext → Simulator → Outcome A × Simulator

-- The operations of `TerminalAdapters`.
pub record Adapters : Type 0 where
  pub get_status : Operation PrinterStatus
  pub print_receipt : List String → Operation AdapterResult
  pub dispense : ℤ → String → Operation AdapterResult
  pub accept : Option ℤ → String → Operation AdapterResult
  pub read_card : Operation AdapterResult
  pub authorize : HostAuthorizationRequest → Operation AdapterResult

-- The metadata of the entry that is logged.
abbrev pub call_metadata : AdapterKind → AdapterOperationContext → Payload
call_metadata slot context =
    ("adapter", text (slot_name slot))
    ∷ ("adapterId", text context.adapter_id)
    ∷ ("operation", text context.operation)
    ∷ ("operationId", text context.operation_id)
    ∷ ("timeoutMs", num (pos context.timeout_ms))
    ∷ []

abbrev pub call_name : AdapterKind → String → String
call_name slot operation =
    str_append "Adapter " (str_append (slot_name slot) (str_append "." operation))

-- How the call goes on, once it has answered, thrown or been timed out.
abbrev pub finish_call :
    {A : Type 0}
    → AdapterKind
    → AdapterOperationContext
    → (AdapterOperationContext → A)
    → Payload
    → Outcome A × Simulator
    → Terminal
    → Result String A × Terminal
finish_call slot context on_timeout metadata (settled answer, s) t =
    (ok answer, record t { simulator = s })
finish_call slot context on_timeout metadata (rejected message, s) t = (
  err message,
  log_diagnostic error "adapter"
      (str_append (call_name slot context.operation) " threw an exception.")
      context.transaction_name (some message) (call_metadata slot context ++ metadata)
      (record t { simulator = s }),
)
finish_call slot context on_timeout metadata (timed_out, s) t = (
  ok (on_timeout context),
  log_diagnostic warn "adapter" (str_append (call_name slot context.operation) " timed out.")
      context.transaction_name none (call_metadata slot context) (record t { simulator = s }),
)

abbrev pub call_with :
    {A : Type 0}
    → AdapterKind
    → Operation A
    → (AdapterOperationContext → A)
    → Payload
    → AdapterOperationContext × Terminal
    → Result String A × Terminal
call_with slot call on_timeout metadata (context, t) =
    finish_call slot context on_timeout metadata (call context t.simulator) t

-- `callAdapter`; the transaction of the metadata is given apart.
unfoldable pub call_adapter :
    {A : Type 0}
    → AdapterKind
    → String
    → Operation A
    → (AdapterOperationContext → A)
    → String
    → Payload
    → Exec Terminal A
unfolding create_adapter_operation_context log_diagnostic
call_adapter slot operation call on_timeout transaction metadata t =
    call_with slot call on_timeout (("transaction", text transaction) ∷ metadata) (
      create_adapter_operation_context (adapter_at slot t.adapters).id operation (some transaction)
        t)

abbrev pub timeout_details : AdapterOperationContext → Payload
timeout_details context =
    ("adapterId", text context.adapter_id)
    ∷ ("operationId", text context.operation_id)
    ∷ ("timeoutMs", num (pos context.timeout_ms))
    ∷ []

abbrev pub adapter_timeout_result : AdapterOperationContext → AdapterResult
adapter_timeout_result context = record {
  success = false;
  code = "ADAPTER_TIMEOUT";
  message = str_append "Adapter operation " (str_append context.operation " timed out.");
  details = some (timeout_details context);
}

abbrev pub adapter_indeterminate_result : AdapterOperationContext → AdapterResult
adapter_indeterminate_result context = record {
  success = false;
  code = "ADAPTER_OUTCOME_UNKNOWN";
  message =
      str_append "Adapter operation "
        (str_append context.operation " timed out with an unknown outcome.");
  details = some (timeout_details context ++ ("requiresReconciliation", bool true) ∷ []);
}

abbrev pub receipt_error : String → Exec Terminal AdapterResult
receipt_error message =
    return (record { success = false; code = "RECEIPT_ERROR"; message = message; details = none })

-- `printReceipt`
unfoldable pub print_receipt : Adapters → String → List String → Exec Terminal AdapterResult
unfolding call_adapter
print_receipt adapters transaction lines t =
    recover
      (call_adapter receipt_printer "printReceipt" (adapters.print_receipt lines)
        adapter_timeout_result transaction [] t)
      receipt_error

-- `journalReceiptFailure`
unfoldable pub journal_receipt_failure : String → AdapterResult → Terminal → Terminal
unfolding record_event
journal_receipt_failure transaction r t =
    record_event device_status_changed from_module
      (some (
        ("adapter", text "receiptPrinter")
        ∷ ("transaction", text transaction)
        ∷ ("code", text r.code)
        ∷ ("message", text r.message)
        ∷ []))
      t
