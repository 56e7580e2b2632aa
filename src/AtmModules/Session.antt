-- ===== src/AtmModules/Session.antt =====
-- SessionModule of packages/atm-modules/src/index.ts.
use cashblocks.Prelude.{Option, none, some, [], ◌∷◌, String, str_eq, if◌then◌else◌}
use cashblocks.Prelude.Int.{ℤ, pos}
use cashblocks.Prelude.Exec.{Exec, return, updates, recover, ◌>>=◌, ◌>>◌}
use cashblocks.Prelude.Result.{ok}
use cashblocks.Contracts.{
  text, Payload, PrinterStatus, missing, paper_out, from_module, from_flow, transaction_cancelled,
  device_status_changed, journal_line_logged,
}
use cashblocks.Validation.{receipt_printer}
use cashblocks.Terminal.{Terminal, AdapterOperationContext, record_event, set_printer_status}
use cashblocks.AtmModules.Calls.{Adapters, call_adapter}

pub record CoreSession : Type 0 where
  pub current_account : String
  pub last_transaction_amount : ℤ

abbrev pub new_session : CoreSession
new_session = record { current_account = "Checking"; last_transaction_amount = pos 0 }

-- `Cashblocks.Log`
abbrev pub log_line : String → Terminal → Terminal
log_line message =
    record_event journal_line_logged from_flow (some (("message", text message) ∷ []))

unfoldable pub setup_default_account : Terminal → Terminal
unfolding record_event
setup_default_account t = log_line "Default account mapped." t

unfoldable pub new_transaction : CoreSession → Terminal → CoreSession × Terminal
unfolding record_event
new_transaction session t =
    (record session { last_transaction_amount = pos 0 }, log_line "New transaction started." t)

abbrev pub named : Option String → Payload
named none = []
named (some transaction) =
    if str_eq transaction "" then [] else ("transaction", text transaction) ∷ []

unfoldable pub cancel_transaction : String → Option String → Terminal → Terminal
unfolding record_event
cancel_transaction reason transaction t =
    record_event transaction_cancelled from_module
      (some (("reason", text reason) ∷ named transaction)) t

abbrev pub no_printer : PrinterStatus
no_printer = record { health = missing; paper = paper_out }

abbrev pub status_error : String → Exec Terminal PrinterStatus
status_error message t = (
  ok no_printer,
  record_event device_status_changed from_module
      (some (
        ("adapter", text "receiptPrinter")
        ∷ ("code", text "PRINTER_STATUS_ERROR")
        ∷ ("message", text message)
        ∷ []))
      t,
)

abbrev pub printer_timeout : AdapterOperationContext → PrinterStatus
printer_timeout context = no_printer

abbrev pub read_status : Adapters → Exec Terminal PrinterStatus
read_status adapters t =
    recover
      (call_adapter receipt_printer "getStatus" adapters.get_status printer_timeout "TerminalStatus"
        [] t)
      status_error

-- RefreshReceiptPrinterStatus
unfoldable pub refresh_receipt_printer_status : Adapters → Exec Terminal PrinterStatus
unfolding record_event call_adapter set_printer_status
refresh_receipt_printer_status adapters = do
  status ← read_status adapters
  updates (set_printer_status status)
  return status
