-- ===== src/Terminal.antt =====
-- CashblocksRuntime of packages/runtime-core/src/index.ts: the state that the modules of a session
-- share. The clock is the function `clock` from the number of an event to its time, the logger keeps its
-- entries in order, and the adapters are known here by their descriptors.
pub mod Laws
mod Tests
use cashblocks.Prelude.{
  ℕ, suc, Bool, true, false, not, ◌&&◌, Option, none, some, List, [], ◌∷◌, ◌++◌, String,
  if◌then◌else◌, leb, str_append,
}
use cashblocks.Prelude.Int.{ℤ, pos, negsuc}
use cashblocks.Prelude.Text.{lookup, insert, to_text}
use cashblocks.Prelude.Result.{Result, ok, err, ◌>>=◌, ◌>>◌, throw_if}
use cashblocks.Contracts.{
  Json, text, num, Payload, AdapterResult, EventType, Source, EventDraft, runtime_started,
  from_runtime, DeviceHealth, healthy, degraded, fatal, missing, PaperStatus, paper_ok, paper_low,
  paper_out, PrinterStatus,
}
use cashblocks.Runtime.{RuntimeJournal, empty_journal, append_event}
use cashblocks.Simulator.{Simulator}
use cashblocks.Devices.{get_status}
use cashblocks.Validation.{
  ValidationIssue, TerminalAdapter, TerminalAdapters, AdapterKind, receipt_printer, cash_dispenser,
  cash_acceptor, card_reader, host_authorization, validate_terminal_adapters,
}

pub data Level : Type 0 where
  debug info warn error : Level

-- `DiagnosticLogEntry`; the time and the stack of an error are left out.
pub record DiagnosticLogEntry : Type 0 where
  pub level : Level
  pub source : String
  pub message : String
  pub session_id : String
  pub transaction_name : Option String
  pub error : Option String
  pub metadata : Payload

-- `AdapterOperationContext`; its two times and its abort signal are left out.
pub record AdapterOperationContext : Type 0 where
  pub operation_id : String
  pub session_id : String
  pub adapter_id : String
  pub operation : String
  pub transaction_name : Option String
  pub timeout_ms : ℕ

pub record Terminal : Type 0 where
  pub properties : List (String × Json)
  pub journal : RuntimeJournal
  pub simulator : Simulator
  pub adapters : TerminalAdapters
  pub logger : List DiagnosticLogEntry
  pub session_id : String
  pub adapter_timeout_ms : ℕ
  pub adapter_operation_sequence : ℕ
  pub clock : ℕ → String

-- `Journal.append` of an event of this session.
unfoldable pub record_event : EventType → Source → Option Payload → Terminal → Terminal
unfolding append_event
record_event type source payload t = record t {
  journal =
      (append_event none (t.clock (suc t.journal.seq))
        (record { type = type; source = source; session_id = some t.session_id; payload = payload })
        t.journal).1;
}

unfoldable pub set_property : String → Json → Terminal → Terminal
set_property path value t = record t { properties = insert path value t.properties }

-- `GetProperty<string>`
abbrev pub text_or : String → Option Json → String
text_or fallback (some (text value)) = value
text_or fallback _ = fallback

-- `GetProperty<string>("Currency.Code") ?? "AUD"`; its declared type rules out what is no text.
unfoldable pub currency_code_of : Terminal → String
currency_code_of t = text_or "AUD" (lookup "Currency.Code" t.properties)

abbrev pub adapter_at : AdapterKind → TerminalAdapters → TerminalAdapter
adapter_at receipt_printer a = a.printer
adapter_at cash_dispenser a = a.dispenser
adapter_at cash_acceptor a = a.acceptor
adapter_at card_reader a = a.reader
adapter_at host_authorization a = a.host

-- `createAdapterOperationContext`: the context, and the runtime with its sequence moved on.
unfoldable pub create_adapter_operation_context :
    String → String → Option String → Terminal → AdapterOperationContext × Terminal
create_adapter_operation_context adapter_id operation transaction_name t =
    let sequence = suc t.adapter_operation_sequence in
    (
      record {
        operation_id = str_append t.session_id (str_append ":adapter:" (to_text sequence));
        session_id = t.session_id;
        adapter_id = adapter_id;
        operation = operation;
        transaction_name = transaction_name;
        timeout_ms = t.adapter_timeout_ms;
      },
      record t { adapter_operation_sequence = sequence },
    )

-- `logDiagnostic`: nothing that the logger does reaches the runtime.
unfoldable pub log_diagnostic :
    Level → String → String → Option String → Option String → Payload → Terminal → Terminal
log_diagnostic level source message transaction_name thrown metadata t = record t {
  logger =
      t.logger
      ++ record {
        level = level;
        source = source;
        message = message;
        session_id = t.session_id;
        transaction_name = transaction_name;
        error = thrown;
        metadata = metadata;
      }
        ∷ [];
}

abbrev pub health_text : DeviceHealth → String
health_text healthy = "HEALTHY"
health_text degraded = "DEGRADED"
health_text fatal = "FATAL"
health_text missing = "MISSING"

abbrev pub paper_text : PaperStatus → String
paper_text paper_ok = "OK"
paper_text paper_low = "LOW"
paper_text paper_out = "OUT"

pub data RuntimeError : Type 0 where
  invalid_adapters : List ValidationIssue → RuntimeError
  bad_adapter_timeout : RuntimeError

abbrev pub has_issues : List ValidationIssue → Bool
has_issues [] = false
has_issues (issue ∷ issues) = true

-- An integer between 1 and 300000; without an option it is 30000.
abbrev pub timeout_of : Option ℤ → Option ℕ
timeout_of none = some 30000
timeout_of (some (pos n)) = if leb 1 n && leb n 300000 then some n else none
timeout_of (some (negsuc n)) = none

abbrev pub or_error : Option ℕ → RuntimeError → Result RuntimeError ℕ
or_error none e = err e
or_error (some n) e = ok n

-- `Properties.Set` for the status of the receipt printer.
unfoldable pub set_printer_status : PrinterStatus → Terminal → Terminal
unfolding set_property
set_printer_status status t =
    set_property "Devices.ReceiptPrinter.StPaperStatus" (text (paper_text status.paper))
      (set_property "Devices.ReceiptPrinter.StDeviceStatus" (text (health_text status.health)) t)

-- The event that starts a journal, which names no session.
unfoldable pub start_journal : Terminal → Terminal
unfolding append_event
start_journal t = record t {
  journal =
      (append_event none (t.clock (suc t.journal.seq))
        (record {
          type = runtime_started;
          source = from_runtime;
          session_id = none;
          payload = none;
        })
        t.journal).1;
}

-- The fields before the constructor writes properties and starts the journal.
abbrev pub fresh_terminal : (ℕ → String) → Simulator → TerminalAdapters → ℕ → String → Terminal
fresh_terminal clock simulator adapters timeout_ms session_id = record {
  properties = [];
  journal = empty_journal;
  simulator = simulator;
  adapters = adapters;
  logger = [];
  session_id = session_id;
  adapter_timeout_ms = timeout_ms;
  adapter_operation_sequence = 0;
  clock = clock;
}

-- The constructor, with the adapters, the timeout and the session's id from its options.
unfoldable pub new_runtime :
    (ℕ → String) → Simulator → TerminalAdapters → Option ℤ → String → Result RuntimeError Terminal
unfolding set_printer_status start_journal
new_runtime clock simulator adapters timeout session_id = do
  let issues = validate_terminal_adapters adapters
  throw_if (has_issues issues) (invalid_adapters issues)
  timeout_ms ← or_error (timeout_of timeout) bad_adapter_timeout
  ok (
      start_journal (
        set_printer_status (get_status simulator)
          (fresh_terminal clock simulator adapters timeout_ms session_id)))

-- `result`
abbrev pub result : Bool → String → String → Option Payload → AdapterResult
result success code message details = record {
  success = success;
  code = code;
  message = message;
  details = details;
}
