-- ===== src/Replay/Types.antt =====
-- The types of packages/journal-replay/src/index.ts, and its readers of payloads. An issue's message,
-- which says its code in words, is left out.
use cashblocks.Prelude.{
  ℕ, Bool, false, Option, none, some, List, [], ◌∷◌, String, if◌then◌else◌, str_eq,
}
use cashblocks.Prelude.Int.{ℤ}
use cashblocks.Prelude.Text.{lookup}
use cashblocks.Contracts.{
  Json, null, num, text, obj, Fields, end, field, Payload, EventType, RuntimeEvent,
  transaction_started, transaction_completed, transaction_cancelled, transaction_failed,
  transaction_reconciliation_required,
}

pub data Severity : Type 0 where
  error warning : Severity

pub record JournalReplayIssue : Type 0 where
  pub severity : Severity
  pub code : String
  pub line : Option ℕ
  pub session_id : Option String
  pub seq : Option ℕ

pub data TransactionStatus : Type 0 where
  started completed cancelled failed reconciliation_required : TransactionStatus

pub data SessionStatus : Type 0 where
  recorded active : SessionStatus
  session_completed session_cancelled session_failed session_reconciliation_required : SessionStatus

pub record TrackedTransaction : Type 0 where
  pub transaction : String
  pub occurrence : ℕ
  pub status : TransactionStatus

pub record ReplayedSessionState : Type 0 where
  pub session_id : String
  pub seq : ℕ
  pub ts : String
  pub status : SessionStatus
  pub selected_transaction : Option String
  pub selected_account : Option String
  pub selected_amount : Option ℤ
  pub currency_code : Option String
  pub terminal_cash : Option ℤ
  pub accounts : List (String × ℤ)
  pub devices : List (String × Json)
  pub transactions : List TrackedTransaction
  pub host_requests : ℕ
  pub host_results : ℕ
  pub requires_reconciliation : Bool

pub record JournalRecord : Type 0 where
  pub line : ℕ
  pub event : RuntimeEvent

pub record JournalReplayFrame : Type 0 where
  pub line : ℕ
  pub event : RuntimeEvent
  pub state : ReplayedSessionState

pub record ReplayContext : Type 0 where
  pub active_transactions : List (String × ℕ)
  pub occurrence_counts : List (String × ℕ)
  pub pending_host_requests : List (String × ℕ)
  pub transaction_indexes : List (String × List (ℕ × ℕ))

abbrev pub initial_state : String → ReplayedSessionState
initial_state session_id = record {
  session_id = session_id;
  seq = 0;
  ts = "";
  status = recorded;
  selected_transaction = none;
  selected_account = none;
  selected_amount = none;
  currency_code = none;
  terminal_cash = none;
  accounts = [];
  devices = [];
  transactions = [];
  host_requests = 0;
  host_results = 0;
  requires_reconciliation = false;
}

abbrev pub empty_context : ReplayContext
empty_context = record {
  active_transactions = [];
  occurrence_counts = [];
  pending_host_requests = [];
  transaction_indexes = [];
}

abbrev pub issue_for : JournalRecord → Severity → String → JournalReplayIssue
issue_for r severity code = record {
  severity = severity;
  code = code;
  line = some r.line;
  session_id = r.event.draft.session_id;
  seq = some r.event.seq;
}

unfoldable pub transaction_status : EventType → Option TransactionStatus
transaction_status transaction_started = some started
transaction_status transaction_completed = some completed
transaction_status transaction_cancelled = some cancelled
transaction_status transaction_failed = some failed
transaction_status transaction_reconciliation_required = some reconciliation_required
transaction_status _ = none

-- `payload?.[key]`
unfoldable pub payload_at : Option Payload → String → Option Json
payload_at none key = none
payload_at (some payload) key = lookup key payload

abbrev pub string_of : Option Json → Option String
string_of (some (text s)) = if str_eq s "" then none else some s
string_of _ = none

unfoldable pub payload_string : Option Payload → String → Option String
payload_string payload key = string_of (payload_at payload key)

abbrev pub number_of : Option Json → Option ℤ
number_of (some (num n)) = some n
number_of _ = none

unfoldable pub payload_number : Option Payload → String → Option ℤ
payload_number payload key = number_of (payload_at payload key)

-- `isNumberRecord` and `numberDictionary`: the entries, where all are numbers.
unfoldable pub numbers : Fields → Option (List (String × ℤ))
numbers end = some []
numbers (field key (num n) rest) = elim (numbers rest) [
  | none ↦ none
  | some ns ↦ some ((key, n) ∷ ns)
]
numbers (field key _ rest) = none

unfoldable pub number_record : Option Json → Option (List (String × ℤ))
number_record (some (obj fields)) = numbers fields
number_record _ = none

-- `a ?? b` on JSON values, where null counts as absent.
abbrev pub json_or : Option Json → Option Json → Option Json
json_or none b = b
json_or (some null) b = b
json_or (some value) b = some value

abbrev pub or_else {ℓ} : {A : Type ℓ} → Option A → Option A → Option A
or_else none b = b
or_else (some a) b = some a
