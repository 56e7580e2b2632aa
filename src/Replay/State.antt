-- ===== src/Replay/State.antt =====
-- `applyEvent` of packages/journal-replay/src/index.ts: the state of a session after an event.
use cashblocks.Prelude.{
  ℕ, ◌+◌, ◌-◌, Bool, true, false, ◌||◌, Option, none, some, List, [], ◌∷◌, ◌++◌, String, ◌==◌,
  if◌then◌else◌, length, str_eq,
}
use cashblocks.Prelude.Int.{ℤ}
use cashblocks.Prelude.Text.{lookup, insert}
use cashblocks.Contracts.{
  Json, Payload, EventType, RuntimeEvent, flow_loaded, flow_failed, session_started,
  transaction_selected, transaction_reconciliation_required, device_status_changed,
}
use cashblocks.Replay.Types.{
  TransactionStatus, started, completed, cancelled, failed, reconciliation_required, SessionStatus,
  active, session_completed, session_cancelled, session_failed, session_reconciliation_required,
  TrackedTransaction, ReplayedSessionState, ReplayContext, payload_at, payload_string,
  payload_number, number_record, json_or, or_else,
}
use cashblocks.Replay.Lifecycle.{is_requested, is_result}

-- A status is also the status of the session, except that a start makes it active.
abbrev pub session_status : TransactionStatus → SessionStatus
session_status started = active
session_status completed = session_completed
session_status cancelled = session_cancelled
session_status failed = session_failed
session_status reconciliation_required = session_reconciliation_required

abbrev pub is_activating : EventType → Bool
is_activating session_started = true
is_activating flow_loaded = true
is_activating _ = false

abbrev pub is_selected : EventType → Bool
is_selected transaction_selected = true
is_selected _ = false

abbrev pub is_flow_failed : EventType → Bool
is_flow_failed flow_failed = true
is_flow_failed _ = false

abbrev pub is_reconciliation : EventType → Bool
is_reconciliation transaction_reconciliation_required = true
is_reconciliation _ = false

abbrev pub is_status_changed : EventType → Bool
is_status_changed device_status_changed = true
is_status_changed _ = false

unfoldable pub select : EventType → Option String → ReplayedSessionState → ReplayedSessionState
select type none state = state
select type (some transaction) state =
    if is_selected type
    then record state { selected_transaction = some transaction; status = active }
    else record state {
      selected_transaction = or_else state.selected_transaction (
          if str_eq transaction "CustomerIdentification" || str_eq transaction "TerminalStatus"
          then none
          else some transaction);
    }

-- The index of an occurrence, from `transactionIndexes`.
unfoldable pub index_at : ℕ → List (ℕ × ℕ) → Option ℕ
index_at occurrence [] = none
index_at occurrence ((n, i) ∷ indexes) =
    if n == occurrence then some i else index_at occurrence indexes

unfoldable pub set_status :
    ℕ → TransactionStatus → List TrackedTransaction → List TrackedTransaction
set_status i status [] = []
set_status i status (t ∷ ts) =
    let rest = set_status (i - 1) status ts in
    if i == 0 then record t { status = status } ∷ ts else t ∷ rest

abbrev pub indexes_of : Option (List (ℕ × ℕ)) → List (ℕ × ℕ)
indexes_of none = []
indexes_of (some indexes) = indexes

unfoldable pub record_transaction :
    Option TrackedTransaction
    → ReplayedSessionState
    → ReplayContext
    → ReplayedSessionState × ReplayContext
record_transaction none state context = (state, context)
record_transaction (some tracked) state context =
    let indexes = indexes_of (lookup tracked.transaction context.transaction_indexes) in
    elim (index_at tracked.occurrence indexes) [
      | some i ↦ (
        record state {
          transactions = set_status i tracked.status state.transactions;
          status = session_status tracked.status;
        },
        context,
      )
      | none ↦ (
        record state {
          transactions = state.transactions ++ (tracked ∷ []);
          status = session_status tracked.status;
        },
        record context {
          transaction_indexes =
              insert tracked.transaction
                (indexes ++ ((tracked.occurrence, length state.transactions) ∷ []))
                context.transaction_indexes;
        },
      )
    ]

-- The counters and the flags that an event's type sets.
unfoldable pub count_event : EventType → ReplayedSessionState → ReplayedSessionState
count_event type state = record state {
  status = if is_flow_failed type then session_failed else state.status;
  host_requests = if is_requested type then state.host_requests + 1 else state.host_requests;
  host_results = if is_result type then state.host_results + 1 else state.host_results;
  requires_reconciliation = is_reconciliation type || state.requires_reconciliation;
}

abbrev pub set_account : Option String → Option ℤ → List (String × ℤ) → List (String × ℤ)
set_account (some account) (some balance) accounts = insert account balance accounts
set_account _ _ accounts = accounts

abbrev pub replace_accounts : Option (List (String × ℤ)) → List (String × ℤ) → List (String × ℤ)
replace_accounts none accounts = accounts
replace_accounts (some all_accounts) accounts = all_accounts

abbrev pub set_device : Option String → Option Json → List (String × Json) → List (String × Json)
set_device (some device) (some status) devices = insert device status devices
set_device _ _ devices = devices

-- The cash, the balances and the device that a payload reports.
unfoldable pub report : EventType → Option Payload → ReplayedSessionState → ReplayedSessionState
report type payload state = record state {
  terminal_cash =
      or_else
        (or_else (payload_number payload "terminalCashAfter")
          (payload_number payload "terminalCash"))
        state.terminal_cash;
  accounts = replace_accounts (number_record (payload_at payload "accounts")) (
      set_account (payload_string payload "account")
        (or_else (payload_number payload "balanceAfter") (payload_number payload "balance"))
        state.accounts);
  devices =
      if is_status_changed type
      then set_device (or_else (payload_string payload "device") (payload_string payload "adapter"))
          (json_or (payload_at payload "status") (payload_at payload "health")) state.devices
      else state.devices;
}

-- The start of `applyEvent`: the position in the journal and the selections.
unfoldable pub note_selections : RuntimeEvent → ReplayedSessionState → ReplayedSessionState
note_selections event state =
    let payload = event.draft.payload in
    let selected = select event.draft.type (payload_string payload "transaction") (record state {
      seq = event.seq;
      ts = event.ts;
      status = if is_activating event.draft.type then active else state.status;
    }) in
    record selected {
      selected_account = or_else (payload_string payload "account") selected.selected_account;
      selected_amount = or_else (payload_number payload "amount") selected.selected_amount;
      currency_code = or_else (payload_string payload "currencyCode") selected.currency_code;
    }

unfoldable pub apply_event :
    RuntimeEvent
    → Option TrackedTransaction
    → ReplayedSessionState
    → ReplayContext
    → ReplayedSessionState × ReplayContext
apply_event event tracked state context =
    let recorded = record_transaction tracked (note_selections event state) context in
    (
      report event.draft.type event.draft.payload (count_event event.draft.type recorded.0),
      recorded.1,
    )
