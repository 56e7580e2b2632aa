-- ===== src/AtmModules/Withdrawal.antt =====
-- CashWithdrawalModule of packages/atm-modules/src/index.ts, which also is CardlessCashWithdrawal and,
-- under another name, FastCash.
use cashblocks.Prelude.{
  ℕ, ◌+◌, Bool, true, false, none, some, List, [], ◌∷◌, String, str_eq, str_append, if◌then◌else◌,
}
use cashblocks.Prelude.Int.{ℤ, pos, negsuc}
use cashblocks.Prelude.Text.{to_text}
use cashblocks.Prelude.Exec.{Exec, return, reads, updates, ◌>>=◌, ◌>>◌}
use cashblocks.Prelude.Result.{ok}
use cashblocks.Contracts.{
  text, num, bool, Payload, AdapterResult, HostAuthorizationRequest, from_module, EventType,
  host_authorization_requested, host_authorization_result, transaction_failed,
  transaction_reconciliation_required, transaction_completed,
}
use cashblocks.Simulator.{Change, debit}
use cashblocks.Validation.{host_authorization, cash_dispenser}
use cashblocks.Runtime.{HandlerRegistry, emit}
use cashblocks.Terminal.{Terminal, record_event, currency_code_of, result}
use cashblocks.AtmModules.Calls.{
  Adapters, call_adapter, adapter_timeout_result, adapter_indeterminate_result, print_receipt,
  journal_receipt_failure,
}

-- `AuthorizationModule`
pub record Authorization : Type 0 where
  pub pinless_authorization_enabled : Bool
  pub chip_authorization_required : Bool
  pub transaction_host : String
  pub pin_entry_option : String

pub record CashWithdrawal : Type 0 where
  pub name : String
  pub authorization : Authorization
  pub amount : ℤ
  pub account : String
  pub handlers : HandlerRegistry Terminal

abbrev pub new_authorization : Authorization
new_authorization = record {
  pinless_authorization_enabled = false;
  chip_authorization_required = false;
  transaction_host = "SimulatorHost";
  pin_entry_option = "Always";
}

abbrev pub new_withdrawal : String → CashWithdrawal
new_withdrawal name = record {
  name = name;
  authorization = new_authorization;
  amount = pos 100;
  account = "Checking";
  handlers = [];
}

abbrev pub amount_text : ℤ → String
amount_text (pos n) = to_text n
amount_text (negsuc n) = str_append "-" (to_text (n + 1))

abbrev pub log_event : EventType → Payload → Exec Terminal (Unit {0})
log_event type payload = updates (record_event type from_module (some payload))

abbrev pub authorization_request : CashWithdrawal → String → HostAuthorizationRequest
authorization_request w currency_code = record {
  transaction = w.name;
  host = w.authorization.transaction_host;
  account = some w.account;
  amount = some w.amount;
  currency_code = currency_code;
  pinless = w.authorization.pinless_authorization_enabled;
  chip_required = w.authorization.chip_authorization_required;
}

-- A result that is not ok ends the transaction: an outcome that is not known is for reconciliation.
abbrev pub outcome_event : String → EventType
outcome_event code =
    if str_eq code "ADAPTER_OUTCOME_UNKNOWN"
    then transaction_reconciliation_required
    else transaction_failed

unfoldable pub fail_transaction : String → EventType → AdapterResult → Exec Terminal AdapterResult
unfolding record_event
fail_transaction name type r = do
  log_event type (("transaction", text name) ∷ ("code", text r.code) ∷ [])
  return (result false r.code r.message none)

-- What the completed transaction tells, in its event and in its result.
abbrev pub transfer_details : String → ℤ → String → Change ℤ → ℕ → ℕ → Payload
transfer_details account amount currency_code change cash_before cash_after =
    ("account", text account)
    ∷ ("amount", num amount)
    ∷ ("currencyCode", text currency_code)
    ∷ ("balanceBefore", num change.before)
    ∷ ("balanceAfter", num change.after)
    ∷ ("terminalCashBefore", num (pos cash_before))
    ∷ ("terminalCashAfter", num (pos cash_after))
    ∷ []

abbrev pub debit_account : String → ℤ → Exec Terminal (Change ℤ)
debit_account account amount t =
    let debited = debit account amount t.simulator in
    (ok debited.0, record t { simulator = debited.1 })

abbrev pub run_handlers_of : String → HandlerRegistry Terminal → Exec Terminal (Unit {0})
run_handlers_of event_name handlers = emit event_name handlers >>= λ _. return tt

abbrev pub journal_unless_ok : String → AdapterResult → Terminal → Terminal
journal_unless_ok name receipt t =
    if receipt.success then t else journal_receipt_failure name receipt t

abbrev pub receipt_lines : CashWithdrawal → String → List String
receipt_lines w currency_code =
    str_append "Transaction: " w.name
    ∷ str_append "Account: " w.account
    ∷ str_append "Amount: " (str_append (amount_text w.amount) (str_append " " currency_code))
    ∷ []

-- The part of `Execute` behind a successful dispense.
unfoldable pub complete_withdrawal :
    Adapters → CashWithdrawal → String → ℕ → Exec Terminal AdapterResult
unfolding record_event print_receipt journal_receipt_failure
complete_withdrawal adapters w currency_code cash_before = do
  change ← debit_account w.account w.amount
  run_handlers_of "OnEndReceiptOption" w.handlers
  receipt ← print_receipt adapters w.name (receipt_lines w currency_code)
  updates (journal_unless_ok w.name receipt)
  cash_after ← reads (λ t. t.simulator.terminal_cash)
  let details = transfer_details w.account w.amount currency_code change cash_before cash_after
  log_event transaction_completed (("transaction", text w.name) ∷ details)
  return (result true "WITHDRAWAL_OK" (str_append w.name " completed.") (some details))

abbrev pub after_dispense :
    Adapters → CashWithdrawal → String → ℕ → AdapterResult → Exec Terminal AdapterResult
after_dispense adapters w currency_code cash_before r =
    if r.success
    then complete_withdrawal adapters w currency_code cash_before
    else fail_transaction w.name (outcome_event r.code) r

-- The part behind an approval.
unfoldable pub dispense_cash : Adapters → CashWithdrawal → String → Exec Terminal AdapterResult
unfolding call_adapter complete_withdrawal fail_transaction
dispense_cash adapters w currency_code = do
  cash_before ← reads (λ t. t.simulator.terminal_cash)
  r ←
      call_adapter cash_dispenser "dispense" (adapters.dispense w.amount currency_code)
        adapter_indeterminate_result w.name
        (("amount", num w.amount) ∷ ("currencyCode", text currency_code) ∷ [])
  after_dispense adapters w currency_code cash_before r

abbrev pub after_authorization :
    Adapters → CashWithdrawal → String → AdapterResult → Exec Terminal AdapterResult
after_authorization adapters w currency_code r =
    if r.success
    then dispense_cash adapters w currency_code
    else fail_transaction w.name transaction_failed r

abbrev pub authorize_withdrawal : Adapters → CashWithdrawal → String → Exec Terminal AdapterResult
authorize_withdrawal adapters w currency_code = do
  r ←
      call_adapter host_authorization "authorize"
        (adapters.authorize (authorization_request w currency_code)) adapter_timeout_result w.name
        (("account", text w.account) ∷ [])
  log_event host_authorization_result (
      ("transaction", text w.name)
      ∷ ("ok", bool r.success)
      ∷ ("code", text r.code)
      ∷ ("message", text r.message)
      ∷ [])
  after_authorization adapters w currency_code r

-- `Execute`
unfoldable pub execute_withdrawal : Adapters → CashWithdrawal → Exec Terminal AdapterResult
unfolding record_event call_adapter dispense_cash fail_transaction
execute_withdrawal adapters w = do
  log_event host_authorization_requested (
      ("transaction", text w.name)
      ∷ ("host", text w.authorization.transaction_host)
      ∷ ("pinless", bool w.authorization.pinless_authorization_enabled)
      ∷ ("chipRequired", bool w.authorization.chip_authorization_required)
      ∷ ("pinEntryOption", text w.authorization.pin_entry_option)
      ∷ [])
  currency_code ← reads currency_code_of
  authorize_withdrawal adapters w currency_code
