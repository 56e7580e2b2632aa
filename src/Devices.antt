-- ===== src/Devices.antt =====
-- The simulated device and host adapters of packages/runtime-core/src/index.ts, over the simulator
-- that they share. A call that throws has changed nothing.
pub mod Laws
mod Tests
use cashblocks.Prelude.{
  ℕ, Bool, true, false, not, ◌&&◌, ◌||◌, Option, none, some, List, [], ◌∷◌, String, ltb, leb, ◌==◌,
  if◌then◌else◌, str_eq,
}
use cashblocks.Prelude.Int.{ℤ, pos, negsuc, ltb_ℤ}
use cashblocks.Prelude.Result.{Result, ok, err, ◌>>=◌, ◌>>◌}
use cashblocks.Prelude.Text.{codes, has_part}
use cashblocks.Contracts.{
  Json, text, num, null, Payload, PrinterStatus, AdapterResult, HostAuthorizationRequest, healthy,
  missing, paper_out, DeviceHealth, PaperStatus, degraded, fatal, paper_ok, paper_low,
}
use cashblocks.Cash.{is_set}
use cashblocks.Profile.{is_positive_safe, is_safe_integer}
use cashblocks.Simulator.{
  Simulator, SimulatorError, Change, balance, plan_dispense, can_accept, can_add_terminal_cash,
  remove_terminal_cash, add_terminal_cash, get_or,
}

-- adapterResult
abbrev pub adapter_result : Bool → String → String → AdapterResult
adapter_result success code message = record {
  success = success;
  code = code;
  message = message;
  details = none;
}

abbrev pub refuse : String → String → Simulator → Result SimulatorError (AdapterResult × Simulator)
refuse code message s = ok (adapter_result false code message, s)

unfoldable pub get_status : Simulator → PrinterStatus
get_status s =
    if not s.profile.capabilities.receipt_printer
    then record { health = missing; paper = paper_out }
    else s.receipt_printer

abbrev pub is_healthy : DeviceHealth → Bool
is_healthy healthy = true
is_healthy _ = false

abbrev pub is_out : PaperStatus → Bool
is_out paper_out = true
is_out _ = false

unfoldable pub print_receipt : Simulator → AdapterResult
unfolding get_status
print_receipt s =
    if not (is_healthy (get_status s).health) || is_out (get_status s).paper
    then adapter_result false "PRINTER_UNAVAILABLE" "Receipt printer is unavailable."
    else adapter_result true "PRINTED" "Receipt printed."

abbrev pub to_number : ℕ → Json
to_number n = num (pos n)

abbrev pub dispensed : ℤ → String → ℕ → AdapterResult
dispensed amount currency_code after = record {
  success = true;
  code = "DISPENSED";
  message = "Cash dispensed.";
  details = some (
      ("amount", num amount)
      ∷ ("currencyCode", text currency_code)
      ∷ ("terminalCashAfter", to_number after)
      ∷ []);
}

-- The part of `dispense` behind its guards.
unfoldable pub pay_out : ℤ → String → Simulator → Result SimulatorError (AdapterResult × Simulator)
pay_out amount currency_code s = do
  removed ← remove_terminal_cash amount s
  ok (dispensed amount currency_code removed.0.after, removed.1)

unfoldable pub dispense : ℤ → String → Simulator → Result SimulatorError (AdapterResult × Simulator)
dispense amount currency_code s =
    if not s.profile.capabilities.cash_dispenser
    then refuse "DISPENSER_UNAVAILABLE" "Cash dispenser is not supported." s
    else if not s.dispenser_online
    then refuse "DISPENSER_OFFLINE" "Cash dispenser is offline." s
    else if not (is_positive_safe amount)
    then refuse "INVALID_AMOUNT" "Dispense amount must be a positive safe integer." s
    else if s.finite_cash_inventory && not (str_eq currency_code s.profile.currency_code)
    then refuse "UNSUPPORTED_CURRENCY" "Currency is not supported." s
    else if s.finite_cash_inventory
        && ltb_ℤ (pos s.profile.cash_management.max_dispense_amount) amount
    then refuse "DISPENSE_LIMIT_EXCEEDED" "Dispense limit exceeded." s
    else if ltb_ℤ (pos s.terminal_cash) amount
    then refuse "INSUFFICIENT_TERMINAL_CASH" "Terminal does not have enough cash." s
    else if not (is_set (plan_dispense amount s))
    then refuse "DENOMINATION_UNAVAILABLE"
        "Requested amount cannot be dispensed from available cash units." s
    else pay_out amount currency_code s

abbrev pub or_null : Option ℤ → Json
or_null none = null
or_null (some n) = num n

abbrev pub accepted : Option ℤ → String → ℕ → AdapterResult
accepted expected currency_code after = record {
  success = true;
  code = "ACCEPTED";
  message = "Cash accepted.";
  details = some (
      ("expectedAmount", or_null expected)
      ∷ ("currencyCode", text currency_code)
      ∷ ("terminalCashAfter", to_number after)
      ∷ []);
}

-- The part of `accept` behind its guards.
unfoldable pub take_in :
    Option ℤ → String → Simulator → Result SimulatorError (AdapterResult × Simulator)
take_in expected currency_code s = do
  added ← add_terminal_cash (get_or (pos 0) expected) s
  ok (accepted expected currency_code added.0.after, added.1)

abbrev pub is_non_negative : ℤ → Bool
is_non_negative (pos n) = true
is_non_negative (negsuc n) = false

-- The guards of `accept`, which differ by the kind of inventory.
unfoldable pub accept_guard : ℤ → String → Simulator → Option AdapterResult
accept_guard amount currency_code s =
    if not s.finite_cash_inventory
    then (if not (is_safe_integer amount) || not (is_non_negative amount)
        then some (
            adapter_result false "INVALID_AMOUNT"
              "Deposit amount must be a non-negative safe integer.")
        else none)
    else if not (is_positive_safe amount)
    then some
        (adapter_result false "INVALID_AMOUNT" "Deposit amount must be a positive safe integer.")
    else if not (str_eq currency_code s.profile.currency_code)
    then some (adapter_result false "UNSUPPORTED_CURRENCY" "Currency is not supported.")
    else if ltb_ℤ (pos s.profile.cash_management.max_deposit_amount) amount
    then some (adapter_result false "DEPOSIT_LIMIT_EXCEEDED" "Deposit limit exceeded.")
    else if not (can_accept amount s)
    then some (
        adapter_result false "DENOMINATION_UNAVAILABLE"
          "Deposit amount cannot be represented by accepted denominations.")
    else none

abbrev pub accept_behind :
    Option AdapterResult
    → Option ℤ
    → String
    → Simulator
    → Result SimulatorError (AdapterResult × Simulator)
accept_behind (some refusal) expected currency_code s = ok (refusal, s)
accept_behind none expected currency_code s =
    if not (can_add_terminal_cash (get_or (pos 0) expected) s)
    then refuse "CASH_CAPACITY_EXCEEDED" "Terminal cash capacity exceeded." s
    else take_in expected currency_code s

unfoldable pub accept :
    Option ℤ → String → Simulator → Result SimulatorError (AdapterResult × Simulator)
accept expected currency_code s =
    if not s.profile.capabilities.cash_acceptor
    then refuse "ACCEPTOR_UNAVAILABLE" "Cash acceptor is not supported." s
    else if not s.acceptor_online
    then refuse "ACCEPTOR_OFFLINE" "Cash acceptor is offline." s
    else accept_behind (accept_guard (get_or (pos 0) expected) currency_code s) expected
        currency_code s

unfoldable pub read_card : Simulator → AdapterResult
read_card s =
    if not s.profile.capabilities.card_reader
    then adapter_result false "CARD_READER_UNAVAILABLE" "Card reader is not supported."
    else if not s.card_reader_online
    then adapter_result false "CARD_READER_OFFLINE" "Card reader is offline."
    else adapter_result true "CARD_READ" "Card read."

abbrev pub is_truthy : Option ℤ → Bool
is_truthy none = false
is_truthy (some (pos n)) = ltb 0 n
is_truthy (some (negsuc n)) = true

abbrev pub covers : Option ℤ → ℤ → Bool
covers none funds = true
covers (some amount) funds = not (ltb_ℤ funds amount)

abbrev pub host_details : HostAuthorizationRequest → Payload
host_details request = ("transaction", text request.transaction) ∷ ("host", text request.host) ∷ []

unfoldable pub authorize : HostAuthorizationRequest → Simulator → AdapterResult
authorize request s =
    if not s.profile.capabilities.host_authorization
    then adapter_result false "HOST_UNAVAILABLE" "Host authorization is not supported."
    else if not s.host_approved
    then record {
      success = false;
      code = "HOST_DECLINED";
      message = "Host declined transaction.";
      details = some (host_details request);
    }
    else if is_truthy request.amount
        && has_part (codes request.transaction) (codes "Withdrawal")
        && not (covers request.amount (balance (get_or "Checking" request.account) s))
    then record {
      success = false;
      code = "INSUFFICIENT_FUNDS";
      message = "Account has insufficient funds.";
      details = some (
          ("transaction", text request.transaction)
          ∷ ("host", text request.host)
          ∷ ("account", text (get_or "Checking" request.account))
          ∷ []);
    }
    else record {
      success = true;
      code = "HOST_APPROVED";
      message = "Host approved transaction.";
      details = some (host_details request);
    }
