-- ===== src/AtmModules/Admin.antt =====
-- AdminModule of packages/atm-modules/src/index.ts. The accounts in a payload are a copy of the
-- simulator's.
use cashblocks.Prelude.{
  ℕ, true, not, ◌&&◌, Option, none, some, List, [], ◌∷◌, String, str_append, if◌then◌else◌, ltb,
  all, length, drop,
}
use cashblocks.Prelude.Int.{ℤ, pos, ◌-ℤ◌}
use cashblocks.Prelude.Text.{codes, starts_with}
use cashblocks.Prelude.Exec.{Exec, return, ◌>>=◌, ◌>>◌}
use cashblocks.Prelude.Result.{Result, ok, err}
use cashblocks.Contracts.{
  text, num, obj, Fields, end, field, Payload, AdapterResult, transaction_completed,
}
use cashblocks.Iso8583.{is_digit, is_nonempty, parse_number}
use cashblocks.Simulator.{
  Simulator, SimulatorError, Change, add_terminal_cash, remove_terminal_cash, cannot_dispense,
  cannot_add,
}
use cashblocks.Terminal.{Terminal, record_event, result}
use cashblocks.AtmModules.Withdrawal.{log_event, amount_text}

pub data Direction : Type 0 where
  add remove : Direction

pub data AdminOperation : Type 0 where
  no_operation balance_operation cash_adjustment subtotals : AdminOperation

pub record Admin : Type 0 where
  pub operation : AdminOperation
  pub cash_adjustment_action : String

abbrev pub new_admin : Admin
new_admin = record { operation = no_operation; cash_adjustment_action = "" }

-- PrepareBalance, PrepareCashAdjustment and PrepareSubtotals
abbrev pub prepare_balance : Admin → Admin
prepare_balance a = record a { operation = balance_operation }

abbrev pub prepare_cash_adjustment : String → Admin → Admin
prepare_cash_adjustment action a = record {
  operation = cash_adjustment;
  cash_adjustment_action = action;
}

abbrev pub prepare_subtotals : Admin → Admin
prepare_subtotals a = record a { operation = subtotals }

abbrev pub operation_name : AdminOperation → String
operation_name no_operation = "none"
operation_name balance_operation = "balance"
operation_name cash_adjustment = "cash_adjustment"
operation_name subtotals = "subtotals"

-- The digits behind a prefix: /^prefix(\d+)$/.
unfoldable pub digits_behind : String → List ℕ → Option (List ℕ)
unfolding starts_with
digits_behind prefix cs =
    let rest = drop (length (codes prefix)) cs in
    if starts_with cs (codes prefix) && (is_nonempty rest && all is_digit rest)
    then some rest
    else none

abbrev pub adjustment_of : Option (List ℕ) → Option (List ℕ) → Direction × ℕ
adjustment_of (some digits) removes = (add, parse_number 0 digits)
adjustment_of none (some digits) = (remove, parse_number 0 digits)
adjustment_of none none = (add, 0)

unfoldable pub parse_cash_adjustment : String → Direction × ℕ
unfolding digits_behind
parse_cash_adjustment action =
    adjustment_of (digits_behind "Add" (codes action)) (digits_behind "Remove" (codes action))

-- The message of a throw; the other errors are those of the constructor.
abbrev pub message_of : String → SimulatorError → String
message_of currency_code (cannot_dispense amount) =
    str_append "Simulator cannot dispense "
      (str_append (amount_text amount) (str_append " " (str_append currency_code ".")))
message_of currency_code (cannot_add amount) = str_append "Simulator cannot add " (
    str_append (amount_text amount)
      (str_append " " (str_append currency_code " without exceeding safe cash capacity.")))
message_of currency_code _ = ""

abbrev pub adjusted : Result SimulatorError (Change ℕ × Simulator) → Exec Terminal (Change ℕ)
adjusted (ok (change, s)) t = (ok change, record t { simulator = s })
adjusted (err e) t = (err (message_of t.simulator.profile.currency_code e), t)

abbrev pub adjust : Direction → ℕ → Exec Terminal (Change ℕ)
adjust add amount t = adjusted (add_terminal_cash (pos amount) t.simulator) t
adjust remove amount t = adjusted (remove_terminal_cash (pos amount) t.simulator) t

abbrev pub signed : Direction → ℕ → ℤ
signed add amount = pos amount
signed remove amount = pos 0 -ℤ pos amount

unfoldable pub fields_of : List (String × ℤ) → Fields
fields_of [] = end
fields_of ((key, value) ∷ rest) = field key (num value) (fields_of rest)

-- The accounts are those of the moment, where the code hands out the simulator's own object.
abbrev pub report_totals : Exec Terminal Payload
report_totals t = (
  ok (
      ("terminalCash", num (pos t.simulator.terminal_cash))
      ∷ ("accounts", obj (fields_of t.simulator.accounts))
      ∷ []),
  t,
)

unfoldable pub adjust_cash : String → Direction × ℕ → Exec Terminal Payload
adjust_cash action (direction, amount) = if not (ltb 0 amount) then return [] else (do
  cash ← adjust direction amount
  return (
      ("cashAdjustment", text action)
      ∷ ("amount", num (signed direction amount))
      ∷ ("terminalCashBefore", num (pos cash.before))
      ∷ ("terminalCashAfter", num (pos cash.after))
      ∷ []))

-- The entries that the operation adds to the payload.
abbrev pub perform : AdminOperation → String → Exec Terminal Payload
perform no_operation action = return []
perform balance_operation action = report_totals
perform cash_adjustment action = adjust_cash action (parse_cash_adjustment action)
perform subtotals action = report_totals

-- `Execute`
unfoldable pub execute_admin : Admin → Exec Terminal AdapterResult
unfolding record_event adjust_cash
execute_admin a = do
  added ← perform a.operation a.cash_adjustment_action
  let payload =
      ("transaction", text "TerminalAdmin")
      ∷ ("operation", text (operation_name a.operation))
      ∷ added
  log_event transaction_completed payload
  return (
      result true "ADMIN_OK"
        (str_append "Admin " (str_append (operation_name a.operation) " completed."))
        (some payload))
