-- ===== src/AtmModules/Deposit.antt =====
-- CashDepositModule of packages/atm-modules/src/index.ts.
use cashblocks.Prelude.{ℕ, true, Option, none, some, [], ◌∷◌, String, if◌then◌else◌}
use cashblocks.Prelude.Int.{ℤ, pos}
use cashblocks.Prelude.Exec.{Exec, return, reads, ◌>>=◌, ◌>>◌}
use cashblocks.Prelude.Result.{ok}
use cashblocks.Contracts.{text, AdapterResult, transaction_completed}
use cashblocks.Devices.{is_truthy, or_null}
use cashblocks.Simulator.{Change, credit}
use cashblocks.Validation.{cash_acceptor}
use cashblocks.Terminal.{Terminal, currency_code_of, result, record_event}
use cashblocks.AtmModules.Calls.{Adapters, call_adapter, adapter_indeterminate_result}
use cashblocks.AtmModules.Withdrawal.{log_event, outcome_event, fail_transaction, transfer_details}

pub record CashDeposit : Type 0 where
  pub name : String
  pub expected_amount : ℤ
  pub account : String

abbrev pub new_deposit : CashDeposit
new_deposit = record { name = "CashDeposit"; expected_amount = pos 0; account = "Checking" }

-- `amount || undefined`
abbrev pub unless_zero : ℤ → Option ℤ
unless_zero amount = if is_truthy (some amount) then some amount else none

abbrev pub credit_account : String → ℤ → Exec Terminal (Change ℤ)
credit_account account amount t =
    let credited = credit account amount t.simulator in
    (ok credited.0, record t { simulator = credited.1 })

-- The part of `Execute` behind a successful acceptance.
unfoldable pub complete_deposit : CashDeposit → String → ℕ → Exec Terminal AdapterResult
unfolding record_event
complete_deposit d currency_code cash_before = do
  change ← credit_account d.account d.expected_amount
  cash_after ← reads (λ t. t.simulator.terminal_cash)
  let details =
      transfer_details d.account d.expected_amount currency_code change cash_before cash_after
  log_event transaction_completed (("transaction", text d.name) ∷ details)
  return (result true "DEPOSIT_OK" "Cash deposit completed." (some details))

abbrev pub after_acceptance : CashDeposit → String → ℕ → AdapterResult → Exec Terminal AdapterResult
after_acceptance d currency_code cash_before r =
    if r.success
    then complete_deposit d currency_code cash_before
    else fail_transaction d.name (outcome_event r.code) r

-- `Execute`
unfoldable pub execute_deposit : Adapters → CashDeposit → Exec Terminal AdapterResult
unfolding call_adapter complete_deposit fail_transaction
execute_deposit adapters d = do
  currency_code ← reads currency_code_of
  cash_before ← reads (λ t. t.simulator.terminal_cash)
  r ←
      call_adapter cash_acceptor "accept"
        (adapters.accept (unless_zero d.expected_amount) currency_code) adapter_indeterminate_result
        d.name
        (("expectedAmount", or_null (unless_zero d.expected_amount))
          ∷ ("currencyCode", text currency_code)
          ∷ [])
  after_acceptance d currency_code cash_before r
