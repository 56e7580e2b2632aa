-- ===== src/AtmModules/Balance.antt =====
-- BalanceInquiryModule and IdleModule of packages/atm-modules/src/index.ts.
use cashblocks.Prelude.{Bool, true, not, none, [], ◌∷◌, String, str_append, if◌then◌else◌}
use cashblocks.Prelude.Exec.{Exec, return, reads, updates, ◌>>=◌, ◌>>◌}
use cashblocks.Contracts.{
  text, num, bool, AdapterResult, from_module, session_started, transaction_started,
  transaction_completed,
}
use cashblocks.Simulator.{balance}
use cashblocks.Runtime.{HandlerRegistry}
use cashblocks.Terminal.{Terminal, record_event, result}
use cashblocks.AtmModules.Calls.{Adapters, print_receipt}
use cashblocks.AtmModules.Withdrawal.{log_event, run_handlers_of, amount_text, journal_unless_ok}

pub record BalanceInquiry : Type 0 where
  pub name : String
  pub display_balance_on_screen : Bool
  pub account : String
  pub handlers : HandlerRegistry Terminal

-- IdleModule.Execute
unfoldable pub execute_idle : Exec Terminal AdapterResult
unfolding record_event
execute_idle = do
  updates (record_event session_started from_module none)
  return (result true "IDLE_READY" "Idle session started." none)

-- The receipt with the balance; the answer is the module's DisplayBalanceOnScreen from then on.
unfoldable pub print_balance : Adapters → BalanceInquiry → Exec Terminal Bool
unfolding print_receipt
print_balance adapters b = do
  funds ← reads (λ t. balance b.account t.simulator)
  receipt ←
      print_receipt adapters b.name
        (str_append "Account: " b.account ∷ str_append "Balance: " (amount_text funds) ∷ [])
  updates (journal_unless_ok b.name receipt)
  return (not receipt.success)

abbrev pub print_unless_displayed : Adapters → BalanceInquiry → Exec Terminal Bool
print_unless_displayed adapters b =
    if b.display_balance_on_screen then return true else print_balance adapters b

-- `Execute`: its answer, and the module, which keeps DisplayBalanceOnScreen where a receipt failed.
unfoldable pub execute_balance :
    Adapters → BalanceInquiry → Exec Terminal (AdapterResult × BalanceInquiry)
unfolding record_event print_balance
execute_balance adapters b = do
  log_event transaction_started (("transaction", text b.name) ∷ [])
  run_handlers_of "OnEndReceiptOption" b.handlers
  displayed ← print_unless_displayed adapters b
  funds ← reads (λ t. balance b.account t.simulator)
  log_event transaction_completed (
      ("transaction", text b.name)
      ∷ ("account", text b.account)
      ∷ ("balance", num funds)
      ∷ ("displayBalanceOnScreen", bool displayed)
      ∷ [])
  return (
    result true "BALANCE_OK" "Balance inquiry completed." none,
    record b { display_balance_on_screen = displayed },
  )
