-- ===== src/AtmModules/Tests.antt =====
-- A withdrawal and a deposit of a session with the simulated devices.
use cashblocks.Prelude.{refl, []}
use cashblocks.Prelude.Int.{pos}
use cashblocks.Prelude.Text.{lookup}
use cashblocks.Runtime.{empty_journal, emit, run_handlers}
use cashblocks.Simulator.Default.{default_simulator, default-IsSound}
use cashblocks.Terminal.{Terminal}
use cashblocks.Validation.Simulated.{simulated}
use cashblocks.AtmModules.Calls.{Adapters, rejected, timed_out}
use cashblocks.AtmModules.Withdrawal.{CashWithdrawal, new_withdrawal, execute_withdrawal}
use cashblocks.AtmModules.Deposit.{CashDeposit, execute_deposit}
use cashblocks.AtmModules.Simulated.{simulated_adapters}
use cashblocks.AtmModules.Money.{
  Settles, accounts_of, debited, credited, execute_withdrawal-Settles, execute_deposit-Settles,
}
use cashblocks.AtmModules.Statuses.{Ends, statuses_of}
use cashblocks.AtmModules.Outcomes.{execute_withdrawal-Ends, execute_deposit-Ends}
use cashblocks.AtmModules.Transfers.{Conserves, Withdrawn, Deposited}
use cashblocks.AtmModules.Conservation.{execute_withdrawal-Conserves, execute_deposit-Conserves}

abbrev terminal : Terminal
terminal = record {
  properties = [];
  journal = empty_journal;
  simulator = default_simulator;
  adapters = simulated;
  logger = [];
  session_id = "s1";
  adapter_timeout_ms = 30000;
  adapter_operation_sequence = 0;
  clock = λ n. "2026-01-01T00:00:00.000Z";
}

-- What the dispenser does is known only when the call has been timed out.
abbrev silent_adapters : Adapters
silent_adapters = record simulated_adapters {
  dispense = λ amount currency_code context s. (timed_out, s);
  print_receipt = λ lines context s. (rejected "Out of reach.", s);
  accept = λ expected currency_code context s. (timed_out, s);
}

abbrev withdrawal : CashWithdrawal
withdrawal = new_withdrawal "CashWithdrawal"

abbrev deposit : CashDeposit
deposit = record { name = "CashDeposit"; expected_amount = pos 50; account = "Savings" }

execute_withdrawal-Settles_example :
    Settles
      (accounts_of terminal)
      (debited withdrawal (accounts_of terminal))
      (execute_withdrawal silent_adapters withdrawal terminal)
unfolding emit run_handlers lookup
execute_withdrawal-Settles_example =
    execute_withdrawal-Settles silent_adapters withdrawal (λ request context s. refl)
      (λ amount currency_code context s. refl) (λ lines context s. refl) (λ t. refl) terminal

execute_deposit-Settles_example :
    Settles
      (accounts_of terminal)
      (credited deposit (accounts_of terminal))
      (execute_deposit silent_adapters deposit terminal)
execute_deposit-Settles_example =
    execute_deposit-Settles silent_adapters deposit (λ amount currency_code context s. refl)
      terminal

execute_withdrawal-Ends_example :
    Ends (statuses_of terminal) (execute_withdrawal silent_adapters withdrawal terminal)
unfolding emit run_handlers lookup
execute_withdrawal-Ends_example =
    execute_withdrawal-Ends silent_adapters withdrawal (λ request context s message e. cc)
      (λ amount currency_code context s message e. cc) (λ t. (tt, refl)) terminal

execute_deposit-Ends_example :
    Ends (statuses_of terminal) (execute_deposit silent_adapters deposit terminal)
execute_deposit-Ends_example =
    execute_deposit-Ends silent_adapters deposit (λ amount currency_code context s message e. cc)
      terminal

execute_withdrawal-Conserves_example :
    Conserves default_simulator
      (Withdrawn withdrawal default_simulator)
      (execute_withdrawal simulated_adapters withdrawal terminal)
unfolding emit run_handlers lookup
execute_withdrawal-Conserves_example =
    execute_withdrawal-Conserves withdrawal (λ t. refl) terminal default-IsSound

execute_deposit-Conserves_example :
    Conserves default_simulator
      (Deposited deposit default_simulator)
      (execute_deposit simulated_adapters deposit terminal)
execute_deposit-Conserves_example = execute_deposit-Conserves deposit terminal default-IsSound
