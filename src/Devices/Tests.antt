-- ===== src/Devices/Tests.antt =====
-- Runs of the simulated dispenser and acceptor.
use cashblocks.Prelude.{false, some}
use cashblocks.Prelude.Int.{pos}
use cashblocks.Contracts.{HostAuthorizationRequest}
use cashblocks.Devices.{dispense, accept}
use cashblocks.Devices.Laws.{Answered, Paid, Taken, dispense_answers, accept_answers}
use cashblocks.Simulator.Default.{default_simulator, default-IsSound}

dispense_answers_example :
    Answered
      (Paid (pos 60) default_simulator)
      default_simulator
      (dispense (pos 60) "AUD" default_simulator)
dispense_answers_example = dispense_answers default_simulator (pos 60) "AUD" default-IsSound

accept_answers_example :
    Answered
      (Taken (pos 50) default_simulator)
      default_simulator
      (accept (some (pos 50)) "AUD" default_simulator)
accept_answers_example = accept_answers default_simulator (some (pos 50)) "AUD" default-IsSound

abbrev withdrawal : HostAuthorizationRequest
withdrawal = record {
  transaction = "CashWithdrawal";
  host = "host";
  account = some "Checking";
  amount = some (pos 60);
  currency_code = "AUD";
  pinless = false;
  chip_required = false;
}
