-- ===== src/AtmModules/Simulated.antt =====
-- `createSimulatedAdapters` of packages/runtime-core/src/index.ts: the devices of the simulator, which
-- answer at once, as the adapters that the modules call.
use cashblocks.Prelude.Result.{Result, ok, err}
use cashblocks.Contracts.{AdapterResult}
use cashblocks.Simulator.{Simulator, SimulatorError}
use cashblocks.Devices.{get_status, print_receipt, dispense, accept, read_card, authorize}
use cashblocks.AtmModules.Calls.{Outcome, settled, rejected, Adapters}
use cashblocks.AtmModules.Admin.{message_of}

-- An answer, or the throw of `removeTerminalCash` or `addTerminalCash`.
abbrev pub outcome_of :
    Simulator
    → Result SimulatorError (AdapterResult × Simulator)
    → Outcome AdapterResult × Simulator
outcome_of s (ok (r, after)) = (settled r, after)
outcome_of s (err e) = (rejected (message_of s.profile.currency_code e), s)

abbrev pub simulated_adapters : Adapters
simulated_adapters = record {
  get_status = λ context s. (settled (get_status s), s);
  print_receipt = λ lines context s. (settled (print_receipt s), s);
  dispense = λ amount currency_code context s. outcome_of s (dispense amount currency_code s);
  accept = λ expected currency_code context s. outcome_of s (accept expected currency_code s);
  read_card = λ context s. (settled (read_card s), s);
  authorize = λ request context s. (settled (authorize request s), s);
}
