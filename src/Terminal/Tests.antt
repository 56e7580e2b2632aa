-- ===== src/Terminal/Tests.antt =====
-- A runtime over the simulated adapters, with the timeout that it takes without an option.
use cashblocks.Prelude.{◌≡◌, refl, none, ℕ, String}
use cashblocks.Prelude.Text.{is_blank}
use cashblocks.Prelude.Result.{ok}
use cashblocks.Simulator.Default.{default_simulator}
use cashblocks.Validation.Simulated.{simulated}
use cashblocks.Terminal.{Terminal, fresh_terminal, new_runtime, set_printer_status, start_journal}
use cashblocks.Terminal.Laws.{IsReady, new_runtime-IsReady}
use cashblocks.Devices.{get_status}
use cashblocks.Validation.{
  validate_terminal_adapters, validate_slots, check_slot, check_id, missing_from, has_repeat,
  allowed_capabilities, required_capabilities, required_operations,
}

abbrev clock : ℕ → String
clock n = "2026-01-01T00:00:00.000Z"

abbrev started : Terminal
started = start_journal (
    set_printer_status (get_status default_simulator)
      (fresh_terminal clock default_simulator simulated 30000 "s1"))

is_started : new_runtime clock default_simulator simulated none "s1" ≡ ok started
unfolding new_runtime validate_terminal_adapters validate_slots check_slot check_id missing_from
    has_repeat allowed_capabilities required_capabilities required_operations is_blank
is_started = refl

new_runtime-IsReady_example :
    IsReady started × (started.simulator ≡ default_simulator) × (started.adapters ≡ simulated)
new_runtime-IsReady_example =
    new_runtime-IsReady clock default_simulator simulated none "s1" started is_started
