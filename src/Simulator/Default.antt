-- ===== src/Simulator/Default.antt =====
-- The simulator that the runtime builds when it is given no options.
use cashblocks.Prelude.{◌≡◌, refl, true, none, [], ◌∷◌}
use cashblocks.Prelude.Int.{pos, negsuc}
use cashblocks.Prelude.Result.{ok}
use cashblocks.Prelude.Text.{is_blank}
use cashblocks.Contracts.{healthy, paper_ok}
use cashblocks.Profile.{
  Profile, define_profile, validate_denominations, validate_positive_amount, check_inventory,
  check_covered, inventory_total,
}
use cashblocks.Simulator.{Simulator}
use cashblocks.Simulator.Build.{Options, new_simulator, default_profile}
use cashblocks.Simulator.Held.{IsSound}
use cashblocks.Simulator.Fresh.{new_simulator-IsSound}

abbrev pub plain : Options
plain = record {
  profile = none;
  customer_selections = none;
  option_selections = none;
  account_selections = none;
  amount_selections = none;
  pin_entries = none;
  accounts = [];
  terminal_cash = none;
  printer_health = none;
  printer_paper = none;
  host_approved = none;
  dispenser_online = none;
  acceptor_online = none;
  card_reader_online = none;
}

abbrev pub default_checked : Profile
default_checked = record {
  id = "cashblocks.default";
  currency_code = "AUD";
  capabilities = default_profile.capabilities;
  cash_management = record {
    dispense_denominations = 10 ∷ 20 ∷ 50 ∷ 100 ∷ [];
    accept_denominations = 10 ∷ 20 ∷ 50 ∷ 100 ∷ [];
    initial_inventory = (10, 10) ∷ (20, 20) ∷ (50, 10) ∷ (100, 40) ∷ [];
    max_dispense_amount = 1000;
    max_deposit_amount = 5000;
    recycle_deposits = true;
  };
}

pub default_is_defined : define_profile default_profile ≡ ok default_checked
unfolding define_profile validate_denominations validate_positive_amount check_inventory
    check_covered inventory_total is_blank
default_is_defined = refl

abbrev pub default_simulator : Simulator
default_simulator = record {
  profile = default_checked;
  customer_selections = "BalanceInquiry" ∷ [];
  option_selections = "YES" ∷ [];
  account_selections = "Checking" ∷ [];
  amount_selections = pos 100 ∷ [];
  pin_entries = "1234" ∷ [];
  cash_inventory = (10, 10) ∷ (20, 20) ∷ (50, 10) ∷ (100, 40) ∷ [];
  finite_cash_inventory = true;
  accounts = ("Checking", pos 1240) ∷ ("Savings", pos 3850) ∷ ("Credit", negsuc 319) ∷ [];
  terminal_cash = 5000;
  receipt_printer = record { health = healthy; paper = paper_ok };
  host_approved = true;
  dispenser_online = true;
  acceptor_online = true;
  card_reader_online = true;
}

pub default_is_built : new_simulator plain ≡ ok default_simulator
unfolding new_simulator define_profile validate_denominations validate_positive_amount
    check_inventory check_covered inventory_total is_blank
default_is_built = refl

pub default-IsSound : IsSound default_simulator
default-IsSound = new_simulator-IsSound plain default_simulator default_is_built
