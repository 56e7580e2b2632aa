-- ===== src/Simulator/Build.antt =====
-- The constructor of `RuntimeSimulator` in packages/runtime-core/src/index.ts, with its options and the
-- default profile.
use cashblocks.Prelude.{
  Bool, true, false, not, ◌&&◌, Option, List, [], ◌∷◌, String, leb, if◌then◌else◌,
}
use cashblocks.Prelude.Int.{ℤ, pos, negsuc}
use cashblocks.Prelude.Result.{Result, ok, err, ◌>>=◌, ◌>>◌, throw_if}
use cashblocks.Prelude.Text.{insert}
use cashblocks.Cash.{max_safe_integer, is_set}
use cashblocks.Cash.Record.{Counts, total}
use cashblocks.Contracts.{healthy, paper_ok, DeviceHealth, PaperStatus}
use cashblocks.Profile.{numeral, RawProfile, Profile, magnitude, define_profile}
use cashblocks.Simulator.{
  Simulator, SimulatorError, profile_with_terminal_cash, bad_profile, bad_terminal_cash, get_or,
}

pub record Options : Type 0 where
  pub profile : Option RawProfile
  pub customer_selections : Option (List String)
  pub option_selections : Option (List String)
  pub account_selections : Option (List String)
  pub amount_selections : Option (List ℤ)
  pub pin_entries : Option (List String)
  pub accounts : List (String × ℤ)
  pub terminal_cash : Option ℤ
  pub printer_health : Option DeviceHealth
  pub printer_paper : Option PaperStatus
  pub host_approved : Option Bool
  pub dispenser_online : Option Bool
  pub acceptor_online : Option Bool
  pub card_reader_online : Option Bool

abbrev pub default_profile : RawProfile
default_profile = record {
  id = "cashblocks.default";
  currency_code = "AUD";
  capabilities = record {
    receipt_printer = true;
    cash_dispenser = true;
    cash_acceptor = true;
    card_reader = true;
    host_authorization = true;
  };
  cash_management = record {
    dispense_denominations = pos 10 ∷ pos 20 ∷ pos 50 ∷ pos 100 ∷ [];
    accept_denominations = pos 10 ∷ pos 20 ∷ pos 50 ∷ pos 100 ∷ [];
    initial_inventory =
        (numeral 10, pos 10)
        ∷ (numeral 20, pos 20)
        ∷ (numeral 50, pos 10)
        ∷ (numeral 100, pos 40)
        ∷ [];
    max_dispense_amount = pos 1000;
    max_deposit_amount = pos 5000;
    recycle_deposits = true;
  };
}

-- `{ ...defaults, ...accounts }`
unfoldable pub assign_all : List (String × ℤ) → List (String × ℤ) → List (String × ℤ)
unfolding insert
assign_all [] accounts = accounts
assign_all ((name, amount) ∷ rest) accounts = assign_all rest (insert name amount accounts)

abbrev pub define : RawProfile → Result SimulatorError Profile
define raw = elim (define_profile raw) [ ok p ↦ ok p | err e ↦ err (bad_profile e) ]

abbrev pub is_non_negative_safe : ℤ → Bool
is_non_negative_safe (pos n) = leb n max_safe_integer
is_non_negative_safe (negsuc n) = false

-- `cashInventory` and `terminalCash` as the constructor fills them.
abbrev pub initial_units : Options → Profile → Counts
initial_units options p =
    if is_set options.terminal_cash then [] else p.cash_management.initial_inventory

abbrev pub initial_cash : Options → Profile → ℤ
initial_cash options p = get_or (pos (total (initial_units options p))) options.terminal_cash

unfoldable pub fresh : Options → Profile → Simulator
unfolding assign_all
fresh options profile = record {
  profile = profile;
  customer_selections = get_or ("BalanceInquiry" ∷ []) options.customer_selections;
  option_selections = get_or ("YES" ∷ []) options.option_selections;
  account_selections = get_or ("Checking" ∷ []) options.account_selections;
  amount_selections = get_or (pos 100 ∷ []) options.amount_selections;
  pin_entries = get_or ("1234" ∷ []) options.pin_entries;
  cash_inventory = initial_units options profile;
  finite_cash_inventory = not (is_set options.terminal_cash);
  accounts =
      assign_all options.accounts
        (("Checking", pos 1240) ∷ ("Savings", pos 3850) ∷ ("Credit", negsuc 319) ∷ []);
  terminal_cash = magnitude (initial_cash options profile);
  receipt_printer = record {
    health = get_or healthy options.printer_health;
    paper = get_or paper_ok options.printer_paper;
  };
  host_approved = get_or true options.host_approved;
  dispenser_online = get_or true options.dispenser_online;
  acceptor_online = get_or true options.acceptor_online;
  card_reader_online = get_or true options.card_reader_online;
}

unfoldable pub new_simulator : Options → Result SimulatorError Simulator
unfolding fresh total
new_simulator options = do
  throw_if (is_set options.profile && is_set options.terminal_cash) profile_with_terminal_cash
  profile ← define (get_or default_profile options.profile)
  throw_if (not (is_non_negative_safe (initial_cash options profile))) bad_terminal_cash
  ok (fresh options profile)
