-- ===== src/Simulator/Tests.antt =====
-- Runs of the simulator from its default profile, and its laws there.
use cashblocks.Prelude.{false, ◌⊎◌, ℕ, ◌+◌, ◌≡◌, ◌↔◌, refl, true, some, [], ◌∷◌, arith}
use cashblocks.Prelude.Int.{pos}
use cashblocks.Prelude.Result.{ok, err}
use cashblocks.Cash.{allocate_cash}
use cashblocks.Cash.Record.{count_or, increase, total, assign}
use cashblocks.Cash.Units.{take_units, put_units}
use cashblocks.Cash.Bundles.{Pays}
use cashblocks.Profile.Laws.{IsValid, define_profile_sound}
use cashblocks.Simulator.{
  Simulator, Change, remove_terminal_cash, add_terminal_cash, plan_dispense, can_add_terminal_cash,
  cannot_dispense,
}
use cashblocks.Simulator.Build.{default_profile}
use cashblocks.Simulator.Held.{IsSound, IsSameBut}
use cashblocks.Simulator.Remove.{remove_terminal_cash-IsSound, remove-refused_iff}
use cashblocks.Simulator.Add.{add_terminal_cash-IsSound}
use cashblocks.Simulator.Fresh.{new_simulator-IsSound}
use cashblocks.Simulator.Default.{
  plain, default_checked, default_simulator, default_is_defined, default_is_built, default-IsSound,
}

define_profile_sound_example :
    IsValid default_checked
    × (default_checked.id ≡ "cashblocks.default")
    × (default_checked.currency_code ≡ "AUD")
    × (default_checked.capabilities ≡ default_profile.capabilities)
    × (default_checked.cash_management.recycle_deposits ≡ true)
define_profile_sound_example =
    define_profile_sound default_profile default_checked default_is_defined

new_simulator-IsSound_example : IsSound default_simulator
new_simulator-IsSound_example = new_simulator-IsSound plain default_simulator default_is_built

abbrev after_sixty : Simulator
after_sixty = record default_simulator {
  cash_inventory = (10, 4) ∷ (20, 20) ∷ (50, 10) ∷ (100, 40) ∷ [];
  terminal_cash = 4940;
}

abbrev sixty_less : Change ℕ
sixty_less = record { before = 5000; after = 4940 }

sixty_removed : remove_terminal_cash (pos 60) default_simulator ≡ ok (sixty_less, after_sixty)
unfolding remove_terminal_cash plan_dispense allocate_cash count_or increase take_units assign
sixty_removed = refl

remove_terminal_cash-IsSound_example :
    IsSound after_sixty
    × IsSameBut default_simulator after_sixty
    × (5000 ≡ default_simulator.terminal_cash)
    × (4940 ≡ after_sixty.terminal_cash)
    × (◌≡◌ {A = ℕ} (4940 + 60) 5000)
    × ((true ≡ false)
        ⊎ (total after_sixty.cash_inventory + 60 ≡ total default_simulator.cash_inventory))
remove_terminal_cash-IsSound_example =
    remove_terminal_cash-IsSound default_simulator after_sixty (pos 60) sixty_less default-IsSound
      sixty_removed

remove-refused_iff_example :
    (remove_terminal_cash (pos 75) default_simulator ≡ err (cannot_dispense (pos 75))) ↔ (
      ¬ Pays
        (some default_simulator.cash_inventory)
        default_checked.cash_management.dispense_denominations
        75)
remove-refused_iff_example =
    remove-refused_iff default_simulator 75 default-IsSound refl (omega arith) (omega arith)

abbrev after_fifty : Simulator
after_fifty = record default_simulator {
  cash_inventory = (10, 15) ∷ (20, 20) ∷ (50, 10) ∷ (100, 40) ∷ [];
  terminal_cash = 5050;
}

abbrev fifty_more : Change ℕ
fifty_more = record { before = 5000; after = 5050 }

fifty_added : add_terminal_cash (pos 50) default_simulator ≡ ok (fifty_more, after_fifty)
unfolding add_terminal_cash can_add_terminal_cash allocate_cash count_or increase put_units assign
fifty_added = refl

add_terminal_cash-IsSound_example :
    IsSound after_fifty
    × IsSameBut default_simulator after_fifty
    × (pos 50 ≡ pos 50)
    × (5000 ≡ default_simulator.terminal_cash)
    × (5050 ≡ after_fifty.terminal_cash)
    × (after_fifty.terminal_cash ≡ default_simulator.terminal_cash + 50)
add_terminal_cash-IsSound_example =
    add_terminal_cash-IsSound default_simulator after_fifty (pos 50) fifty_more default-IsSound
      fifty_added
