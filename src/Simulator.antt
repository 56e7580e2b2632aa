-- ===== src/Simulator.antt =====
-- `RuntimeSimulator` of packages/runtime-core/src/index.ts: the simulated cash, accounts and answers.
-- `removeTerminalCash` and `addTerminalCash` throw before they change anything, so a method that may
-- throw returns its result beside the new state only when it succeeds.
pub mod Build
pub mod Held
pub mod Remove
pub mod Add
pub mod Fresh
pub mod Default
mod Tests
use cashblocks.Prelude.{
  ℕ, zero, suc, ◌+◌, ◌-◌, Bool, true, false, not, ◌&&◌, ◌||◌, Option, none, some, List, [], ◌∷◌,
  String, ltb, leb, ◌==◌, if◌then◌else◌, all, any, str_eq,
}
use cashblocks.Prelude.Int.{ℤ, pos, negsuc, ◌+ℤ◌, ◌-ℤ◌}
use cashblocks.Prelude.Result.{Result, ok, err, ◌>>=◌, ◌>>◌, throw_if}
use cashblocks.Prelude.Text.{lookup, insert}
use cashblocks.Cash.{max_safe_integer, max_cash_unit_count, allocate_cash, is_set}
use cashblocks.Cash.Record.{Counts, count_or, total}
use cashblocks.Cash.Units.{take_units, put_units}
use cashblocks.Contracts.{PrinterStatus, healthy, paper_ok, DeviceHealth, PaperStatus}
use cashblocks.Profile.{
  CashManagement, Capabilities, numeral, RawProfile, Profile, ProfileError, is_positive_safe,
  is_safe_integer, magnitude, define_profile,
}

-- `usesLegacyScalarCash` is the negation of `finite_cash_inventory`.
pub record Simulator : Type 0 where
  pub profile : Profile
  pub customer_selections : List String
  pub option_selections : List String
  pub account_selections : List String
  pub amount_selections : List ℤ
  pub pin_entries : List String
  pub cash_inventory : Counts
  pub finite_cash_inventory : Bool
  pub accounts : List (String × ℤ)
  pub terminal_cash : ℕ
  pub receipt_printer : PrinterStatus
  pub host_approved : Bool
  pub dispenser_online : Bool
  pub acceptor_online : Bool
  pub card_reader_online : Bool

pub data SimulatorError : Type 0 where
  profile_with_terminal_cash bad_terminal_cash : SimulatorError
  bad_profile : ProfileError → SimulatorError
  cannot_dispense cannot_add : ℤ → SimulatorError

-- The `before` and `after` of a change; of terminal cash, and of an account's balance.
pub record Change (N : Type 0) : Type 0 where
  pub before : N
  pub after : N

-- `list.shift() ?? fallback`, with the list that is left.
abbrev pub shift_or {ℓ} : {A : Type ℓ} → A → List A → A × List A
shift_or fallback [] = (fallback, [])
shift_or fallback (x ∷ xs) = (x, xs)

unfoldable pub includes : List String → String → Bool
includes [] s = false
includes (x ∷ xs) s = str_eq x s || includes xs s

-- `selected && options.includes(selected) ? selected : options[0] ?? ""`
abbrev pub choose : Option String → List String → String
choose none options = (shift_or "" options).0
choose (some s) options =
    if not (str_eq s "") && includes options s then s else (shift_or "" options).0

abbrev pub head? {ℓ} : {A : Type ℓ} → List A → Option A
head? [] = none
head? (x ∷ xs) = some x

abbrev pub tail {ℓ} : {A : Type ℓ} → List A → List A
tail [] = []
tail (x ∷ xs) = xs

unfoldable pub next_transaction : Simulator → String × Simulator
next_transaction s =
    let (answer, rest) = shift_or "BalanceInquiry" s.customer_selections in
    (answer, record s { customer_selections = rest })

unfoldable pub next_option : List String → Simulator → String × Simulator
unfolding includes
next_option options s = (
  choose (head? s.option_selections) options,
  record s { option_selections = tail s.option_selections },
)

unfoldable pub next_account : List String → Simulator → String × Simulator
unfolding includes
next_account options s = (
  choose (head? s.account_selections) options,
  record s { account_selections = tail s.account_selections },
)

unfoldable pub next_amount : List ℤ → Simulator → ℤ × Simulator
next_amount presets s =
    let (preset, _) = shift_or (pos 0) presets in
    let (answer, rest) = shift_or preset s.amount_selections in
    (answer, record s { amount_selections = rest })

unfoldable pub next_pin : Simulator → String × Simulator
next_pin s =
    let (answer, rest) = shift_or "1234" s.pin_entries in (answer, record s { pin_entries = rest })

-- `this.accounts[account] ?? 0`
abbrev pub or_zero : Option ℤ → ℤ
or_zero none = pos 0
or_zero (some b) = b

unfoldable pub balance : String → Simulator → ℤ
balance account s = or_zero (lookup account s.accounts)

unfoldable pub debit : String → ℤ → Simulator → Change ℤ × Simulator
unfolding balance
debit account amount s =
    let before = balance account s in
    let after = before -ℤ amount in
    (
      record { before = before; after = after },
      record s { accounts = insert account after s.accounts },
    )

unfoldable pub credit : String → ℤ → Simulator → Change ℤ × Simulator
unfolding balance
credit account amount s =
    let before = balance account s in
    let after = before +ℤ amount in
    (
      record { before = before; after = after },
      record s { accounts = insert account after s.accounts },
    )

unfoldable pub plan_dispense : ℤ → Simulator → Option Counts
plan_dispense (negsuc n) s = none
plan_dispense (pos n) s =
    if not (is_positive_safe (pos n))
    then none
    else if not s.finite_cash_inventory
    then (if leb n s.terminal_cash then some [] else none)
    else allocate_cash n s.profile.cash_management.dispense_denominations (some s.cash_inventory)

unfoldable pub can_accept : ℤ → Simulator → Bool
can_accept (negsuc n) s = false
can_accept (pos n) s =
    is_positive_safe (pos n)
    && is_set (allocate_cash n s.profile.cash_management.accept_denominations none)

-- Every entry fits: `Number.isSafeInteger(nextCount) && nextCount <= MAX_SIMULATOR_CASH_UNIT_COUNT`
unfoldable pub fits_units : Counts → Counts → Bool
fits_units inventory allocation =
    all
      (λ e.
        let next_count = count_or inventory e.0 0 + e.1 in
        leb next_count max_safe_integer && leb next_count max_cash_unit_count)
      allocation

-- The last step of `canAddTerminalCash`: `false` if there is no allocation.
abbrev pub fits_allocation : Counts → Option Counts → Bool
fits_allocation inventory none = false
fits_allocation inventory (some allocation) = fits_units inventory allocation

unfoldable pub can_add_terminal_cash : ℤ → Simulator → Bool
unfolding fits_units
can_add_terminal_cash (negsuc n) s = false
can_add_terminal_cash (pos n) s =
    if not (is_safe_integer (pos n))
    then false
    else if not (leb (s.terminal_cash + n) max_safe_integer)
    then false
    else if not s.finite_cash_inventory || not s.profile.cash_management.recycle_deposits || n == 0
    then true
    else fits_allocation s.cash_inventory
        (allocate_cash n s.profile.cash_management.accept_denominations none)

abbrev pub put_allocation : Option Counts → Counts → Counts
put_allocation none inventory = inventory
put_allocation (some allocation) inventory = put_units allocation inventory

unfoldable pub remove_terminal_cash : ℤ → Simulator → Result SimulatorError (Change ℕ × Simulator)
remove_terminal_cash amount s = elim (plan_dispense amount s) [
  | none ↦ err (cannot_dispense amount)
  | some allocation ↦
      let after = s.terminal_cash - magnitude amount in
      ok (
        record { before = s.terminal_cash; after = after },
        record s {
          cash_inventory =
              if s.finite_cash_inventory
              then take_units allocation s.cash_inventory
              else s.cash_inventory;
          terminal_cash = after;
        },
      )
]

unfoldable pub add_terminal_cash : ℤ → Simulator → Result SimulatorError (Change ℕ × Simulator)
add_terminal_cash amount s =
    if not (can_add_terminal_cash amount s)
    then err (cannot_add amount)
    else let after = s.terminal_cash + magnitude amount in
      ok (
        record { before = s.terminal_cash; after = after },
        record s {
          cash_inventory =
              if s.finite_cash_inventory && s.profile.cash_management.recycle_deposits
              then put_allocation
                  (allocate_cash (magnitude amount) s.profile.cash_management.accept_denominations
                    none)
                  s.cash_inventory
              else s.cash_inventory;
          terminal_cash = after;
        },
      )

-- `option ?? fallback`
abbrev pub get_or {ℓ} : {A : Type ℓ} → A → Option A → A
get_or fallback none = fallback
get_or fallback (some a) = a
