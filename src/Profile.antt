-- ===== src/Profile.antt =====
-- Simulator profiles of packages/runtime-core/src/index.ts: `SimulatorProfile` and its validation by
-- `defineSimulatorProfile`, before which numbers may be negative and inventory keys any text.
pub mod Laws
use cashblocks.Prelude.{
  ℕ, suc, ◌+◌, ◌*◌, Bool, true, false, not, ◌&&◌, ◌||◌, List, [], ◌∷◌, String, ltb, leb, ◌==◌,
  if◌then◌else◌, length, all, any,
}
use cashblocks.Prelude.Int.{ℤ, pos, negsuc}
use cashblocks.Prelude.Result.{Result, ok, err, ◌>>=◌, ◌>>◌, throw_if}
use cashblocks.Prelude.Text.{is_blank}
use cashblocks.Cash.{max_safe_integer, max_transaction_amount, max_cash_unit_count}
use cashblocks.Cash.Record.{Counts, total, has_key}

abbrev pub max_denomination_count : ℕ
max_denomination_count = 32

-- Number.isSafeInteger; fractions and NaN are not modelled, and it answers them as it answers the
-- integers out of range.
abbrev pub is_safe_integer : ℤ → Bool
is_safe_integer (pos n) = leb n max_safe_integer
is_safe_integer (negsuc n) = ltb n max_safe_integer

-- Number.isSafeInteger(x) && x > 0
abbrev pub is_positive_safe : ℤ → Bool
is_positive_safe (pos n) = ltb 0 n && leb n max_safe_integer
is_positive_safe (negsuc n) = false

abbrev pub magnitude : ℤ → ℕ
magnitude (pos n) = n
magnitude (negsuc n) = suc n

-- A key of a `Record<string, number>`: the decimal text of a natural number, another text that
-- `String(Number(key))` gives back, or a text that it does not give back.
pub data Key : Type 0 where
  numeral : ℕ → Key
  other_number : String → Key
  not_canonical : String → Key

-- `SimulatorCashManagement`, over the numbers `N` and an inventory.
pub record CashManagement (N Inventory : Type 0) : Type 0 where
  pub dispense_denominations : List N
  pub accept_denominations : List N
  pub initial_inventory : Inventory
  pub max_dispense_amount : N
  pub max_deposit_amount : N
  pub recycle_deposits : Bool

pub record Capabilities : Type 0 where
  pub receipt_printer : Bool
  pub cash_dispenser : Bool
  pub cash_acceptor : Bool
  pub card_reader : Bool
  pub host_authorization : Bool

pub record RawProfile : Type 0 where
  pub id : String
  pub currency_code : String
  pub capabilities : Capabilities
  pub cash_management : CashManagement ℤ (List (Key × ℤ))

pub record Profile : Type 0 where
  pub id : String
  pub currency_code : String
  pub capabilities : Capabilities
  pub cash_management : CashManagement ℕ Counts

pub data Field : Type 0 where
  dispense_field accept_field : Field
  max_dispense_field max_deposit_field : Field

-- The errors that `defineSimulatorProfile` and the functions it calls throw.
pub data ProfileError : Type 0 where
  id_required currency_required : ProfileError
  empty too_many not_positive not_unique : Field → ProfileError
  amount_out_of_range : Field → ProfileError
  key_not_canonical not_dispensable count_out_of_range : Key → ProfileError
  missing_denomination : ℕ → ProfileError
  not_recyclable unsafe_total : ProfileError

abbrev pub contains : List ℕ → ℕ → Bool
contains ds d = any (λ e. e == d) ds

-- new Set(values).size !== values.length, negated
unfoldable pub is_unique : List ℕ → Bool
is_unique [] = true
is_unique (d ∷ ds) = not (contains ds d) && is_unique ds

abbrev pub magnitudes : List ℤ → List ℕ
magnitudes [] = []
magnitudes (x ∷ xs) = magnitude x ∷ magnitudes xs

abbrev pub is_empty {ℓ} : {A : Type ℓ} → List A → Bool
is_empty [] = true
is_empty (x ∷ xs) = false

unfoldable pub validate_denominations : List ℤ → Field → Result ProfileError (List ℕ)
unfolding is_unique
validate_denominations denominations field = do
  throw_if (is_empty denominations) (empty field)
  throw_if (ltb max_denomination_count (length denominations)) (too_many field)
  throw_if (any (λ d. not (is_positive_safe d)) denominations) (not_positive field)
  throw_if (not (is_unique (magnitudes denominations))) (not_unique field)
  ok (magnitudes denominations)

unfoldable pub validate_positive_amount : ℤ → Field → Result ProfileError ℕ
validate_positive_amount amount field = do
  throw_if (not (is_positive_safe amount) || ltb max_transaction_amount (magnitude amount))
      (amount_out_of_range field)
  ok (magnitude amount)

-- `!Number.isSafeInteger(count) || count < 0 || count > MAX_SIMULATOR_CASH_UNIT_COUNT`
unfoldable pub is_bad_count : ℤ → Bool
is_bad_count (pos n) = not (leb n max_safe_integer) || ltb max_cash_unit_count n
is_bad_count (negsuc n) = true

-- The loop over the entries of the inventory, with the copy of it that is returned at the end.
unfoldable pub check_inventory : List ℕ → List (Key × ℤ) → Result ProfileError Counts
unfolding is_bad_count
check_inventory ds [] = ok []
check_inventory ds ((not_canonical s, n) ∷ rest) = err (key_not_canonical (not_canonical s))
check_inventory ds ((other_number s, n) ∷ rest) = err (not_dispensable (other_number s))
check_inventory ds ((numeral d, n) ∷ rest) = do
  throw_if (not (contains ds d)) (not_dispensable (numeral d))
  throw_if (is_bad_count n) (count_out_of_range (numeral d))
  checked ← check_inventory ds rest
  ok ((d, magnitude n) ∷ checked)

-- `for (const denomination of dispenseDenominations) if (!(String(denomination) in inventory)) …`
unfoldable pub check_covered : Counts → List ℕ → Result ProfileError (Unit {0})
unfolding has_key
check_covered inventory [] = ok tt
check_covered inventory (d ∷ ds) = do
  throw_if (not (has_key inventory d)) (missing_denomination d)
  check_covered inventory ds

-- Double-precision sums of natural numbers pass 2^53 - 1 exactly when the exact sums do.
unfoldable pub inventory_total : Counts → Result ProfileError ℕ
unfolding total
inventory_total inventory = do
  throw_if (ltb max_safe_integer (total inventory)) unsafe_total
  ok (total inventory)

unfoldable pub define_profile : RawProfile → Result ProfileError Profile
define_profile profile = do
  throw_if (is_blank profile.id) id_required
  throw_if (is_blank profile.currency_code) currency_required
  let cash = profile.cash_management
  dispense ← validate_denominations cash.dispense_denominations dispense_field
  accept ← validate_denominations cash.accept_denominations accept_field
  max_dispense ← validate_positive_amount cash.max_dispense_amount max_dispense_field
  max_deposit ← validate_positive_amount cash.max_deposit_amount max_deposit_field
  inventory ← check_inventory dispense cash.initial_inventory
  check_covered inventory dispense
  throw_if (cash.recycle_deposits && any (λ d. not (contains dispense d)) accept) not_recyclable
  worth ← inventory_total inventory
  ok (record {
    id = profile.id;
    currency_code = profile.currency_code;
    capabilities = profile.capabilities;
    cash_management = record {
      dispense_denominations = dispense;
      accept_denominations = accept;
      initial_inventory = inventory;
      max_dispense_amount = max_dispense;
      max_deposit_amount = max_deposit;
      recycle_deposits = cash.recycle_deposits;
    };
  })
