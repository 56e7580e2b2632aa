-- ===== src/Cash.antt =====
-- `allocateCash` of packages/runtime-core/src/index.ts: which cash units pay an amount. A bounded
-- knapsack over binary bundles of notes, filled in place, and walked back from the amount.
-- Amounts and denominations are safe integers, so they are natural numbers here; an inventory is an
-- association list, keyed by the denomination whose decimal text is the key in the source.
pub mod Record
pub mod Units
pub mod Bundles
pub mod Fill
pub mod Walk
pub mod Spend
pub mod Limits
pub mod Laws
mod Tests
use cashblocks.Prelude.{
  ℕ, zero, suc, ◌+◌, ◌-◌, ◌*◌, ◌/◌, ◌^◌, min, Bool, true, false, not, ◌||◌, ◌&&◌, Option, none,
  some, List, [], ◌∷◌, ◌++◌, ltb, leb, ◌==◌, if◌then◌else◌, get_elem?,
}
use Record.{Counts, count_or, increase}

-- Number.MAX_SAFE_INTEGER
abbrev pub max_safe_integer : ℕ
max_safe_integer = 2 ^ 53 - 1

abbrev pub max_transaction_amount : ℕ
max_transaction_amount = 100000

abbrev pub max_cash_unit_count : ℕ
max_cash_unit_count = 10000

pub record Bundle : Type 0 where
  pub denomination : ℕ
  pub count : ℕ
  pub value : ℕ

abbrev pub bundle : ℕ → ℕ → Bundle
bundle d n = record { denomination = d; count = n; value = d * n }

-- The `while (remainingCount > 0)` loop; the fuel is `remainingCount` itself, which falls by at least
-- one in each round.
unfoldable pub split : ℕ → ℕ → ℕ → ℕ → List Bundle
split d zero remaining size = []
split d (suc fuel) zero size = []
split d (suc fuel) (suc r) size =
    let count = min size (suc r) in bundle d count ∷ split d fuel (suc r - count) (size * 2)

-- `inventory?.[String(denomination)] ?? MAX_SIMULATOR_CASH_UNIT_COUNT`
unfoldable pub available : Option Counts → ℕ → ℕ
available none d = max_cash_unit_count
available (some inventory) d = count_or inventory d max_cash_unit_count

unfoldable pub remaining_count : ℕ → Option Counts → ℕ → ℕ
unfolding available
remaining_count amount inventory d = min (amount / d) (available inventory d)

-- The first loop: the bundles of every denomination, in order.
unfoldable pub bundles_of : ℕ → Option Counts → List ℕ → List Bundle
unfolding remaining_count split
bundles_of amount inventory [] = []
bundles_of amount inventory (d ∷ ds) =
    let n = remaining_count amount inventory d in split d n n 1 ++ bundles_of amount inventory ds

-- The two arrays, with `none` for the -1 that they are filled with.
pub record Table : Type 0 where
  pub previous : ℕ → Option ℕ
  pub selected : ℕ → Option ℕ

unfoldable pub write {ℓ} : {A : Type ℓ} → (ℕ → Option A) → ℕ → A → ℕ → Option A
write f i a j = if i == j then some a else f j

unfoldable pub start : Table
unfolding write
start = record { previous = write (λ i. none) 0 0; selected = λ i. none }

abbrev pub is_set {ℓ} : {A : Type ℓ} → Option A → Bool
is_set none = false
is_set (some a) = true

-- The body of the inner loop.
unfoldable pub visit : ℕ → ℕ → ℕ → Table → Table
unfolding write
visit index value current t =
    if not (is_set (t.previous current)) && is_set (t.previous (current - value))
    then record t {
      previous = write t.previous current (current - value);
      selected = write t.selected current index;
    }
    else t

-- `for (let current = amount; current >= bundle.value; current -= 1)`: the rounds are counted, and
-- round `k` visits `value + k - 1`.
unfoldable pub pass : ℕ → ℕ → ℕ → Table → Table
unfolding visit
pass index value zero t = t
pass index value (suc k) t = pass index value k (visit index value (value + k) t)

-- `for (bundleIndex …)`; a bundle whose value exceeds the amount has no round.
unfoldable pub fill : ℕ → ℕ → List Bundle → Table → Table
unfolding pass
fill amount index [] t = t
fill amount index (b ∷ bs) t =
    fill amount (suc index) bs (pass index b.value (suc amount - b.value) t)

-- `bundles[selectedBundle[current] ?? -1]`
unfoldable pub bundle_at : List Bundle → Option ℕ → Option Bundle
bundle_at bundles none = none
bundle_at bundles (some i) = get_elem? bundles i

-- The walk back, with `none` for `undefined`. `previousAmount[current]` is smaller than `current`, so
-- `amount` rounds are enough; a -1 there ends the loop, since it is not above 0.
unfoldable pub collect : ℕ → List Bundle → Table → ℕ → Counts → Option Counts
unfolding bundle_at
collect fuel bundles t zero allocation = some allocation
collect zero bundles t (suc c) allocation = none
collect (suc fuel) bundles t (suc c) allocation = elim (bundle_at bundles (t.selected (suc c))) [
  | none ↦ none
  | some b ↦
      let next = increase allocation b.denomination b.count in
      elim (t.previous (suc c)) [ none ↦ some next | some p ↦ collect fuel bundles t p next ]
]

unfoldable pub pay_with : ℕ → List Bundle → Table → Option Counts
unfolding collect
pay_with amount bundles t =
    if is_set (t.previous amount) then collect amount bundles t amount [] else none

unfoldable pub allocate_cash : ℕ → List ℕ → Option Counts → Option Counts
unfolding bundles_of fill start pay_with
allocate_cash amount denominations inventory =
    if leb amount 0 || ltb max_transaction_amount amount
    then none
    else let bundles = bundles_of amount inventory denominations in
      pay_with amount bundles (fill amount 0 bundles start)
