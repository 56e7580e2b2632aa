-- ===== src/Simulator/Held.antt =====
-- The cash invariant of the simulator: the inventory knows every note that it can dispense, no unit
-- holds too many, and the notes never add up to more than the terminal's cash.
use cashblocks.Prelude.{
  ℕ, ◌+◌, ◌-◌, ◌≤◌, ◌≡◌, refl, true, none, some, List, [], ◌∷◌, ◌==◌, All, arith, Bool-cases, inl,
  inr,
}
use cashblocks.Cash.{max_safe_integer, max_cash_unit_count, allocate_cash, available}
use cashblocks.Cash.Record.{
  Counts, count_or, total, has_key, HasDistinctKeys, count_or_of_key, count_or_of_absent,
}
use cashblocks.Cash.Units.{
  Covers, take_units, put_units, total-take_units, count_or-take_units, has_key-take_units,
  total-put_units, count_or-put_units, has_key-put_units,
}
use cashblocks.Cash.Laws.{allocate_sound, allocate_listed, allocate-HasDistinctKeys}
use cashblocks.Profile.{Profile, contains}
use cashblocks.Profile.Laws.{IsValid, absent_of_contains}
use cashblocks.Simulator.{Simulator, fits_units}

-- What holds of a finite inventory.
pub record IsHeld (p : Profile) (inventory : Counts) (cash : ℕ) : Type 0 where
  pub covered : All (λ d. has_key inventory d ≡ true) p.cash_management.dispense_denominations
  pub bounded : (d : ℕ) → count_or inventory d 0 ≤ max_cash_unit_count
  pub backed : total inventory ≤ cash
  pub exact : p.cash_management.recycle_deposits ≡ true → total inventory ≡ cash

pub record IsSound (s : Simulator) : Type 0 where
  pub valid : IsValid s.profile
  pub safe : s.terminal_cash ≤ max_safe_integer
  pub held : s.finite_cash_inventory ≡ true → IsHeld s.profile s.cash_inventory s.terminal_cash

pub All-contains : (P : ℕ → Type 0) (ds : List ℕ) (d : ℕ) → All P ds → contains ds d ≡ true → P d
All-contains P [] d h e = cc
All-contains P (x ∷ ds) d h e = elim (Bool-cases (x == d)) [
  | inl same ↦ let e' : x ≡ d = ground arith in rw (← e') h.0
  | inr other ↦ All-contains P ds d h.1 (ground arith)
]

All-has_key :
    (f : Counts → Counts) (inventory : Counts) (ds : List ℕ)
    → ((d : ℕ) → has_key inventory d ≡ true → has_key (f inventory) d ≡ true)
    → All (λ d. has_key inventory d ≡ true) ds
    → All (λ d. has_key (f inventory) d ≡ true) ds
All-has_key f inventory [] keep h = tt
All-has_key f inventory (d ∷ ds) keep h = (keep d h.0, All-has_key f inventory ds keep h.1)

-- What an allocation from a finite inventory takes is there.
pub allocation_covered :
    (p : Profile) (inventory allocation : Counts) (cash n : ℕ)
    → IsValid p
    → IsHeld p inventory cash
    → allocate_cash n p.cash_management.dispense_denominations (some inventory) ≡ some allocation
    → Covers inventory allocation
unfolding available
allocation_covered p inventory allocation cash n valid held planned d =
    let ds = p.cash_management.dispense_denominations in
    let (_, within) =
      allocate_sound n ds (some inventory) allocation valid.dispense.positive
        valid.dispense.distinct planned in
    elim (Bool-cases (contains ds d)) [
      | inl listed ↦
          let key = All-contains (λ d. has_key inventory d ≡ true) ds d held.covered listed in
          omega (arith, within d, count_or_of_key inventory d 10000 0 key)
      | inr unlisted ↦
          let nothing =
            allocate_listed n ds (some inventory) allocation d valid.dispense.positive planned
              (absent_of_contains ds d unlisted) in
          omega (arith, nothing)
    ]

-- Dispensing takes the amount out of the notes, and keeps the invariant.
pub take-IsHeld :
    (p : Profile) (inventory allocation : Counts) (cash n : ℕ)
    → IsValid p
    → IsHeld p inventory cash
    → allocate_cash n p.cash_management.dispense_denominations (some inventory) ≡ some allocation
    → (total (take_units allocation inventory) + n ≡ total inventory)
      × IsHeld p (take_units allocation inventory) (cash - n)
take-IsHeld p inventory allocation cash n valid held planned =
    let ds = p.cash_management.dispense_denominations in
    let (sum, _) =
      allocate_sound n ds (some inventory) allocation valid.dispense.positive
        valid.dispense.distinct planned in
    let distinct =
      allocate-HasDistinctKeys n ds (some inventory) allocation valid.dispense.positive planned in
    let covers = allocation_covered p inventory allocation cash n valid held planned in
    let left = total-take_units allocation inventory distinct covers in
    (
      omega arith,
      record {
        covered =
            All-has_key (take_units allocation) inventory ds
              (has_key-take_units allocation inventory) held.covered;
        bounded = λ d.
            omega
              (arith, held.bounded d, count_or-take_units allocation inventory d distinct covers);
        backed = omega (arith, held.backed);
        exact = λ on. omega (arith, held.exact on, held.backed);
      },
    )

fits_bound :
    (inventory allocation : Counts) (d : ℕ)
    → HasDistinctKeys allocation
    → fits_units inventory allocation ≡ true
    → count_or inventory d 0 ≤ max_cash_unit_count
    → count_or inventory d 0 + count_or allocation d 0 ≤ max_cash_unit_count
unfolding fits_units count_or
fits_bound inventory [] d distinct fits bound = omega arith
fits_bound inventory ((k, n) ∷ rest) d distinct fits bound =
    ground (arith, fits_bound inventory rest d distinct.1, count_or_of_absent rest d 0)

-- A deposit that is recycled keeps the invariant.
pub put-IsHeld :
    (p : Profile) (inventory allocation : Counts) (cash n : ℕ)
    → IsValid p
    → IsHeld p inventory cash
    → allocate_cash n p.cash_management.accept_denominations none ≡ some allocation
    → fits_units inventory allocation ≡ true
    → IsHeld p (put_units allocation inventory) (cash + n)
put-IsHeld p inventory allocation cash n valid held planned fits =
    let ds = p.cash_management.accept_denominations in
    let (sum, _) =
      allocate_sound n ds none allocation valid.accept.positive valid.accept.distinct planned in
    let distinct = allocate-HasDistinctKeys n ds none allocation valid.accept.positive planned in
    let more = total-put_units allocation inventory in
    record {
      covered =
          All-has_key (put_units allocation) inventory p.cash_management.dispense_denominations
            (has_key-put_units allocation inventory) held.covered;
      bounded = λ d. omega (
        arith,
        fits_bound inventory allocation d distinct fits (held.bounded d),
        count_or-put_units allocation inventory d distinct,
      );
      backed = omega (arith, held.backed);
      exact = λ on. omega (arith, held.exact on);
    }

listed_bound :
    (ds : List ℕ) (inventory : Counts) (d : ℕ)
    → All (λ e. (contains ds e.0 ≡ true) × (e.1 ≤ max_cash_unit_count)) inventory
    → count_or inventory d 0 ≤ max_cash_unit_count
unfolding count_or
listed_bound ds [] d h = omega arith
listed_bound ds ((k, n) ∷ rest) d h = ground (arith, listed_bound ds rest d h.1)

-- A fresh inventory that the profile was validated with.
pub initial-IsHeld :
    (p : Profile)
    → IsValid p
    → IsHeld p p.cash_management.initial_inventory (total p.cash_management.initial_inventory)
initial-IsHeld p valid = record {
  covered = valid.covered;
  bounded = λ d. listed_bound _ p.cash_management.initial_inventory d valid.listed;
  backed = omega arith;
  exact = λ on. refl;
}

-- What a successful change of the terminal's cash leaves alone.
pub record IsSameBut (s t : Simulator) : Type 0 where
  pub profile : t.profile ≡ s.profile
  pub accounts : t.accounts ≡ s.accounts
  pub finite : t.finite_cash_inventory ≡ s.finite_cash_inventory
  pub approved : t.host_approved ≡ s.host_approved
