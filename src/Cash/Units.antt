-- ===== src/Cash/Units.antt =====
-- Taking an allocation out of an inventory, and putting one in: the loops over the entries in
-- `removeTerminalCash` and `addTerminalCash` of packages/runtime-core/src/index.ts.
use cashblocks.Prelude.{ℕ, ◌+◌, ◌-◌, ◌*◌, ◌≤◌, ◌≡◌, ap, true, [], ◌∷◌, arith, ==_self}
use cashblocks.Cash.Record.{
  Counts, count_or, assign, increase, total, has_key, HasDistinctKeys, count_or-assign,
  count_or-increase, total-assign, total-increase, has_key-assign, count_or_of_absent,
}

-- `for (const [d, n] of Object.entries(allocation)) inventory[d] = (inventory[d] ?? 0) - n`
unfoldable pub take_units : Counts → Counts → Counts
unfolding assign count_or
take_units [] inventory = inventory
take_units ((d, n) ∷ rest) inventory =
    take_units rest (assign inventory d (count_or inventory d 0 - n))

-- `for (const [d, n] of Object.entries(allocation)) inventory[d] = (inventory[d] ?? 0) + n`
unfoldable pub put_units : Counts → Counts → Counts
unfolding increase
put_units [] inventory = inventory
put_units ((d, n) ∷ rest) inventory = put_units rest (increase inventory d n)

abbrev pub Covers : Counts → Counts → Type 0
Covers inventory allocation = (d : ℕ) → count_or allocation d 0 ≤ count_or inventory d 0

Covers-rest :
    (k n : ℕ) (rest inventory : Counts)
    → HasDistinctKeys ((k, n) ∷ rest)
    → Covers inventory ((k, n) ∷ rest)
    → Covers (assign inventory k (count_or inventory k 0 - n)) rest
unfolding count_or
Covers-rest k n rest inventory distinct covers d = ground (
  arith,
  covers d,
  count_or-assign inventory k (count_or inventory k 0 - n) d 0,
  count_or_of_absent rest k 0,
  count_or_of_absent rest d 0,
)

mul-sub-add : (k m n : ℕ) → n ≤ m → k * (m - n) + k * n ≡ k * m
mul-sub-add k m n h =
    let whole : m ≡ m - n + n = omega arith in omega (arith, ap (λ (t : ℕ). k * t) whole)

-- Units that are there leave the inventory's total by their own total.
pub total-take_units :
    (allocation inventory : Counts)
    → HasDistinctKeys allocation
    → Covers inventory allocation
    → total (take_units allocation inventory) + total allocation ≡ total inventory
unfolding take_units total
total-take_units [] inventory distinct covers = omega arith
total-take_units ((k, n) ∷ rest) inventory distinct covers =
    let here : n ≤ count_or inventory k 0 =
      unfold count_or in ground (arith, covers k, ==_self k) in
    omega (
      arith,
      mul-sub-add k (count_or inventory k 0) n here,
      total-take_units rest (assign inventory k (count_or inventory k 0 - n)) distinct.1
          (Covers-rest k n rest inventory distinct covers),
      total-assign inventory k (count_or inventory k 0 - n),
    )

-- Each count falls by what is taken of it.
pub count_or-take_units :
    (allocation inventory : Counts) (d : ℕ)
    → HasDistinctKeys allocation
    → Covers inventory allocation
    → count_or (take_units allocation inventory) d 0 + count_or allocation d 0
      ≡ count_or inventory d 0
unfolding take_units count_or
count_or-take_units [] inventory d distinct covers = omega arith
count_or-take_units ((k, n) ∷ rest) inventory d distinct covers = ground (
  arith,
  covers d,
  count_or-take_units rest (assign inventory k (count_or inventory k 0 - n)) d distinct.1
      (Covers-rest k n rest inventory distinct covers),
  count_or-assign inventory k (count_or inventory k 0 - n) d 0,
  count_or_of_absent rest d 0,
)

pub has_key-take_units :
    (allocation inventory : Counts) (d : ℕ)
    → has_key inventory d ≡ true
    → has_key (take_units allocation inventory) d ≡ true
unfolding take_units
has_key-take_units [] inventory d h = h
has_key-take_units ((k, n) ∷ rest) inventory d h =
    has_key-take_units rest (assign inventory k (count_or inventory k 0 - n)) d
      (ground (arith, has_key-assign inventory k (count_or inventory k 0 - n) d))

pub total-put_units :
    (allocation inventory : Counts)
    → total (put_units allocation inventory) ≡ total inventory + total allocation
unfolding put_units total
total-put_units [] inventory = omega arith
total-put_units ((k, n) ∷ rest) inventory =
    omega (arith, total-put_units rest (increase inventory k n), total-increase inventory k n)

pub count_or-put_units :
    (allocation inventory : Counts) (d : ℕ)
    → HasDistinctKeys allocation
    → count_or (put_units allocation inventory) d 0
      ≡ count_or inventory d 0 + count_or allocation d 0
unfolding put_units count_or
count_or-put_units [] inventory d distinct = omega arith
count_or-put_units ((k, n) ∷ rest) inventory d distinct = ground (
  arith,
  count_or-put_units rest (increase inventory k n) d distinct.1,
  count_or-increase inventory k n d 0,
  count_or_of_absent rest d 0,
)

pub has_key-put_units :
    (allocation inventory : Counts) (d : ℕ)
    → has_key inventory d ≡ true
    → has_key (put_units allocation inventory) d ≡ true
unfolding put_units increase
has_key-put_units [] inventory d h = h
has_key-put_units ((k, n) ∷ rest) inventory d h =
    has_key-put_units rest (increase inventory k n) d
      (ground (arith, has_key-assign inventory k (count_or inventory k 0 + n) d))
