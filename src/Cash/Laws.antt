-- ===== src/Cash/Laws.antt =====
-- `allocateCash` pays exactly the amount from what is available, whenever that is possible.
use cashblocks.Prelude.{
  ℕ, ◌+◌, ◌≤◌, ◌<◌, ◌≡◌, ◌≢◌, ◌↔◌, inl, inr, Option, none, some, List, [], ◌∷◌, arith, Option-cases,
  All, length,
}
use cashblocks.Cash.{
  Bundle, fill, start, available, bundles_of, pay_with, allocate_cash, max_transaction_amount,
}
use cashblocks.Cash.Record.{
  Counts, count_or, increase, HasDistinctKeys, assign-HasDistinctKeys, total,
}
use cashblocks.Cash.Bundles.{Pays, bundles_complete, bundles_sound}
use cashblocks.Cash.Fill.{IsSetAt, fill-IsSetAt, start-IsSetAt}
use cashblocks.Cash.Spend.{
  spend, AreBundles, units, count_or-spend, total-spend, collect-Walk, Walk-sum_of, Walk-units,
  Walk-SubsetSum, take-length,
}
use cashblocks.Cash.Limits.{
  AreDistinct, bundles_of-AreBundles, units-bundles_of, units-bundles_of_absent,
}
use cashblocks.Cash.Walk.{Walk, fill_walks}

abbrev pub ArePositive : List ℕ → Type 0
ArePositive = All (λ d. 0 < d)

values_pos : (bs : List Bundle) → AreBundles bs → All (λ b. 0 < b.value) bs
values_pos [] h = tt
values_pos (b ∷ bs) h = (h.0.0, values_pos bs h.1)

-- A successful allocation is what some walk from the amount spends.
allocated :
    (amount : ℕ) (ds : List ℕ) (inventory : Option Counts) (allocation : Counts)
    → ArePositive ds
    → allocate_cash amount ds inventory ≡ some allocation
    → let bs = bundles_of amount inventory ds in
      (used : List Bundle) × Walk bs (fill amount 0 bs start) (length bs) amount used
      × (allocation ≡ spend [] used)
      × (0 < amount)
      × (amount ≤ max_transaction_amount)
unfolding allocate_cash pay_with
allocated amount ds inventory allocation pos h =
    let bs = bundles_of amount inventory ds in
    let t = fill amount 0 bs start in
    let set : IsSetAt t amount = ground arith in
    let are = bundles_of-AreBundles amount inventory ds pos in
    let (used, w) = fill_walks amount bs (values_pos bs are) amount set in
    let done = collect-Walk bs t amount (length bs) amount used [] are (omega arith) w in
    (used, w, ground (arith, done), ground arith, ground arith)

-- Where the denominations are positive and differ, an allocation adds up to the amount, and of no
-- denomination does it take more than is available.
pub allocate_sound :
    (amount : ℕ) (ds : List ℕ) (inventory : Option Counts) (allocation : Counts)
    → ArePositive ds
    → AreDistinct ds
    → allocate_cash amount ds inventory ≡ some allocation
    → (total allocation ≡ amount) × ((d : ℕ) → count_or allocation d 0 ≤ available inventory d)
unfolding total count_or
allocate_sound amount ds inventory allocation pos distinct h =
    let bs = bundles_of amount inventory ds in
    let t = fill amount 0 bs start in
    let (used, w, e, _, _) = allocated amount ds inventory allocation pos h in
    let are = bundles_of-AreBundles amount inventory ds pos in
    let sum = Walk-sum_of bs t (length bs) amount used are w in
    rw e (
      omega (arith, total-spend [] used),
      λ d.
          let spent : units d used ≤ units d bs =
            rw take-length at (Walk-units d bs t (length bs) amount used w) in
          omega (arith, count_or-spend [] used d, units-bundles_of amount d inventory ds distinct),
    )

-- Of a denomination that is not listed nothing is taken.
pub allocate_listed :
    (amount : ℕ) (ds : List ℕ) (inventory : Option Counts) (allocation : Counts) (d : ℕ)
    → ArePositive ds
    → allocate_cash amount ds inventory ≡ some allocation
    → All (λ e. d ≢ e) ds
    → count_or allocation d 0 ≡ 0
unfolding count_or
allocate_listed amount ds inventory allocation d pos h absent =
    let bs = bundles_of amount inventory ds in
    let (used, w, e, _, _) = allocated amount ds inventory allocation pos h in
    let spent : units d used ≤ units d bs =
      rw take-length at (Walk-units d bs _ (length bs) amount used w) in
    rw e (
      omega (arith, count_or-spend [] used d, units-bundles_of_absent amount d inventory ds absent))

-- If the units that are available can pay the amount, an allocation is found.
pub allocate_complete :
    (amount : ℕ) (ds : List ℕ) (inventory : Option Counts)
    → ArePositive ds
    → 0 < amount
    → amount ≤ max_transaction_amount
    → Pays inventory ds amount
    → (allocation : Counts) × (allocate_cash amount ds inventory ≡ some allocation)
unfolding allocate_cash pay_with
allocate_complete amount ds inventory pos positive fits pays =
    let bs = bundles_of amount inventory ds in
    let t = fill amount 0 bs start in
    let are = bundles_of-AreBundles amount inventory ds pos in
    let from_zero : 0 + amount ≡ amount = omega arith in
    let set : IsSetAt t amount = rw from_zero at (
      fill-IsSetAt amount 0 0 amount bs start start-IsSetAt
        (bundles_complete amount amount inventory ds pos (omega arith) pays) (omega arith)) in
    let (used, w) = fill_walks amount bs (values_pos bs are) amount set in
    let done = collect-Walk bs t amount (length bs) amount used [] are (omega arith) w in
    (spend [] used, ground (arith, done))

-- Where the denominations are positive, an allocation of a positive amount within the transaction limit
-- is refused exactly when no choice of available units adds up to the amount.
pub allocate-none_iff :
    (amount : ℕ) (ds : List ℕ) (inventory : Option Counts)
    → ArePositive ds
    → 0 < amount
    → amount ≤ max_transaction_amount
    → (allocate_cash amount ds inventory ≡ none) ↔ (¬ Pays inventory ds amount)
allocate-none_iff amount ds inventory pos positive fits = (
  λ failed pays.
      let (_, found) = allocate_complete amount ds inventory pos positive fits pays in cc,
  λ never. elim (Option-cases (allocate_cash amount ds inventory)) [
    | inl failed ↦ failed
    | inr (allocation, found) ↦
        let bs = bundles_of amount inventory ds in
        let (used, w, _, _, _) = allocated amount ds inventory allocation pos found in
        absurd (
          never (
            bundles_sound amount amount inventory ds
              (rw take-length at (Walk-SubsetSum bs _ (length bs) amount used w))))
  ],
)

increase-HasDistinctKeys :
    (used : List Bundle) (c : Counts) → HasDistinctKeys c → HasDistinctKeys (spend c used)
unfolding spend increase
increase-HasDistinctKeys [] c h = h
increase-HasDistinctKeys (b ∷ used) c h =
    increase-HasDistinctKeys used (increase c b.denomination b.count)
      (assign-HasDistinctKeys c b.denomination _ h)

-- An allocation lists no denomination twice.
pub allocate-HasDistinctKeys :
    (amount : ℕ) (ds : List ℕ) (inventory : Option Counts) (allocation : Counts)
    → ArePositive ds
    → allocate_cash amount ds inventory ≡ some allocation
    → HasDistinctKeys allocation
allocate-HasDistinctKeys amount ds inventory allocation pos h =
    let (used, w, e, _, _) = allocated amount ds inventory allocation pos h in
    rw e (increase-HasDistinctKeys used [] tt)
