-- ===== src/Simulator/Remove.antt =====
-- `removeTerminalCash` from a sound state: what it takes, and when it refuses.
use cashblocks.Prelude.{
  ℕ, ◌+◌, ◌-◌, ◌≤◌, ◌<◌, ◌≡◌, ◌↔◌, refl, sym, ◌∙◌, subst, true, none, some, if◌then◌else◌, arith,
  Bool-cases, Option-cases, inl, inr, ◌⊎◌, false,
}
use cashblocks.Prelude.Int.{ℤ, pos, negsuc}
use cashblocks.Prelude.Result.{ok, err, ok-injective}
use cashblocks.Cash.{max_transaction_amount, allocate_cash}
use cashblocks.Cash.Record.{Counts, total}
use cashblocks.Cash.Units.{take_units}
use cashblocks.Cash.Bundles.{Pays}
use cashblocks.Cash.Laws.{allocate-none_iff}
use cashblocks.Profile.{magnitude}
use cashblocks.Simulator.{Simulator, Change, cannot_dispense, plan_dispense, remove_terminal_cash}
use cashblocks.Simulator.Held.{IsSameBut, IsSound, take-IsHeld}

-- A planned amount is a positive safe integer, and the terminal holds it.
pub plan_within :
    (s : Simulator) (amount : ℤ) (allocation : Counts)
    → IsSound s
    → plan_dispense amount s ≡ some allocation
    → (amount ≡ pos (magnitude amount))
      × (0 < magnitude amount)
      × (magnitude amount ≤ s.terminal_cash)
unfolding plan_dispense
plan_within s (negsuc n) allocation sound planned = cc
plan_within s (pos n) allocation sound planned = elim (Bool-cases s.finite_cash_inventory) [
  | inl finite ↦
      let held = sound.held finite in
      let from_units : allocate_cash n s.profile.cash_management.dispense_denominations
            (some s.cash_inventory)
          ≡ some allocation =
        ground arith in
      let (enough, _) =
        take-IsHeld s.profile s.cash_inventory allocation s.terminal_cash n sound.valid held
          from_units in
      (refl, ground arith, omega (arith, held.backed))
  | inr scalar ↦ (refl, ground arith, ground arith)
]

-- The state after a removal, by the allocation that was planned.
abbrev pub removed : Simulator → ℤ → Counts → Simulator
removed s amount allocation = record s {
  cash_inventory =
      if s.finite_cash_inventory then take_units allocation s.cash_inventory else s.cash_inventory;
  terminal_cash = s.terminal_cash - magnitude amount;
}

pub remove_eq :
    (s : Simulator) (amount : ℤ) (allocation : Counts)
    → plan_dispense amount s ≡ some allocation
    → remove_terminal_cash amount s
      ≡ ok (
        record { before = s.terminal_cash; after = s.terminal_cash - magnitude amount },
        removed s amount allocation,
      )
unfolding remove_terminal_cash
remove_eq s amount allocation planned = rw (planned, remove_terminal_cash)

pub removed-IsSound :
    (s : Simulator) (amount : ℤ) (allocation : Counts)
    → IsSound s
    → plan_dispense amount s ≡ some allocation
    → IsSound (removed s amount allocation)
      × (s.finite_cash_inventory ≡ true
          → total (removed s amount allocation).cash_inventory + magnitude amount
            ≡ total s.cash_inventory)
unfolding plan_dispense
removed-IsSound s (negsuc n) allocation sound planned = cc
removed-IsSound s (pos n) allocation sound planned = elim (Bool-cases s.finite_cash_inventory) [
  | inl finite ↦
      let held = sound.held finite in
      let from_units : allocate_cash n s.profile.cash_management.dispense_denominations
            (some s.cash_inventory)
          ≡ some allocation =
        ground arith in
      let (left, kept) =
        take-IsHeld s.profile s.cash_inventory allocation s.terminal_cash n sound.valid held
          from_units in
      (
        record {
          valid = sound.valid;
          safe = omega (arith, sound.safe);
          held = λ h. rw finite kept;
        },
        λ h. rw finite left,
      )
  | inr scalar ↦
      (record { valid = sound.valid; safe = omega (arith, sound.safe); held = λ h. cc }, λ h. cc)
]

pub remove_none :
    (s : Simulator) (amount : ℤ)
    → plan_dispense amount s ≡ none
    → remove_terminal_cash amount s ≡ err (cannot_dispense amount)
unfolding remove_terminal_cash
remove_none s amount failed = rw (failed, remove_terminal_cash)

pub same_but :
    (s : Simulator) (amount : ℤ) (allocation : Counts) → IsSameBut s (removed s amount allocation)
same_but s amount allocation = record {
  profile = refl;
  accounts = refl;
  finite = refl;
  approved = refl;
}

-- From a sound state, removing cash takes exactly the amount from the terminal's cash and, where the
-- notes are finite, from the value of the notes; the state stays sound, with the profile, the accounts
-- and the switches as they were.
pub remove_terminal_cash-IsSound :
    (s s' : Simulator) (amount : ℤ) (change : Change ℕ)
    → IsSound s
    → remove_terminal_cash amount s ≡ ok (change, s')
    → IsSound s'
      × IsSameBut s s'
      × (change.before ≡ s.terminal_cash)
      × (change.after ≡ s'.terminal_cash)
      × (change.after + magnitude amount ≡ change.before)
      × ((s.finite_cash_inventory ≡ false)
          ⊎ (total s'.cash_inventory + magnitude amount ≡ total s.cash_inventory))
remove_terminal_cash-IsSound s s' amount change sound done =
    elim (Option-cases (plan_dispense amount s)) [
      | inl failed ↦ cc (remove_none s amount failed)
      | inr (allocation, planned) ↦
          let e =
            ok-injective _ (change, s') (sym (remove_eq s amount allocation planned) ∙ done) in
          let (kept, left) = removed-IsSound s amount allocation sound planned in
          let (_, _, enough) = plan_within s amount allocation sound planned in
          subst
            (λ (r : Change ℕ × Simulator).
              IsSound r.1
              × IsSameBut s r.1
              × (r.0.before ≡ s.terminal_cash)
              × (r.0.after ≡ r.1.terminal_cash)
              × (r.0.after + magnitude amount ≡ r.0.before)
              × ((s.finite_cash_inventory ≡ false)
                  ⊎ (total r.1.cash_inventory + magnitude amount ≡ total s.cash_inventory)))
            e
            (
              kept,
              same_but s amount allocation,
              refl,
              refl,
              omega arith,
              elim (Bool-cases s.finite_cash_inventory) [
                | inl finite ↦ inr (left finite)
                | inr scalar ↦ inl scalar
              ],
            )
    ]

-- From a sound simulator whose notes are finite, a removal of a positive amount within the transaction
-- limit fails exactly when no choice of the notes that are there adds up to it.
pub remove-refused_iff :
    (s : Simulator) (n : ℕ)
    → IsSound s
    → s.finite_cash_inventory ≡ true
    → 0 < n
    → n ≤ max_transaction_amount
    → (remove_terminal_cash (pos n) s ≡ err (cannot_dispense (pos n)))
      ↔ (¬ Pays (some s.cash_inventory) s.profile.cash_management.dispense_denominations n)
unfolding plan_dispense
remove-refused_iff s n sound finite positive small =
    let ds = s.profile.cash_management.dispense_denominations in
    let plan : plan_dispense (pos n) s ≡ allocate_cash n ds (some s.cash_inventory) =
      ground arith in
    let iff =
      allocate-none_iff n ds (some s.cash_inventory) sound.valid.dispense.positive positive small in
    (λ failed. iff.0 (refused failed plan), λ never. remove_none s (pos n) (plan ∙ iff.1 never))
  where
    refused :
        remove_terminal_cash (pos n) s ≡ err (cannot_dispense (pos n))
        → plan_dispense (pos n) s
          ≡ allocate_cash n s.profile.cash_management.dispense_denominations (some s.cash_inventory)
        → allocate_cash n s.profile.cash_management.dispense_denominations (some s.cash_inventory)
          ≡ none
    refused failed plan = elim (Option-cases (plan_dispense (pos n) s)) [
      | inl nothing ↦ sym plan ∙ nothing
      | inr (allocation, planned) ↦ cc (remove_eq s (pos n) allocation planned)
    ]
