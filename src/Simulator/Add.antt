-- ===== src/Simulator/Add.antt =====
-- `addTerminalCash` from a sound state: what it adds, and that the notes stay accounted for.
use cashblocks.Prelude.{
  ℕ, ◌+◌, ◌≤◌, ◌≡◌, refl, sym, subst, true, false, ◌&&◌, Option, none, some, List, ◌==◌,
  if◌then◌else◌, arith, Bool-cases, inl, inr, ◌⊎◌,
}
use cashblocks.Prelude.Int.{ℤ, pos, negsuc}
use cashblocks.Prelude.Result.{ok}
use cashblocks.Cash.{max_safe_integer, allocate_cash}
use cashblocks.Cash.Record.{Counts}
use cashblocks.Cash.Units.{put_units}
use cashblocks.Profile.{Profile, magnitude}
use cashblocks.Simulator.{
  Simulator, Change, fits_units, can_add_terminal_cash, add_terminal_cash, put_allocation,
  fits_allocation,
}
use cashblocks.Simulator.Held.{IsHeld, IsSameBut, IsSound, put-IsHeld}

-- The state after a deposit.
abbrev pub added : Simulator → ℤ → Simulator
added s amount = record s {
  cash_inventory =
      if s.finite_cash_inventory && s.profile.cash_management.recycle_deposits
      then put_allocation
          (allocate_cash (magnitude amount) s.profile.cash_management.accept_denominations none)
          s.cash_inventory
      else s.cash_inventory;
  terminal_cash = s.terminal_cash + magnitude amount;
}

pub add-cases :
    (s s' : Simulator) (amount : ℤ) (change : Change ℕ)
    → add_terminal_cash amount s ≡ ok (change, s')
    → (can_add_terminal_cash amount s ≡ true)
      × (s' ≡ added s amount)
      × (change ≡ record { before = s.terminal_cash; after = s.terminal_cash + magnitude amount })
unfolding add_terminal_cash
add-cases s s' amount change done = ground arith

pub add_eq :
    (s : Simulator) (amount : ℤ)
    → can_add_terminal_cash amount s ≡ true
    → add_terminal_cash amount s
      ≡ ok (
        record { before = s.terminal_cash; after = s.terminal_cash + magnitude amount },
        added s amount,
      )
unfolding add_terminal_cash
add_eq s amount can = rw (can, add_terminal_cash)

can_add_of_zero : (ds : List ℕ) → allocate_cash 0 ds none ≡ none
unfolding allocate_cash
can_add_of_zero ds = refl

abbrev pub Recycles : Simulator → ℕ → Type 0
Recycles s n =
    (allocation : Counts) × (allocate_cash n s.profile.cash_management.accept_denominations none
      ≡ some allocation)
    × (fits_units s.cash_inventory allocation ≡ true)

fits_cases :
    (inventory : Counts) (o : Option Counts)
    → fits_allocation inventory o ≡ true
    → (allocation : Counts) × (o ≡ some allocation) × (fits_units inventory allocation ≡ true)
fits_cases inventory none h = cc
fits_cases inventory (some allocation) h = (allocation, refl, h)

-- What a state that can take the amount has: room, and where notes are recycled a place for them.
pub can_add-cases :
    (s : Simulator) (amount : ℤ)
    → can_add_terminal_cash amount s ≡ true
    → (amount ≡ pos (magnitude amount))
      × (s.terminal_cash + magnitude amount ≤ max_safe_integer)
      × (s.finite_cash_inventory ≡ true
          → s.profile.cash_management.recycle_deposits ≡ true
          → (magnitude amount ≡ 0) ⊎ Recycles s (magnitude amount))
unfolding can_add_terminal_cash
can_add-cases s (negsuc n) h = cc
can_add-cases s (pos n) h = (
  refl,
  ground arith,
  λ finite recycles. elim (Bool-cases (n == 0)) [
    | inl zero_amount ↦ inl (ground arith)
    | inr some_amount ↦ inr (fits_cases s.cash_inventory _ (ground arith))
  ],
)

keep-IsHeld :
    (p : Profile) (inventory : Counts) (cash n : ℕ)
    → (p.cash_management.recycle_deposits ≡ false) ⊎ (n ≡ 0)
    → IsHeld p inventory cash
    → IsHeld p inventory (cash + n)
keep-IsHeld p inventory cash n why held = record {
  covered = held.covered;
  bounded = held.bounded;
  backed = omega (arith, held.backed);
  exact = λ on. elim why [ inl off ↦ cc | inr nothing ↦ omega (arith, held.exact on) ];
}

inventory_kept :
    (s : Simulator) (amount : ℤ)
    → (s.profile.cash_management.recycle_deposits ≡ false) ⊎ (magnitude amount ≡ 0)
    → (added s amount).cash_inventory ≡ s.cash_inventory
inventory_kept s amount (inl off) = ground arith
inventory_kept s amount (inr nothing) =
    let ds = s.profile.cash_management.accept_denominations in
    let empty : allocate_cash (magnitude amount) ds none ≡ none = rw nothing (can_add_of_zero ds) in
    ground arith

inventory_put :
    (s : Simulator) (amount : ℤ) (allocation : Counts)
    → s.finite_cash_inventory ≡ true
    → s.profile.cash_management.recycle_deposits ≡ true
    → allocate_cash (magnitude amount) s.profile.cash_management.accept_denominations none
      ≡ some allocation
    → (added s amount).cash_inventory ≡ put_units allocation s.cash_inventory
inventory_put s amount allocation finite recycles planned = ground arith

pub added-IsHeld :
    (s : Simulator) (amount : ℤ)
    → IsSound s
    → can_add_terminal_cash amount s ≡ true
    → s.finite_cash_inventory ≡ true
    → IsHeld s.profile (added s amount).cash_inventory (s.terminal_cash + magnitude amount)
added-IsHeld s amount sound can finite =
    let (_, _, place) = can_add-cases s amount can in
    let held = sound.held finite in
    let Held =
      λ (inventory : Counts). IsHeld s.profile inventory (s.terminal_cash + magnitude amount) in
    let kept =
      λ (why : (s.profile.cash_management.recycle_deposits ≡ false) ⊎ (magnitude amount ≡ 0)).
        subst Held (sym (inventory_kept s amount why))
          (keep-IsHeld s.profile s.cash_inventory s.terminal_cash (magnitude amount) why held) in
    elim (Bool-cases s.profile.cash_management.recycle_deposits) [
      | inr off ↦ kept (inl off)
      | inl recycles ↦ elim (place finite recycles) [
        | inl nothing ↦ kept (inr nothing)
        | inr (allocation, planned, fits) ↦
            subst Held (sym (inventory_put s amount allocation finite recycles planned)) (
              put-IsHeld s.profile s.cash_inventory allocation s.terminal_cash (magnitude amount)
                sound.valid held planned fits)
      ]
    ]

-- From a sound state, adding cash adds exactly the amount, keeps the state sound and within the safe
-- integers, and leaves the profile, the accounts and the switches alone.
pub add_terminal_cash-IsSound :
    (s s' : Simulator) (amount : ℤ) (change : Change ℕ)
    → IsSound s
    → add_terminal_cash amount s ≡ ok (change, s')
    → IsSound s'
      × IsSameBut s s'
      × (amount ≡ pos (magnitude amount))
      × (change.before ≡ s.terminal_cash)
      × (change.after ≡ s'.terminal_cash)
      × (s'.terminal_cash ≡ s.terminal_cash + magnitude amount)
add_terminal_cash-IsSound s s' amount change sound done =
    let (can, e, c) = add-cases s s' amount change done in
    let (sign, safe, _) = can_add-cases s amount can in
    rw (e, c)
      (
        record { valid = sound.valid; safe = safe; held = added-IsHeld s amount sound can },
        record { profile = refl; accounts = refl; finite = refl; approved = refl },
        sign,
        refl,
        refl,
        refl,
      )
