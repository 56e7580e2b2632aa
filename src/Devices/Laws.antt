-- ===== src/Devices/Laws.antt =====
-- The dispenser and the acceptor of packages/runtime-core/src/index.ts from a sound simulator: every
-- call answers, a refusal changes nothing, and a success moves exactly the amount.
use cashblocks.Prelude.{
  ◌+◌, ◌-◌, ◌≡◌, refl, Bool, true, false, not, Option, none, some, String, if◌then◌else◌, arith,
  Option-cases, inl, inr, ◌⊎◌,
}
use cashblocks.Prelude.Int.{ℤ, pos}
use cashblocks.Prelude.Result.{Result, ok}
use cashblocks.Contracts.{AdapterResult}
use cashblocks.Cash.{is_set}
use cashblocks.Profile.{magnitude}
use cashblocks.Simulator.{Simulator, SimulatorError, plan_dispense, can_add_terminal_cash, get_or}
use cashblocks.Simulator.Held.{IsSound, IsSameBut}
use cashblocks.Simulator.Remove.{remove_eq, removed, removed-IsSound, plan_within, same_but}
use cashblocks.Simulator.Add.{add_eq, added, added-IsHeld, can_add-cases}
use cashblocks.Devices.{
  adapter_result, dispensed, accepted, refuse, pay_out, dispense, take_in, accept_guard,
  accept_behind, accept,
}

-- The call answered from `s`: either it was refused and nothing changed, or it moved what `Did` says.
pub record Answered (Did : Simulator → Type 0) (s : Simulator)
    (answer : Result SimulatorError (AdapterResult × Simulator)) : Type 0 where
  pub result : AdapterResult
  pub state : Simulator
  pub answers : answer ≡ ok (result, state)
  pub sound : IsSound state
  pub same : IsSameBut s state
  pub effect : ((result.success ≡ false) × (state ≡ s)) ⊎ ((result.success ≡ true) × Did state)

unchanged : (s : Simulator) → IsSameBut s s
unchanged s = record { profile = refl; accounts = refl; finite = refl; approved = refl }

refusal :
    (Did : Simulator → Type 0) (s : Simulator) (code message : String)
    → IsSound s
    → Answered Did s (refuse code message s)
refusal Did s code message sound = record {
  result = adapter_result false code message;
  state = s;
  answers = refl;
  sound = sound;
  same = unchanged s;
  effect = inl (refl, refl);
}

guarded :
    (Did : Simulator → Type 0) (s : Simulator) (b : Bool)
    (x y : Result SimulatorError (AdapterResult × Simulator))
    → Answered Did s x
    → (b ≡ false → Answered Did s y)
    → Answered Did s (if b then x else y)
guarded Did s true x y first second = first
guarded Did s false x y first second = second refl

abbrev pub Paid : ℤ → Simulator → Simulator → Type 0
Paid amount s t =
    (amount ≡ pos (magnitude amount)) × (t.terminal_cash + magnitude amount ≡ s.terminal_cash)

pay_out-answers :
    (s : Simulator) (amount : ℤ) (currency_code : String)
    → IsSound s
    → not (is_set (plan_dispense amount s)) ≡ false
    → Answered (Paid amount s) s (pay_out amount currency_code s)
unfolding pay_out
pay_out-answers s amount currency_code sound planned =
    elim (Option-cases (plan_dispense amount s)) [
      | inl none_planned ↦ cc
      | inr (allocation, plan) ↦
          let (sign, _, enough) = plan_within s amount allocation sound plan in
          let (kept, _) = removed-IsSound s amount allocation sound plan in
          record {
            result = dispensed amount currency_code (s.terminal_cash - magnitude amount);
            state = removed s amount allocation;
            answers = rw (remove_eq s amount allocation plan) refl;
            sound = kept;
            same = same_but s amount allocation;
            effect = inr (refl, (sign, omega arith));
          }
    ]

-- Dispensing from a sound simulator always answers and leaves a sound simulator with the accounts,
-- the profile and the switches as they were. It succeeds only by taking exactly the amount out of the
-- terminal's cash, and a refusal leaves the simulator as it was.
pub dispense_answers :
    (s : Simulator) (amount : ℤ) (currency_code : String)
    → IsSound s
    → Answered (Paid amount s) s (dispense amount currency_code s)
unfolding dispense
dispense_answers s amount currency_code sound =
    search (guarded, refusal, pay_out-answers s amount currency_code, sound) depth 20

abbrev pub Taken : ℤ → Simulator → Simulator → Type 0
Taken amount s t =
    (amount ≡ pos (magnitude amount)) × (t.terminal_cash ≡ s.terminal_cash + magnitude amount)

take_in-answers :
    (s : Simulator) (expected : Option ℤ) (currency_code : String)
    → IsSound s
    → not (can_add_terminal_cash (get_or (pos 0) expected) s) ≡ false
    → Answered (Taken (get_or (pos 0) expected) s) s (take_in expected currency_code s)
unfolding take_in
take_in-answers s expected currency_code sound allowed =
    let amount = get_or (pos 0) expected in
    let can : can_add_terminal_cash amount s ≡ true = ground arith in
    let (sign, safe, _) = can_add-cases s amount can in
    record {
      result = accepted expected currency_code (s.terminal_cash + magnitude amount);
      state = added s amount;
      answers = rw (add_eq s amount can) refl;
      sound = record { valid = sound.valid; safe = safe; held = added-IsHeld s amount sound can };
      same = record { profile = refl; accounts = refl; finite = refl; approved = refl };
      effect = inr (refl, (sign, refl));
    }

accept_behind-answers :
    (s : Simulator) (guard : Option AdapterResult) (expected : Option ℤ) (currency_code : String)
    → ((r : AdapterResult) → guard ≡ some r → r.success ≡ false)
    → IsSound s
    → Answered (Taken (get_or (pos 0) expected) s) s (accept_behind guard expected currency_code s)
accept_behind-answers s none expected currency_code refuses sound =
    search (guarded, refusal, take_in-answers s expected currency_code, sound)
accept_behind-answers s (some r) expected currency_code refuses sound = record {
  result = r;
  state = s;
  answers = refl;
  sound = sound;
  same = unchanged s;
  effect = inl (refuses r refl, refl);
}

accept_guard_refuses :
    (amount : ℤ) (currency_code : String) (s : Simulator) (r : AdapterResult)
    → accept_guard amount currency_code s ≡ some r
    → r.success ≡ false
unfolding accept_guard
accept_guard_refuses amount currency_code s r h = ground arith

-- Accepting cash into a sound simulator always answers and leaves a sound simulator with the accounts,
-- the profile and the switches as they were. It succeeds only by adding exactly the amount to the
-- terminal's cash, where an amount that is not given counts as 0, and a refusal leaves the simulator as
-- it was.
pub accept_answers :
    (s : Simulator) (expected : Option ℤ) (currency_code : String)
    → IsSound s
    → Answered (Taken (get_or (pos 0) expected) s) s (accept expected currency_code s)
unfolding accept
accept_answers s expected currency_code sound =
    let D = Taken (get_or (pos 0) expected) s in
    let behind =
      accept_behind-answers s (accept_guard (get_or (pos 0) expected) currency_code s) expected
        currency_code (accept_guard_refuses (get_or (pos 0) expected) currency_code s) sound in
    guarded D s (not s.profile.capabilities.cash_acceptor) _ _ (refusal D s _ _ sound)
      λ _. guarded D s (not s.acceptor_online) _ _ (refusal D s _ _ sound) λ _. behind
