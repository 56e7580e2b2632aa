-- ===== src/AtmModules/Conservation.antt =====
-- The modules of packages/atm-modules/src/index.ts with the simulated devices: money does not vanish
-- between the terminal's cash and the account.
use cashblocks.Prelude.{
  if_rule, ltb, arith, ℕ, ◌≡◌, refl, sym, ◌∙◌, ap, subst, true, false, Option, none, some, String,
  inl, inr, ◌⊎◌,
}
use cashblocks.Prelude.Int.{ℤ, pos, negsuc}
use cashblocks.Prelude.Exec.{Exec}
use cashblocks.Contracts.{AdapterResult}
use cashblocks.Simulator.{Simulator, debit, credit, balance, get_or}
use cashblocks.Simulator.Held.{IsSound, IsSameBut}
use cashblocks.Devices.{dispense, authorize}
use cashblocks.Devices.Laws.{Paid, Taken, dispense_answers, accept_answers}
use cashblocks.Validation.{host_authorization, cash_dispenser, cash_acceptor}
use cashblocks.Runtime.{emit}
use cashblocks.Terminal.{Terminal, record_event, currency_code_of, create_adapter_operation_context}
use cashblocks.AtmModules.Calls.{settled, adapter_indeterminate_result, adapter_timeout_result}
use cashblocks.AtmModules.Rules.{handlers_state, print_receipt-CallsFrom}
use cashblocks.AtmModules.Simulated.{outcome_of, simulated_adapters}
use cashblocks.AtmModules.Withdrawal.{
  CashWithdrawal, complete_withdrawal, dispense_cash, execute_withdrawal, authorization_request,
  after_dispense, receipt_lines, authorize_withdrawal, after_authorization,
}
use cashblocks.AtmModules.Deposit.{
  CashDeposit, complete_deposit, after_acceptance, execute_deposit, unless_zero,
}
use cashblocks.AtmModules.Money.{credited}
use cashblocks.AtmModules.Transfers.{
  Conserves, Withdrawn, Deposited, HandlersKeepSimulator, with_accounts-IsSound, returns_step,
  late_step, fails, completes, call_adapter_settles, unless_ok_simulator, debit-Withdrawn,
}

module _ (w : CashWithdrawal) (handlers : HandlersKeepSimulator w.handlers) where
  complete-Conserves :
      (s : Simulator) (currency_code : String) (cash : ℕ) (t : Terminal)
      → Withdrawn w s (debit w.account w.amount t.simulator).1
      → Conserves s (Withdrawn w s) (complete_withdrawal simulated_adapters w currency_code cash t)
  unfolding complete_withdrawal
  complete-Conserves s currency_code cash t done =
      let b = (debit w.account w.amount t.simulator).1 in
      late_step s (Withdrawn w s) _ _ b refl done (λ change u at.
        late_step s (Withdrawn w s) _ _ b
          (ap (λ t. t.simulator) (handlers_state (emit "OnEndReceiptOption" w.handlers u))
            ∙ handlers u
            ∙ at)
          done
          (λ a v at.
            late_step s (Withdrawn w s) _ _ b
              ((print_receipt-CallsFrom simulated_adapters w.name (receipt_lines w currency_code)
                  v).simulator
                ∙ at)
              done
              (λ receipt x at.
                late_step s (Withdrawn w s) _ _ b (unless_ok_simulator w.name receipt x ∙ at) done
                  (λ _ y at. late_step s (Withdrawn w s) _ _ b at done (λ cash_after z at.
                    completes s (Withdrawn w s) _ _ _ _ z (subst (Withdrawn w s) (sym at) done))))))

  after_dispense-Conserves :
      (s : Simulator) (currency_code : String) (cash : ℕ) (r : AdapterResult) (u : Simulator)
      (t : Terminal)
      → IsSound u
      → IsSameBut s u
      → (((r.success ≡ false) × (u ≡ s)) ⊎ ((r.success ≡ true) × Paid w.amount s u))
      → t.simulator ≡ u
      → Conserves s (Withdrawn w s) (after_dispense simulated_adapters w currency_code cash r t)
  after_dispense-Conserves s currency_code cash r u t sound same (inl (refused, same_state)) at =
      if_rule (λ (e : Exec Terminal AdapterResult). Conserves s (Withdrawn w s) (e t)) r.success
        (complete_withdrawal simulated_adapters w currency_code cash) _ (λ yes. cc)
        (λ _. fails s (Withdrawn w s) w.name _ r t (at ∙ same_state))
  after_dispense-Conserves s currency_code cash r u t sound same (inr (succeeded, paid)) at =
      if_rule (λ (e : Exec Terminal AdapterResult). Conserves s (Withdrawn w s) (e t)) r.success
        (complete_withdrawal simulated_adapters w currency_code cash) _
        (λ _. complete-Conserves s currency_code cash t (
          subst (λ u. Withdrawn w s (debit w.account w.amount u).1) (sym at)
            (debit-Withdrawn w s u paid sound same)))
        (λ no. cc)

  dispense-Conserves :
      (currency_code : String) (s : Simulator) (t : Terminal)
      → IsSound s
      → t.simulator ≡ s
      → Conserves s (Withdrawn w s) (dispense_cash simulated_adapters w currency_code t)
  unfolding dispense_cash create_adapter_operation_context
  dispense-Conserves currency_code s t sound at =
      let d = dispense_answers s w.amount currency_code sound in
      returns_step s (Withdrawn w s) _ _ t.simulator.terminal_cash t refl (
        returns_step s (Withdrawn w s) _ _ d.result _
          (call_adapter_settles cash_dispenser "dispense"
            (simulated_adapters.dispense w.amount currency_code) adapter_indeterminate_result w.name
            _ t d.result d.state
            (ap (λ s. outcome_of s (dispense w.amount currency_code s)) at
              ∙ ap (outcome_of s) d.answers))
          (after_dispense-Conserves s currency_code _ d.result d.state _ d.sound d.same d.effect
            refl))

  after_authorization-Conserves :
      (currency_code : String) (s : Simulator) (r : AdapterResult) (t : Terminal)
      → IsSound s
      → t.simulator ≡ s
      → Conserves s (Withdrawn w s) (after_authorization simulated_adapters w currency_code r t)
  after_authorization-Conserves currency_code s r t sound at =
      if_rule (λ (e : Exec Terminal AdapterResult). Conserves s (Withdrawn w s) (e t)) r.success
        (dispense_cash simulated_adapters w currency_code) _
        (λ _. dispense-Conserves currency_code s t sound at)
        (λ _. fails s (Withdrawn w s) w.name _ r t at)

  authorize-Conserves :
      (currency_code : String) (s : Simulator) (t : Terminal)
      → IsSound s
      → t.simulator ≡ s
      → Conserves s (Withdrawn w s) (authorize_withdrawal simulated_adapters w currency_code t)
  unfolding record_event create_adapter_operation_context
  authorize-Conserves currency_code s t sound at =
      let r = authorize (authorization_request w currency_code) s in
      returns_step s (Withdrawn w s) _ _ r _
        (call_adapter_settles host_authorization "authorize"
          (simulated_adapters.authorize (authorization_request w currency_code))
          adapter_timeout_result w.name _ t r s
          (ap (λ s. (settled (authorize (authorization_request w currency_code) s), s)) at))
        (returns_step s (Withdrawn w s) _ _ tt _ refl
          (after_authorization-Conserves currency_code s r _ sound refl))

  -- With the simulated devices of a sound simulator, and handlers that leave the simulator alone, a
  -- withdrawal moves the same amount out of the terminal's cash and out of the account, or, where its
  -- result is not ok, leaves the simulator as it was. It throws only behind both moves, and the
  -- simulator that it leaves is sound.
  pub execute_withdrawal-Conserves :
      (t : Terminal)
      → IsSound t.simulator
      → Conserves t.simulator (Withdrawn w t.simulator) (execute_withdrawal simulated_adapters w t)
  unfolding execute_withdrawal record_event
  execute_withdrawal-Conserves t sound =
      let s = t.simulator in
      returns_step s (Withdrawn w s) _ _ tt _ refl
        (returns_step s (Withdrawn w s) _ _ _ _ refl (authorize-Conserves _ s _ sound refl))

unless_zero_amount : (amount : ℤ) → get_or (pos 0) (unless_zero amount) ≡ amount
unless_zero_amount (pos n) =
    if_rule (λ (o : Option ℤ). get_or (pos 0) o ≡ pos n) (ltb 0 n) (some (pos n)) none (λ _. refl)
      (λ e. ap pos (ground arith))
unless_zero_amount (negsuc n) = refl

credit-Deposited :
    (d : CashDeposit) (s u : Simulator)
    → Taken d.expected_amount s u
    → IsSound u
    → IsSameBut s u
    → Deposited d s (credit d.account d.expected_amount u).1
unfolding credit balance
credit-Deposited d s u (whole, cash) sound same = record {
  whole = whole;
  cash = cash;
  account = ap (credited d) same.accounts;
  sound = with_accounts-IsSound u _ sound;
}

complete_deposit-Conserves :
    (d : CashDeposit) (s : Simulator) (currency_code : String) (cash : ℕ) (t : Terminal)
    → Deposited d s (credit d.account d.expected_amount t.simulator).1
    → Conserves s (Deposited d s) (complete_deposit d currency_code cash t)
unfolding complete_deposit
complete_deposit-Conserves d s currency_code cash t done =
    let b = (credit d.account d.expected_amount t.simulator).1 in
    late_step s (Deposited d s) _ _ b refl done (λ change u at.
      late_step s (Deposited d s) _ _ b at done (λ cash_after z at.
        completes s (Deposited d s) _ _ _ _ z (subst (Deposited d s) (sym at) done)))

after_acceptance-Conserves :
    (d : CashDeposit) (s : Simulator) (currency_code : String) (cash : ℕ) (r : AdapterResult)
    (u : Simulator) (t : Terminal)
    → IsSound u
    → IsSameBut s u
    → (((r.success ≡ false) × (u ≡ s)) ⊎ ((r.success ≡ true) × Taken d.expected_amount s u))
    → t.simulator ≡ u
    → Conserves s (Deposited d s) (after_acceptance d currency_code cash r t)
after_acceptance-Conserves d s currency_code cash r u t sound same (inl (refused, same_state)) at =
    if_rule (λ (e : Exec Terminal AdapterResult). Conserves s (Deposited d s) (e t)) r.success
      (complete_deposit d currency_code cash) _ (λ yes. cc)
      (λ _. fails s (Deposited d s) d.name _ r t (at ∙ same_state))
after_acceptance-Conserves d s currency_code cash r u t sound same (inr (succeeded, taken)) at =
    if_rule (λ (e : Exec Terminal AdapterResult). Conserves s (Deposited d s) (e t)) r.success
      (complete_deposit d currency_code cash) _
      (λ _. complete_deposit-Conserves d s currency_code cash t (
        subst (λ u. Deposited d s (credit d.account d.expected_amount u).1) (sym at)
          (credit-Deposited d s u taken sound same)))
      (λ no. cc)

-- With the simulated devices of a sound simulator, a deposit moves the same amount into the terminal's
-- cash and into the account, or, where its result is not ok, leaves the simulator as it was. Neither
-- move is made without the other, and the simulator that it leaves is sound.
pub execute_deposit-Conserves :
    (d : CashDeposit) (t : Terminal)
    → IsSound t.simulator
    → Conserves t.simulator (Deposited d t.simulator) (execute_deposit simulated_adapters d t)
unfolding execute_deposit create_adapter_operation_context
execute_deposit-Conserves d t sound =
    let s = t.simulator in
    let a = accept_answers s (unless_zero d.expected_amount) (currency_code_of t) sound in
    returns_step s (Deposited d s) _ _ (currency_code_of t) t refl (
      returns_step s (Deposited d s) _ _ s.terminal_cash t refl (
        returns_step s (Deposited d s) _ _ a.result _
          (call_adapter_settles cash_acceptor "accept"
            (simulated_adapters.accept (unless_zero d.expected_amount) (currency_code_of t))
            adapter_indeterminate_result d.name _ t a.result a.state (ap (outcome_of s) a.answers))
          (after_acceptance-Conserves d s (currency_code_of t) _ a.result a.state _ a.sound a.same
            (subst
              (λ amount.
                ((a.result.success ≡ false) × (a.state ≡ s))
                ⊎ ((a.result.success ≡ true) × Taken amount s a.state))
              (unless_zero_amount d.expected_amount) a.effect)
            refl)))
