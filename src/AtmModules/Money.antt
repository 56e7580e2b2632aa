-- ===== src/AtmModules/Money.antt =====
-- What the modules of packages/atm-modules/src/index.ts do to the accounts, whatever the adapters do.
use cashblocks.Prelude.{
  if_rule, ℕ, ◌≡◌, refl, ◌∙◌, ap, true, List, Option, some, String, if◌then◌else◌, inl, inr, ◌⊎◌,
}
use cashblocks.Prelude.Int.{ℤ, ◌-ℤ◌, ◌+ℤ◌}
use cashblocks.Prelude.Text.{lookup, insert}
use cashblocks.Prelude.Exec.{Exec, proceed, return}
use cashblocks.Prelude.Result.{Result, ok, err}
use cashblocks.Contracts.{
  EventType, transaction_completed, Payload, AdapterResult, HostAuthorizationRequest,
}
use cashblocks.Simulator.{Simulator, or_zero, balance, debit, credit}
use cashblocks.Validation.{host_authorization, cash_dispenser, cash_acceptor}
use cashblocks.Runtime.{emit, HandlerRegistry}
use cashblocks.Terminal.{Terminal, AdapterOperationContext, record_event, result}
use cashblocks.AtmModules.Calls.{
  Adapters, Operation, journal_receipt_failure, adapter_indeterminate_result,
  adapter_timeout_result,
}
use cashblocks.AtmModules.Rules.{handlers_state, call_adapter-CallsFrom, print_receipt-CallsFrom}
use cashblocks.AtmModules.Withdrawal.{
  CashWithdrawal, fail_transaction, complete_withdrawal, after_dispense, dispense_cash,
  execute_withdrawal, authorization_request, journal_unless_ok, log_event,
}
use cashblocks.AtmModules.Deposit.{CashDeposit, complete_deposit, execute_deposit, unless_zero}

abbrev pub Accounts : Type 0
Accounts = List (String × ℤ)

abbrev pub accounts_of : Terminal → Accounts
accounts_of t = t.simulator.accounts

-- Operations that do not write the accounts, which belong to the modules.
abbrev pub KeepsAccounts : {A : Type 0} → Operation A → Type 0
KeepsAccounts operation =
    (context : AdapterOperationContext) (s : Simulator)
    → (operation context s).1.accounts ≡ s.accounts

abbrev pub HandlersKeepAccounts : HandlerRegistry Terminal → Type 0
HandlersKeepAccounts handlers =
    (t : Terminal) → accounts_of (emit "OnEndReceiptOption" handlers t).1 ≡ accounts_of t

-- The account moved by the amount if the transaction succeeded, and did not move if it failed. Where it
-- threw, the account moved once or not at all.
unfoldable pub Settles : Accounts → Accounts → Result String AdapterResult × Terminal → Type 0
Settles before after (ok r, t) = accounts_of t ≡ (if r.success then after else before)
Settles before after (err m, t) = (accounts_of t ≡ before) ⊎ (accounts_of t ≡ after)

abbrev pub debited : CashWithdrawal → Accounts → Accounts
debited w b = insert w.account (or_zero (lookup w.account b) -ℤ w.amount) b

abbrev pub credited : CashDeposit → Accounts → Accounts
credited d b = insert d.account (or_zero (lookup d.account b) +ℤ d.expected_amount) b

-- A step that leaves the accounts as they were before the transaction, or as they are after it.
settle_step :
    {A : Type 0} {before after b : Accounts} (p : Result String A × Terminal)
    (rest : A → Exec Terminal AdapterResult)
    → accounts_of p.1 ≡ b
    → ((b ≡ before) ⊎ (b ≡ after))
    → ((a : A) (t : Terminal) → accounts_of t ≡ b → Settles before after (rest a t))
    → Settles before after (proceed p rest)
unfolding proceed Settles
settle_step (err m, t) rest at (inl e) next = inl (at ∙ e)
settle_step (err m, t) rest at (inr e) next = inr (at ∙ e)
settle_step (ok a, t) rest at place next = next a t at

unless_ok_keeps :
    (name : String) (r : AdapterResult) (t : Terminal)
    → accounts_of (journal_unless_ok name r t) ≡ accounts_of t
unfolding journal_receipt_failure record_event
unless_ok_keeps name r t =
    if_rule (λ (u : Terminal). accounts_of u ≡ accounts_of t) r.success t _ (λ _. refl) (λ _. refl)

fail-Settles :
    (before after : Accounts) (name : String) (type : EventType) (r : AdapterResult) (t : Terminal)
    → accounts_of t ≡ before
    → Settles before after (fail_transaction name type r t)
unfolding fail_transaction proceed Settles record_event
fail-Settles before after name type r t at = at

-- The end of a transaction that completed.
completed-Settles :
    (before after : Accounts) (payload : Payload) (code message : String) (details : Payload)
    (t : Terminal)
    → accounts_of t ≡ after
    → Settles before after (
        proceed
          (log_event transaction_completed payload t)
          (λ _. return (result true code message (some details))))
unfolding proceed Settles record_event
completed-Settles before after payload code message details t at = at

module _ (adapters : Adapters) (w : CashWithdrawal)
    (authorizer : (request : HostAuthorizationRequest) → KeepsAccounts (adapters.authorize request))
    (dispenser : (amount : ℤ) (currency_code : String)
      → KeepsAccounts (adapters.dispense amount currency_code))
    (printer : (lines : List String) → KeepsAccounts (adapters.print_receipt lines))
    (handlers : HandlersKeepAccounts w.handlers) where
  complete-Settles :
      (currency_code : String) (cash : ℕ) (t : Terminal) (before : Accounts)
      → accounts_of t ≡ before
      → Settles before (debited w before) (complete_withdrawal adapters w currency_code cash t)
  unfolding complete_withdrawal debit balance
  complete-Settles currency_code cash t before start =
      settle_step _ _ (ap (debited w) start) (inr refl) (λ change paid at.
        settle_step _ _
          (ap accounts_of (handlers_state (emit "OnEndReceiptOption" w.handlers paid))
            ∙ handlers paid
            ∙ at)
          (inr refl)
          (λ a u at.
            settle_step _ _
              (ap (λ (s : Simulator). s.accounts)
                  (print_receipt-CallsFrom adapters w.name _ u).simulator
                ∙ printer _ _ _
                ∙ at)
              (inr refl)
              (λ receipt v at.
                settle_step _ _ (unless_ok_keeps w.name receipt v ∙ at) (inr refl) (λ _ x at.
                  settle_step _ _ at (inr refl) (λ cash_after y at.
                    completed-Settles before (debited w before) _ _ _ _ y at)))))

  after_dispense-Settles :
      (currency_code : String) (cash : ℕ) (r : AdapterResult) (t : Terminal) (before : Accounts)
      → accounts_of t ≡ before
      → Settles before (debited w before) (after_dispense adapters w currency_code cash r t)
  after_dispense-Settles currency_code cash r t before at =
      if_rule (λ (e : Exec Terminal AdapterResult). Settles before (debited w before) (e t))
        r.success (complete_withdrawal adapters w currency_code cash) _
        (λ _. complete-Settles currency_code cash t before at)
        (λ _. fail-Settles before (debited w before) w.name _ r t at)

  dispense-Settles :
      (currency_code : String) (t : Terminal) (before : Accounts)
      → accounts_of t ≡ before
      → Settles before (debited w before) (dispense_cash adapters w currency_code t)
  unfolding dispense_cash
  dispense-Settles currency_code t before at = settle_step _ _ at (inl refl) (λ cash u at.
      settle_step _ _
        (ap (λ (s : Simulator). s.accounts)
            (call_adapter-CallsFrom cash_dispenser "dispense"
              (adapters.dispense w.amount currency_code) adapter_indeterminate_result w.name _
              u).simulator
          ∙ dispenser _ _ _ _
          ∙ at)
        (inl refl) (λ r v at. after_dispense-Settles currency_code cash r v before at))

  -- Whatever the adapters and the handlers do, as long as they leave the accounts alone, a withdrawal
  -- whose result is ok has debited its account by its amount exactly once, one whose result is not ok
  -- has left the accounts as they were, and one that throws has debited once or not at all.
  pub execute_withdrawal-Settles :
      (t : Terminal)
      → Settles (accounts_of t) (debited w (accounts_of t)) (execute_withdrawal adapters w t)
  unfolding execute_withdrawal record_event
  execute_withdrawal-Settles t = settle_step _ _ refl (inl refl) (λ _ u at.
      settle_step _ _ at (inl refl) (λ currency_code v at.
        settle_step _ _
          (ap (λ (s : Simulator). s.accounts)
              (call_adapter-CallsFrom host_authorization "authorize"
                (adapters.authorize (authorization_request w currency_code)) adapter_timeout_result
                w.name _ v).simulator
            ∙ authorizer _ _ _
            ∙ at)
          (inl refl)
          (λ r x at. settle_step _ _ at (inl refl) (λ _ y at.
            if_rule
              (λ (e : Exec Terminal AdapterResult).
                Settles (accounts_of t) (debited w (accounts_of t)) (e y))
              r.success (dispense_cash adapters w currency_code) _
              (λ _. dispense-Settles currency_code y (accounts_of t) at)
              (λ _. fail-Settles (accounts_of t) (debited w (accounts_of t)) w.name _ r y at)))))

module _ (adapters : Adapters) (d : CashDeposit)
    (acceptor : (amount : Option ℤ) (currency_code : String)
      → KeepsAccounts (adapters.accept amount currency_code)) where
  complete_deposit-Settles :
      (currency_code : String) (cash : ℕ) (t : Terminal) (before : Accounts)
      → accounts_of t ≡ before
      → Settles before (credited d before) (complete_deposit d currency_code cash t)
  unfolding complete_deposit credit balance
  complete_deposit-Settles currency_code cash t before start =
      settle_step _ _ (ap (credited d) start) (inr refl) (λ change u at.
        settle_step _ _ at (inr refl)
          (λ cash_after v at. completed-Settles before (credited d before) _ _ _ _ v at))

  -- Whatever the acceptor does, as long as it leaves the accounts alone, a deposit whose result is ok
  -- has credited its account by its amount exactly once, one whose result is not ok has left the
  -- accounts as they were, and one that throws has credited once or not at all.
  pub execute_deposit-Settles :
      (t : Terminal)
      → Settles (accounts_of t) (credited d (accounts_of t)) (execute_deposit adapters d t)
  unfolding execute_deposit
  execute_deposit-Settles t = settle_step _ _ refl (inl refl) (λ currency_code u at.
      settle_step _ _ at (inl refl) (λ cash v at.
        settle_step _ _
          (ap (λ (s : Simulator). s.accounts)
              (call_adapter-CallsFrom cash_acceptor "accept"
                (adapters.accept (unless_zero d.expected_amount) currency_code)
                adapter_indeterminate_result d.name _ v).simulator
            ∙ acceptor _ _ _ _
            ∙ at)
          (inl refl)
          (λ r x at.
            if_rule
              (λ (e : Exec Terminal AdapterResult).
                Settles (accounts_of t) (credited d (accounts_of t)) (e x))
              r.success (complete_deposit d currency_code cash) _
              (λ _. complete_deposit-Settles currency_code cash x (accounts_of t) at)
              (λ _. fail-Settles (accounts_of t) (credited d (accounts_of t)) d.name _ r x at))))
