-- ===== src/AtmModules/Outcomes.antt =====
-- What the modules of packages/atm-modules/src/index.ts leave in the journal about how a transaction
-- ended, read the way packages/journal-replay reads it.
use cashblocks.Prelude.{if_rule, ℕ, ◌≡◌, refl, ◌∙◌, ap, List, Option, String, inl}
use cashblocks.Prelude.Int.{ℤ}
use cashblocks.Prelude.Exec.{Exec}
use cashblocks.Contracts.{
  transaction_failed, AdapterResult, HostAuthorizationRequest, host_authorization_requested,
  host_authorization_result,
}
use cashblocks.Simulator.{debit, credit}
use cashblocks.Validation.{host_authorization, cash_dispenser, cash_acceptor}
use cashblocks.Runtime.{emit}
use cashblocks.Replay.Types.{TransactionStatus, failed, transaction_status}
use cashblocks.Terminal.{Terminal}
use cashblocks.AtmModules.Calls.{Adapters, adapter_indeterminate_result, adapter_timeout_result}
use cashblocks.AtmModules.Rules.{handlers_state, print_receipt-CallsFrom}
use cashblocks.AtmModules.Withdrawal.{
  CashWithdrawal, complete_withdrawal, dispense_cash, execute_withdrawal, authorization_request,
}
use cashblocks.AtmModules.Deposit.{CashDeposit, complete_deposit, execute_deposit, unless_zero}
use cashblocks.AtmModules.Statuses.{
  statuses, statuses_of, Ends, Answers, HandlersReturn, step, handlers_end, call_adapter-Returned,
  call_adapter_keeps, print_receipt-Returned, quiet_event, unless_ok_quiet, outcome_event_status,
  fail-Ends, completed-Ends,
}

module _ (adapters : Adapters) (w : CashWithdrawal)
    (authorizer : (request : HostAuthorizationRequest) → Answers (adapters.authorize request))
    (dispenser : (amount : ℤ) (currency_code : String)
      → Answers (adapters.dispense amount currency_code))
    (handlers : HandlersReturn w.handlers) where
  complete-Ends :
      (currency_code : String) (cash : ℕ) (t : Terminal) {before : List TransactionStatus}
      → statuses_of t ≡ before
      → Ends before (complete_withdrawal adapters w currency_code cash t)
  unfolding complete_withdrawal debit
  complete-Ends currency_code cash t at = step _ _ tt at (λ change u at.
      step _ _ (handlers_end (emit "OnEndReceiptOption" w.handlers u) (handlers u).0)
        (ap statuses_of (handlers_state (emit "OnEndReceiptOption" w.handlers u))
          ∙ (handlers u).1
          ∙ at)
        (λ a v at.
          step _ _ (print_receipt-Returned adapters w.name _ v)
            (ap (λ j. statuses j.events) (print_receipt-CallsFrom adapters w.name _ v).journal ∙ at)
            (λ receipt x at.
              step _ _ tt (unless_ok_quiet w.name receipt x at)
                (λ _ y at. step _ _ tt at (λ cash_after z at. completed-Ends _ _ _ _ z at)))))

  dispense-Ends :
      (currency_code : String) (t : Terminal) {before : List TransactionStatus}
      → statuses_of t ≡ before
      → Ends before (dispense_cash adapters w currency_code t)
  unfolding dispense_cash
  dispense-Ends currency_code t {before} at = step _ _ tt at (λ cash u at.
      step _ _
        (call_adapter-Returned cash_dispenser "dispense" (adapters.dispense w.amount currency_code)
          adapter_indeterminate_result w.name _ u (dispenser _ _))
        (call_adapter_keeps cash_dispenser "dispense" (adapters.dispense w.amount currency_code)
            adapter_indeterminate_result w.name _ u
          ∙ at)
        (λ r v at.
          if_rule (λ (e : Exec Terminal AdapterResult). Ends before (e v)) r.success
            (complete_withdrawal adapters w currency_code cash) _
            (λ _. complete-Ends currency_code cash v at)
            (λ _. fail-Ends w.name _ r v (outcome_event_status r.code) at)))

  -- With a host and a dispenser that answer or are timed out, and handlers that return and record
  -- nothing about a transaction, a withdrawal always returns, whatever the receipt printer does, and it
  -- has recorded exactly one outcome: completed if its result is ok, else failed or for reconciliation.
  pub execute_withdrawal-Ends :
      (t : Terminal) → Ends (statuses_of t) (execute_withdrawal adapters w t)
  unfolding execute_withdrawal transaction_status
  execute_withdrawal-Ends t =
      step _ _ tt (quiet_event host_authorization_requested _ t refl refl) (λ _ u at.
        step _ _ tt at (λ currency_code v at.
          step _ _
            (call_adapter-Returned host_authorization "authorize"
              (adapters.authorize (authorization_request w currency_code)) adapter_timeout_result
              w.name _ v (authorizer _))
            (call_adapter_keeps host_authorization "authorize"
                (adapters.authorize (authorization_request w currency_code)) adapter_timeout_result
                w.name _ v
              ∙ at)
            (λ r x at. step _ _ tt (quiet_event host_authorization_result _ x refl at) (λ _ y at.
              if_rule (λ (e : Exec Terminal AdapterResult). Ends (statuses_of t) (e y)) r.success
                (dispense_cash adapters w currency_code) _ (λ _. dispense-Ends currency_code y at)
                (λ _. fail-Ends w.name transaction_failed r y (failed, refl, inl refl) at)))))

-- With an acceptor that answers or is timed out, a deposit always returns, and it has recorded exactly
-- one outcome: completed if its result is ok, else failed or for reconciliation.
pub execute_deposit-Ends :
    (adapters : Adapters) (d : CashDeposit)
    (acceptor : (amount : Option ℤ) (currency_code : String)
      → Answers (adapters.accept amount currency_code))
    (t : Terminal)
    → Ends (statuses_of t) (execute_deposit adapters d t)
unfolding execute_deposit complete_deposit credit
execute_deposit-Ends adapters d acceptor t = step _ _ tt refl (λ currency_code u at.
    step _ _ tt at (λ cash v at.
      step _ _
        (call_adapter-Returned cash_acceptor "accept"
          (adapters.accept (unless_zero d.expected_amount) currency_code)
          adapter_indeterminate_result d.name _ v (acceptor _ _))
        (call_adapter_keeps cash_acceptor "accept"
            (adapters.accept (unless_zero d.expected_amount) currency_code)
            adapter_indeterminate_result d.name _ v
          ∙ at)
        (λ r x at.
          if_rule (λ (e : Exec Terminal AdapterResult). Ends (statuses_of t) (e x)) r.success
            (complete_deposit d currency_code cash) _
            (λ _.
              step _ _ tt at
                (λ change y at. step _ _ tt at (λ cash_after z at. completed-Ends _ _ _ _ z at)))
            (λ _. fail-Ends d.name _ r x (outcome_event_status r.code) at))))
