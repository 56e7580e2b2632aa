-- ===== src/AtmModules/Transfers.antt =====
-- Transfers between the cash and the accounts by packages/atm-modules/src/index.ts, and what each step of
-- a module does to one.
use cashblocks.Prelude.{
  if_rule, ◌∷◌, ◌+◌, ◌≡◌, refl, sym, ap, subst, true, false, List, some, String, inl, inr, ◌⊎◌,
}
use cashblocks.Prelude.Int.{ℤ, pos}
use cashblocks.Prelude.Exec.{Exec, proceed, return}
use cashblocks.Prelude.Result.{Result, ok, err}
use cashblocks.Contracts.{EventType, transaction_completed, text, AdapterResult, Payload}
use cashblocks.Profile.{magnitude}
use cashblocks.Simulator.{Simulator, debit, balance}
use cashblocks.Simulator.Held.{IsSound, IsSameBut}
use cashblocks.Devices.Laws.{Paid}
use cashblocks.Validation.{AdapterKind}
use cashblocks.Runtime.{emit, HandlerRegistry}
use cashblocks.Terminal.{Terminal, AdapterOperationContext, record_event, result}
use cashblocks.AtmModules.Calls.{
  settled, Operation, call_adapter, finish_call, journal_receipt_failure,
}
use cashblocks.AtmModules.Rules.{context_of}
use cashblocks.AtmModules.Withdrawal.{
  CashWithdrawal, fail_transaction, log_event, journal_unless_ok,
}
use cashblocks.AtmModules.Deposit.{CashDeposit}
use cashblocks.AtmModules.Money.{debited, credited}

-- A transaction from `s` that did what `Did` says, or failed and changed nothing; where it threw, it did
-- so behind what it did.
unfoldable pub Conserves :
    Simulator → (Simulator → Type 0) → Result String AdapterResult × Terminal → Type 0
Conserves s Did (ok r, t) =
    ((r.success ≡ true) × Did t.simulator) ⊎ ((r.success ≡ false) × (t.simulator ≡ s))
Conserves s Did (err m, t) = Did t.simulator

-- The amount left the terminal and the account.
pub record Withdrawn (w : CashWithdrawal) (s t : Simulator) : Type 0 where
  pub whole : w.amount ≡ pos (magnitude w.amount)
  pub cash : t.terminal_cash + magnitude w.amount ≡ s.terminal_cash
  pub account : t.accounts ≡ debited w s.accounts
  pub sound : IsSound t

-- The amount came to the terminal and to the account.
pub record Deposited (d : CashDeposit) (s t : Simulator) : Type 0 where
  pub whole : d.expected_amount ≡ pos (magnitude d.expected_amount)
  pub cash : t.terminal_cash ≡ s.terminal_cash + magnitude d.expected_amount
  pub account : t.accounts ≡ credited d s.accounts
  pub sound : IsSound t

-- Handlers that do not touch the simulator.
abbrev pub HandlersKeepSimulator : HandlerRegistry Terminal → Type 0
HandlersKeepSimulator handlers =
    (t : Terminal) → (emit "OnEndReceiptOption" handlers t).1.simulator ≡ t.simulator

pub with_accounts-IsSound :
    (s : Simulator) (accounts : List (String × ℤ))
    → IsSound s
    → IsSound (record s { accounts = accounts })
with_accounts-IsSound s accounts h = record { valid = h.valid; safe = h.safe; held = h.held }

module _ (s : Simulator) (Did : Simulator → Type 0) where
  -- A step that returns.
  pub returns_step :
      {A : Type 0} (p : Result String A × Terminal) (rest : A → Exec Terminal AdapterResult) (a : A)
      (t : Terminal)
      → p ≡ (ok a, t)
      → Conserves s Did (rest a t)
      → Conserves s Did (proceed p rest)
  unfolding proceed
  returns_step p rest a t returns next =
      subst (λ q. Conserves s Did (proceed q rest)) (sym returns) next

  -- A step behind what the transaction did, which may throw.
  pub late_step :
      {A : Type 0} (p : Result String A × Terminal) (rest : A → Exec Terminal AdapterResult)
      (b : Simulator)
      → p.1.simulator ≡ b
      → Did b
      → ((a : A) (t : Terminal) → t.simulator ≡ b → Conserves s Did (rest a t))
      → Conserves s Did (proceed p rest)
  unfolding proceed Conserves
  late_step (err m, t) rest b at did next = rw at did
  late_step (ok a, t) rest b at did next = next a t at

  pub fails :
      (name : String) (type : EventType) (r : AdapterResult) (t : Terminal)
      → t.simulator ≡ s
      → Conserves s Did (fail_transaction name type r t)
  unfolding fail_transaction proceed Conserves record_event
  fails name type r t at = inr (refl, at)

  pub completes :
      (payload : Payload) (code message : String) (details : Payload) (t : Terminal)
      → Did t.simulator
      → Conserves s Did (
          proceed
            (log_event transaction_completed payload t)
            (λ _. return (result true code message (some details))))
  unfolding proceed Conserves record_event
  completes payload code message details t did = inl (refl, did)

-- A call that settles.
pub call_adapter_settles :
    {A : Type 0} (slot : AdapterKind) (operation : String) (call : Operation A)
    (on_timeout : AdapterOperationContext → A) (transaction : String) (metadata : Payload)
    (t : Terminal) (a : A) (s : Simulator)
    → call
        (context_of slot operation transaction t).0
        (context_of slot operation transaction t).1.simulator
      ≡ (settled a, s)
    → call_adapter slot operation call on_timeout transaction metadata t
      ≡ (ok a, record (context_of slot operation transaction t).1 { simulator = s })
unfolding call_adapter
call_adapter_settles slot operation call on_timeout transaction metadata t a s e =
    ap
      (λ o.
        finish_call slot (context_of slot operation transaction t).0 on_timeout
          (("transaction", text transaction) ∷ metadata) o
          (context_of slot operation transaction t).1)
      e

pub unless_ok_simulator :
    (name : String) (r : AdapterResult) (t : Terminal)
    → (journal_unless_ok name r t).simulator ≡ t.simulator
unfolding journal_receipt_failure record_event
unless_ok_simulator name r t =
    if_rule (λ (u : Terminal). u.simulator ≡ t.simulator) r.success t _ (λ _. refl) (λ _. refl)

pub debit-Withdrawn :
    (w : CashWithdrawal) (s u : Simulator)
    → Paid w.amount s u
    → IsSound u
    → IsSameBut s u
    → Withdrawn w s (debit w.account w.amount u).1
unfolding debit balance
debit-Withdrawn w s u (whole, cash) sound same = record {
  whole = whole;
  cash = cash;
  account = ap (debited w) same.accounts;
  sound = with_accounts-IsSound u _ sound;
}
