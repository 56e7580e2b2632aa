-- ===== src/AtmModules/Statuses.antt =====
-- The statuses that the modules of packages/atm-modules/src/index.ts bring to a journal, and what each of
-- their steps does to them.
use cashblocks.Prelude.{
  if_rule, str_eq, ◌≡◌, refl, sym, ◌∙◌, ap, Bool, true, false, List, [], ◌∷◌, ◌++◌, Option, none,
  some, String, append-nil, append_assoc, inl, inr, ◌⊎◌,
}
use cashblocks.Prelude.Exec.{Exec, proceed, return, recover}
use cashblocks.Prelude.Result.{Result, ok, err}
use cashblocks.Contracts.{
  EventType, Source, transaction_completed, transaction_failed, transaction_reconciliation_required,
  Payload, AdapterResult, RuntimeEvent, device_status_changed, from_module,
}
use cashblocks.Simulator.{Simulator}
use cashblocks.Validation.{AdapterKind}
use cashblocks.Runtime.{emit, HandlerRegistry, append_event}
use cashblocks.Replay.Types.{
  TransactionStatus, completed, failed, reconciliation_required, transaction_status,
}
use cashblocks.Terminal.{
  Terminal, AdapterOperationContext, create_adapter_operation_context, record_event, result,
}
use cashblocks.AtmModules.Calls.{
  Adapters, Operation, Outcome, settled, rejected, timed_out, finish_call, call_adapter,
  print_receipt, journal_receipt_failure, receipt_error,
}
use cashblocks.AtmModules.Rules.{context_of, call_adapter-CallsFrom}
use cashblocks.AtmModules.Withdrawal.{fail_transaction, journal_unless_ok, log_event, outcome_event}

abbrev pub listed : Option TransactionStatus → List TransactionStatus
listed none = []
listed (some status) = status ∷ []

-- The statuses of transactions that a journal's events bring, in order.
abbrev pub statuses : List RuntimeEvent → List TransactionStatus
statuses [] = []
statuses (e ∷ es) = listed (transaction_status e.type) ++ statuses es

abbrev pub statuses_of : Terminal → List TransactionStatus
statuses_of t = statuses t.journal.events

-- A status that agrees with the result.
abbrev pub Agrees : Bool → TransactionStatus → Type 0
Agrees true status = status ≡ completed
Agrees false status = (status ≡ failed) ⊎ (status ≡ reconciliation_required)

-- The transaction returned, and has brought one status more, which agrees with its result.
unfoldable pub Ends : List TransactionStatus → Result String AdapterResult × Terminal → Type 0
Ends before (ok r, t) =
    (status : TransactionStatus) × (statuses_of t ≡ before ++ (status ∷ []))
    × Agrees r.success status
Ends before (err m, t) = ⊥

abbrev pub Returned : {A : Type 0} → Result String A → Type 0
Returned (ok a) = Unit
Returned (err m) = ⊥

-- An operation that settles or is timed out, and throws nothing.
abbrev pub Answers : {A : Type 0} → Operation A → Type 0
Answers operation =
    (context : AdapterOperationContext) (s : Simulator) (message : String)
    → ¬ ((operation context s).0 ≡ rejected message)

-- Handlers of the event behind a withdrawal that return, and record nothing about a transaction.
abbrev pub HandlersReturn : HandlerRegistry Terminal → Type 0
HandlersReturn handlers =
    (t : Terminal)
    → Returned (emit "OnEndReceiptOption" handlers t).0
      × (statuses_of (emit "OnEndReceiptOption" handlers t).1 ≡ statuses_of t)

pub statuses-append :
    (es : List RuntimeEvent) (e : RuntimeEvent)
    → statuses (es ++ (e ∷ [])) ≡ statuses es ++ listed (transaction_status e.type)
statuses-append [] e = append-nil (listed (transaction_status e.type))
statuses-append (f ∷ es) e =
    ap (listed (transaction_status f.type) ++◌) (statuses-append es e)
    ∙ sym (
        append_assoc (listed (transaction_status f.type)) (statuses es)
          (listed (transaction_status e.type)))

pub statuses-record_event :
    (type : EventType) (source : Source) (payload : Option Payload) (t : Terminal)
    → statuses_of (record_event type source payload t)
      ≡ statuses_of t ++ listed (transaction_status type)
unfolding record_event append_event
statuses-record_event type source payload t = statuses-append t.journal.events _

pub step :
    {A : Type 0} {before : List TransactionStatus} (p : Result String A × Terminal)
    (rest : A → Exec Terminal AdapterResult)
    → Returned p.0
    → statuses_of p.1 ≡ before
    → ((a : A) (t : Terminal) → statuses_of t ≡ before → Ends before (rest a t))
    → Ends before (proceed p rest)
unfolding proceed
step (err m, t) rest returned at next = elim returned [ ]
step (ok a, t) rest returned at next = next a t at

pub handlers_end :
    {A : Type 0} (p : Result String A × Terminal)
    → Returned p.0
    → Returned (proceed p (λ a t. (ok tt, t))).0
unfolding proceed
handlers_end (ok a, t) returned = tt
handlers_end (err m, t) returned = returned

pub finish_call-Returned :
    {A : Type 0} (slot : AdapterKind) (context : AdapterOperationContext)
    (on_timeout : AdapterOperationContext → A) (metadata : Payload) (o : Outcome A × Simulator)
    (t : Terminal)
    → ((message : String) → ¬ (o.0 ≡ rejected message))
    → Returned (finish_call slot context on_timeout metadata o t).0
finish_call-Returned slot context on_timeout metadata (settled a, s) t answers = tt
finish_call-Returned slot context on_timeout metadata (rejected m, s) t answers =
    absurd (answers m refl)
finish_call-Returned slot context on_timeout metadata (timed_out, s) t answers = tt

pub call_adapter-Returned :
    {A : Type 0} (slot : AdapterKind) (operation : String) (call : Operation A)
    (on_timeout : AdapterOperationContext → A) (transaction : String) (metadata : Payload)
    (t : Terminal)
    → Answers call
    → Returned (call_adapter slot operation call on_timeout transaction metadata t).0
unfolding call_adapter create_adapter_operation_context
call_adapter-Returned slot operation call on_timeout transaction metadata t answers =
    finish_call-Returned slot (context_of slot operation transaction t).0 on_timeout _ _
      (context_of slot operation transaction t).1 (answers _ _)

pub call_adapter_keeps :
    {A : Type 0} (slot : AdapterKind) (operation : String) (call : Operation A)
    (on_timeout : AdapterOperationContext → A) (transaction : String) (metadata : Payload)
    (t : Terminal)
    → statuses_of (call_adapter slot operation call on_timeout transaction metadata t).1
      ≡ statuses_of t
call_adapter_keeps slot operation call on_timeout transaction metadata t =
    ap (λ j. statuses j.events)
      (call_adapter-CallsFrom slot operation call on_timeout transaction metadata t).journal

pub recover-Returned :
    (p : Result String AdapterResult × Terminal) → Returned (recover p receipt_error).0
recover-Returned (ok a, t) = tt
recover-Returned (err m, t) = tt

pub print_receipt-Returned :
    (adapters : Adapters) (transaction : String) (lines : List String) (t : Terminal)
    → Returned (print_receipt adapters transaction lines t).0
unfolding print_receipt
print_receipt-Returned adapters transaction lines t = recover-Returned _

-- A step that records an event which tells nothing about how a transaction ended.
pub quiet_event :
    (type : EventType) (payload : Option Payload) (t : Terminal) {before : List TransactionStatus}
    → transaction_status type ≡ none
    → statuses_of t ≡ before
    → statuses_of (record_event type from_module payload t) ≡ before
quiet_event type payload t quiet at =
    statuses-record_event type from_module payload t
    ∙ ap (λ status. statuses_of t ++ listed status) quiet
    ∙ append-nil (statuses_of t)
    ∙ at

-- The event that tells how the transaction ended.
pub final_event :
    (type : EventType) (payload : Option Payload) (t : Terminal) (status : TransactionStatus)
    {before : List TransactionStatus}
    → transaction_status type ≡ some status
    → statuses_of t ≡ before
    → statuses_of (record_event type from_module payload t) ≡ before ++ (status ∷ [])
final_event type payload t status told at =
    statuses-record_event type from_module payload t
    ∙ ap (λ status. statuses_of t ++ listed status) told
    ∙ ap (◌++ (status ∷ [])) at

pub unless_ok_quiet :
    (name : String) (r : AdapterResult) (t : Terminal) {before : List TransactionStatus}
    → statuses_of t ≡ before
    → statuses_of (journal_unless_ok name r t) ≡ before
unfolding journal_receipt_failure transaction_status
unless_ok_quiet name r t {before} at =
    if_rule (λ (u : Terminal). statuses_of u ≡ before) r.success t _ (λ _. at)
      (λ _. quiet_event device_status_changed _ t refl at)

-- Which outcome is recorded for a result that is not ok.
pub outcome_event_status :
    (code : String)
    → ((status : TransactionStatus) × (transaction_status (outcome_event code) ≡ some status)
        × Agrees false status)
unfolding transaction_status
outcome_event_status code =
    if_rule
      (λ (type : EventType).
        (status : TransactionStatus) × (transaction_status type ≡ some status)
        × Agrees false status)
      (str_eq code "ADAPTER_OUTCOME_UNKNOWN") transaction_reconciliation_required transaction_failed
      (λ _. (reconciliation_required, refl, inr refl)) (λ _. (failed, refl, inl refl))

pub fail-Ends :
    (name : String) (type : EventType) (r : AdapterResult) (t : Terminal)
    {before : List TransactionStatus}
    → ((status : TransactionStatus) × (transaction_status type ≡ some status) × Agrees false status)
    → statuses_of t ≡ before
    → Ends before (fail_transaction name type r t)
unfolding fail_transaction proceed Ends
fail-Ends name type r t (status, told, agrees) at =
    (status, final_event type _ t status told at, agrees)

pub completed-Ends :
    (payload : Payload) (code message : String) (details : Payload) (t : Terminal)
    {before : List TransactionStatus}
    → statuses_of t ≡ before
    → Ends before (
        proceed
          (log_event transaction_completed payload t)
          (λ _. return (result true code message (some details))))
unfolding proceed Ends transaction_status
completed-Ends payload code message details t at =
    (completed, final_event transaction_completed _ t completed refl at, refl)
