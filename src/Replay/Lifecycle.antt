-- ===== src/Replay/Lifecycle.antt =====
-- `validateLifecycle` of packages/journal-replay/src/index.ts: which occurrence of a transaction an
-- event belongs to, and the host requests that wait for a result.
use cashblocks.Prelude.{
  ℕ, ◌+◌, ◌-◌, Bool, true, false, Option, none, some, List, String, ◌==◌, ltb, if◌then◌else◌,
}
use cashblocks.Prelude.Text.{lookup, insert, remove}
use cashblocks.Contracts.{EventType, host_authorization_requested, host_authorization_result}
use cashblocks.Replay.Types.{
  error, warning, TransactionStatus, started, TrackedTransaction, ReplayedSessionState,
  JournalRecord, ReplayContext, issue_for, transaction_status, payload_string, or_else,
}
use cashblocks.Replay.Log.{Log, add_if}

abbrev pub count_at : List (String × ℕ) → String → ℕ
count_at counts key = elim (lookup key counts) [ none ↦ 0 | some n ↦ n ]

abbrev pub is_present : Option ℕ → Bool
is_present none = false
is_present (some n) = true

abbrev pub is_requested : EventType → Bool
is_requested host_authorization_requested = true
is_requested _ = false

abbrev pub is_result : EventType → Bool
is_result host_authorization_result = true
is_result _ = false

-- The pending count of a transaction once a result has arrived.
unfoldable pub resolve : String → List (String × ℕ) → List (String × ℕ)
resolve transaction pending =
    let n = count_at pending transaction in
    if n == 0
    then pending
    else if n == 1
    then remove transaction pending
    else insert transaction (n - 1) pending

-- The first part: host requests and results.
unfoldable pub track_host : EventType → Option String → ReplayContext → ReplayContext
unfolding resolve
track_host type none context = context
track_host type (some transaction) context =
    let pending = context.pending_host_requests in
    if is_requested type
    then record context {
      pending_host_requests = insert transaction (count_at pending transaction + 1) pending;
    }
    else if is_result type
    then record context { pending_host_requests = resolve transaction pending }
    else context

abbrev pub is_unmatched : EventType → Option String → ReplayContext → Bool
is_unmatched type none context = false
is_unmatched type (some transaction) context =
    if is_result type then count_at context.pending_host_requests transaction == 0 else false

unfoldable pub check_host : JournalRecord → Option String → ReplayContext → Log → Log
check_host r transaction context =
    add_if (is_unmatched r.event.draft.type transaction context)
      (issue_for r error "HOST_RESULT_WITHOUT_REQUEST")

-- The second part, for an event with a status.
unfoldable pub track_start :
    JournalRecord → String → ReplayContext → Log → TrackedTransaction × (ReplayContext × Log)
track_start r transaction context log =
    let occurrence = count_at context.occurrence_counts transaction + 1 in
    (
      record { transaction = transaction; occurrence = occurrence; status = started },
      (
        record context {
          occurrence_counts = insert transaction occurrence context.occurrence_counts;
          active_transactions = insert transaction occurrence context.active_transactions;
        },
        add_if (is_present (lookup transaction context.active_transactions))
            (issue_for r error "OVERLAPPING_TRANSACTION") log,
      ),
    )

unfoldable pub track_outcome :
    JournalRecord
    → String
    → TransactionStatus
    → ReplayContext
    → Log
    → TrackedTransaction × (ReplayContext × Log)
track_outcome r transaction status context log =
    let prior = count_at context.occurrence_counts transaction in
    elim (lookup transaction context.active_transactions) [
      | some occurrence ↦ (
        record { transaction = transaction; occurrence = occurrence; status = status },
        (
          record context { active_transactions = remove transaction context.active_transactions },
          log,
        ),
      )
      | none ↦ (
        record { transaction = transaction; occurrence = prior + 1; status = status },
        (
          record context {
            occurrence_counts = insert transaction (prior + 1) context.occurrence_counts;
          },
          add_if (ltb 0 prior) (issue_for r warning "AMBIGUOUS_REPEATED_OUTCOME") log,
        ),
      )
    ]

abbrev pub or_unknown : Option String → String
or_unknown none = "<unknown>"
or_unknown (some transaction) = transaction

abbrev pub track :
    JournalRecord
    → String
    → TransactionStatus
    → ReplayContext
    → Log
    → TrackedTransaction × (ReplayContext × Log)
track r transaction started context log = track_start r transaction context log
track r transaction status context log = track_outcome r transaction status context log

abbrev pub track_if :
    Option TransactionStatus
    → JournalRecord
    → String
    → ReplayContext
    → Log
    → Option TrackedTransaction × (ReplayContext × Log)
track_if none r transaction context log = (none, (context, log))
track_if (some status) r transaction context log =
    let tracked = track r transaction status context log in (some tracked.0, tracked.1)

unfoldable pub validate_lifecycle :
    JournalRecord
    → ReplayedSessionState
    → ReplayContext
    → Log
    → Option TrackedTransaction × (ReplayContext × Log)
validate_lifecycle r state context log =
    let named = payload_string r.event.draft.payload "transaction" in
    track_if (transaction_status r.event.draft.type) r
      (or_unknown (or_else named state.selected_transaction))
      (track_host r.event.draft.type named context) (check_host r named context log)
