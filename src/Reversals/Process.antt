-- ===== src/Reversals/Process.antt =====
-- `pending`, `beginAttempt`, `markFailed`, `markCompleted` and ReversalProcessor of
-- packages/host-iso8583/src/reversal-store.ts, where a call of `process` has no signal that aborts it.
-- The options of the processor, the transport and the clock are arguments, and so are the order of
-- localeCompare and the texts of a store's errors.
use cashblocks.Prelude.{
  ℕ, suc, ◌+◌, ◌*◌, Bool, true, false, not, List, [], ◌∷◌, String, ◌||◌, leb, filter, length, take,
}
use cashblocks.Prelude.Text.{codes}
use cashblocks.Prelude.Sort.{sort}
use cashblocks.Prelude.Result.{Result, ok, err, ◌>>=◌, ◌>>◌, throw_if}
use cashblocks.Cash.{max_safe_integer}
use cashblocks.Reversals.{
  ReversalIntent, is_pending, is_completed, ReversalRecord, ReversalEvent, StoreError, bad_failure,
  bad_limit, Records, Store, attempt, complete, fail_with, load, transition,
}
use cashblocks.Reversals.Messages.{bounded_error, is_bad_message}

module _ (fits : ReversalEvent → List ReversalEvent → Bool) where
  unfoldable pub begin_attempt : String → String → Store → Result StoreError Store
  unfolding transition
  begin_attempt ts id s = transition fits ts id attempt s

  unfoldable pub mark_failed : String → String → List ℕ → Store → Result StoreError Store
  unfolding transition bounded_error is_bad_message
  mark_failed ts id message s = do
    throw_if (is_bad_message message) bad_failure
    transition fits ts id (fail_with (bounded_error message)) s

  unfoldable pub mark_completed : String → String → Store → Result StoreError Store
  unfolding transition
  mark_completed ts id s = transition fits ts id complete s

abbrev pub is_open : ReversalRecord → Bool
is_open r = elim r.status [ is_pending ↦ true | is_completed ↦ false ]

abbrev pub records_in : Records → List ReversalRecord
records_in [] = []
records_in ((id, r) ∷ records) = r ∷ records_in records

-- `positiveInteger`
abbrev pub is_bad_limit : ℕ → Bool
is_bad_limit limit = not (leb 1 limit) || not (leb limit max_safe_integer)

unfoldable pub pending_records :
    (String → String → Bool) → ℕ → Store → Result StoreError (List ReversalRecord)
unfolding load sort
pending_records is_after limit s = do
  throw_if (is_bad_limit limit) bad_limit
  records ← load s
  ok (
      take limit
        (sort (λ a b. is_after a.created_at b.created_at) (filter is_open (records_in records))))

-- The options of ReversalProcessor, each answering or throwing a message, and the clock: `exchange n`
-- is the n-th exchange of a call, and `clock n` the n-th time that it reads.
pub record Processor : Type 0 where
  pub fits : ReversalEvent → List ReversalEvent → Bool
  pub is_after : String → String → Bool
  pub max_batch : ℕ
  pub build_message : ReversalIntent → Result (List ℕ) (List ℕ)
  pub exchange : ℕ → List ℕ → Result (List ℕ) (List ℕ)
  pub accept_response : ReversalIntent → List ℕ → Result (List ℕ) Bool
  pub clock : ℕ → String
  pub message_of : StoreError → List ℕ

-- What the `try` does before the record is completed.
unfoldable pub ask_host : Processor → ℕ → ReversalIntent → Result (List ℕ) (Unit {0})
ask_host p n intent = do
  message ← p.build_message intent
  response ← p.exchange n message
  accepted ← p.accept_response intent response
  throw_if (not accepted) (codes "Host did not acknowledge reversal.")

-- The `catch`.
abbrev pub give_up : Processor → ℕ → String → List ℕ → Store → Result StoreError (Bool × Store)
give_up p n id thrown s =
    mark_failed p.fits (p.clock (3 * n + 2)) id (bounded_error thrown) s >>= λ after.
    ok (false, after)

-- Where the host has acknowledged: what marking the record as completed comes to.
abbrev pub settle_marked :
    Processor → ℕ → String → Store → Result StoreError Store → Result StoreError (Bool × Store)
settle_marked p n id s (ok after) = ok (true, after)
settle_marked p n id s (err thrown) = give_up p n id (p.message_of thrown) s

abbrev pub settle :
    Processor → ℕ → String → Result (List ℕ) (Unit {0}) → Store → Result StoreError (Bool × Store)
settle p n id (err thrown) s = give_up p n id thrown s
settle p n id (ok u) s = settle_marked p n id s (mark_completed p.fits (p.clock (3 * n + 1)) id s)

-- The body of the loop: whether the record counts as completed.
unfoldable pub process_record :
    Processor → ℕ → ReversalRecord → Store → Result StoreError (Bool × Store)
unfolding begin_attempt mark_failed mark_completed ask_host bounded_error
process_record p n r s = do
  begun ← begin_attempt p.fits (p.clock (3 * n)) r.intent.id s
  settle p n r.intent.id (ask_host p n r.intent) begun

pub record BatchResult : Type 0 where
  pub attempted : ℕ
  pub completed : ℕ
  pub failed : ℕ

abbrev pub tally : Bool → BatchResult → BatchResult
tally true c = record c { completed = suc c.completed }
tally false c = record c { failed = suc c.failed }

unfoldable pub process_records :
    Processor
    → ℕ
    → List ReversalRecord
    → BatchResult
    → Store
    → Result StoreError (BatchResult × Store)
unfolding process_record
process_records p n [] c s = ok (c, s)
process_records p n (r ∷ rs) c s =
    process_record p n r s >>= λ done. process_records p (suc n) rs (tally done.0 c) done.1

unfoldable pub process : Processor → Store → Result StoreError (BatchResult × Store)
unfolding pending_records process_records
process p s = do
  records ← pending_records p.is_after p.max_batch s
  process_records p 0 records (record { attempted = length records; completed = 0; failed = 0 }) s
