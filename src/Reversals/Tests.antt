-- ===== src/Reversals/Tests.antt =====
-- A reversal that is queued and then completed.
use cashblocks.Prelude.{◌≡◌, refl, Bool, true, some, List, [], ◌∷◌}
use cashblocks.Prelude.Text.{lookup, insert}
use cashblocks.Prelude.Result.{ok}
use cashblocks.Reversals.{
  ReversalIntent, ReversalEvent, queued, completed, Records, Store, new_record, complete,
  apply_reversal, replay, load, append, enqueue, transition, is_valid_intent,
}
use cashblocks.Reversals.Laws.{Transitions, enqueue-load, transition-Transitions}

abbrev intent : ReversalIntent
intent = record {
  id = "r1";
  transaction = "CashWithdrawal";
  original_trace = "000001";
  amount_minor = 6000;
  currency_numeric_code = "036";
  terminal_id = "T1";
  transmission_date_time = "0101000000";
  reason = "timeout";
}

abbrev fits_all : ReversalEvent → List ReversalEvent → Bool
fits_all event events = true

abbrev empty_store : Store
empty_store = record { events = []; max_records = 10; max_events = 100 }

abbrev one_queued : Store
one_queued = record empty_store { events = queued "now" intent ∷ [] }

abbrev one_completed : Store
one_completed = record empty_store { events = queued "now" intent ∷ completed "then" "r1" ∷ [] }

is_queued : enqueue fits_all "now" intent empty_store ≡ ok (new_record "now" intent, one_queued)
unfolding enqueue is_valid_intent load replay append lookup
is_queued = refl

is_done : transition fits_all "then" "r1" complete one_queued ≡ ok one_completed
unfolding transition load replay apply_reversal append lookup insert
is_done = refl

enqueue-load_example :
    (after : Records) × (load one_queued ≡ ok after)
    × (lookup "r1" after ≡ some (new_record "now" intent))
enqueue-load_example =
    enqueue-load fits_all "now" intent empty_store one_queued (new_record "now" intent) is_queued

transition-Transitions_example : Transitions "then" "r1" complete one_queued one_completed
transition-Transitions_example =
    transition-Transitions fits_all "then" "r1" complete one_queued one_completed is_done
