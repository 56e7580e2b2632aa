-- ===== src/Reversals/ProcessTests.antt =====
-- A reversal that the host acknowledges, one that it does not, and a file with an unended line.
use cashblocks.Prelude.{
  ◌≡◌, ◌≤◌, ◌+◌, ℕ, refl, Bool, true, false, Option, some, List, [], ◌∷◌, String,
}
use cashblocks.Prelude.Text.{codes, is_space, lookup, insert}
use cashblocks.Prelude.Sort.{place, sort}
use cashblocks.Prelude.Result.{ok}
use cashblocks.Contracts.{Json, text, obj, end, field}
use cashblocks.Reversals.{
  ReversalIntent, queued, attempted, completed, Store, new_record, apply_reversal, replay, load,
  append, transition, failed,
}
use cashblocks.Reversals.Messages.{
  leading_digits, redact, join_lines, cut_start, cut_end, bounded_error, is_bad_message, has_card,
}
use cashblocks.Reversals.Redaction.{bounded_error_safe}
use cashblocks.Reversals.Process.{
  begin_attempt, mark_completed, pending_records, Processor, ask_host, process_record, BatchResult,
  process_records, process, mark_failed,
}
use cashblocks.Reversals.Outcomes.{IsSettled, process_record-IsSettled, process_counts}
use cashblocks.Reversals.Repair.{
  has_exact_keys, parse_event, complete_part, tail_part, repair_partial_tail,
}
use cashblocks.Reversals.RepairLaws.{IsRepair, repair_partial_tail-IsRepair}

abbrev intent : ReversalIntent
intent = record {
  id = "r1";
  transaction = "CashWithdrawal";
  original_trace = "000001";
  amount_minor = 6000;
  currency_numeric_code = "036";
  terminal_id = "T1";
  transmission_date_time = "0101000000";
  reason = "timeout";
}

abbrev waiting : Store
waiting = record { events = queued "now" intent ∷ []; max_records = 10; max_events = 100 }

abbrev answering : Bool → Processor
answering answer = record {
  fits = λ event events. true;
  is_after = λ a b. false;
  max_batch = 100;
  build_message = λ i. ok (codes i.id);
  exchange = λ n message. ok message;
  accept_response = λ i response. ok answer;
  clock = λ n. "then";
  message_of = λ thrown. codes "store";
}

abbrev acknowledged_store : Store
acknowledged_store = record waiting {
  events = queued "now" intent ∷ attempted "then" "r1" ∷ completed "then" "r1" ∷ [];
}

is_acknowledged :
    process_record (answering true) 0 (new_record "now" intent) waiting
    ≡ ok (true, acknowledged_store)
unfolding process_record begin_attempt mark_completed ask_host transition load replay apply_reversal
    append lookup insert
is_acknowledged = refl

abbrev one_done : BatchResult
one_done = record { attempted = 1; completed = 1; failed = 0 }

is_processed : process (answering true) waiting ≡ ok (one_done, acknowledged_store)
unfolding process pending_records sort place process_records process_record begin_attempt
    mark_completed ask_host transition load replay apply_reversal append lookup insert
is_processed = refl

card_is_redacted : bounded_error (codes "card 4111111111111111") ≡ codes "card [redacted]"
unfolding bounded_error redact leading_digits join_lines cut_start cut_end is_space
card_is_redacted = refl

bounded_error_safe_example :
    (has_card (bounded_error (codes "card 4111111111111111")) ≡ false)
    × (is_bad_message (bounded_error (codes "card 4111111111111111")) ≡ false)
bounded_error_safe_example = bounded_error_safe (codes "card 4111111111111111")

abbrev refused_store : Store
refused_store = record waiting {
  events =
      queued "now" intent
      ∷ attempted "then" "r1"
      ∷ failed "then" "r1" (codes "Host did not acknowledge reversal.")
      ∷ [];
}

is_refused :
    process_record (answering false) 0 (new_record "now" intent) waiting ≡ ok (false, refused_store)
unfolding process_record begin_attempt mark_failed ask_host transition load replay apply_reversal
    append lookup insert bounded_error redact leading_digits join_lines cut_start cut_end is_space
    is_bad_message
is_refused = refl

process_record-IsSettled_example :
    IsSettled (answering false) 0 (new_record "now" intent) waiting false refused_store
process_record-IsSettled_example =
    process_record-IsSettled (answering false) 0 (new_record "now" intent) waiting false
      refused_store is_refused

process_counts_example : (1 ≡ 1 + 0) × (1 ≤ 100)
process_counts_example =
    process_counts (answering true) waiting acknowledged_store one_done is_processed

-- A parser of one line.
abbrev parse_one : List ℕ → Option Json
parse_one content =
    some
      (obj (field "type" (text "attempted") (field "ts" (text "now") (field "id" (text "r1") end))))

abbrev any_time : String → Bool
any_time ts = true

unended_is_ended :
    repair_partial_tail parse_one any_time (65 ∷ 10 ∷ 66 ∷ []) ≡ 65 ∷ 10 ∷ 66 ∷ 10 ∷ []
unfolding repair_partial_tail tail_part complete_part parse_event lookup has_exact_keys
unended_is_ended = refl

repair_partial_tail-IsRepair_example :
    IsRepair parse_one any_time
      (65 ∷ 10 ∷ 66 ∷ [])
      (repair_partial_tail parse_one any_time (65 ∷ 10 ∷ 66 ∷ []))
repair_partial_tail-IsRepair_example =
    repair_partial_tail-IsRepair parse_one any_time (65 ∷ 10 ∷ 66 ∷ [])
