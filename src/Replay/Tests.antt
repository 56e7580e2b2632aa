-- ===== src/Replay/Tests.antt =====
-- The replay of a short session.
use cashblocks.Prelude.{ℕ, ◌≡◌, refl, true, false, Option, none, some, List, [], ◌∷◌, String}
use cashblocks.Prelude.Int.{ℤ}
use cashblocks.Prelude.Text.{lookup, insert, remove}
use cashblocks.Contracts.{
  text, Payload, EventType, flow_loaded, transaction_started, transaction_completed, from_runtime,
}
use cashblocks.Replay.Types.{
  JournalRecord, payload_string, payload_number, payload_at, transaction_status, number_record,
}
use cashblocks.Replay.Log.{Log, add_issue, add_if}
use cashblocks.Replay.Lifecycle.{
  validate_lifecycle, track_host, check_host, track_start, track_outcome,
}
use cashblocks.Replay.State.{
  apply_event, note_selections, select, record_transaction, count_event, report, index_at,
  set_status,
}
use cashblocks.Replay.Session.{
  ReplayOptions, strict, replay_session_records, open_log, check_start, check_end, check_open,
  check_pending, replay_records, replay_record, check_order,
}
use cashblocks.Replay.Payload.{
  validate_event_payload, name_issues, validate_by_type, field_issues, require_string,
  optional_string, optional_number, optional_strings, optional_numbers, needs_transaction,
}

abbrev no_time : String → Option ℤ
no_time ts = none

abbrev event : ℕ → EventType → Payload → JournalRecord
event seq type payload = record {
  line = seq;
  event = record {
    seq = seq;
    ts = "2026-01-01T00:00:00.000Z";
    draft = record {
      type = type;
      source = from_runtime;
      session_id = some "s";
      payload = some payload;
    };
  };
}

abbrev session : List JournalRecord
session =
    event 2 flow_loaded (("entrypoint", text "Main") ∷ [])
    ∷ event 3 transaction_started (("transaction", text "Withdrawal") ∷ [])
    ∷ event 4 transaction_completed (("transaction", text "Withdrawal") ∷ [])
    ∷ []

abbrev cut_short : List JournalRecord
cut_short = event 2 flow_loaded (("entrypoint", text "Main") ∷ []) ∷ []

abbrev anchored : ReplayOptions
anchored = record { include_frames = true; mode = strict; require_anchor = true }

abbrev quiet : Log
quiet = record {
  all_issues = [];
  issues = [];
  has_error = false;
  frames_remaining = 10;
  issues_remaining = 5;
  issue_limit_reached = false;
}

session_is_valid : (replay_session_records no_time "s" session anchored quiet).0.valid ≡ true
unfolding replay_session_records open_log check_start check_end check_open check_pending
    replay_records replay_record check_order validate_lifecycle track_host check_host track_start
    track_outcome apply_event note_selections select record_transaction count_event report index_at
    set_status add_issue add_if payload_string payload_number payload_at transaction_status
    number_record lookup insert remove
session_is_valid = refl

cut_short_is_invalid : (replay_session_records no_time "s" cut_short anchored quiet).0.valid ≡ false
unfolding replay_session_records open_log check_start check_end check_open check_pending
    replay_records replay_record check_order validate_lifecycle track_host check_host track_start
    track_outcome apply_event note_selections select record_transaction count_event report index_at
    set_status add_issue add_if payload_string payload_number payload_at transaction_status
    number_record lookup insert remove
cut_short_is_invalid = refl

abbrev completed_payload : Option Payload
completed_payload = some (("transaction", text "Withdrawal") ∷ [])

payload_is_accepted : validate_event_payload transaction_completed completed_payload ≡ []
unfolding validate_event_payload name_issues validate_by_type field_issues require_string
    optional_string optional_number optional_strings optional_numbers needs_transaction
    payload_string payload_at number_record lookup
payload_is_accepted = refl
