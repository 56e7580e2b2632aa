-- ===== src/Replay/InspectTests.antt =====
-- The inspection of a short journal.
use cashblocks.Prelude.{
  ℕ, ◌≡◌, ◌≤◌, refl, true, false, Option, none, some, List, [], ◌∷◌, String, arith, length, All,
  str_eq, ◌==◌, if◌then◌else◌,
}
use cashblocks.Prelude.Int.{pos}
use cashblocks.Prelude.Text.{lookup, insert, remove, is_blank, is_space}
use cashblocks.Prelude.Result.{ok}
use cashblocks.Contracts.{Json, num, text, obj, Fields, end, field}
use cashblocks.Replay.Types.{
  payload_string, payload_number, payload_at, transaction_status, number_record, numbers,
}
use cashblocks.Replay.Log.{add_issue, add_if, add_parsing_issues, replace_last}
use cashblocks.Replay.Lifecycle.{
  validate_lifecycle, track_host, check_host, track_start, track_outcome,
}
use cashblocks.Replay.State.{
  apply_event, note_selections, select, record_transaction, count_event, report, index_at,
  set_status,
}
use cashblocks.Replay.Session.{
  strict, replay_session_records, open_log, check_start, check_end, check_open, check_pending,
  replay_records, replay_record, check_order,
}
use cashblocks.Replay.Payload.{
  validate_event_payload, name_issues, validate_by_type, field_issues, require_string,
  optional_string, optional_number, optional_strings, optional_numbers, needs_transaction,
}
use cashblocks.Replay.Lines.{
  without_return, lines_from, journal_lines, ended_lines, numbered_from, journal_lines-ended_lines,
}
use cashblocks.Replay.Events.{
  is_json_value, are_json_items, are_json_fields, entries_of, json_record, type_of, source_of,
  validate_fields, validate_runtime_event, event_of_json,
}
use cashblocks.Replay.Reading.{
  Platform, JournalReplayOptions, Limits, limit_or, limits_of, nothing_read, read_value, read_line,
  read_lines,
}
use cashblocks.Prelude.Sort.{place, sort}
use cashblocks.Replay.Groups.{group}
use cashblocks.Replay.Inspect.{
  add_when, check_unscoped, check_anchors, check_anchor_order, check_journal, replay_groups,
  JournalReplayReport, report_of, inspect_journal_text,
}
use cashblocks.Replay.Shared.{IsClean}
use cashblocks.Replay.Report.{IsReadFrom, records_read, inspect_bounds, valid_report_sessions}
use cashblocks.Replay.Shares.{IsPartition, report-IsPartition}
use cashblocks.Replay.Anchors.{strict_report_anchored}

abbrev value_of : ℕ → String → String → Fields → Json
value_of seq type source rest = obj (
    field "seq" (num (pos seq)) (
      field "ts" (text "2026-01-01T00:00:00.000Z")
        (field "type" (text type) (field "source" (text source) rest))))

abbrev scoped : String → String → Fields
scoped key value =
    field "sessionId" (text "s") (field "payload" (obj (field key (text value) end)) end)

-- A parser of four lines.
abbrev parse_four : List ℕ → Option Json
parse_four (c ∷ []) =
    if c == 101
    then some (value_of 1 "runtime.started" "runtime" end)
    else if c == 102
    then some (value_of 2 "flow.loaded" "runtime" (scoped "entrypoint" "Main"))
    else if c == 103
    then some (value_of 3 "transaction.started" "flow" (scoped "transaction" "Withdrawal"))
    else if c == 104
    then some (value_of 4 "transaction.completed" "flow" (scoped "transaction" "Withdrawal"))
    else none
parse_four _ = none

abbrev platform : Platform
platform = record {
  parse_json = parse_four;
  byte_length = length;
  is_canonical = λ ts. str_eq ts "2026-01-01T00:00:00.000Z";
  parse_time = λ ts. none;
  is_after = λ a b. false;
}

abbrev no_options : JournalReplayOptions
no_options = record {
  include_frames = none;
  mode = none;
  max_file_bytes = none;
  max_line_bytes = none;
  max_events = none;
  max_frames = none;
  max_lines = none;
  max_issues = none;
}

abbrev default_limits : Limits
default_limits = record {
  max_file_bytes = 52428800;
  max_line_bytes = 1048576;
  max_events = 100000;
  max_frames = 1000;
  max_lines = 200000;
  max_issues = 10000;
}

abbrev four_lines : List (List ℕ)
four_lines = (101 ∷ []) ∷ (102 ∷ []) ∷ (103 ∷ []) ∷ (104 ∷ []) ∷ []

abbrev journal : List ℕ
journal = ended_lines four_lines

abbrev journal_report : JournalReplayReport
journal_report =
    report_of platform strict false default_limits
      (read_lines platform default_limits (journal_lines journal) nothing_read)

limits_are_default : limits_of no_options ≡ ok default_limits
unfolding limits_of limit_or
limits_are_default = refl

journal_is_inspected : inspect_journal_text platform journal no_options ≡ ok journal_report
unfolding inspect_journal_text limits_of limit_or
journal_is_inspected = refl

journal_is_valid : journal_report.valid ≡ true
unfolding report_of read_lines read_line read_value journal_lines lines_from without_return is_space
    add_parsing_issues validate_runtime_event validate_fields event_of_json entries_of json_record
    is_json_value are_json_items are_json_fields type_of source_of validate_event_payload
    name_issues validate_by_type field_issues require_string optional_string optional_number
    optional_strings optional_numbers needs_transaction group sort place check_journal add_when
    check_unscoped check_anchors check_anchor_order replay_groups replay_session_records open_log
    check_start check_end check_open check_pending replay_records replay_record check_order
    validate_lifecycle track_host check_host track_start track_outcome apply_event note_selections
    select record_transaction count_event report index_at set_status add_issue add_if replace_last
    payload_string payload_number payload_at transaction_status number_record numbers lookup insert
    remove is_blank
journal_is_valid = refl

journal_lines-ended_lines_example :
    journal_lines (ended_lines four_lines) ≡ numbered_from 0 four_lines
journal_lines-ended_lines_example = journal_lines-ended_lines four_lines refl

records_read_example :
    All
      (IsReadFrom platform (journal_lines journal))
      (read_lines platform default_limits (journal_lines journal) nothing_read).records
records_read_example = records_read platform default_limits journal (omega arith)

inspect_bounds_example :
    (length journal_report.issues ≤ 10000) × (journal_report.event_count ≤ 100000)
inspect_bounds_example =
    inspect_bounds platform journal no_options default_limits journal_report limits_are_default
      journal_is_inspected

valid_report_sessions_example : All IsClean journal_report.sessions
valid_report_sessions_example =
    valid_report_sessions platform journal no_options journal_report journal_is_inspected
      journal_is_valid

report-IsPartition_example :
    (limits : Limits) × (limits_of no_options ≡ ok limits)
    × IsPartition platform.parse_time
        (record { include_frames = false; mode = strict; require_anchor = true })
        (read_lines platform limits (journal_lines journal) nothing_read).records
        journal_report
report-IsPartition_example =
    report-IsPartition platform journal no_options journal_report journal_is_inspected

strict_report_anchored_example :
    (journal_report.unscoped_event_count ≡ length journal_report.sessions)
    × (1 ≤ length journal_report.sessions)
strict_report_anchored_example =
    strict_report_anchored platform journal no_options journal_report journal_is_inspected refl
      journal_is_valid

abbrev loaded_value : Json
loaded_value = value_of 2 "flow.loaded" "runtime" (scoped "entrypoint" "Main")

loaded_value_is_valid : validate_runtime_event platform.is_canonical loaded_value 1 ≡ []
unfolding validate_runtime_event validate_fields entries_of json_record is_json_value are_json_items
    are_json_fields type_of source_of validate_event_payload name_issues validate_by_type
    field_issues require_string optional_string optional_number optional_strings optional_numbers
    needs_transaction payload_string payload_at number_record numbers lookup is_blank is_space
loaded_value_is_valid = refl
