-- ===== src/Replay/Single.antt =====
-- `replaySession` of packages/journal-replay/src/index.ts: the replay of events that a caller holds.
use cashblocks.Prelude.{
  ℕ, ◌+◌, ◌-◌, Bool, false, not, List, [], ◌∷◌, ◌++◌, String, str_eq, ◌==◌, if◌then◌else◌, ltb, any,
  length, take,
}
use cashblocks.Prelude.Result.{Result, err, ok}
use cashblocks.Contracts.{Json}
use cashblocks.Replay.Types.{JournalReplayIssue, JournalRecord}
use cashblocks.Replay.Log.{is_error, Log, limit_issue, replace_last}
use cashblocks.Replay.Session.{partial, ReplayedSession, replay_session_records}
use cashblocks.Replay.Events.{validate_runtime_event, event_of_json}
use cashblocks.Replay.Reading.{Platform}

-- The issues that replace those of an event which has too many.
abbrev pub cut_issues : List JournalReplayIssue → List JournalReplayIssue → List JournalReplayIssue
cut_issues issues found =
    let remaining = 10000 - length issues in
    if not (remaining == 0)
    then issues ++ (take (remaining - 1) found ++ (limit_issue ∷ []))
    else if not (length issues == 0)
    then replace_last limit_issue issues
    else issues

-- The loop over the events, as the values that they are.
unfoldable pub collect_events :
    Platform
    → ℕ
    → List Json
    → List JournalReplayIssue
    → List JournalRecord
    → List JournalReplayIssue × List JournalRecord
unfolding validate_runtime_event event_of_json replace_last
collect_events platform line [] issues records = (issues, records)
collect_events platform line (value ∷ values) issues records =
    let found = validate_runtime_event platform.is_canonical value line in
    let entry : JournalRecord = record {
      line = line;
      event = event_of_json platform.is_canonical value;
    } in
    let kept = if any is_error found then records else records ++ (entry ∷ []) in
    let rest = collect_events platform (line + 1) values (issues ++ found) kept in
    if ltb (10000 - length issues) (length found) then (cut_issues issues found, records) else rest

abbrev pub is_limit : JournalReplayIssue → Bool
is_limit issue = str_eq issue.code "ISSUE_LIMIT_EXCEEDED"

abbrev pub single_budget : List JournalReplayIssue → Log
single_budget issues = record {
  all_issues = issues;
  issues = [];
  has_error = false;
  frames_remaining = 1000;
  issues_remaining = 10000 - length issues;
  issue_limit_reached = any is_limit issues;
}

-- What it throws.
pub data ReplayError : Type 0 where
  too_many_events : ReplayError

unfoldable pub replay_session :
    Platform → String → List Json → Bool → Result ReplayError ReplayedSession
unfolding collect_events replay_session_records
replay_session platform session_id values include_frames =
    let collected = collect_events platform 1 values [] [] in
    if ltb 100000 (length values)
    then err too_many_events
    else ok
        (replay_session_records platform.parse_time session_id collected.1
          (record { include_frames = include_frames; mode = partial; require_anchor = false })
          (single_budget collected.0)).0
