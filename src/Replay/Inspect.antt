-- ===== src/Replay/Inspect.antt =====
-- `inspectJournalText` and `inspectJournalFile` of packages/journal-replay/src/index.ts, behind the
-- loop over the lines.
use cashblocks.Prelude.{
  ℕ, ◌-◌, Bool, true, false, not, ◌&&◌, ◌||◌, Option, none, some, List, [], ◌∷◌, ◌++◌, String, ◌==◌,
  if◌then◌else◌, leb, ltb, any, filter, length,
}
use cashblocks.Prelude.Result.{Result, ok, throw_if, ◌>>=◌, ◌>>◌}
use cashblocks.Prelude.Int.{ℤ}
use cashblocks.Contracts.{Source, runtime_started, from_runtime}
use cashblocks.Replay.Types.{Severity, error, JournalReplayIssue, JournalRecord}
use cashblocks.Replay.Log.{is_error, Log, Parsing, add_parsing_issues}
use cashblocks.Replay.Session.{
  Mode, strict, ReplayOptions, ReplayedSession, pending_severity, replay_session_records,
}
use cashblocks.Replay.Lines.{journal_lines}
use cashblocks.Replay.Reading.{
  Platform, JournalReplayOptions, Limits, InspectError, text_too_large, file_too_large, no_file,
  limit_or, limits_of, Reading, nothing_read, read_lines,
}
use cashblocks.Prelude.Sort.{sort}
use cashblocks.Replay.Groups.{group, is_unscoped}

-- An issue without a sessionId, and one that names a record.
abbrev pub bare_issue : Severity → String → JournalReplayIssue
bare_issue severity code = record {
  severity = severity;
  code = code;
  line = none;
  session_id = none;
  seq = none;
}

abbrev pub record_issue : Severity → String → Option String → JournalRecord → JournalReplayIssue
record_issue severity code session_id r = record {
  severity = severity;
  code = code;
  line = some r.line;
  session_id = session_id;
  seq = some r.event.seq;
}

unfoldable pub add_when : ℕ → Bool → JournalReplayIssue → Parsing → Parsing
add_when max_issues test issue p = if test then add_parsing_issues max_issues (issue ∷ []) p else p

abbrev pub is_start : JournalRecord → Bool
is_start r = elim r.event.draft.type [ runtime_started ↦ true | _ ↦ false ]

-- The loop over the records without a session, with its `break`.
unfoldable pub check_unscoped : ℕ → List JournalRecord → Parsing → Parsing
check_unscoped max_issues [] p = p
check_unscoped max_issues (r ∷ rs) p =
    let same = check_unscoped max_issues rs p in
    let added = add_parsing_issues max_issues (record_issue error "UNSCOPED_EVENT" none r ∷ []) p in
    let rest = check_unscoped max_issues rs added in
    if is_start r then same else if added.limit_reached then added else rest

abbrev pub is_from_runtime : Source → Bool
is_from_runtime from_runtime = true
is_from_runtime _ = false

unfoldable pub check_anchors : ℕ → Mode → List JournalRecord → Parsing → Parsing
unfolding add_when
check_anchors max_issues mode [] p = p
check_anchors max_issues mode (r ∷ rs) p = check_anchors max_issues mode rs (
    add_when max_issues (not (r.event.seq == 1) || not (is_from_runtime r.event.draft.source))
      (record_issue (pending_severity mode) "INVALID_RUNTIME_ANCHOR" none r) p)

-- The loop over the pairs of a runtime.started and the start of a session.
unfoldable pub check_anchor_order :
    ℕ → Mode → List JournalRecord → List JournalRecord → Parsing → Parsing
unfolding add_when
check_anchor_order max_issues mode [] starts p = p
check_anchor_order max_issues mode (a ∷ anchors) [] p = p
check_anchor_order max_issues mode (a ∷ anchors) (s ∷ starts) p =
    check_anchor_order max_issues mode anchors starts (
      add_when max_issues (leb s.line a.line)
        (record_issue (pending_severity mode) "ANCHOR_ORDER_INVALID" s.event.draft.session_id s) p)

-- The first record of each session.
abbrev pub first_of : List JournalRecord → List JournalRecord
first_of [] = []
first_of (r ∷ rs) = r ∷ []

abbrev pub session_starts : List (String × List JournalRecord) → List JournalRecord
session_starts [] = []
session_starts ((id, records) ∷ groups) = first_of records ++ session_starts groups

-- The checks between the loop over the lines and the replay.
unfoldable pub check_journal :
    ℕ → Mode → ℕ → List JournalRecord → List (String × List JournalRecord) → Parsing → Parsing
unfolding add_when check_unscoped check_anchors check_anchor_order sort
check_journal max_issues mode line_count unscoped grouped p =
    let starts = filter is_start unscoped in
    let severity = pending_severity mode in
    let empty = add_when max_issues (line_count == 0) (bare_issue severity "EMPTY_JOURNAL") p in
    let scoped = check_unscoped max_issues unscoped empty in
    let some_sessions =
      add_when max_issues (length grouped == 0 && ltb 0 line_count)
        (bare_issue severity "NO_SESSIONS") scoped in
    let matched =
      add_when max_issues (not (length starts == length grouped))
        (bare_issue severity "RUNTIME_SESSION_MISMATCH") some_sessions in
    check_anchor_order max_issues mode starts
      (sort (λ a b. ltb b.line a.line) (session_starts grouped))
      (check_anchors max_issues mode starts matched)

-- The replay of the sessions, which share the issues and the budget.
unfoldable pub replay_groups :
    (String → Option ℤ)
    → ReplayOptions
    → List (String × List JournalRecord)
    → Log
    → List ReplayedSession × Log
replay_groups parse_time options [] log = ([], log)
replay_groups parse_time options ((id, records) ∷ groups) log =
    let replayed = replay_session_records parse_time id records options log in
    let rest = replay_groups parse_time options groups replayed.1 in (replayed.0 ∷ rest.0, rest.1)

-- `source` is left out: the report names its caller's.
pub record JournalReplayReport : Type 0 where
  pub valid : Bool
  pub line_count : ℕ
  pub event_count : ℕ
  pub unscoped_event_count : ℕ
  pub sessions : List ReplayedSession
  pub issues : List JournalReplayIssue

abbrev pub mode_of : Option Mode → Mode
mode_of none = strict
mode_of (some mode) = mode

abbrev pub frames_of : Option Bool → Bool
frames_of none = false
frames_of (some include_frames) = include_frames

abbrev pub budget_of : Limits → Parsing → Log
budget_of limits p = record {
  all_issues = p.issues;
  issues = [];
  has_error = false;
  frames_remaining = limits.max_frames;
  issues_remaining = limits.max_issues - length p.issues;
  issue_limit_reached = p.limit_reached;
}

abbrev pub is_later : Platform → ReplayedSession → ReplayedSession → Bool
is_later platform a b = platform.is_after a.first_ts b.first_ts

-- What is reported of the lines that have been read.
unfoldable pub report_of : Platform → Mode → Bool → Limits → Reading → JournalReplayReport
unfolding group check_journal replay_groups sort
report_of platform mode include_frames limits reading =
    let unscoped = filter is_unscoped reading.records in
    let grouped = group reading.records [] in
    let checked =
      check_journal limits.max_issues mode reading.line_count unscoped grouped reading.parsing in
    let replayed =
      replay_groups platform.parse_time
        (record { include_frames = include_frames; mode = mode; require_anchor = true }) grouped
        (budget_of limits checked) in
    record {
      valid = not (any is_error replayed.1.all_issues);
      line_count = reading.line_count;
      event_count = length reading.records;
      unscoped_event_count = length unscoped;
      sessions = sort (is_later platform) replayed.0;
      issues = replayed.1.all_issues;
    }

unfoldable pub inspect_journal_text :
    Platform → List ℕ → JournalReplayOptions → Result InspectError JournalReplayReport
unfolding limits_of journal_lines read_lines report_of
inspect_journal_text platform text options = do
  limits ← limits_of options
  throw_if (ltb limits.max_file_bytes (platform.byte_length text))
      (text_too_large limits.max_file_bytes)
  ok (
      report_of platform (mode_of options.mode) (frames_of options.include_frames) limits
        (read_lines platform limits (journal_lines text) nothing_read))

-- The file as `stat` and `readFile` give it: whether it is a regular file, its size and its text.
pub record JournalFile : Type 0 where
  pub is_file : Bool
  pub size : ℕ
  pub content : List ℕ

unfoldable pub inspect_journal_file :
    Platform → JournalFile → JournalReplayOptions → Result InspectError JournalReplayReport
unfolding limit_or inspect_journal_text
inspect_journal_file platform file options = do
  file_bytes ← limit_or "maxFileBytes" 52428800 options.max_file_bytes
  throw_if (not file.is_file) no_file
  throw_if (ltb file_bytes file.size) (file_too_large file_bytes)
  inspect_journal_text platform file.content options
