-- ===== src/Replay/Session.antt =====
-- `replaySessionRecords` of packages/journal-replay/src/index.ts. `Date.parse` is the argument
-- `parse_time`, with none for a text that is no date.
use cashblocks.Prelude.{
  ℕ, ◌+◌, ◌-◌, Bool, true, false, not, ◌&&◌, Option, none, some, List, [], ◌∷◌, ◌++◌, String, ◌==◌,
  ltb, if◌then◌else◌, length, any, filter, str_eq,
}
use cashblocks.Prelude.Int.{ℤ, ltb_ℤ}
use cashblocks.Contracts.{EventType, RuntimeEvent, flow_loaded}
use cashblocks.Replay.Types.{
  Severity, error, warning, JournalReplayIssue, SessionStatus, session_completed, session_cancelled,
  session_failed, session_reconciliation_required, ReplayedSessionState, JournalRecord,
  JournalReplayFrame, ReplayContext, initial_state, empty_context, issue_for,
}
use cashblocks.Replay.Log.{is_error, Log, add_issue, add_if}
use cashblocks.Replay.Lifecycle.{validate_lifecycle}
use cashblocks.Replay.State.{apply_event}

-- `mode`: strict or partial.
pub data Mode : Type 0 where
  strict partial : Mode

pub record ReplayOptions : Type 0 where
  pub include_frames : Bool
  pub mode : Mode
  pub require_anchor : Bool

pub record ReplayedSession : Type 0 where
  pub session_id : String
  pub valid : Bool
  pub event_count : ℕ
  pub first_ts : String
  pub last_ts : String
  pub state : ReplayedSessionState
  pub frames : List JournalReplayFrame
  pub issues : List JournalReplayIssue

-- What the loop over the records carries.
pub record Run : Type 0 where
  pub state : ReplayedSessionState
  pub context : ReplayContext
  pub log : Log
  pub frames : List JournalReplayFrame
  pub previous : Option RuntimeEvent

abbrev pub is_same_session : Option String → String → Bool
is_same_session none id = false
is_same_session (some session) id = str_eq session id

abbrev pub is_reversed : Option ℤ → Option ℤ → Bool
is_reversed (some now) (some before) = ltb_ℤ now before
is_reversed _ _ = false

-- The checks against the previous event.
unfoldable pub check_order : (String → Option ℤ) → JournalRecord → Option RuntimeEvent → Log → Log
check_order parse_time r none log = log
check_order parse_time r (some previous) log =
    add_if (is_reversed (parse_time r.event.ts) (parse_time previous.ts))
      (issue_for r warning "TIMESTAMP_REVERSED")
      (add_if (not (r.event.seq == previous.seq + 1)) (issue_for r error "SEQUENCE_GAP") log)

-- The body of the loop.
unfoldable pub replay_record : (String → Option ℤ) → String → Bool → JournalRecord → Run → Run
replay_record parse_time session_id include_frames r run =
    if not (is_same_session r.event.draft.session_id session_id)
    then record run { log = add_issue (issue_for r error "SESSION_ID_MISMATCH") run.log }
    else let checked =
        validate_lifecycle r run.state run.context
          (check_order parse_time r run.previous run.log) in
      let applied = apply_event r.event checked.0 run.state checked.1.0 in
      record {
        state = applied.0;
        context = applied.1;
        log = checked.1.1;
        frames =
            if include_frames
            then run.frames ++ (record { line = r.line; event = r.event; state = applied.0 } ∷ [])
            else run.frames;
        previous = some r.event;
      }

unfoldable pub replay_records : (String → Option ℤ) → String → Bool → List JournalRecord → Run → Run
replay_records parse_time session_id include_frames [] run = run
replay_records parse_time session_id include_frames (r ∷ rs) run =
    replay_records parse_time session_id include_frames rs
      (replay_record parse_time session_id include_frames r run)

abbrev pub issue_at : Severity → String → String → Option JournalRecord → JournalReplayIssue
issue_at severity code session_id none = record {
  severity = severity;
  code = code;
  line = none;
  session_id = some session_id;
  seq = none;
}
issue_at severity code session_id (some r) = record {
  severity = severity;
  code = code;
  line = some r.line;
  session_id = some session_id;
  seq = some r.event.seq;
}

-- Missing parts are errors in a strict replay, and warnings in a partial one.
abbrev pub pending_severity : Mode → Severity
pending_severity strict = error
pending_severity partial = warning

abbrev pub head_record : List JournalRecord → Option JournalRecord
head_record [] = none
head_record (r ∷ rs) = some r

abbrev pub is_loaded : EventType → Bool
is_loaded flow_loaded = true
is_loaded _ = false

abbrev pub starts_loaded : Option JournalRecord → Bool
starts_loaded none = false
starts_loaded (some r) = is_loaded r.event.draft.type

abbrev pub starts_at_two : Option JournalRecord → Bool
starts_at_two none = false
starts_at_two (some r) = r.event.seq == 2

-- The checks before the loop: the budget of frames and the anchor.
unfoldable pub check_start : String → List JournalRecord → ReplayOptions → Log → Log
check_start session_id records options log =
    let first = head_record records in
    let exceeds = options.include_frames && ltb log.frames_remaining (length records) in
    let framed =
      if exceeds
      then add_issue (issue_at error "FRAME_LIMIT_EXCEEDED" session_id none) log
      else if options.include_frames
      then record log { frames_remaining = log.frames_remaining - length records }
      else log in
    add_if (options.require_anchor && starts_loaded first && not (starts_at_two first))
      (issue_at (pending_severity options.mode) "SESSION_SEQUENCE_START" session_id first)
      (add_if (options.require_anchor && not (starts_loaded first))
        (issue_at (pending_severity options.mode) "SESSION_ANCHOR_MISSING" session_id first) framed)

abbrev pub is_terminal : SessionStatus → Bool
is_terminal session_completed = true
is_terminal session_cancelled = true
is_terminal session_failed = true
is_terminal session_reconciliation_required = true
is_terminal _ = false

unfoldable pub check_open : JournalReplayIssue → List (String × ℕ) → Log → Log
check_open issue [] log = log
check_open issue (t ∷ ts) log = check_open issue ts (add_issue issue log)

unfoldable pub check_pending : JournalReplayIssue → List (String × ℕ) → Log → Log
check_pending issue [] log = log
check_pending issue ((t, n) ∷ ts) log = check_pending issue ts (add_if (ltb 0 n) issue log)

-- The checks behind the loop: an outcome, no open transaction, no pending request.
unfoldable pub check_end : String → Mode → Run → Log
check_end session_id mode run =
    check_pending (issue_at (pending_severity mode) "HOST_REQUEST_UNRESOLVED" session_id none)
      run.context.pending_host_requests
      (check_open (issue_at (pending_severity mode) "OPEN_TRANSACTION" session_id none)
        run.context.active_transactions
        (add_if (not (is_terminal run.state.status))
          (issue_at (pending_severity mode) "SESSION_INCOMPLETE" session_id none) run.log))

abbrev pub is_of : String → JournalReplayIssue → Bool
is_of session_id issue = is_same_session issue.session_id session_id

-- The log of a session: the issues that it has already, and whether one of them is an error.
unfoldable pub open_log : String → Log → Log
open_log session_id log =
    let issues = filter (is_of session_id) log.all_issues in
    record log { issues = issues; has_error = any is_error issues }

abbrev pub ts_of : Option JournalRecord → String
ts_of none = ""
ts_of (some r) = r.event.ts

unfoldable pub last_record : List JournalRecord → Option JournalRecord
last_record [] = none
last_record (r ∷ []) = some r
last_record (r ∷ s ∷ rs) = last_record (s ∷ rs)

abbrev pub run_of : String → Log → Run
run_of session_id log = record {
  state = initial_state session_id;
  context = empty_context;
  log = log;
  frames = [];
  previous = none;
}

unfoldable pub replay_session_records :
    (String → Option ℤ) → String → List JournalRecord → ReplayOptions → Log → ReplayedSession × Log
replay_session_records parse_time session_id records options log =
    let opened = open_log session_id log in
    let framed = options.include_frames && not (ltb opened.frames_remaining (length records)) in
    let run =
      replay_records parse_time session_id framed records
        (run_of session_id (check_start session_id records options opened)) in
    let checked = check_end session_id options.mode run in
    (
      record {
        session_id = session_id;
        valid = not checked.has_error;
        event_count = length records;
        first_ts = ts_of (head_record records);
        last_ts = ts_of (last_record records);
        state = run.state;
        frames = run.frames;
        issues = checked.issues;
      },
      checked,
    )
