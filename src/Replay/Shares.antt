-- ===== src/Replay/Shares.antt =====
-- The sessions of a report of `inspectJournalText` in packages/journal-replay/src/index.ts against the
-- records of its journal.
use cashblocks.Prelude.{
  ℕ, ◌+◌, ◌≡◌, refl, ap, ◌∙◌, subst, Bool, true, false, Option, none, some, List, [], ◌∷◌, String,
  str_eq, arith, if◌then◌else◌, filter, any, All,
}
use cashblocks.Prelude.Int.{ℤ}
use cashblocks.Prelude.Text.{lookup}
use cashblocks.Replay.Types.{JournalRecord}
use cashblocks.Replay.Log.{Log}
use cashblocks.Replay.Session.{ReplayOptions, ReplayedSession, replay_session_records}
use cashblocks.Replay.Groups.{group}
use cashblocks.Replay.Inspect.{replay_groups}
use cashblocks.Replay.Counts.{sum_of}
use cashblocks.Prelude.Result.{ok}
use cashblocks.Prelude.{length}
use cashblocks.Replay.Session.{Mode}
use cashblocks.Replay.Lines.{journal_lines}
use cashblocks.Replay.Groups.{is_unscoped}
use cashblocks.Replay.Reading.{
  Platform, JournalReplayOptions, Limits, limits_of, nothing_read, read_lines, Reading,
}
use cashblocks.Replay.Inspect.{
  check_journal, JournalReplayReport, mode_of, frames_of, budget_of, is_later, report_of,
  inspect_journal_text,
}
use cashblocks.Replay.Limits.{inspected}
use cashblocks.Replay.Shared.{sort-All}
use cashblocks.Replay.Counts.{sort_sum, counted}
use cashblocks.Replay.Partition.{
  is_in, records_with, Groups, named, extend, lookup-group, IsDistinct, group-IsDistinct,
  HoldsRecords, group-HoldsRecords,
}

-- A session that is what replaySessionRecords makes of the records of its id.
abbrev pub IsReplayOf :
    (String → Option ℤ) → ReplayOptions → List JournalRecord → ReplayedSession → Type 0
IsReplayOf parse_time options records s =
    (log : Log) × (s
      ≡ (replay_session_records parse_time s.session_id (records_with s.session_id records) options
          log).0)

replay_groups-IsReplayOf :
    (parse_time : String → Option ℤ) (options : ReplayOptions) (records : List JournalRecord)
    (groups : Groups) (log : Log)
    → HoldsRecords records groups
    → All (IsReplayOf parse_time options records) (replay_groups parse_time options groups log).0
unfolding replay_groups replay_session_records
replay_groups-IsReplayOf parse_time options records [] log h = tt
replay_groups-IsReplayOf parse_time options records ((id, rs) ∷ groups) log h = (
  (log, ap (λ held. (replay_session_records parse_time id held options log).0) h.0),
  replay_groups-IsReplayOf parse_time options records groups _ h.1,
)

-- How often an id is one of a session.
abbrev pub is_session : String → ReplayedSession → ℕ
is_session id s = if str_eq s.session_id id then 1 else 0

abbrev is_key : String → String × List JournalRecord → ℕ
is_key id (j, records) = if str_eq j id then 1 else 0

abbrev is_present : Option (List JournalRecord) → ℕ
is_present none = 0
is_present (some records) = 1

key_sum :
    (id : String) (groups : Groups)
    → IsDistinct groups
    → sum_of (is_key id) groups ≡ is_present (lookup id groups)
unfolding lookup
key_sum id [] h = refl
key_sum id ((j, v) ∷ groups) h =
    once (str_eq j id) (lookup id groups)
      (λ e. subst (λ k. lookup k groups ≡ none) (named j id e) h.0) (key_sum id groups h.1)
  where
    once :
        (b : Bool) (found : Option (List JournalRecord))
        → (b ≡ true → found ≡ none)
        → sum_of (is_key id) groups ≡ is_present found
        → (if b then 1 else 0) + sum_of (is_key id) groups
          ≡ is_present (if b then some v else found)
    once true found gone e = let nothing = ap is_present (gone refl) in omega (arith, e, nothing)
    once false found gone e = omega (arith, e)

session_sum :
    (parse_time : String → Option ℤ) (options : ReplayOptions) (id : String) (groups : Groups)
    (log : Log)
    → sum_of (is_session id) (replay_groups parse_time options groups log).0
      ≡ sum_of (is_key id) groups
unfolding replay_groups replay_session_records
session_sum parse_time options id [] log = refl
session_sum parse_time options id ((j, rs) ∷ groups) log =
    ap ((if str_eq j id then 1 else 0) +◌) (session_sum parse_time options id groups _)

present_any :
    (id : String) (records : List JournalRecord)
    → is_present (extend none (records_with id records)) ≡ (if any (is_in id) records then 1 else 0)
present_any id [] = refl
present_any id (r ∷ rs) = ground (arith, present_any id rs)

-- How a report shares out the records of its journal: each of its sessions is the replay of exactly the
-- records that carry its id, in their order; an id has one session if a record carries it, and none if
-- none does; the other records are those without a session; and the numbers add up.
pub record IsPartition (parse_time : String → Option ℤ) (options : ReplayOptions)
    (records : List JournalRecord) (report : JournalReplayReport) : Type 0 where
  pub replays : All (IsReplayOf parse_time options records) report.sessions
  pub once :
      (id : String)
      → sum_of (is_session id) report.sessions ≡ (if any (is_in id) records then 1 else 0)
  pub all_events : report.event_count ≡ length records
  pub others : report.unscoped_event_count ≡ length (filter is_unscoped records)
  pub adds_up :
      report.event_count ≡ report.unscoped_event_count + sum_of (λ s. s.event_count) report.sessions

shared_out :
    (platform : Platform) (mode : Mode) (frames : Bool) (limits : Limits) (read : Reading)
    → IsPartition platform.parse_time
        (record { include_frames = frames; mode = mode; require_anchor = true })
        read.records
        (report_of platform mode frames limits read)
unfolding report_of lookup
shared_out platform mode frames limits read =
    let records = read.records in
    let grouped = group records [] in
    let checked =
      check_journal limits.max_issues mode read.line_count (filter is_unscoped records) grouped
        read.parsing in
    let options : ReplayOptions = record {
      include_frames = frames;
      mode = mode;
      require_anchor = true;
    } in
    let log = budget_of limits checked in
    let sessions = (replay_groups platform.parse_time options grouped log).0 in
    record {
      replays =
          sort-All (is_later platform) (IsReplayOf platform.parse_time options records) sessions (
            replay_groups-IsReplayOf platform.parse_time options records grouped log
              (group-HoldsRecords records));
      once = λ id.
          sort_sum (is_later platform) (is_session id) sessions
          ∙ session_sum platform.parse_time options id grouped log
          ∙ key_sum id grouped (group-IsDistinct records [] tt)
          ∙ ap is_present (lookup-group id records [])
          ∙ present_any id records;
      all_events = refl;
      others = refl;
      adds_up = counted platform mode frames limits read;
    }

-- No event is lost, moved to another session or counted twice: each session of a report is the replay of
-- exactly the records that carry its id, in the order of the journal; an id that records carry has one
-- session, and any other id has none; and the events of a report are those without a session and
-- those of its sessions. The records are those that the loop over the lines keeps.
pub report-IsPartition :
    (platform : Platform) (text : List ℕ) (options : JournalReplayOptions)
    (report : JournalReplayReport)
    → inspect_journal_text platform text options ≡ ok report
    → (limits : Limits) × (limits_of options ≡ ok limits)
      × IsPartition platform.parse_time
          (record {
            include_frames = frames_of options.include_frames;
            mode = mode_of options.mode;
            require_anchor = true;
          })
          (read_lines platform limits (journal_lines text) nothing_read).records
          report
report-IsPartition platform text options report h =
    let (limits, e, same) = inspected platform text options report h in
    let read = read_lines platform limits (journal_lines text) nothing_read in
    let mode = mode_of options.mode in
    let frames = frames_of options.include_frames in
    (
      limits,
      e,
      subst
          (IsPartition platform.parse_time
            (record { include_frames = frames; mode = mode; require_anchor = true }) read.records)
          same (shared_out platform mode frames limits read),
    )
