-- ===== src/Replay/Reading.antt =====
-- The options of `inspectJournalText` and its loop over the lines of a journal, in
-- packages/journal-replay/src/index.ts.
use cashblocks.Prelude.{
  ℕ, Bool, false, ◌&&◌, Option, none, some, List, [], ◌∷◌, ◌++◌, String, if◌then◌else◌, leb, ltb,
  all, any, length,
}
use cashblocks.Prelude.Int.{ℤ, pos, negsuc}
use cashblocks.Prelude.Result.{Result, ok, err, ◌>>=◌}
use cashblocks.Prelude.Text.{is_space}
use cashblocks.Cash.{max_safe_integer}
use cashblocks.Contracts.{Json}
use cashblocks.Replay.Types.{Severity, error, warning, JournalReplayIssue, JournalRecord}
use cashblocks.Replay.Log.{is_error, Parsing, add_parsing_issues}
use cashblocks.Replay.Session.{Mode}
use cashblocks.Replay.Events.{validate_runtime_event, event_of_json}

-- What the inspection uses of the platform, texts being lists of code units where the inspection walks
-- them: JSON.parse with none for what it throws on, Buffer.byteLength,
-- isCanonicalIsoTimestamp (which stands on Date), Date.parse and the order of localeCompare.
pub record Platform : Type 0 where
  pub parse_json : List ℕ → Option Json
  pub byte_length : List ℕ → ℕ
  pub is_canonical : String → Bool
  pub parse_time : String → Option ℤ
  pub is_after : String → String → Bool

-- `JournalReplayOptions`
pub record JournalReplayOptions : Type 0 where
  pub include_frames : Option Bool
  pub mode : Option Mode
  pub max_file_bytes : Option ℤ
  pub max_line_bytes : Option ℤ
  pub max_events : Option ℤ
  pub max_frames : Option ℤ
  pub max_lines : Option ℤ
  pub max_issues : Option ℤ

-- The options with their defaults.
pub record Limits : Type 0 where
  pub max_file_bytes : ℕ
  pub max_line_bytes : ℕ
  pub max_events : ℕ
  pub max_frames : ℕ
  pub max_lines : ℕ
  pub max_issues : ℕ

-- What the inspection throws.
pub data InspectError : Type 0 where
  no_positive_safe_integer : String → InspectError
  text_too_large : ℕ → InspectError
  file_too_large : ℕ → InspectError
  no_file : InspectError

-- `validatePositiveLimit(value ?? fallback, name)`
unfoldable pub limit_or : String → ℕ → Option ℤ → Result InspectError ℕ
limit_or name fallback none = ok fallback
limit_or name fallback (some (pos n)) =
    if ltb 0 n && leb n max_safe_integer then ok n else err (no_positive_safe_integer name)
limit_or name fallback (some (negsuc n)) = err (no_positive_safe_integer name)

unfoldable pub limits_of : JournalReplayOptions → Result InspectError Limits
unfolding limit_or
limits_of options = do
  file_bytes ← limit_or "maxFileBytes" 52428800 options.max_file_bytes
  line_bytes ← limit_or "maxLineBytes" 1048576 options.max_line_bytes
  events ← limit_or "maxEvents" 100000 options.max_events
  frames ← limit_or "maxFrames" 1000 options.max_frames
  lines ← limit_or "maxLines" 200000 options.max_lines
  issues ← limit_or "maxIssues" 10000 options.max_issues
  ok (record {
    max_file_bytes = file_bytes;
    max_line_bytes = line_bytes;
    max_events = events;
    max_frames = frames;
    max_lines = lines;
    max_issues = issues;
  })

-- `issues`, `records` and `lineCount`.
pub record Reading : Type 0 where
  pub parsing : Parsing
  pub records : List JournalRecord
  pub line_count : ℕ

-- How a turn of the loop ends: with the next line, or with `break`.
pub data Turn : Type 0 where
  next stop : Reading → Turn

abbrev pub line_issue : Severity → String → ℕ → JournalReplayIssue
line_issue severity code line = record {
  severity = severity;
  code = code;
  line = some line;
  session_id = none;
  seq = none;
}

abbrev pub add_to : Limits → List JournalReplayIssue → Reading → Reading
add_to limits issues reading = record reading {
  parsing = add_parsing_issues limits.max_issues issues reading.parsing;
}

-- A value that has been parsed.
unfoldable pub read_value : Platform → Limits → ℕ → Option Json → Reading → Turn
read_value platform limits n none reading =
    next (add_to limits (line_issue error "INVALID_JSON" n ∷ []) reading)
read_value platform limits n (some value) reading =
    let issues = validate_runtime_event platform.is_canonical value n in
    let added = add_to limits issues reading in
    if added.parsing.limit_reached
    then stop added
    else if any is_error issues
    then next added
    else if leb limits.max_events (length added.records)
    then stop (add_to limits (line_issue error "EVENT_LIMIT_EXCEEDED" n ∷ []) added)
    else next (record added {
      records =
          added.records
          ++ (record { line = n; event = event_of_json platform.is_canonical value } ∷ []);
    })

unfoldable pub read_line : Platform → Limits → ℕ → List ℕ → Reading → Turn
unfolding read_value is_space
read_line platform limits n line before =
    let reading = record before { line_count = n } in
    if ltb limits.max_lines n
    then stop (add_to limits (line_issue error "LINE_LIMIT_EXCEEDED" n ∷ []) reading)
    else if leb limits.max_issues (length reading.parsing.issues)
    then stop (add_to limits (line_issue error "ISSUE_LIMIT_EXCEEDED" n ∷ []) reading)
    else if all is_space line
    then next (add_to limits (line_issue warning "EMPTY_LINE" n ∷ []) reading)
    else if ltb limits.max_line_bytes (platform.byte_length line)
    then next (add_to limits (line_issue error "LINE_TOO_LARGE" n ∷ []) reading)
    else read_value platform limits n (platform.parse_json line) reading

unfoldable pub read_lines : Platform → Limits → List (ℕ × List ℕ) → Reading → Reading
unfolding read_line
read_lines platform limits [] reading = reading
read_lines platform limits ((n, line) ∷ lines) reading =
    elim (read_line platform limits n line reading) [
      | next read ↦ read_lines platform limits lines read
      | stop read ↦ read
    ]

abbrev pub nothing_read : Reading
nothing_read = record {
  parsing = record { issues = []; limit_reached = false };
  records = [];
  line_count = 0;
}
