-- ===== src/Replay/Report.antt =====
-- The report of `inspectJournalText` in packages/journal-replay/src/index.ts: its bounds, where its
-- events come from, and what its verdict says of the sessions.
use mathlib.Core.List.{Memᴰ}
use cashblocks.Prelude.{
  ℕ, suc, ◌≡◌, ◌≤◌, subst, ◌∙◌, refl, sym, Bool, true, false, some, List, [], ◌∷◌, length,
  length-append, arith, leb, All, All-append, filter,
}
use cashblocks.Prelude.Result.{ok, ok-injective}
use cashblocks.Contracts.{Json}
use cashblocks.Replay.Types.{JournalRecord}
use cashblocks.Replay.Log.{Parsing}
use cashblocks.Replay.Session.{Mode, ReplayOptions}
use cashblocks.Replay.Bounds.{FitsBudget}
use cashblocks.Replay.Lines.{journal_lines}
use cashblocks.Replay.Events.{event_of_json}
use cashblocks.Replay.Typed.{IsValueOf, event_of_json-IsValueOf}
use cashblocks.Replay.Reading.{
  Platform, JournalReplayOptions, Limits, limits_of, Reading, nothing_read, read_lines,
}
use cashblocks.Replay.Limits.{limits_of_positive, inspected}
use cashblocks.Replay.ReadLines.{read_lines_keeps}
use cashblocks.Replay.Groups.{group, is_unscoped}
use cashblocks.Replay.Parsing.{IsKept, add_parsing_issues-IsKept, journal_keeps}
use cashblocks.Replay.Inspect.{
  check_journal, JournalReplayReport, mode_of, frames_of, budget_of, is_later, report_of,
  inspect_journal_text,
}
use cashblocks.Replay.Shared.{groups_FitsBudget, IsClean, sessions-IsClean, sort-All}

-- A record comes from a line of the text: the line parses to a value that is the record's event.
abbrev pub IsReadFrom : Platform → List (ℕ × List ℕ) → JournalRecord → Type 0
IsReadFrom platform lines r =
    (line : List ℕ) × (value : Json) × (Memᴰ (r.line, line) lines
      × ((platform.parse_json line ≡ some value) × IsValueOf platform.is_canonical value r.event))

record IsSound (platform : Platform) (limits : Limits) (lines : List (ℕ × List ℕ)) (r : Reading)
    : Type 0 where
  kept : IsKept limits.max_issues r.parsing
  few : length r.records ≤ limits.max_events
  are_read : All (IsReadFrom platform lines) r.records

all_members :
    {A : Type 0} (lines : List A) (P : A → Type 0) → ((a : A) → Memᴰ a lines → P a) → All P lines
all_members [] P h = tt
all_members (a ∷ lines) P h = (h a (Memᴰ.head refl), all_members lines P (λ b m. h b (Memᴰ.tail m)))

read-IsSound :
    (platform : Platform) (limits : Limits) (lines : List (ℕ × List ℕ))
    → 1 ≤ limits.max_issues
    → IsSound platform limits lines (read_lines platform limits lines nothing_read)
read-IsSound platform limits lines positive =
    read_lines_keeps platform limits (λ n line. Memᴰ (n, line) lines)
      (IsSound platform limits lines)
      (λ issues r h. record {
        kept = add_parsing_issues-IsKept limits.max_issues positive issues r.parsing h.kept;
        few = h.few;
        are_read = h.are_read;
      })
      (λ n r h. record { kept = h.kept; few = h.few; are_read = h.are_read })
      (λ n line value r allowed parsed valid room h. record {
        kept = h.kept;
        few =
            let f = h.few in
            omega (
              arith,
              length-append r.records
                  (record { line = n; event = event_of_json platform.is_canonical value } ∷ []),
              room_left limits r room,
            );
        are_read = All-append (IsReadFrom platform lines) r.records _ h.are_read (
          (
            line,
            value,
            (allowed, (parsed, event_of_json-IsValueOf platform.is_canonical value n valid)),
          ),
          tt,
        );
      })
      lines nothing_read (all_members lines _ (λ l m. m))
      (record {
        kept = record { fits = omega arith; shows = refl };
        few = omega arith;
        are_read = tt;
      })
  where
    room_left :
        (limits : Limits) (r : Reading)
        → leb limits.max_events (length r.records) ≡ false
        → suc (length r.records) ≤ limits.max_events
    room_left limits r room = ground arith

-- Every record that the loop over the lines keeps comes from a line of the text, with its number: the
-- line parses to a value, and the record's event has that value's own fields, which passed
-- the validation.
pub records_read :
    (platform : Platform) (limits : Limits) (text : List ℕ)
    → 1 ≤ limits.max_issues
    → All
        (IsReadFrom platform (journal_lines text))
        (read_lines platform limits (journal_lines text) nothing_read).records
records_read platform limits text positive =
    (read-IsSound platform limits (journal_lines text) positive).are_read

-- The reading, checked as a whole, fits the limits.
pub checked_kept :
    (platform : Platform) (mode : Mode) (limits : Limits) (lines : List (ℕ × List ℕ))
    → 1 ≤ limits.max_issues
    → let read = read_lines platform limits lines nothing_read in
      IsKept limits.max_issues (
        check_journal limits.max_issues mode read.line_count
          (filter is_unscoped read.records)
          (group read.records [])
          read.parsing)
checked_kept platform mode limits lines positive =
    journal_keeps limits.max_issues (IsKept limits.max_issues)
      (add_parsing_issues-IsKept limits.max_issues positive) mode _ _ _ _
      (read-IsSound platform limits lines positive).kept

report_fits :
    (platform : Platform) (mode : Mode) (frames : Bool) (limits : Limits)
    (lines : List (ℕ × List ℕ))
    → 1 ≤ limits.max_issues
    → let report =
        report_of platform mode frames limits (read_lines platform limits lines nothing_read) in
      (length report.issues ≤ limits.max_issues) × (report.event_count ≤ limits.max_events)
unfolding report_of
report_fits platform mode frames limits lines positive =
    let read = read_lines platform limits lines nothing_read in
    let grouped = group read.records [] in
    let checked =
      check_journal limits.max_issues mode read.line_count (filter is_unscoped read.records) grouped
        read.parsing in
    let kept = checked_kept platform mode limits lines positive in
    let options : ReplayOptions = record {
      include_frames = frames;
      mode = mode;
      require_anchor = true;
    } in
    let fits =
      groups_FitsBudget limits.max_issues platform.parse_time options grouped
        (budget_of limits checked) positive (budget_fits limits checked kept.fits) in
    (omega (arith, fits), (read-IsSound platform limits lines positive).few)
  where
    budget_fits :
        (limits : Limits) (p : Parsing)
        → length p.issues ≤ limits.max_issues
        → FitsBudget limits.max_issues (budget_of limits p)
    budget_fits limits p h = omega arith

-- A report never holds more issues, nor counts more events, than the limits of the options allow,
-- whatever the text is.
pub inspect_bounds :
    (platform : Platform) (text : List ℕ) (options : JournalReplayOptions) (limits : Limits)
    (report : JournalReplayReport)
    → limits_of options ≡ ok limits
    → inspect_journal_text platform text options ≡ ok report
    → (length report.issues ≤ limits.max_issues) × (report.event_count ≤ limits.max_events)
inspect_bounds platform text options limits report given h =
    let (found, e, same) = inspected platform text options report h in
    let is_given = ok-injective found limits (sym e ∙ given) in
    let positive = limits_of_positive options found e in
    let fits =
      report_fits platform (mode_of options.mode) (frames_of options.include_frames) found
        (journal_lines text) positive in
    subst (λ l. (length report.issues ≤ l.max_issues) × (report.event_count ≤ l.max_events))
      is_given
      (subst (λ r. (length r.issues ≤ found.max_issues) × (r.event_count ≤ found.max_events)) same
        fits)

report_of-IsClean :
    (platform : Platform) (mode : Mode) (frames : Bool) (limits : Limits)
    (lines : List (ℕ × List ℕ))
    → 1 ≤ limits.max_issues
    → let report =
        report_of platform mode frames limits (read_lines platform limits lines nothing_read) in
      report.valid ≡ true → All IsClean report.sessions
unfolding report_of
report_of-IsClean platform mode frames limits lines positive valid =
    let read = read_lines platform limits lines nothing_read in
    let grouped = group read.records [] in
    let checked =
      check_journal limits.max_issues mode read.line_count (filter is_unscoped read.records) grouped
        read.parsing in
    let kept = checked_kept platform mode limits lines positive in
    let options : ReplayOptions = record {
      include_frames = frames;
      mode = mode;
      require_anchor = true;
    } in
    sort-All (is_later platform) IsClean _ (
      sessions-IsClean platform.parse_time options grouped (budget_of limits checked) kept.shows
        (ground arith))

-- A valid report is about valid sessions only: each is called valid, and reports no error.
pub valid_report_sessions :
    (platform : Platform) (text : List ℕ) (options : JournalReplayOptions)
    (report : JournalReplayReport)
    → inspect_journal_text platform text options ≡ ok report
    → report.valid ≡ true
    → All IsClean report.sessions
valid_report_sessions platform text options report h valid =
    let (limits, e, same) = inspected platform text options report h in
    let clean =
      report_of-IsClean platform (mode_of options.mode) (frames_of options.include_frames) limits
        (journal_lines text) (limits_of_positive options limits e) in
    subst (λ r. r.valid ≡ true → All IsClean r.sessions) same clean valid
