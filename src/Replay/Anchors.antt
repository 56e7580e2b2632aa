-- ===== src/Replay/Anchors.antt =====
-- What a valid report of `inspectJournalText` says of the journal's anchors, in
-- packages/journal-replay/src/index.ts.
use cashblocks.Prelude.{
  ℕ, none, ◌≡◌, ◌≤◌, refl, subst, Bool, true, false, not, ◌&&◌, Bool-cases, inl, inr, List, [], ◌∷◌,
  String, length, arith, if_rule, filter, any, ◌==◌, ltb,
}
use cashblocks.Prelude.Result.{ok}
use cashblocks.Replay.Types.{error, JournalReplayIssue, JournalRecord}
use cashblocks.Replay.Log.{is_error, Parsing, add_parsing_issues}
use cashblocks.Replay.Session.{strict, ReplayOptions}
use cashblocks.Replay.Lines.{journal_lines}
use cashblocks.Replay.Reading.{Platform, JournalReplayOptions, Limits, nothing_read, read_lines}
use cashblocks.Prelude.Sort.{sort}
use cashblocks.Replay.Groups.{group, is_unscoped}
use cashblocks.Replay.Inspect.{
  bare_issue, record_issue, add_when, is_start, check_unscoped, check_anchors, check_anchor_order,
  session_starts, check_journal, replay_groups, JournalReplayReport, mode_of, frames_of, budget_of,
  is_later, report_of, inspect_journal_text,
}
use cashblocks.Replay.Limits.{inspected, limits_of_positive}
use cashblocks.Replay.Parsing.{
  is_bad, add_parsing_issues_bad, add_when_keeps, unscoped_keeps, anchors_keep, anchor_order_keeps,
}
use cashblocks.Replay.Shared.{groups_keep_error}
use cashblocks.Replay.Report.{checked_kept}
use cashblocks.Replay.Counts.{sessions_length, length-sort}

abbrev IsBad : Parsing → Type 0
IsBad p = is_bad p ≡ true

stays-IsBad :
    (max_issues : ℕ) (incoming : List JournalReplayIssue) (p : Parsing)
    → IsBad p
    → IsBad (add_parsing_issues max_issues incoming p)
stays-IsBad max_issues incoming p h = add_parsing_issues_bad max_issues incoming p (ground arith)

add_when-IsBad :
    (max_issues : ℕ) (test : Bool) (issue : JournalReplayIssue) (p : Parsing)
    → is_error issue ≡ true
    → test ≡ true
    → IsBad (add_when max_issues test issue p)
unfolding add_when
add_when-IsBad max_issues test issue p fatal h =
    if_rule IsBad test _ p (λ e. add_parsing_issues_bad max_issues (issue ∷ []) p (ground arith))
      (λ e. cc)

is_good : (p q : Parsing) → (IsBad p → IsBad q) → is_bad q ≡ false → is_bad p ≡ false
is_good p q worsens h = elim (Bool-cases (is_bad p)) [
  | inl bad ↦ let worse = worsens bad in absurd (ground arith)
  | inr good ↦ good
]

-- A check that left no error behind did not fail.
passed :
    (max_issues : ℕ) (test : Bool) (issue : JournalReplayIssue) (p : Parsing)
    → is_error issue ≡ true
    → is_bad (add_when max_issues test issue p) ≡ false
    → test ≡ false
passed max_issues test issue p fatal h = elim (Bool-cases test) [
  | inl failed ↦
      let bad = add_when-IsBad max_issues test issue p fatal failed in absurd (ground arith)
  | inr good ↦ good
]

-- Where no event without a session is reported, each is a runtime.started.
unscoped_are_starts :
    (max_issues : ℕ) (records : List JournalRecord) (p : Parsing)
    → is_bad (check_unscoped max_issues records p) ≡ false
    → length (filter is_start records) ≡ length records
unfolding check_unscoped
unscoped_are_starts max_issues [] p h = refl
unscoped_are_starts max_issues (r ∷ rs) p h =
    let issues = record_issue error "UNSCOPED_EVENT" none r ∷ [] in
    let added = add_parsing_issues max_issues issues p in
    let bad : IsBad added = add_parsing_issues_bad max_issues issues p (ground arith) in
    let rest = check_unscoped max_issues rs added in
    let rest_bad : IsBad rest =
      unscoped_keeps max_issues IsBad (stays-IsBad max_issues) rs added bad in
    elim (Bool-cases (is_start r)) [
      | inl start ↦ ground (arith, unscoped_are_starts max_issues rs p)
      | inr other ↦ absurd (ground (arith))
    ]

-- The checks of a strict journal that found no error.
checks_passed :
    (max_issues : ℕ) (line_count : ℕ) (unscoped : List JournalRecord)
    (grouped : List (String × List JournalRecord)) (p : Parsing)
    → is_bad (check_journal max_issues strict line_count unscoped grouped p) ≡ false
    → (length unscoped ≡ length grouped) × (1 ≤ length grouped)
unfolding check_journal
checks_passed max_issues line_count unscoped grouped p h =
    let starts = filter is_start unscoped in
    let ordered = sort (λ a b. ltb b.line a.line) (session_starts grouped) in
    let empty = bare_issue error "EMPTY_JOURNAL" in
    let no_sessions = bare_issue error "NO_SESSIONS" in
    let mismatch = bare_issue error "RUNTIME_SESSION_MISMATCH" in
    let has_none = length grouped == 0 && ltb 0 line_count in
    let differ = not (length starts == length grouped) in
    let p_1 = add_when max_issues (line_count == 0) empty p in
    let p_2 = check_unscoped max_issues unscoped p_1 in
    let p_3 = add_when max_issues has_none no_sessions p_2 in
    let p_4 = add_when max_issues differ mismatch p_3 in
    let stays = stays-IsBad max_issues in
    let final =
      check_anchor_order max_issues strict starts ordered
        (check_anchors max_issues strict starts p_4) in
    let from_4 : (IsBad p_4 → IsBad final) = λ b.
      anchor_order_keeps max_issues IsBad stays strict starts ordered _
        (anchors_keep max_issues IsBad stays strict starts p_4 b) in
    let from_3 : (IsBad p_3 → IsBad p_4) =
      add_when_keeps max_issues IsBad stays differ mismatch p_3 in
    let from_2 : (IsBad p_2 → IsBad p_3) =
      add_when_keeps max_issues IsBad stays has_none no_sessions p_2 in
    let from_1 : (IsBad p_1 → IsBad p_2) = unscoped_keeps max_issues IsBad stays unscoped p_1 in
    let good_4 = is_good p_4 final from_4 h in
    let good_3 = is_good p_3 p_4 from_3 good_4 in
    let good_2 = is_good p_2 p_3 from_2 good_3 in
    let good_1 = is_good p_1 p_2 from_1 good_2 in
    let same = passed max_issues differ mismatch p_3 refl good_4 in
    let found = passed max_issues has_none no_sessions p_2 refl good_3 in
    let lines = passed max_issues (line_count == 0) empty p refl good_1 in
    let started = unscoped_are_starts max_issues unscoped p_1 good_2 in
    (ground (arith), ground (arith))

-- An error anywhere in a valid journal would still show.
checked_good :
    (platform : Platform) (frames : Bool) (limits : Limits) (lines : List (ℕ × List ℕ))
    → 1 ≤ limits.max_issues
    → let read = read_lines platform limits lines nothing_read in
      (report_of platform strict frames limits read).valid ≡ true
      → is_bad (
          check_journal limits.max_issues strict read.line_count
            (filter is_unscoped read.records)
            (group read.records [])
            read.parsing)
        ≡ false
unfolding report_of
checked_good platform frames limits lines positive valid =
    let read = read_lines platform limits lines nothing_read in
    let grouped = group read.records [] in
    let checked =
      check_journal limits.max_issues strict read.line_count (filter is_unscoped read.records)
        grouped read.parsing in
    let options : ReplayOptions = record {
      include_frames = frames;
      mode = strict;
      require_anchor = true;
    } in
    let shows = (checked_kept platform strict limits lines positive).shows in
    elim (Bool-cases (any is_error checked.issues)) [
      | inl bad ↦
          let later =
            groups_keep_error platform.parse_time options grouped (budget_of limits checked) bad in
          absurd (ground arith)
      | inr good ↦ ground arith
    ]

anchored :
    (platform : Platform) (frames : Bool) (limits : Limits) (lines : List (ℕ × List ℕ))
    → 1 ≤ limits.max_issues
    → let report =
        report_of platform strict frames limits (read_lines platform limits lines nothing_read) in
      report.valid ≡ true
      → (report.unscoped_event_count ≡ length report.sessions) × (1 ≤ length report.sessions)
unfolding report_of
anchored platform frames limits lines positive valid =
    let read = read_lines platform limits lines nothing_read in
    let unscoped = filter is_unscoped read.records in
    let grouped = group read.records [] in
    let checked =
      check_journal limits.max_issues strict read.line_count unscoped grouped read.parsing in
    let options : ReplayOptions = record {
      include_frames = frames;
      mode = strict;
      require_anchor = true;
    } in
    let log = budget_of limits checked in
    let sessions = (replay_groups platform.parse_time options grouped log).0 in
    let (same, some_group) =
      checks_passed limits.max_issues read.line_count unscoped grouped read.parsing
        (checked_good platform frames limits lines positive valid) in
    let replayed = sessions_length platform.parse_time options grouped log in
    let sorted = length-sort (is_later platform) sessions in
    (omega (arith, same, replayed, sorted), omega (arith, some_group, replayed, sorted))

-- A valid report in strict mode has a session, and counts as many events without a session as it has
-- sessions.
pub strict_report_anchored :
    (platform : Platform) (text : List ℕ) (options : JournalReplayOptions)
    (report : JournalReplayReport)
    → inspect_journal_text platform text options ≡ ok report
    → mode_of options.mode ≡ strict
    → report.valid ≡ true
    → (report.unscoped_event_count ≡ length report.sessions) × (1 ≤ length report.sessions)
strict_report_anchored platform text options report h is_strict valid =
    let (limits, e, same) = inspected platform text options report h in
    let frames = frames_of options.include_frames in
    let read = read_lines platform limits (journal_lines text) nothing_read in
    let stated = subst (λ m. report_of platform m frames limits read ≡ report) is_strict same in
    subst
      (λ r. r.valid ≡ true → (r.unscoped_event_count ≡ length r.sessions) × (1 ≤ length r.sessions))
      stated
      (anchored platform frames limits (journal_lines text) (limits_of_positive options limits e))
      valid
