-- ===== src/Replay/Log.antt =====
-- `addIssue` of replaySessionRecords and `addParsingIssues` of inspectJournalText, in
-- packages/journal-replay/src/index.ts: issues within a budget that the sessions share.
use cashblocks.Prelude.{
  ℕ, ◌-◌, Bool, true, false, not, ◌||◌, none, List, [], ◌∷◌, ◌++◌, ◌==◌, leb, if◌then◌else◌, length,
  take,
}
use cashblocks.Replay.Types.{error, warning, JournalReplayIssue}

abbrev pub is_error : JournalReplayIssue → Bool
is_error issue = elim issue.severity [ error ↦ true | warning ↦ false ]

-- `allIssues` and the budget, shared by the sessions, and the `issues` and `hasError` of one session.
pub record Log : Type 0 where
  pub all_issues : List JournalReplayIssue
  pub issues : List JournalReplayIssue
  pub has_error : Bool
  pub frames_remaining : ℕ
  pub issues_remaining : ℕ
  pub issue_limit_reached : Bool

abbrev pub limit_issue : JournalReplayIssue
limit_issue = record {
  severity = error;
  code = "ISSUE_LIMIT_EXCEEDED";
  line = none;
  session_id = none;
  seq = none;
}

-- `list[list.length - 1] = issue`, or a push on an empty list.
unfoldable pub replace_last : JournalReplayIssue → List JournalReplayIssue → List JournalReplayIssue
replace_last issue [] = issue ∷ []
replace_last issue (i ∷ []) = issue ∷ []
replace_last issue (i ∷ j ∷ rest) = i ∷ replace_last issue (j ∷ rest)

unfoldable pub add_issue : JournalReplayIssue → Log → Log
add_issue issue log =
    if not (log.issues_remaining == 0)
    then record log {
      all_issues = log.all_issues ++ (issue ∷ []);
      issues = log.issues ++ (issue ∷ []);
      has_error = log.has_error || is_error issue;
      issues_remaining = log.issues_remaining - 1;
    }
    else if log.issue_limit_reached
    then record log { has_error = log.has_error || is_error issue }
    else record log {
      all_issues = replace_last limit_issue log.all_issues;
      issues = replace_last limit_issue log.issues;
      has_error = true;
      issue_limit_reached = true;
    }

unfoldable pub add_if : Bool → JournalReplayIssue → Log → Log
add_if test issue log = if test then add_issue issue log else log

-- The issues that parsing found, and whether their limit was reached.
pub record Parsing : Type 0 where
  pub issues : List JournalReplayIssue
  pub limit_reached : Bool

abbrev pub is_none_left : List JournalReplayIssue → Bool
is_none_left [] = true
is_none_left (i ∷ is) = false

unfoldable pub add_parsing_issues : ℕ → List JournalReplayIssue → Parsing → Parsing
add_parsing_issues max_issues incoming p =
    let capacity = max_issues - length p.issues in
    let kept = p.issues ++ take (capacity - 1) incoming in
    if p.limit_reached || is_none_left incoming
    then p
    else if leb (length incoming) capacity
    then record p { issues = p.issues ++ incoming }
    else if not (capacity == 0)
    then record { issues = kept ++ (limit_issue ∷ []); limit_reached = true }
    else if not (length kept == 0)
    then record { issues = replace_last limit_issue kept; limit_reached = true }
    else record { issues = kept; limit_reached = true }
