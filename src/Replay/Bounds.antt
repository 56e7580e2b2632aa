-- ===== src/Replay/Bounds.antt =====
-- The bounds on the number of issues in packages/journal-replay/src/index.ts.
use cashblocks.Prelude.{
  ℕ, ◌+◌, ◌-◌, ◌≤◌, List, [], ◌∷◌, ◌++◌, Option, String, arith, length, take, length-append,
  take_le,
}
use cashblocks.Prelude.Int.{ℤ}
use cashblocks.Replay.Types.{JournalReplayIssue, JournalRecord}
use cashblocks.Replay.Log.{Log, Parsing, limit_issue, replace_last, add_issue, add_parsing_issues}
use cashblocks.Replay.Session.{ReplayOptions, open_log, replay_session_records}
use cashblocks.Replay.Keeps.{replay_keeps}

pub length-replace_last :
    (issue : JournalReplayIssue) (issues : List JournalReplayIssue) (bound : ℕ)
    → 1 ≤ bound
    → length issues ≤ bound
    → length (replace_last issue issues) ≤ bound
unfolding replace_last
length-replace_last issue [] bound h l = omega arith
length-replace_last issue (i ∷ []) bound h l = omega arith
length-replace_last issue (i ∷ j ∷ rest) bound h l =
    omega
      (arith, length-replace_last issue (j ∷ rest) (length (j ∷ rest)) (omega arith) (omega arith))

-- The issues that there are and the budget that is left fit the bound.
abbrev pub FitsBudget : ℕ → Log → Type 0
FitsBudget bound log = length log.all_issues + log.issues_remaining ≤ bound

add_issue-FitsBudget :
    (bound : ℕ)
    → 1 ≤ bound
    → (issue : JournalReplayIssue) (log : Log) → FitsBudget bound log
    → FitsBudget bound (add_issue issue log)
unfolding add_issue
add_issue-FitsBudget bound positive issue log fits = ground (
  arith,
  length-append log.all_issues (issue ∷ []),
  length-replace_last limit_issue log.all_issues bound positive,
)

-- A replay never reports more issues than the bound allows, however long the session is: if the
-- issues that are there and the budget that is left fit a positive bound, they do so after the replay.
pub replay-FitsBudget :
    (parse_time : String → Option ℤ) (session_id : String) (records : List JournalRecord)
    (options : ReplayOptions) (log : Log) (bound : ℕ)
    → 1 ≤ bound
    → FitsBudget bound log
    → FitsBudget bound (replay_session_records parse_time session_id records options log).1
unfolding open_log
replay-FitsBudget parse_time session_id records options log bound positive fits =
    replay_keeps (FitsBudget bound) (add_issue-FitsBudget bound positive) (λ n l h. h) parse_time
      session_id records options log fits

-- Parsing never collects more issues than a positive limit allows.
pub add_parsing_issues_bound :
    (max_issues : ℕ) (incoming : List JournalReplayIssue) (p : Parsing)
    → 1 ≤ max_issues
    → length p.issues ≤ max_issues
    → length (add_parsing_issues max_issues incoming p).issues ≤ max_issues
unfolding add_parsing_issues
add_parsing_issues_bound max_issues incoming p positive fits =
    let capacity = max_issues - length p.issues in
    let kept = p.issues ++ take (capacity - 1) incoming in
    ground (
      arith,
      take_le (capacity - 1) incoming,
      length-append p.issues incoming,
      length-append p.issues (take (capacity - 1) incoming),
      length-append kept (limit_issue ∷ []),
      length-replace_last limit_issue kept max_issues positive,
    )
