-- ===== src/Replay/Verdict.antt =====
-- The verdict on a session in packages/journal-replay/src/index.ts against the issues that are
-- reported.
use cashblocks.Prelude.{
  ◌≡◌, refl, true, false, not, ◌||◌, ◌&&◌, List, [], ◌∷◌, Option, String, arith, any, any-append,
  any-filter,
}
use cashblocks.Prelude.Int.{ℤ}
use cashblocks.Replay.Types.{JournalReplayIssue, JournalRecord}
use cashblocks.Replay.Log.{Log, is_error, limit_issue, replace_last, add_issue}
use cashblocks.Replay.Session.{ReplayOptions, is_of, open_log, replay_session_records}
use cashblocks.Replay.Keeps.{replay_keeps}

pub any-replace_last :
    (issue : JournalReplayIssue) (issues : List JournalReplayIssue)
    → is_error issue ≡ true
    → any is_error (replace_last issue issues) ≡ true
unfolding replace_last
any-replace_last issue [] h = ground arith
any-replace_last issue (i ∷ []) h = ground arith
any-replace_last issue (i ∷ j ∷ rest) h = ground (arith, any-replace_last issue (j ∷ rest) h)

-- An error among the session's issues is known to the session; an error that is known, and a budget
-- that has run out, show as an error among all issues.
pub record IsHonest (log : Log) : Type 0 where
  pub told : (any is_error log.issues && not log.has_error) ≡ false
  pub shown :
      ((log.has_error || log.issue_limit_reached) && not (any is_error log.all_issues)) ≡ false

add_issue-IsHonest :
    (issue : JournalReplayIssue) (log : Log) → IsHonest log → IsHonest (add_issue issue log)
unfolding add_issue
add_issue-IsHonest issue log h =
    let t = h.told in
    let s = h.shown in
    let mine = any-append is_error log.issues (issue ∷ []) in
    let whole = any-append is_error log.all_issues (issue ∷ []) in
    let replaced = any-replace_last limit_issue log.all_issues refl in
    record { told = ground (arith, mine); shown = ground (arith, whole, replaced) }

open_log-IsHonest :
    (session_id : String) (log : Log)
    → (log.issue_limit_reached && not (any is_error log.all_issues)) ≡ false
    → IsHonest (open_log session_id log)
unfolding open_log
open_log-IsHonest session_id log h =
    let mine = any-filter is_error (is_of session_id) log.all_issues in
    record { told = ground arith; shown = ground (arith, mine) }

pub replay-IsHonest :
    (parse_time : String → Option ℤ) (session_id : String) (records : List JournalRecord)
    (options : ReplayOptions) (log : Log)
    → (log.issue_limit_reached && not (any is_error log.all_issues)) ≡ false
    → IsHonest (replay_session_records parse_time session_id records options log).1
replay-IsHonest parse_time session_id records options log h =
    replay_keeps IsHonest add_issue-IsHonest (λ n l k. record { told = k.told; shown = k.shown })
      parse_time session_id records options log (open_log-IsHonest session_id log h)

-- Where a budget that had run out before has left an error among all issues, a session that is called
-- valid reports no error of its own.
pub valid_has_no_error :
    (parse_time : String → Option ℤ) (session_id : String) (records : List JournalRecord)
    (options : ReplayOptions) (log : Log)
    → (log.issue_limit_reached && not (any is_error log.all_issues)) ≡ false
    → (replay_session_records parse_time session_id records options log).0.valid ≡ true
    → any is_error (replay_session_records parse_time session_id records options log).0.issues
      ≡ false
unfolding replay_session_records
valid_has_no_error parse_time session_id records options log h valid =
    let t = (replay-IsHonest parse_time session_id records options log h).told in ground arith

-- Where a budget that had run out before has left an error among all issues, a session that is called
-- invalid leaves an error among all issues, even where the
-- budget of issues had run out.
pub invalid_shows_error :
    (parse_time : String → Option ℤ) (session_id : String) (records : List JournalRecord)
    (options : ReplayOptions) (log : Log)
    → (log.issue_limit_reached && not (any is_error log.all_issues)) ≡ false
    → (replay_session_records parse_time session_id records options log).0.valid ≡ false
    → any is_error (replay_session_records parse_time session_id records options log).1.all_issues
      ≡ true
unfolding replay_session_records
invalid_shows_error parse_time session_id records options log h invalid =
    let s = (replay-IsHonest parse_time session_id records options log h).shown in ground arith
