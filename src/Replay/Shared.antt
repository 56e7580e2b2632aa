-- ===== src/Replay/Shared.antt =====
-- The replay of a journal's sessions over their shared log, in packages/journal-replay/src/index.ts.
use cashblocks.Prelude.{
  ℕ, ◌≡◌, ◌≤◌, refl, Bool, true, false, not, ◌&&◌, Option, Bool-cases, inl, inr, List, [], ◌∷◌,
  String, any, any-append, arith, if_rule, All,
}
use cashblocks.Prelude.Int.{ℤ}
use cashblocks.Replay.Types.{JournalReplayIssue, JournalRecord}
use cashblocks.Replay.Log.{is_error, limit_issue, Log, add_issue}
use cashblocks.Replay.Session.{ReplayOptions, ReplayedSession, open_log, replay_session_records}
use cashblocks.Replay.Keeps.{replay_keeps}
use cashblocks.Replay.Bounds.{FitsBudget, replay-FitsBudget}
use cashblocks.Replay.Verdict.{
  any-replace_last, valid_has_no_error, invalid_shows_error, replay-IsHonest,
}
use cashblocks.Prelude.Sort.{place, sort}
use cashblocks.Replay.Inspect.{replay_groups}

-- What a log keeps under every added issue, the replay of the sessions keeps.
module _ (P : Log → Type 0)
    (adds : (issue : JournalReplayIssue) (log : Log) → P log → P (add_issue issue log))
    (frames : (n : ℕ) (log : Log) → P log → P (record log { frames_remaining = n }))
    (opens : (session_id : String) (log : Log) → P log → P (open_log session_id log)) where
  groups_keep :
      (parse_time : String → Option ℤ) (options : ReplayOptions)
      (groups : List (String × List JournalRecord)) (log : Log)
      → P log
      → P (replay_groups parse_time options groups log).1
  unfolding replay_groups
  groups_keep parse_time options [] log h = h
  groups_keep parse_time options ((id, records) ∷ groups) log h =
      groups_keep parse_time options groups _
        (replay_keeps P adds frames parse_time id records options log (opens id log h))

-- An error among all issues, and a limit that shows as one.
abbrev HasError : Log → Type 0
HasError log = any is_error log.all_issues ≡ true

abbrev IsShown : Log → Type 0
IsShown log = (log.issue_limit_reached && not (any is_error log.all_issues)) ≡ false

add_issue-HasError :
    (issue : JournalReplayIssue) (log : Log) → HasError log → HasError (add_issue issue log)
unfolding add_issue
add_issue-HasError issue log h = ground (
  arith,
  any-append is_error log.all_issues (issue ∷ []),
  any-replace_last limit_issue log.all_issues refl,
)

pub groups_keep_error :
    (parse_time : String → Option ℤ) (options : ReplayOptions)
    (groups : List (String × List JournalRecord)) (log : Log)
    → HasError log
    → HasError (replay_groups parse_time options groups log).1
unfolding open_log
groups_keep_error = groups_keep HasError add_issue-HasError (λ n log h. h) (λ id log h. h)

-- The verdict and the issues of a session.
abbrev pub IsClean : ReplayedSession → Type 0
IsClean session = (session.valid ≡ true) × (any is_error session.issues ≡ false)

pub sessions-IsClean :
    (parse_time : String → Option ℤ) (options : ReplayOptions)
    (groups : List (String × List JournalRecord)) (log : Log)
    → IsShown log
    → any is_error (replay_groups parse_time options groups log).1.all_issues ≡ false
    → All IsClean (replay_groups parse_time options groups log).0
unfolding replay_groups
sessions-IsClean parse_time options [] log shown h = tt
sessions-IsClean parse_time options ((id, records) ∷ groups) log shown h =
    let replayed = replay_session_records parse_time id records options log in
    let honest = (replay-IsHonest parse_time id records options log shown).shown in
    elim (Bool-cases replayed.0.valid) [
      | inl valid ↦ (
        (valid, valid_has_no_error parse_time id records options log shown valid),
        sessions-IsClean parse_time options groups replayed.1 (ground arith) h,
      )
      | inr invalid ↦
          let here = invalid_shows_error parse_time id records options log shown invalid in
          let later = groups_keep_error parse_time options groups replayed.1 here in
          absurd (ground arith)
    ]

module _ {A : Type 0} (is_after : A → A → Bool) (P : A → Type 0) where
  place-All : (a : A) (xs : List A) → P a → All P xs → All P (place is_after a xs)
  unfolding place
  place-All a [] h hs = (h, tt)
  place-All a (x ∷ xs) h hs =
      if_rule (All P) (is_after a x) _ _ (λ e. (hs.0, place-All a xs h hs.1)) (λ e. (h, hs))

  pub sort-All : (xs : List A) → All P xs → All P (sort is_after xs)
  unfolding sort
  sort-All [] hs = tt
  sort-All (x ∷ xs) hs = place-All x (sort is_after xs) hs.0 (sort-All xs hs.1)

-- The log behind the replay of a reading's sessions.
pub groups_FitsBudget :
    (bound : ℕ) (parse_time : String → Option ℤ) (options : ReplayOptions)
    (groups : List (String × List JournalRecord)) (log : Log)
    → 1 ≤ bound
    → FitsBudget bound log
    → FitsBudget bound (replay_groups parse_time options groups log).1
unfolding replay_groups
groups_FitsBudget bound parse_time options [] log positive h = h
groups_FitsBudget bound parse_time options ((id, records) ∷ groups) log positive h =
    groups_FitsBudget bound parse_time options groups _ positive
      (replay-FitsBudget parse_time id records options log bound positive h)
