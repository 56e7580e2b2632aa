-- ===== src/Replay/Limits.antt =====
-- The limits of `inspectJournalText` in packages/journal-replay/src/index.ts, and its run as a whole.
use cashblocks.Prelude.{
  ℕ, ◌≡◌, ◌≤◌, subst, ◌&&◌, Option, none, some, List, String, arith, if_rule, leb, ltb,
}
use cashblocks.Prelude.Int.{ℤ, pos, negsuc}
use cashblocks.Prelude.Result.{Result, ok, err, >>=-eq-ok, throw_if-eq-ok, ok-injective}
use cashblocks.Cash.{max_safe_integer}
use cashblocks.Replay.Lines.{journal_lines}
use cashblocks.Replay.Reading.{
  Platform, JournalReplayOptions, Limits, InspectError, no_positive_safe_integer, text_too_large,
  limit_or, limits_of, nothing_read, read_lines,
}
use cashblocks.Replay.Inspect.{
  JournalReplayReport, mode_of, frames_of, report_of, inspect_journal_text,
}

-- Every limit is positive.
limit_or_positive :
    (name : String) (fallback : ℕ) (given : Option ℤ) (n : ℕ)
    → 1 ≤ fallback
    → limit_or name fallback given ≡ ok n
    → 1 ≤ n
unfolding limit_or
limit_or_positive name fallback none n h e = let same = ok-injective fallback n e in omega arith
limit_or_positive name fallback (some (pos m)) n h e =
    if_rule {B = Result InspectError ℕ} (λ checked. checked ≡ ok n → 1 ≤ n)
      (ltb 0 m && leb m max_safe_integer) (ok m) (err (no_positive_safe_integer name))
      (λ t f. let same = ok-injective m n f in ground arith) (λ t f. cc) e
limit_or_positive name fallback (some (negsuc m)) n h e = cc

pub limits_of_positive :
    (options : JournalReplayOptions) (limits : Limits)
    → limits_of options ≡ ok limits
    → 1 ≤ limits.max_issues
unfolding limits_of
limits_of_positive options limits h =
    let (file_bytes, e_1, h_1) =
      >>=-eq-ok (limit_or "maxFileBytes" 52428800 options.max_file_bytes) _ h in
    let (line_bytes, e_2, h_2) =
      >>=-eq-ok (limit_or "maxLineBytes" 1048576 options.max_line_bytes) _ h_1 in
    let (events, e_3, h_3) = >>=-eq-ok (limit_or "maxEvents" 100000 options.max_events) _ h_2 in
    let (frames, e_4, h_4) = >>=-eq-ok (limit_or "maxFrames" 1000 options.max_frames) _ h_3 in
    let (lines, e_5, h_5) = >>=-eq-ok (limit_or "maxLines" 200000 options.max_lines) _ h_4 in
    let (issues, e_6, h_6) = >>=-eq-ok (limit_or "maxIssues" 10000 options.max_issues) _ h_5 in
    let same = ok-injective _ limits h_6 in
    let positive =
      limit_or_positive "maxIssues" 10000 options.max_issues issues (omega arith) e_6 in
    subst (λ l. 1 ≤ l.max_issues) same positive

-- What was inspected: the limits, and the report on what has been read.
pub inspected :
    (platform : Platform) (text : List ℕ) (options : JournalReplayOptions)
    (report : JournalReplayReport)
    → inspect_journal_text platform text options ≡ ok report
    → (limits : Limits) × (limits_of options ≡ ok limits)
      × (report_of platform
            (mode_of options.mode)
            (frames_of options.include_frames)
            limits
            (read_lines platform limits (journal_lines text) nothing_read)
          ≡ report)
unfolding inspect_journal_text
inspected platform text options report h =
    let (limits, e, rest) = >>=-eq-ok (limits_of options) _ h in
    let (fits, done) =
      throw_if-eq-ok (ltb limits.max_file_bytes (platform.byte_length text))
        (text_too_large limits.max_file_bytes) _ rest in
    (limits, e, ok-injective _ report done)
