-- ===== src/Replay/Parsing.antt =====
-- What `addParsingIssues` keeps, the whole inspection keeps up to the replay of the sessions, in
-- packages/journal-replay/src/index.ts.
use cashblocks.Prelude.{
  ℕ, ◌≡◌, ◌≤◌, refl, Bool, true, false, not, ◌&&◌, ◌||◌, List, [], ◌∷◌, ◌++◌, String, any,
  any-append, length, length-append, take, arith, if_rule, ◌==◌, ltb, ◌-◌, filter,
}
use cashblocks.Replay.Types.{JournalReplayIssue, JournalRecord}
use cashblocks.Replay.Log.{is_error, limit_issue, Parsing, add_parsing_issues}
use cashblocks.Replay.Session.{Mode, pending_severity}
use cashblocks.Prelude.Sort.{sort}
use cashblocks.Replay.Verdict.{any-replace_last}
use cashblocks.Replay.Bounds.{add_parsing_issues_bound}
use cashblocks.Replay.Inspect.{
  add_when, is_start, check_unscoped, check_anchors, check_anchor_order, check_journal, bare_issue,
  session_starts,
}

module _ (max_issues : ℕ) (P : Parsing → Type 0)
    (adds : (incoming : List JournalReplayIssue) (p : Parsing)
      → P p
      → P (add_parsing_issues max_issues incoming p)) where
  pub add_when_keeps :
      (test : Bool) (issue : JournalReplayIssue) (p : Parsing)
      → P p
      → P (add_when max_issues test issue p)
  unfolding add_when
  add_when_keeps true issue p h = adds _ p h
  add_when_keeps false issue p h = h

  pub unscoped_keeps :
      (records : List JournalRecord) (p : Parsing) → P p → P (check_unscoped max_issues records p)
  unfolding check_unscoped
  unscoped_keeps [] p h = h
  unscoped_keeps (r ∷ rs) p h =
      let added = adds _ p h in
      if_rule P (is_start r) _ _ (λ e. unscoped_keeps rs p h)
        (λ e. if_rule P _ _ _ (λ l. added) (λ l. unscoped_keeps rs _ added))

  pub anchors_keep :
      (mode : Mode) (records : List JournalRecord) (p : Parsing)
      → P p
      → P (check_anchors max_issues mode records p)
  unfolding check_anchors
  anchors_keep mode [] p h = h
  anchors_keep mode (r ∷ rs) p h = anchors_keep mode rs _ (add_when_keeps _ _ p h)

  pub anchor_order_keeps :
      (mode : Mode) (anchors starts : List JournalRecord) (p : Parsing)
      → P p
      → P (check_anchor_order max_issues mode anchors starts p)
  unfolding check_anchor_order
  anchor_order_keeps mode [] starts p h = h
  anchor_order_keeps mode (a ∷ anchors) [] p h = h
  anchor_order_keeps mode (a ∷ anchors) (s ∷ starts) p h =
      anchor_order_keeps mode anchors starts _ (add_when_keeps _ _ p h)

  pub journal_keeps :
      (mode : Mode) (line_count : ℕ) (unscoped : List JournalRecord)
      (grouped : List (String × List JournalRecord)) (p : Parsing)
      → P p
      → P (check_journal max_issues mode line_count unscoped grouped p)
  unfolding check_journal
  journal_keeps mode line_count unscoped grouped p h =
      let starts = filter is_start unscoped in
      let severity = pending_severity mode in
      let empty = bare_issue severity "EMPTY_JOURNAL" in
      let no_sessions = bare_issue severity "NO_SESSIONS" in
      let mismatch = bare_issue severity "RUNTIME_SESSION_MISMATCH" in
      let ordered = sort (λ a b. ltb b.line a.line) (session_starts grouped) in
      anchor_order_keeps mode starts ordered _ (
        anchors_keep mode starts _ (
          add_when_keeps (not (length starts == length grouped)) mismatch _ (
            add_when_keeps (length grouped == 0 && ltb 0 line_count) no_sessions _
              (unscoped_keeps unscoped _ (add_when_keeps (line_count == 0) empty p h)))))

-- The issues fit the limit, and where the limit has been reached one of them is an error.
pub record IsKept (max_issues : ℕ) (p : Parsing) : Type 0 where
  pub fits : length p.issues ≤ max_issues
  pub shows : (p.limit_reached && not (any is_error p.issues)) ≡ false

pub add_parsing_issues-IsKept :
    (max_issues : ℕ)
    → 1 ≤ max_issues
    → (incoming : List JournalReplayIssue) (p : Parsing) → IsKept max_issues p
    → IsKept max_issues (add_parsing_issues max_issues incoming p)
unfolding add_parsing_issues
add_parsing_issues-IsKept max_issues positive incoming p h =
    let kept = p.issues ++ take (max_issues - length p.issues - 1) incoming in
    let s = h.shows in
    let f = h.fits in
    record {
      fits = add_parsing_issues_bound max_issues incoming p positive h.fits;
      shows = ground (
        arith,
        any-append is_error kept (limit_issue ∷ []),
        any-append is_error p.issues incoming,
        any-replace_last limit_issue kept refl,
        length-append p.issues (take (max_issues - length p.issues - 1) incoming),
      );
    }

-- An error, or a limit that has been reached.
abbrev pub is_bad : Parsing → Bool
is_bad p = p.limit_reached || any is_error p.issues

pub add_parsing_issues_bad :
    (max_issues : ℕ) (incoming : List JournalReplayIssue) (p : Parsing)
    → (is_bad p || any is_error incoming) ≡ true
    → is_bad (add_parsing_issues max_issues incoming p) ≡ true
unfolding add_parsing_issues
add_parsing_issues_bad max_issues incoming p h =
    ground (arith, any-append is_error p.issues incoming)
