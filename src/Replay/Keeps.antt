-- ===== src/Replay/Keeps.antt =====
-- What every added issue keeps, the whole replay of a session keeps.
use cashblocks.Prelude.{
  Option-cases, Bool-cases, inl, inr, ℕ, Bool, true, false, Option, none, some, List, [], ◌∷◌,
  String, ltb, length,
}
use cashblocks.Prelude.Int.{ℤ}
use cashblocks.Prelude.Text.{lookup}
use cashblocks.Contracts.{RuntimeEvent}
use cashblocks.Replay.Types.{
  JournalReplayIssue, TransactionStatus, started, completed, cancelled, failed,
  reconciliation_required, ReplayedSessionState, JournalRecord, ReplayContext,
}
use cashblocks.Replay.Log.{Log, add_issue, add_if}
use cashblocks.Replay.Lifecycle.{
  check_host, track_start, track_outcome, track, track_if, validate_lifecycle,
}
use cashblocks.Replay.Session.{
  ReplayOptions, Run, check_order, replay_record, replay_records, check_start, check_open,
  check_pending, check_end, is_same_session, open_log, replay_session_records, Mode,
}

module _ (P : Log → Type 0)
    (adds : (issue : JournalReplayIssue) (log : Log) → P log → P (add_issue issue log)) where
  pub add_if_keeps :
      (test : Bool) (issue : JournalReplayIssue) (log : Log) → P log → P (add_if test issue log)
  unfolding add_if
  add_if_keeps true issue log h = adds issue log h
  add_if_keeps false issue log h = h

  check_order_keeps :
      (parse_time : String → Option ℤ) (r : JournalRecord) (previous : Option RuntimeEvent)
      (log : Log)
      → P log
      → P (check_order parse_time r previous log)
  unfolding check_order
  check_order_keeps parse_time r none log h = h
  check_order_keeps parse_time r (some previous) log h = add_if_keeps _ _ _ (add_if_keeps _ _ _ h)

  start_keeps :
      (r : JournalRecord) (transaction : String) (context : ReplayContext) (log : Log)
      → P log
      → P (track_start r transaction context log).1.1
  unfolding track_start
  start_keeps r transaction context log h = add_if_keeps _ _ _ h

  outcome_keeps :
      (r : JournalRecord) (transaction : String) (status : TransactionStatus)
      (context : ReplayContext) (log : Log)
      → P log
      → P (track_outcome r transaction status context log).1.1
  unfolding track_outcome
  outcome_keeps r transaction status context log h =
      elim (Option-cases (lookup transaction context.active_transactions)) [
        | inl e ↦ rw (e, track_outcome) (add_if_keeps _ _ _ h)
        | inr (n, e) ↦ rw (e, track_outcome) h
      ]

  track_keeps :
      (r : JournalRecord) (transaction : String) (status : TransactionStatus)
      (context : ReplayContext) (log : Log)
      → P log
      → P (track r transaction status context log).1.1
  track_keeps r transaction started context log h = start_keeps r transaction context log h
  track_keeps r transaction completed context log h =
      outcome_keeps r transaction completed context log h
  track_keeps r transaction cancelled context log h =
      outcome_keeps r transaction cancelled context log h
  track_keeps r transaction failed context log h = outcome_keeps r transaction failed context log h
  track_keeps r transaction reconciliation_required context log h =
      outcome_keeps r transaction reconciliation_required context log h

  track_if_keeps :
      (status : Option TransactionStatus) (r : JournalRecord) (transaction : String)
      (context : ReplayContext) (log : Log)
      → P log
      → P (track_if status r transaction context log).1.1
  track_if_keeps none r transaction context log h = h
  track_if_keeps (some status) r transaction context log h =
      track_keeps r transaction status context log h

  lifecycle_keeps :
      (r : JournalRecord) (state : ReplayedSessionState) (context : ReplayContext) (log : Log)
      → P log
      → P (validate_lifecycle r state context log).1.1
  unfolding validate_lifecycle check_host
  lifecycle_keeps r state context log h = track_if_keeps _ _ _ _ _ (add_if_keeps _ _ _ h)

  replay_record_keeps :
      (parse_time : String → Option ℤ) (session_id : String) (frames : Bool) (r : JournalRecord)
      (run : Run)
      → P run.log
      → P (replay_record parse_time session_id frames r run).log
  unfolding replay_record
  replay_record_keeps parse_time session_id frames r run h =
      elim (Bool-cases (is_same_session r.event.draft.session_id session_id)) [
        | inl same ↦ rw same (lifecycle_keeps _ _ _ _ (check_order_keeps _ _ _ _ h))
        | inr other ↦ rw other (adds _ _ h)
      ]

  replay_records_keeps :
      (parse_time : String → Option ℤ) (session_id : String) (frames : Bool)
      (records : List JournalRecord) (run : Run)
      → P run.log
      → P (replay_records parse_time session_id frames records run).log
  unfolding replay_records
  replay_records_keeps parse_time session_id frames [] run h = h
  replay_records_keeps parse_time session_id frames (r ∷ rs) run h =
      replay_records_keeps parse_time session_id frames rs _
        (replay_record_keeps parse_time session_id frames r run h)

  check_open_keeps :
      (issue : JournalReplayIssue) (open_ones : List (String × ℕ)) (log : Log)
      → P log
      → P (check_open issue open_ones log)
  unfolding check_open
  check_open_keeps issue [] log h = h
  check_open_keeps issue (t ∷ ts) log h = check_open_keeps issue ts _ (adds _ _ h)

  check_pending_keeps :
      (issue : JournalReplayIssue) (pending : List (String × ℕ)) (log : Log)
      → P log
      → P (check_pending issue pending log)
  unfolding check_pending
  check_pending_keeps issue [] log h = h
  check_pending_keeps issue ((t, n) ∷ ts) log h =
      check_pending_keeps issue ts _ (add_if_keeps _ _ _ h)

  check_end_keeps :
      (session_id : String) (mode : Mode) (run : Run)
      → P run.log
      → P (check_end session_id mode run)
  unfolding check_end
  check_end_keeps session_id mode run h =
      check_pending_keeps _ _ _ (check_open_keeps _ _ _ (add_if_keeps _ _ _ h))

  -- The budget of frames is no part of what is kept.
  module _ (frames : (n : ℕ) (log : Log) → P log → P (record log { frames_remaining = n })) where
    check_start_keeps :
        (session_id : String) (records : List JournalRecord) (options : ReplayOptions) (log : Log)
        → P log
        → P (check_start session_id records options log)
    unfolding check_start
    check_start_keeps session_id records options log h = add_if_keeps _ _ _ (
        add_if_keeps _ _ _ (elim (Bool-cases options.include_frames) [
          | inr plain ↦ rw plain h
          | inl framed ↦ elim (Bool-cases (ltb log.frames_remaining (length records))) [
            | inl exceeds ↦ rw (framed, exceeds) (adds _ _ h)
            | inr fits ↦ rw (framed, fits) (frames _ _ h)
          ]
        ]))

    pub replay_keeps :
        (parse_time : String → Option ℤ) (session_id : String) (records : List JournalRecord)
        (options : ReplayOptions) (log : Log)
        → P (open_log session_id log)
        → P (replay_session_records parse_time session_id records options log).1
    unfolding replay_session_records
    replay_keeps parse_time session_id records options log h =
        check_end_keeps _ _ _
          (replay_records_keeps _ _ _ _ _ (check_start_keeps session_id records options _ h))
