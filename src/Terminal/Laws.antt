-- ===== src/Terminal/Laws.antt =====
-- What the constructor of CashblocksRuntime, in packages/runtime-core/src/index.ts, promises.
use cashblocks.Prelude.{
  ◌≡◌, refl, ◌≤◌, true, false, Option, none, some, List, [], ◌∷◌, arith, ℕ, String, ap, subst,
}
use cashblocks.Prelude.Int.{ℤ, pos, negsuc}
use cashblocks.Prelude.Result.{ok, >>=-eq-ok, throw_if-eq-ok, ok-injective}
use cashblocks.Runtime.{empty_journal}
use cashblocks.Runtime.Laws.{IsJournal, append_event-IsJournal}
use cashblocks.Simulator.{Simulator}
use cashblocks.Devices.{get_status}
use cashblocks.Validation.{ValidationIssue, TerminalAdapters, slots_of, validate_terminal_adapters}
use cashblocks.Validation.Laws.{is_empty, AreWired, validate_terminal_adapters-AreWired}
use cashblocks.Terminal.{
  Terminal, fresh_terminal, RuntimeError, bad_adapter_timeout, has_issues, timeout_of, or_error,
  set_property, set_printer_status, start_journal, new_runtime,
}

-- A runtime that can serve: its adapters suit their slots, its timeout is one that a timer takes, and
-- its journal is numbered.
pub record IsReady (t : Terminal) : Type 0 where
  pub wired : AreWired [] (slots_of t.adapters)
  pub timed : (1 ≤ t.adapter_timeout_ms) × (t.adapter_timeout_ms ≤ 300000)
  pub journal : IsJournal t.journal

no_issues : (issues : List ValidationIssue) → has_issues issues ≡ false → is_empty issues ≡ true
unfolding is_empty
no_issues [] h = refl
no_issues (issue ∷ issues) h = cc

timeout_of_bound :
    (timeout : Option ℤ) (n : ℕ) → timeout_of timeout ≡ some n → (1 ≤ n) × (n ≤ 300000)
timeout_of_bound none n h = (ground arith, ground arith)
timeout_of_bound (some (pos k)) n h = (ground arith, ground arith)
timeout_of_bound (some (negsuc k)) n h = cc

or_error-ok : (o : Option ℕ) (e : RuntimeError) (n : ℕ) → or_error o e ≡ ok n → o ≡ some n
or_error-ok none e n h = cc
or_error-ok (some m) e n h = ap some (ok-injective m n h)

-- What the start of the journal leaves of a runtime that is about to start.
starts :
    (clock : ℕ → String) (s : Simulator) (adapters : TerminalAdapters) (n : ℕ) (session_id : String)
    → is_empty (validate_terminal_adapters adapters) ≡ true
    → (1 ≤ n) × (n ≤ 300000)
    → let t : Terminal =
        start_journal
          (set_printer_status (get_status s) (fresh_terminal clock s adapters n session_id)) in
      IsReady t × (t.simulator ≡ s) × (t.adapters ≡ adapters)
unfolding start_journal set_printer_status set_property
starts clock s adapters n session_id valid timed = (
  record {
    wired = validate_terminal_adapters-AreWired adapters valid;
    timed = timed;
    journal =
        (append_event-IsJournal none (clock 1) _ empty_journal
          (record { counted = refl; numbered = tt })).0;
  },
  refl,
  refl,
)

-- A runtime is built only over adapters that suit their slots and with a timeout from 1 to 300000
-- milliseconds, over the simulator that was given, and its journal is numbered without a gap.
pub new_runtime-IsReady :
    (clock : ℕ → String) (s : Simulator) (adapters : TerminalAdapters) (timeout : Option ℤ)
    (session_id : String) (t : Terminal)
    → new_runtime clock s adapters timeout session_id ≡ ok t
    → IsReady t × (t.simulator ≡ s) × (t.adapters ≡ adapters)
unfolding new_runtime
new_runtime-IsReady clock s adapters timeout session_id t h =
    let (valid, h) = throw_if-eq-ok (has_issues (validate_terminal_adapters adapters)) _ _ h in
    let (n, found, h) = >>=-eq-ok (or_error (timeout_of timeout) bad_adapter_timeout) _ h in
    subst (λ t. IsReady t × (t.simulator ≡ s) × (t.adapters ≡ adapters)) (ok-injective _ t h)
      (starts clock s adapters n session_id (no_issues _ valid)
        (timeout_of_bound timeout n (or_error-ok _ _ n found)))
