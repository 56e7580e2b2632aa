-- ===== src/Runtime.antt =====
-- RuntimeJournal and HandlerRegistry of packages/runtime-core/src/index.ts. The journal's persistence,
-- which is handed the same events in the same order, is left out.
pub mod Laws
mod Tests
use cashblocks.Prelude.{
  ℕ, suc, Bool, true, false, Option, none, some, List, [], ◌∷◌, ◌++◌, String, if◌then◌else◌,
}
use cashblocks.Prelude.Text.{lookup, insert}
use cashblocks.Prelude.Exec.{Exec}
use cashblocks.Prelude.Result.{Result, ok, err}
use cashblocks.Contracts.{EventDraft, RuntimeEvent}

pub record RuntimeJournal : Type 0 where
  pub seq : ℕ
  pub events : List RuntimeEvent

abbrev pub empty_journal : RuntimeJournal
empty_journal = record { seq = 0; events = [] }

-- A draft with the time that it brings, if any; `now` is the clock's.
abbrev pub event_of : ℕ → Option String → String → EventDraft → RuntimeEvent
event_of seq none now draft = record { seq = seq; ts = now; draft = draft }
event_of seq (some ts) now draft = record { seq = seq; ts = ts; draft = draft }

unfoldable pub append_event :
    Option String → String → EventDraft → RuntimeJournal → RuntimeEvent × RuntimeJournal
append_event ts now draft j =
    let event = event_of (suc j.seq) ts now draft in
    (event, record { seq = suc j.seq; events = j.events ++ (event ∷ []) })

-- `ModuleHandler`, over the state that the handlers share: false stops the event, and so does a throw.
abbrev pub ModuleHandler : Type 0 → Type 0
ModuleHandler S = Exec S Bool

abbrev pub HandlerRegistry : Type 0 → Type 0
HandlerRegistry S = List (String × List (ModuleHandler S))

module _ {S : Type 0} where
  abbrev pub handlers_of : Option (List (ModuleHandler S)) → List (ModuleHandler S)
  handlers_of none = []
  handlers_of (some handlers) = handlers

  unfoldable pub add_handler : String → ModuleHandler S → HandlerRegistry S → HandlerRegistry S
  add_handler event_name handler registry =
      insert event_name (handlers_of (lookup event_name registry) ++ (handler ∷ [])) registry

  abbrev pub and_then : Result String Bool × S → Exec S Bool → Result String Bool × S
  and_then (ok true, s) next = next s
  and_then (ok false, s) next = (ok false, s)
  and_then (err message, s) next = (err message, s)

  -- The loop of `emit`.
  unfoldable pub run_handlers : List (ModuleHandler S) → Exec S Bool
  run_handlers [] s = (ok true, s)
  run_handlers (handler ∷ handlers) s = and_then (handler s) (run_handlers handlers)

  unfoldable pub emit : String → HandlerRegistry S → Exec S Bool
  emit event_name registry s = run_handlers (handlers_of (lookup event_name registry)) s
