-- ===== src/Runtime/Tests.antt =====
-- A journal with one event, and two handlers.
use cashblocks.Prelude.{ℕ, suc, ◌≡◌, ◌++◌, refl, true, false, none, some, [], ◌∷◌}
use cashblocks.Prelude.Result.{ok}
use cashblocks.Contracts.{EventDraft, flow_loaded, from_runtime}
use cashblocks.Runtime.{
  ModuleHandler, HandlerRegistry, append_event, empty_journal, add_handler, emit, and_then,
}
use cashblocks.Runtime.Laws.{IsJournal, append_event-IsJournal, emit-add_handler}

abbrev loaded : EventDraft
loaded = record { type = flow_loaded; source = from_runtime; session_id = some "s"; payload = none }

append_event-IsJournal_example :
    IsJournal (append_event none "now" loaded empty_journal).1
    × ((append_event none "now" loaded empty_journal).0.draft ≡ loaded)
    × ((append_event none "now" loaded empty_journal).1.events
        ≡ [] ++ ((append_event none "now" loaded empty_journal).0 ∷ []))
append_event-IsJournal_example =
    append_event-IsJournal none "now" loaded empty_journal
      (record { counted = refl; numbered = tt })

abbrev count_up : ModuleHandler ℕ
count_up n = (ok true, suc n)

abbrev veto : ModuleHandler ℕ
veto n = (ok false, n)

abbrev registry : HandlerRegistry ℕ
registry = ("start", count_up ∷ []) ∷ []

emit-add_handler_example :
    emit "start" (add_handler "start" veto registry) 3 ≡ and_then (emit "start" registry 3) veto
emit-add_handler_example = emit-add_handler "start" veto registry 3
