-- ===== src/Runtime/Laws.antt =====
-- What the journal and the registry of handlers of packages/runtime-core/src/index.ts keep.
use cashblocks.Prelude.{
  ℕ, suc, ◌+◌, ◌≡◌, refl, Bool, true, false, Option, none, some, List, [], ◌∷◌, ◌++◌, String,
  length, length-append, arith, str_eq, eq_iff,
}
use cashblocks.Prelude.Text.{lookup, lookup-insert}
use cashblocks.Prelude.Result.{Result, ok, err}
use cashblocks.Contracts.{EventDraft, RuntimeEvent}
use cashblocks.Runtime.{
  RuntimeJournal, event_of, append_event, ModuleHandler, HandlerRegistry, handlers_of, add_handler,
  and_then, run_handlers, emit,
}

-- The events are numbered from `n` on without a gap.
abbrev pub AreNumberedFrom : ℕ → List RuntimeEvent → Type 0
AreNumberedFrom n [] = Unit
AreNumberedFrom n (e ∷ es) = (e.seq ≡ n) × AreNumberedFrom (suc n) es

-- A journal's events are numbered from 1, and its counter is their number.
pub record IsJournal (j : RuntimeJournal) : Type 0 where
  pub counted : j.seq ≡ length j.events
  pub numbered : AreNumberedFrom 1 j.events

number_last :
    (n : ℕ) (es : List RuntimeEvent) (e : RuntimeEvent)
    → AreNumberedFrom n es
    → e.seq ≡ n + length es
    → AreNumberedFrom n (es ++ (e ∷ []))
number_last n [] e h last = (omega (arith, last), tt)
number_last n (f ∷ es) e h last = (h.0, number_last (suc n) es e h.1 (omega (arith, last)))

seq-event_of :
    (seq : ℕ) (ts : Option String) (now : String) (draft : EventDraft)
    → ((event_of seq ts now draft).seq ≡ seq) × ((event_of seq ts now draft).draft ≡ draft)
seq-event_of seq none now draft = (refl, refl)
seq-event_of seq (some ts) now draft = (refl, refl)

-- An append keeps the journal's numbering without a gap, adds the draft that was given as the last
-- event, keeps every earlier event, and answers with the event that it added.
pub append_event-IsJournal :
    (ts : Option String) (now : String) (draft : EventDraft) (j : RuntimeJournal)
    → IsJournal j
    → IsJournal (append_event ts now draft j).1
      × ((append_event ts now draft j).0.draft ≡ draft)
      × ((append_event ts now draft j).1.events
          ≡ j.events ++ ((append_event ts now draft j).0 ∷ []))
unfolding append_event
append_event-IsJournal ts now draft j h =
    let event = event_of (suc j.seq) ts now draft in
    let (numbered, same) = seq-event_of (suc j.seq) ts now draft in
    (
      record {
        counted = omega (arith, h.counted, length-append j.events (event ∷ []));
        numbered = number_last 1 j.events event h.numbered (omega (arith, numbered, h.counted));
      },
      same,
      refl,
    )

module _ {S : Type 0} where
  run_handlers_last :
      (handlers : List (ModuleHandler S)) (last : ModuleHandler S) (s : S)
      → run_handlers (handlers ++ (last ∷ [])) s ≡ and_then (run_handlers handlers s) last
  unfolding run_handlers
  run_handlers_last [] last s = one (last s)
    where
      one : (r : Result String Bool × S) → and_then r (λ t. (ok true, t)) ≡ r
      one (ok true, t) = refl
      one (ok false, t) = refl
      one (err message, t) = refl
  run_handlers_last (handler ∷ handlers) last s =
      later (handler s) (run_handlers_last handlers last)
    where
      later :
          (r : Result String Bool × S)
          → ((t : S)
              → run_handlers (handlers ++ (last ∷ [])) t ≡ and_then (run_handlers handlers t) last)
          → and_then r (run_handlers (handlers ++ (last ∷ [])))
            ≡ and_then (and_then r (run_handlers handlers)) last
      later (ok true, t) h = h t
      later (ok false, t) h = refl
      later (err message, t) h = refl

  -- A handler that is registered runs after those that its event had, and only if none of them stopped
  -- the event.
  pub emit-add_handler :
      (event_name : String) (handler : ModuleHandler S) (registry : HandlerRegistry S) (s : S)
      → emit event_name (add_handler event_name handler registry) s
        ≡ and_then (emit event_name registry s) handler
  unfolding emit add_handler
  emit-add_handler event_name handler registry s =
      let handlers = handlers_of (lookup event_name registry) in
      let same : str_eq event_name event_name ≡ true =
        ground (arith, eq_iff event_name event_name) in
      rw (lookup-insert event_name event_name (handlers ++ (handler ∷ [])) registry)
        (rw same (run_handlers_last handlers handler s))
