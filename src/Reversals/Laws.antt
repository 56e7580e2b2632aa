-- ===== src/Reversals/Laws.antt =====
-- What packages/host-iso8583/src/reversal-store.ts reads back of what it wrote.
use cashblocks.Prelude.{
  if_rule, ◌≡◌, refl, sym, ◌∙◌, ap, subst, Bool, not, Option, none, some, List, [], ◌∷◌, ◌++◌,
  String, eq_iff, length, length-append, arith, ltb, leb, inl, inr, ◌⊎◌,
}
use cashblocks.Prelude.Text.{lookup, insert, lookup-insert}
use cashblocks.Prelude.Result.{Result, ok, err, ◌>>=◌, >>=-eq-ok, throw_if-eq-ok, ok-injective}
use cashblocks.Reversals.{
  ReversalIntent, ReversalStatus, is_pending, is_completed, ReversalRecord, ReversalEvent, queued,
  StoreError, Records, Store, new_record, Transition, attempt, complete, fail_with, change_event,
  changed, apply_reversal, replay, load, append, enqueue_in, enqueue, transition_of, transition_in,
  transition, is_valid_intent, same_intent,
}

-- An event more is applied to what the events before it bring.
replay-append :
    (es : List ReversalEvent) (e : ReversalEvent) (rs : Records)
    → replay (es ++ (e ∷ [])) rs ≡ (replay es rs >>= apply_reversal e)
unfolding replay
replay-append [] e rs = last (apply_reversal e rs)
  where
    last : (r : Result StoreError Records) → (r >>= replay []) ≡ r
    last (ok x) = refl
    last (err m) = refl
replay-append (f ∷ es) e rs = rest (replay-append es e) (apply_reversal f rs)
  where
    rest :
        ((rs : Records) → replay (es ++ (e ∷ [])) rs ≡ (replay es rs >>= apply_reversal e))
        → (r : Result StoreError Records)
        → (r >>= replay (es ++ (e ∷ []))) ≡ ((r >>= replay es) >>= apply_reversal e)
    rest behind (ok x) = behind x
    rest behind (err m) = refl

load-replay : (s : Store) (rs : Records) → load s ≡ ok rs → replay s.events [] ≡ ok rs
unfolding load
load-replay s rs h =
    if_rule (λ (r : Result StoreError Records). r ≡ ok rs → replay s.events [] ≡ ok rs)
      (ltb s.max_events (length s.events)) _ _ (λ _ refused. cc) (λ _ loaded. loaded) h

-- A store that an event was appended to loads what the event makes of the records.
append-load :
    (fits : ReversalEvent → List ReversalEvent → Bool) (e : ReversalEvent) (s t : Store)
    (rs rs' : Records)
    → load s ≡ ok rs
    → append fits e s ≡ ok t
    → apply_reversal e rs ≡ ok rs'
    → load t ≡ ok rs'
unfolding load append
append-load fits e s t rs rs' loaded appended applied =
    if_rule (λ (r : Result StoreError Store). r ≡ ok t → load t ≡ ok rs') (not (fits e s.events)) _
      _ (λ _ refused. cc)
      (λ _.
        if_rule (λ (r : Result StoreError Store). r ≡ ok t → load t ≡ ok rs')
          (leb s.max_events (length s.events)) _ _ (λ _ refused. cc)
          (λ room written.
            let size = length-append s.events (e ∷ []) in
            let read =
              replay-append s.events e []
              ∙ ap (◌>>= apply_reversal e) (load-replay s rs loaded)
              ∙ applied in
            subst (λ t. load t ≡ ok rs') (ok-injective _ t written)
              (if_rule (λ (r : Result StoreError Records). r ≡ ok rs')
                (ltb s.max_events (length (s.events ++ (e ∷ [])))) _ _
                (λ over. absurd (ground arith)) (λ _. read))))
      appended

pub lookup-new :
    (id : String) (r : ReversalRecord) (rs : Records) → lookup id (insert id r rs) ≡ some r
lookup-new id r rs = lookup-insert id id r rs ∙ ground (arith, eq_iff id id)

enqueue_in-load :
    (fits : ReversalEvent → List ReversalEvent → Bool) (found : Option ReversalRecord) (ts : String)
    (intent : ReversalIntent) (rs : Records) (s t : Store) (r : ReversalRecord)
    → load s ≡ ok rs
    → lookup intent.id rs ≡ found
    → enqueue_in fits found ts intent rs s ≡ ok (r, t)
    → (after : Records) × (load t ≡ ok after) × (lookup intent.id after ≡ some r)
unfolding apply_reversal
enqueue_in-load fits (some existing) ts intent rs s t r loaded found h =
    if_rule
      (λ (x : Result StoreError (ReversalRecord × Store)).
        x ≡ ok (r, t) → (after : Records) × (load t ≡ ok after) × (lookup intent.id after ≡ some r))
      (not (same_intent existing.intent intent)) _ _ (λ _ refused. cc)
      (λ _ given.
        let same = ok-injective _ (r, t) given in
        (
          rs,
          subst (λ t. load t ≡ ok rs) (ap (λ p. p.1) same) loaded,
          found ∙ ap some (ap (λ p. p.0) same),
        ))
      h
enqueue_in-load fits none ts intent rs s t r loaded found h =
    if_rule
      (λ (x : Result StoreError (ReversalRecord × Store)).
        x ≡ ok (r, t) → (after : Records) × (load t ≡ ok after) × (lookup intent.id after ≡ some r))
      (leb s.max_records (length rs)) _ _ (λ _ refused. cc)
      (λ _ given.
        let (u, appended, same) = >>=-eq-ok (append fits (queued ts intent) s) _ given in
        let same = ok-injective _ (r, t) same in
        let after = insert intent.id (new_record ts intent) rs in
        (
          after,
          subst (λ t. load t ≡ ok after) (ap (λ p. p.1) same)
              (append-load fits (queued ts intent) s u rs after loaded appended (rw found refl)),
          lookup-new intent.id (new_record ts intent) rs ∙ ap some (ap (λ p. p.0) same),
        ))
      h

-- What enqueue answers with is what the store holds from then on: the store that it leaves still loads,
-- and loads that record under the id of the intent.
pub enqueue-load :
    (fits : ReversalEvent → List ReversalEvent → Bool) (ts : String) (intent : ReversalIntent)
    (s t : Store) (r : ReversalRecord)
    → enqueue fits ts intent s ≡ ok (r, t)
    → (after : Records) × (load t ≡ ok after) × (lookup intent.id after ≡ some r)
unfolding enqueue
enqueue-load fits ts intent s t r h =
    let (_, h) = throw_if-eq-ok (not (is_valid_intent intent)) _ _ h in
    let (rs, loaded, h) = >>=-eq-ok (load s) _ h in
    enqueue_in-load fits (lookup intent.id rs) ts intent rs s t r loaded refl h

-- How a transition of a record goes: a record that is completed stays as it is, and only a completion of
-- it is no error; a record that is pending is changed and all others stay.
pub record Transitions (ts id : String) (change : Transition) (s t : Store) : Type 0 where
  pub before : Records
  pub after : Records
  pub old : ReversalRecord
  pub loads : load s ≡ ok before
  pub found : lookup id before ≡ some old
  pub reloads : load t ≡ ok after
  pub effect :
      ((old.status ≡ is_completed) × (change ≡ complete) × (t ≡ s))
      ⊎ ((old.status ≡ is_pending) × (after ≡ insert id (changed ts change old) before))

status-cases : (status : ReversalStatus) → (status ≡ is_completed) ⊎ (status ≡ is_pending)
status-cases is_completed = inl refl
status-cases is_pending = inr refl

apply_reversal-change_event :
    (ts id : String) (change : Transition) (r : ReversalRecord) (rs : Records)
    → lookup id rs ≡ some r
    → r.status ≡ is_pending
    → apply_reversal (change_event ts id change) rs ≡ ok (insert id (changed ts change r) rs)
unfolding apply_reversal
apply_reversal-change_event ts id attempt r rs found waits = rw (found, waits) refl
apply_reversal-change_event ts id complete r rs found waits = rw (found, waits) refl
apply_reversal-change_event ts id (fail_with error) r rs found waits = rw (found, waits) refl

completed-stays :
    (fits : ReversalEvent → List ReversalEvent → Bool) (ts id : String) (change : Transition)
    (s t : Store)
    → transition_of fits is_completed ts id change s ≡ ok t
    → (change ≡ complete) × (s ≡ t)
completed-stays fits ts id attempt s t h = cc
completed-stays fits ts id complete s t h = (refl, ok-injective s t h)
completed-stays fits ts id (fail_with error) s t h = cc

transition_in-Transitions :
    (fits : ReversalEvent → List ReversalEvent → Bool) (found : Option ReversalRecord)
    (ts id : String) (change : Transition) (rs : Records) (s t : Store)
    → load s ≡ ok rs
    → lookup id rs ≡ found
    → transition_in fits found ts id change s ≡ ok t
    → Transitions ts id change s t
transition_in-Transitions fits none ts id change rs s t loaded found h = cc
transition_in-Transitions fits (some r) ts id change rs s t loaded found h =
    elim (status-cases r.status) [
      | inl done ↦
          let (is_complete, same) =
            completed-stays fits ts id change s t
              (subst (λ status. transition_of fits status ts id change s ≡ ok t) done h) in
          record {
            before = rs;
            after = rs;
            old = r;
            loads = loaded;
            found = found;
            reloads = subst (λ t. load t ≡ ok rs) same loaded;
            effect = inl (done, is_complete, sym same);
          }
      | inr waits ↦ record {
        before = rs;
        after = insert id (changed ts change r) rs;
        old = r;
        loads = loaded;
        found = found;
        reloads =
            append-load fits (change_event ts id change) s t rs _ loaded
              (subst (λ status. transition_of fits status ts id change s ≡ ok t) waits h)
              (apply_reversal-change_event ts id change r rs found waits);
        effect = inr (waits, refl);
      }
    ]

-- A transition that is no error found a record. If that was completed, the transition is a completion
-- and leaves the store as it was; else the store that it leaves still loads, and loads the same records
-- but for the one that it changed.
pub transition-Transitions :
    (fits : ReversalEvent → List ReversalEvent → Bool) (ts id : String) (change : Transition)
    (s t : Store)
    → transition fits ts id change s ≡ ok t
    → Transitions ts id change s t
unfolding transition
transition-Transitions fits ts id change s t h =
    let (rs, loaded, h) = >>=-eq-ok (load s) _ h in
    transition_in-Transitions fits (lookup id rs) ts id change rs s t loaded refl h
