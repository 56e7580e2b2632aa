-- ===== src/Reversals/Outcomes.antt =====
-- How ReversalProcessor of packages/host-iso8583/src/reversal-store.ts leaves the records that it works
-- on.
use cashblocks.Prelude.{
  ℕ, suc, ◌+◌, ◌*◌, ◌≡◌, ◌∙◌, ◌≤◌, refl, sym, ap, subst, Bool, true, false, not, some, List, [],
  ◌∷◌, String, length, take_le, arith, inl, inr, ◌⊎◌,
}
use cashblocks.Prelude.Text.{codes, lookup}
use cashblocks.Prelude.Result.{
  Result, throw_if, ok, err, ◌>>=◌, >>=-eq-ok, throw_if-eq-ok, ok-injective,
}
use cashblocks.Reversals.{
  ReversalIntent, is_pending, is_completed, ReversalRecord, ReversalEvent, StoreError, Records,
  Store, complete, fail_with, changed, load,
}
use cashblocks.Reversals.Laws.{transition-Transitions, lookup-new}
use cashblocks.Reversals.Messages.{bounded_error, is_bad_message}
use cashblocks.Reversals.Process.{
  begin_attempt, mark_failed, mark_completed, is_bad_limit, pending_records, Processor, ask_host,
  give_up, settle_marked, settle, process_record, BatchResult, tally, process_records, process,
}

-- A store in which a record with the id is completed, and one in which it waits with a message as its
-- last error.
abbrev pub IsDone : String → Store → Type 0
IsDone id s =
    (records : Records) × (r : ReversalRecord) × ((load s ≡ ok records)
      × ((lookup id records ≡ some r) × (r.status ≡ is_completed)))

abbrev pub IsWaiting : String → List ℕ → Store → Type 0
IsWaiting id message s =
    (records : Records) × (r : ReversalRecord) × ((load s ≡ ok records)
      × ((lookup id records ≡ some r) × ((r.status ≡ is_pending) × (r.last_error ≡ some message))))

mark_completed-IsDone :
    (fits : ReversalEvent → List ReversalEvent → Bool) (ts id : String) (s t : Store)
    → mark_completed fits ts id s ≡ ok t
    → IsDone id t
unfolding mark_completed
mark_completed-IsDone fits ts id s t h =
    let done = transition-Transitions fits ts id complete s t h in
    elim done.effect [
      | inl (already, _, same) ↦ (
        done.before,
        done.old,
        (subst (λ u. load u ≡ ok done.before) (sym same) done.loads, (done.found, already)),
      )
      | inr (waits, written) ↦ (
        done.after,
        changed ts complete done.old,
        (
          done.reloads,
          (
            subst (λ rs. lookup id rs ≡ some (changed ts complete done.old)) (sym written)
                (lookup-new id (changed ts complete done.old) done.before),
            refl,
          ),
        ),
      )
    ]

mark_failed-IsWaiting :
    (fits : ReversalEvent → List ReversalEvent → Bool) (ts id : String) (message : List ℕ)
    (s t : Store)
    → mark_failed fits ts id message s ≡ ok t
    → IsWaiting id (bounded_error message) t
unfolding mark_failed
mark_failed-IsWaiting fits ts id message s t h =
    let (_, h) = throw_if-eq-ok (is_bad_message message) _ _ h in
    let change = fail_with (bounded_error message) in
    let done = transition-Transitions fits ts id change s t h in
    elim done.effect [
      | inl (_, differs, _) ↦ cc
      | inr (waits, written) ↦ (
        done.after,
        changed ts change done.old,
        (
          done.reloads,
          (
            subst (λ rs. lookup id rs ≡ some (changed ts change done.old)) (sym written)
                (lookup-new id (changed ts change done.old) done.before),
            (waits, refl),
          ),
        ),
      )
    ]

-- The host has answered the message of a reversal, and its answer was accepted.
abbrev pub IsAcknowledged : Processor → ℕ → ReversalIntent → Type 0
IsAcknowledged p n intent =
    (message : List ℕ) × (response : List ℕ) × ((p.build_message intent ≡ ok message)
      × ((p.exchange n message ≡ ok response) × (p.accept_response intent response ≡ ok true)))

ask_host-IsAcknowledged :
    (p : Processor) (n : ℕ) (intent : ReversalIntent)
    → ask_host p n intent ≡ ok tt
    → IsAcknowledged p n intent
unfolding ask_host
ask_host-IsAcknowledged p n intent h =
    let (message, built, h) = >>=-eq-ok (p.build_message intent) _ h in
    let (response, answered, h) = >>=-eq-ok (p.exchange n message) _ h in
    let (accepted, decided, h) = >>=-eq-ok (p.accept_response intent response) _ h in
    (message, response, (built, (answered, decided ∙ ap ok (is_true accepted h))))
  where
    is_true :
        (accepted : Bool)
        → throw_if (not accepted) (codes "Host did not acknowledge reversal.") ≡ ok tt
        → accepted ≡ true
    is_true true h = refl
    is_true false h = cc

-- What the work on a record throws: the error of a step that asks the host, that of an answer that is not
-- accepted, or that of the store where the answer is accepted and the record cannot be marked.
pub data Throws (p : Processor) (n : ℕ) (r : ReversalRecord) (begun : Store) (thrown : List ℕ)
    : Type 0 where
  building : p.build_message r.intent ≡ err thrown → Throws p n r begun thrown
  exchanging :
      (message : List ℕ)
      → p.build_message r.intent ≡ ok message
      → p.exchange n message ≡ err thrown
      → Throws p n r begun thrown
  accepting :
      (message response : List ℕ)
      → p.build_message r.intent ≡ ok message
      → p.exchange n message ≡ ok response
      → p.accept_response r.intent response ≡ err thrown
      → Throws p n r begun thrown
  refusing :
      (message response : List ℕ)
      → p.build_message r.intent ≡ ok message
      → p.exchange n message ≡ ok response
      → p.accept_response r.intent response ≡ ok false
      → thrown ≡ codes "Host did not acknowledge reversal."
      → Throws p n r begun thrown
  marking :
      (failure : StoreError)
      → IsAcknowledged p n r.intent
      → mark_completed p.fits (p.clock (3 * n + 1)) r.intent.id begun ≡ err failure
      → thrown ≡ p.message_of failure
      → Throws p n r begun thrown

err-injective : {A : Type 0} (a b : List ℕ) → ◌≡◌ {A = Result (List ℕ) A} (err a) (err b) → a ≡ b
err-injective a b h = cc

-- A chain that throws: its first step throws, or its second does.
>>=-eq-err :
    {A B : Type 0} (first : Result (List ℕ) A) (next : A → Result (List ℕ) B) (thrown : List ℕ)
    → (first >>= next) ≡ err thrown
    → (first ≡ err thrown) ⊎ ((value : A) × (first ≡ ok value) × (next value ≡ err thrown))
>>=-eq-err (err e) next thrown h = inl (ap err (err-injective e thrown h))
>>=-eq-err (ok value) next thrown h = inr (value, refl, h)

ask_host-Throws :
    (p : Processor) (n : ℕ) (r : ReversalRecord) (begun : Store) (thrown : List ℕ)
    → ask_host p n r.intent ≡ err thrown
    → Throws p n r begun thrown
unfolding ask_host
ask_host-Throws p n r begun thrown h = elim (>>=-eq-err (p.build_message r.intent) _ thrown h) [
  | inl e ↦ building e
  | inr (message, built, h) ↦ elim (>>=-eq-err (p.exchange n message) _ thrown h) [
    | inl e ↦ exchanging message built e
    | inr (response, answered, h) ↦
        elim (>>=-eq-err (p.accept_response r.intent response) _ thrown h) [
          | inl e ↦ accepting message response built answered e
          | inr (accepted, decided, h) ↦ refused message response built answered accepted decided h
        ]
  ]
]
  where
    refused :
        (message response : List ℕ)
        → p.build_message r.intent ≡ ok message
        → p.exchange n message ≡ ok response
        → (accepted : Bool) → p.accept_response r.intent response ≡ ok accepted
        → throw_if (not accepted) (codes "Host did not acknowledge reversal.") ≡ err thrown
        → Throws p n r begun thrown
    refused message response built answered true decided h = cc
    refused message response built answered false decided h =
        refusing message response built answered decided (sym (err-injective _ thrown h))

-- How the work on a record ends behind its attempt.
abbrev pub EndsAs : Processor → ℕ → ReversalRecord → Store → Bool → Store → Type 0
EndsAs p n r begun acknowledged after =
    ((acknowledged ≡ true) × (IsAcknowledged p n r.intent × IsDone r.intent.id after))
    ⊎ ((acknowledged ≡ false)
        × ((thrown : List ℕ) × (Throws p n r begun thrown
              × IsWaiting r.intent.id (bounded_error (bounded_error thrown)) after)))

-- It begins with an attempt that is written.
abbrev pub IsSettled : Processor → ℕ → ReversalRecord → Store → Bool → Store → Type 0
IsSettled p n r s acknowledged after =
    (begun : Store) × ((begin_attempt p.fits (p.clock (3 * n)) r.intent.id s ≡ ok begun)
      × EndsAs p n r begun acknowledged after)

gave_up :
    (p : Processor) (n : ℕ) (r : ReversalRecord) (thrown : List ℕ) (s : Store) (acknowledged : Bool)
    (after : Store)
    → Throws p n r s thrown
    → give_up p n r.intent.id thrown s ≡ ok (acknowledged, after)
    → EndsAs p n r s acknowledged after
gave_up p n r thrown s acknowledged after why h =
    let id = r.intent.id in
    let message = bounded_error (bounded_error thrown) in
    let (t, marked, rest) =
      >>=-eq-ok (mark_failed p.fits (p.clock (3 * n + 2)) id (bounded_error thrown) s) _ h in
    let same = ok-injective (false, t) (acknowledged, after) rest in
    inr (
      sym (ap (λ x. x.0) same),
      (
        thrown,
        (
          why,
          subst (IsWaiting id message) (ap (λ x. x.1) same) (
              mark_failed-IsWaiting p.fits (p.clock (3 * n + 2)) id (bounded_error thrown) s t
                marked),
        ),
      ),
    )

completed_or_not :
    (p : Processor) (n : ℕ) (r : ReversalRecord) (s : Store) (acknowledged : Bool) (after : Store)
    (marked : Result StoreError Store)
    → ask_host p n r.intent ≡ ok tt
    → mark_completed p.fits (p.clock (3 * n + 1)) r.intent.id s ≡ marked
    → settle_marked p n r.intent.id s marked ≡ ok (acknowledged, after)
    → EndsAs p n r s acknowledged after
completed_or_not p n r s acknowledged after (ok t) asked marked h =
    let same = ok-injective (true, t) (acknowledged, after) h in
    inl (
      sym (ap (λ x. x.0) same),
      (
        ask_host-IsAcknowledged p n r.intent asked,
        subst (IsDone r.intent.id) (ap (λ x. x.1) same)
            (mark_completed-IsDone p.fits (p.clock (3 * n + 1)) r.intent.id s t marked),
      ),
    )
completed_or_not p n r s acknowledged after (err thrown) asked marked h =
    gave_up p n r (p.message_of thrown) s acknowledged after
      (marking thrown (ask_host-IsAcknowledged p n r.intent asked) marked refl) h

settled :
    (p : Processor) (n : ℕ) (r : ReversalRecord) (s : Store) (acknowledged : Bool) (after : Store)
    (asked : Result (List ℕ) (Unit {0}))
    → ask_host p n r.intent ≡ asked
    → settle p n r.intent.id asked s ≡ ok (acknowledged, after)
    → EndsAs p n r s acknowledged after
settled p n r s acknowledged after (ok u) e h =
    completed_or_not p n r s acknowledged after
      (mark_completed p.fits (p.clock (3 * n + 1)) r.intent.id s) e refl h
settled p n r s acknowledged after (err thrown) e h =
    gave_up p n r thrown s acknowledged after (ask_host-Throws p n r s thrown e) h

-- Where the processor is done with a record, the attempt is written first, the store still loads, and
-- either the record counts as completed, the host has accepted the reversal and the record is completed
-- in the store, or it counts as failed and waits in the store, with what was thrown, redacted and cut,
-- as its last error. What was thrown is the error of a step that asks the host, that of an answer that
-- was not accepted, or that of the store where it could not mark the record.
pub process_record-IsSettled :
    (p : Processor) (n : ℕ) (r : ReversalRecord) (s : Store) (acknowledged : Bool) (after : Store)
    → process_record p n r s ≡ ok (acknowledged, after)
    → IsSettled p n r s acknowledged after
unfolding process_record
process_record-IsSettled p n r s acknowledged after h =
    let (begun, started, rest) =
      >>=-eq-ok (begin_attempt p.fits (p.clock (3 * n)) r.intent.id s) _ h in
    (begun, (started, settled p n r begun acknowledged after (ask_host p n r.intent) refl rest))

count_records :
    (p : Processor) (n : ℕ) (rs : List ReversalRecord) (c d : BatchResult) (s t : Store)
    → process_records p n rs c s ≡ ok (d, t)
    → (d.attempted ≡ c.attempted) × (d.completed + d.failed ≡ c.completed + c.failed + length rs)
unfolding process_records
count_records p n [] c d s t h =
    let same = ap (λ x. x.0) (ok-injective (c, s) (d, t) h) in
    subst (λ e. (e.attempted ≡ c.attempted) × (e.completed + e.failed ≡ c.completed + c.failed + 0))
      same (refl, omega arith)
count_records p n (r ∷ rs) c d s t h =
    let (done, _, rest) = >>=-eq-ok (process_record p n r s) _ h in
    let (same, sum) = count_records p (suc n) rs (tally done.0 c) d done.1 t rest in
    counted done.0 c d rs same sum
  where
    counted :
        (b : Bool) (c d : BatchResult) (rs : List ReversalRecord)
        → d.attempted ≡ (tally b c).attempted
        → d.completed + d.failed ≡ (tally b c).completed + (tally b c).failed + length rs
        → (d.attempted ≡ c.attempted)
          × (d.completed + d.failed ≡ c.completed + c.failed + suc (length rs))
    counted true c d rs same sum = (same, omega (arith, sum))
    counted false c d rs same sum = (same, omega (arith, sum))

-- A call of process that answers counts every record that it attempted as completed or as failed, and
-- attempts no more than its batch.
pub process_counts :
    (p : Processor) (s t : Store) (c : BatchResult)
    → process p s ≡ ok (c, t)
    → (c.attempted ≡ c.completed + c.failed) × (c.attempted ≤ p.max_batch)
unfolding process pending_records
process_counts p s t c h =
    let (records, listed, rest) = >>=-eq-ok (pending_records p.is_after p.max_batch s) _ h in
    let (_, given) = throw_if-eq-ok (is_bad_limit p.max_batch) _ _ listed in
    let (all_records, _, taken) = >>=-eq-ok (load s) _ given in
    let few =
      subst (λ l. length l ≤ p.max_batch) (ok-injective _ records taken) (take_le p.max_batch _) in
    let (same, sum) = count_records p 0 records _ c s t rest in
    (omega (arith, same, sum), omega (arith, same, few))
