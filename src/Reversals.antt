-- ===== src/Reversals.antt =====
-- JsonlReversalStore of packages/host-iso8583/src/reversal-store.ts: a log of events from which the
-- records are read at every call. The file holds the events; whether one more still fits its limits of
-- bytes is the argument `fits`. A call's time comes as text.
pub mod Laws
pub mod Messages
pub mod Redaction
pub mod Process
pub mod Repair
pub mod RepairLaws
pub mod Outcomes
mod Tests
mod ProcessTests
use cashblocks.Prelude.{
  ℕ, suc, Bool, true, false, not, ◌&&◌, ◌||◌, Option, none, some, List, [], ◌∷◌, ◌++◌, String,
  str_eq, if◌then◌else◌, leb, ltb, ◌==◌, length, all,
}
use cashblocks.Prelude.Text.{codes, is_blank, lookup, insert}
use cashblocks.Prelude.Result.{Result, ok, err, ◌>>=◌, ◌>>◌, throw_if}
use cashblocks.Iso8583.{is_digit, is_printable}

pub record ReversalIntent : Type 0 where
  pub id : String
  pub transaction : String
  pub original_trace : String
  pub amount_minor : ℕ
  pub currency_numeric_code : String
  pub terminal_id : String
  pub transmission_date_time : String
  pub reason : String

pub data ReversalStatus : Type 0 where
  is_pending is_completed : ReversalStatus

pub record ReversalRecord : Type 0 where
  pub intent : ReversalIntent
  pub status : ReversalStatus
  pub attempts : ℕ
  pub created_at : String
  pub updated_at : String
  pub last_error : Option (List ℕ)

pub data ReversalEvent : Type 0 where
  queued : String → ReversalIntent → ReversalEvent
  attempted : String → String → ReversalEvent
  failed : String → String → List ℕ → ReversalEvent
  completed : String → String → ReversalEvent

pub data StoreError : Type 0 where
  bad_intent too_many_events duplicate_id unknown_id changed_after_completion : StoreError
  different_data record_limit too_large event_limit already_completed bad_failure bad_limit :
      StoreError

abbrev pub Records : Type 0
Records = List (String × ReversalRecord)

pub record Store : Type 0 where
  pub events : List ReversalEvent
  pub max_records : ℕ
  pub max_events : ℕ

abbrev pub is_letter : ℕ → Bool
is_letter c = (leb b'A' c && leb c b'Z') || (leb b'a' c && leb c b'z')

abbrev pub is_mark : ℕ → Bool
is_mark c = c == b'.' || c == b'_' || c == b':' || c == b'-'

abbrev pub is_name_unit : ℕ → Bool
is_name_unit c = is_letter c || is_digit c || is_mark c

abbrev pub is_name : ℕ → List ℕ → Bool
is_name limit cs = leb 1 (length cs) && (leb (length cs) limit && all is_name_unit cs)

abbrev pub starts_with_letter : List ℕ → Bool
starts_with_letter [] = false
starts_with_letter (c ∷ cs) = is_letter c

abbrev pub is_lower : ℕ → Bool
is_lower c = leb b'a' c && leb c b'z'

abbrev pub is_reason : List ℕ → Bool
is_reason [] = false
is_reason (c ∷ cs) =
    is_lower c && (leb (length cs) 63 && all (λ c. is_lower c || is_digit c || c == b'_') cs)

abbrev pub are_digits : ℕ → List ℕ → Bool
are_digits n cs = length cs == n && all is_digit cs

-- `validateIntent`
unfoldable pub is_valid_intent : ReversalIntent → Bool
is_valid_intent i =
    is_name 128 (codes i.id)
    && (starts_with_letter (codes i.transaction)
        && (is_name 64 (codes i.transaction)
            && (are_digits 6 (codes i.original_trace)
                && (leb i.amount_minor 999999999999
                    && (are_digits 3 (codes i.currency_numeric_code)
                        && (leb 1 (length (codes i.terminal_id))
                            && (leb (length (codes i.terminal_id)) 8
                                && (all is_printable (codes i.terminal_id)
                                    && (are_digits 10 (codes i.transmission_date_time)
                                        && is_reason (codes i.reason))))))))))

-- `sameIntent`
unfoldable pub same_intent : ReversalIntent → ReversalIntent → Bool
same_intent a b =
    str_eq a.id b.id
    && (str_eq a.transaction b.transaction
        && (str_eq a.original_trace b.original_trace
            && (a.amount_minor == b.amount_minor
                && (str_eq a.currency_numeric_code b.currency_numeric_code
                    && (str_eq a.terminal_id b.terminal_id
                        && (str_eq a.transmission_date_time b.transmission_date_time
                            && str_eq a.reason b.reason))))))

abbrev pub new_record : String → ReversalIntent → ReversalRecord
new_record ts intent = record {
  intent = intent;
  status = is_pending;
  attempts = 0;
  created_at = ts;
  updated_at = ts;
  last_error = none;
}

-- What happens to a record that is there.
pub data Transition : Type 0 where
  attempt complete : Transition
  fail_with : List ℕ → Transition

abbrev pub change_event : String → String → Transition → ReversalEvent
change_event ts id attempt = attempted ts id
change_event ts id complete = completed ts id
change_event ts id (fail_with error) = failed ts id error

abbrev pub changed : String → Transition → ReversalRecord → ReversalRecord
changed ts attempt r = record r { updated_at = ts; attempts = suc r.attempts }
changed ts complete r = record r { updated_at = ts; status = is_completed }
changed ts (fail_with error) r = record r { updated_at = ts; last_error = some error }

abbrev pub may_change : ReversalStatus → Transition → Bool
may_change is_pending change = true
may_change is_completed complete = true
may_change is_completed change = false

abbrev pub queue_in :
    Option ReversalRecord → String → ReversalIntent → Records → Result StoreError Records
queue_in (some r) ts intent records = err duplicate_id
queue_in none ts intent records = ok (insert intent.id (new_record ts intent) records)

abbrev pub change_in :
    Option ReversalRecord → String → String → Transition → Records → Result StoreError Records
change_in none ts id change records = err unknown_id
change_in (some r) ts id change records =
    if may_change r.status change
    then ok (insert id (changed ts change r) records)
    else err changed_after_completion

-- `applyEvent`
unfoldable pub apply_reversal : ReversalEvent → Records → Result StoreError Records
apply_reversal (queued ts intent) records = queue_in (lookup intent.id records) ts intent records
apply_reversal (attempted ts id) records = change_in (lookup id records) ts id attempt records
apply_reversal (failed ts id error) records =
    change_in (lookup id records) ts id (fail_with error) records
apply_reversal (completed ts id) records = change_in (lookup id records) ts id complete records

-- The loop of `load`.
unfoldable pub replay : List ReversalEvent → Records → Result StoreError Records
unfolding apply_reversal
replay [] records = ok records
replay (event ∷ events) records = apply_reversal event records >>= replay events

unfoldable pub load : Store → Result StoreError Records
unfolding replay
load s = if ltb s.max_events (length s.events) then err too_many_events else replay s.events []

unfoldable pub append :
    (ReversalEvent → List ReversalEvent → Bool) → ReversalEvent → Store → Result StoreError Store
append fits event s =
    if not (fits event s.events)
    then err too_large
    else if leb s.max_events (length s.events)
    then err event_limit
    else ok (record s { events = s.events ++ event ∷ [] })

abbrev pub enqueue_in :
    (ReversalEvent → List ReversalEvent → Bool)
    → Option ReversalRecord
    → String
    → ReversalIntent
    → Records
    → Store
    → Result StoreError (ReversalRecord × Store)
enqueue_in fits (some existing) ts intent records s =
    if not (same_intent existing.intent intent) then err different_data else ok (existing, s)
enqueue_in fits none ts intent records s =
    if leb s.max_records (length records)
    then err record_limit
    else (append fits (queued ts intent) s >>= λ after. ok (new_record ts intent, after))

-- `enqueue`
unfoldable pub enqueue :
    (ReversalEvent → List ReversalEvent → Bool)
    → String
    → ReversalIntent
    → Store
    → Result StoreError (ReversalRecord × Store)
unfolding is_valid_intent load append
enqueue fits ts intent s = do
  throw_if (not (is_valid_intent intent)) bad_intent
  records ← load s
  enqueue_in fits (lookup intent.id records) ts intent records s

abbrev pub transition_of :
    (ReversalEvent → List ReversalEvent → Bool)
    → ReversalStatus
    → String
    → String
    → Transition
    → Store
    → Result StoreError Store
transition_of fits is_completed ts id complete s = ok s
transition_of fits is_completed ts id change s = err already_completed
transition_of fits is_pending ts id change s = append fits (change_event ts id change) s

abbrev pub transition_in :
    (ReversalEvent → List ReversalEvent → Bool)
    → Option ReversalRecord
    → String
    → String
    → Transition
    → Store
    → Result StoreError Store
transition_in fits none ts id change s = err unknown_id
transition_in fits (some r) ts id change s = transition_of fits r.status ts id change s

-- `transition`
unfoldable pub transition :
    (ReversalEvent → List ReversalEvent → Bool)
    → String
    → String
    → Transition
    → Store
    → Result StoreError Store
unfolding load append
transition fits ts id change s = do
  records ← load s
  transition_in fits (lookup id records) ts id change s
