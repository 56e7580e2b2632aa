-- ===== src/Replay/Typed.antt =====
-- What `validateRuntimeEvent` of packages/journal-replay/src/index.ts makes sure of, for the values
-- that are taken for events behind it.
use mathlib.Core.Option.{some-injective}
use cashblocks.Prelude.{
  ℕ, ◌≡◌, ◌≤◌, refl, ap, Bool, true, not, ◌&&◌, Option, none, some, List, [], ◌∷◌, ◌++◌, String,
  str_eq, eq_iff, arith, map, if_rule, ltb, leb, subst,
}
use cashblocks.Prelude.Int.{pos}
use cashblocks.Prelude.Text.{lookup, is_blank}
use cashblocks.Cash.{max_safe_integer}
use cashblocks.Contracts.{
  Json, num, text, obj, Fields, Payload, EventType, Source, RuntimeEvent, runtime_started,
  flow_loaded, flow_failed, session_started, transaction_selected, transaction_started,
  transaction_completed, transaction_cancelled, transaction_failed,
  transaction_reconciliation_required, device_status_changed, host_authorization_requested,
  host_authorization_result, journal_line_logged, transaction_detail_recorded, ui_input_received,
  ui_prompt, from_runtime, from_flow, from_module, from_simulator, from_ui,
}
use cashblocks.Replay.Types.{JournalReplayIssue}
use cashblocks.Replay.Payload.{validate_event_payload}
use cashblocks.Replay.Events.{
  runtime_event_types, event_sources, entries_of, json_record, seq_of, type_of, source_of, time_of,
  session_of, payload_of, issue_unless, payload_issues, event_issue, validate_fields,
  validate_runtime_event, event_of_fields, event_of_json, are_json_fields, or_other,
}

-- The text that a journal has for a type and for a source.
abbrev pub type_name : EventType → String
type_name runtime_started = "runtime.started"
type_name flow_loaded = "flow.loaded"
type_name flow_failed = "flow.failed"
type_name session_started = "session.started"
type_name transaction_selected = "transaction.selected"
type_name transaction_started = "transaction.started"
type_name transaction_completed = "transaction.completed"
type_name transaction_cancelled = "transaction.cancelled"
type_name transaction_failed = "transaction.failed"
type_name transaction_reconciliation_required = "transaction.reconciliation_required"
type_name device_status_changed = "device.status_changed"
type_name host_authorization_requested = "host.authorization_requested"
type_name host_authorization_result = "host.authorization_result"
type_name journal_line_logged = "journal.line_logged"
type_name transaction_detail_recorded = "transaction.detail_recorded"
type_name ui_input_received = "ui.input_received"
type_name ui_prompt = "ui.prompt"

abbrev pub source_name : Source → String
source_name from_runtime = "runtime"
source_name from_flow = "flow"
source_name from_module = "module"
source_name from_simulator = "simulator"
source_name from_ui = "ui"

abbrev pub maybe_text : Option String → Option Json
maybe_text none = none
maybe_text (some s) = some (text s)

abbrev pub IsPayloadOf : Option Json → Option Payload → Type 0
IsPayloadOf value none = value ≡ none
IsPayloadOf value (some payload) =
    (fields : Fields) × ((value ≡ some (obj fields)) × (entries_of fields ≡ payload))

-- The fields of an object are those of the event.
pub record AreFieldsOf (is_canonical : String → Bool) (value : Payload) (e : RuntimeEvent)
    : Type 0 where
  pub has_seq : lookup "seq" value ≡ some (num (pos e.seq))
  pub seq_positive : 1 ≤ e.seq
  pub seq_safe : e.seq ≤ max_safe_integer
  pub has_ts : lookup "ts" value ≡ some (text e.ts)
  pub ts_canonical : is_canonical e.ts ≡ true
  pub has_type : lookup "type" value ≡ some (text (type_name e.draft.type))
  pub has_source : lookup "source" value ≡ some (text (source_name e.draft.source))
  pub has_session : lookup "sessionId" value ≡ maybe_text e.draft.session_id
  pub has_payload : IsPayloadOf (lookup "payload" value) e.draft.payload
  pub payload_fits : validate_event_payload e.draft.type e.draft.payload ≡ []

abbrev IsTypeText : Option Json → EventType → Type 0
IsTypeText value t = value ≡ some (text (type_name t))

-- A table that has the name of every entry.
abbrev AreNamed {ℓ} : {A : Type ℓ} → (A → String) → List (String × A) → Type 0
AreNamed name [] = Unit
AreNamed name ((s, a) ∷ rest) = (name a ≡ s) × AreNamed name rest

lookup_named :
    {A : Type 0} (name : A → String) (table : List (String × A)) (s : String) (a : A)
    → AreNamed name table
    → lookup s table ≡ some a
    → s ≡ name a
unfolding lookup
lookup_named name [] s a named h = cc
lookup_named name ((k, b) ∷ rest) s a named h =
    if_rule (λ found. found ≡ some a → s ≡ name a) (str_eq k s) _ _
      (λ e f. ground (arith, eq_iff k s, named.0)) (λ e f. lookup_named name rest s a named.1 f) h

types_named : AreNamed type_name runtime_event_types
types_named = (
  refl,
  (
    refl,
    (
      refl,
      (
        refl,
        (
          refl,
          (
            refl,
            (
              refl,
              (refl, (refl, (refl, (refl, (refl, (refl, (refl, (refl, (refl, (refl, tt)))))))))),
            ),
          ),
        ),
      ),
    ),
  ),
)

sources_named : AreNamed source_name event_sources
sources_named = (refl, (refl, (refl, (refl, (refl, tt)))))

checked_first :
    {A : Type 0} (other : A) (a : Option A) (issue : JournalReplayIssue)
    (rest : List JournalReplayIssue)
    → issue_unless a issue ++ rest ≡ []
    → (a ≡ some (or_other other a)) × (rest ≡ [])
checked_first other none issue rest h = cc
checked_first other (some found) issue rest h = (refl, h)

nil_of_map : {A B : Type 0} (f : A → B) (xs : List A) → map f xs ≡ [] → xs ≡ []
nil_of_map f [] h = refl
nil_of_map f (x ∷ xs) h = cc

payload_of_no_issue :
    (type : Option EventType) (payload : Option (Option Payload))
    (issue : String → JournalReplayIssue)
    → payload_issues type payload issue ≡ []
    → payload ≡ some (or_other none payload)
payload_of_no_issue type none issue h = cc
payload_of_no_issue type (some payload) issue h = refl

payload_fits_type :
    (type : Option EventType) (payload : Option (Option Payload))
    (issue : String → JournalReplayIssue) (t : EventType) (p : Option Payload)
    → type ≡ some t
    → payload ≡ some p
    → payload_issues type payload issue ≡ []
    → validate_event_payload t p ≡ []
payload_fits_type type payload issue t p is_type is_payload h =
    nil_of_map _ (validate_event_payload t p) (
      subst (λ k. payload_issues k (some p) issue ≡ []) is_type
        (subst (λ k. payload_issues type k issue ≡ []) is_payload h))

seq_of-some :
    (value : Option Json) (n : ℕ)
    → seq_of value ≡ some n
    → (value ≡ some (num (pos n))) × ((1 ≤ n) × (n ≤ max_safe_integer))
seq_of-some (some (num (pos m))) n h =
    if_rule
      (λ found.
        found ≡ some n
        → (some (num (pos m)) ≡ some (num (pos n))) × ((1 ≤ n) × (n ≤ max_safe_integer)))
      (ltb 0 m && leb m max_safe_integer) _ _
      (λ e f.
        let same = some-injective m n f in
        (ap (λ k. some (num (pos k))) same, (ground arith, ground arith)))
      (λ e f. cc) h
seq_of-some _ n h = cc

type_of-some :
    (value : Option Json) (t : EventType)
    → type_of value ≡ some t
    → value ≡ some (text (type_name t))
unfolding type_of
type_of-some (some (text s)) t h =
    ap (λ name. some (text name)) (lookup_named type_name runtime_event_types s t types_named h)
type_of-some _ t h = cc

source_of-some :
    (value : Option Json) (t : Source)
    → source_of value ≡ some t
    → value ≡ some (text (source_name t))
unfolding source_of
source_of-some (some (text s)) t h =
    ap (λ name. some (text name)) (lookup_named source_name event_sources s t sources_named h)
source_of-some _ t h = cc

time_of-some :
    (is_canonical : String → Bool) (value : Option Json) (ts : String)
    → time_of is_canonical value ≡ some ts
    → (value ≡ some (text ts)) × (is_canonical ts ≡ true)
time_of-some is_canonical (some (text s)) ts h =
    if_rule (λ found. found ≡ some ts → (some (text s) ≡ some (text ts)) × (is_canonical ts ≡ true))
      (not (str_eq s "") && is_canonical s) _ _
      (λ e f.
        let same = some-injective s ts f in
        (ap (λ k. some (text k)) same, subst (λ k. is_canonical k ≡ true) same (ground arith)))
      (λ e f. cc) h
time_of-some is_canonical _ ts h = cc

session_of-some :
    (value : Option Json) (session : Option String)
    → session_of value ≡ some session
    → value ≡ maybe_text session
session_of-some none session h = subst (λ k. none ≡ maybe_text k) (some-injective _ _ h) refl
session_of-some (some (text s)) session h =
    if_rule (λ found. found ≡ some session → some (text s) ≡ maybe_text session) (is_blank s) _ _
      (λ e f. cc) (λ e f. subst (λ k. some (text s) ≡ maybe_text k) (some-injective _ _ f) refl) h
session_of-some (some _) session h = cc

payload_of-some :
    (value : Option Json) (payload : Option Payload)
    → payload_of value ≡ some payload
    → IsPayloadOf value payload
unfolding json_record
payload_of-some none payload h = subst (IsPayloadOf none) (some-injective _ _ h) refl
payload_of-some (some (obj fields)) payload h =
    if_rule {B = Option Payload}
      (λ found.
        (elim found [ none ↦ none | some p ↦ some (some p) ]) ≡ some payload
        → IsPayloadOf (some (obj fields)) payload)
      (are_json_fields 0 fields) _ _
      (λ e f. subst (IsPayloadOf (some (obj fields))) (some-injective _ _ f) (fields, (refl, refl)))
      (λ e f. cc) h
payload_of-some (some _) payload h = cc

-- An object without an issue.
fields_are_of :
    (is_canonical : String → Bool) (value : Payload) (line : ℕ)
    → validate_fields is_canonical value line ≡ []
    → AreFieldsOf is_canonical value (event_of_fields is_canonical value)
unfolding validate_fields
fields_are_of is_canonical value line h =
    let seq = lookup "seq" value in
    let type = lookup "type" value in
    let source = lookup "source" value in
    let ts = lookup "ts" value in
    let session = lookup "sessionId" value in
    let payload = lookup "payload" value in
    let issue = event_issue value line in
    let rest_5 = payload_issues (type_of type) (payload_of payload) issue in
    let rest_4 = issue_unless (session_of session) (issue "INVALID_SESSION_ID") ++ rest_5 in
    let rest_3 = issue_unless (time_of is_canonical ts) (issue "INVALID_TIMESTAMP") ++ rest_4 in
    let rest_2 = issue_unless (source_of source) (issue "INVALID_EVENT_SOURCE") ++ rest_3 in
    let rest_1 = issue_unless (type_of type) (issue "INVALID_EVENT_TYPE") ++ rest_2 in
    let h_1 = checked_first 0 (seq_of seq) (issue "INVALID_SEQUENCE") rest_1 h in
    let h_2 =
      checked_first runtime_started (type_of type) (issue "INVALID_EVENT_TYPE") rest_2 h_1.1 in
    let h_3 =
      checked_first from_runtime (source_of source) (issue "INVALID_EVENT_SOURCE") rest_3 h_2.1 in
    let h_4 = checked_first "" (time_of is_canonical ts) (issue "INVALID_TIMESTAMP") rest_4 h_3.1 in
    let h_5 = checked_first none (session_of session) (issue "INVALID_SESSION_ID") rest_5 h_4.1 in
    let h_6 = payload_of_no_issue (type_of type) (payload_of payload) issue h_5.1 in
    let is_seq = seq_of-some seq _ h_1.0 in
    let is_ts = time_of-some is_canonical ts _ h_4.0 in
    record {
      has_seq = is_seq.0;
      seq_positive = is_seq.1.0;
      seq_safe = is_seq.1.1;
      has_ts = is_ts.0;
      ts_canonical = is_ts.1;
      has_type = type_of-some type _ h_2.0;
      has_source = source_of-some source _ h_3.0;
      has_session = session_of-some session _ h_5.0;
      has_payload = payload_of-some payload _ h_6;
      payload_fits =
          payload_fits_type (type_of type) (payload_of payload) issue _ _ h_2.0 h_6 h_5.1;
    }

-- A value of JSON.parse is the event that it is taken for.
abbrev pub IsValueOf : (String → Bool) → Json → RuntimeEvent → Type 0
IsValueOf is_canonical value event =
    (fields : Fields) × ((value ≡ obj fields) × AreFieldsOf is_canonical (entries_of fields) event)

-- A value in which the validation finds no issue is an object, and the event it is taken for has the
-- object's own seq, ts, type, source, sessionId and payload: the seq is from 1 to the greatest safe
-- integer, the ts is canonical, and the payload has no issue for the type.
pub event_of_json-IsValueOf :
    (is_canonical : String → Bool) (value : Json) (line : ℕ)
    → validate_runtime_event is_canonical value line ≡ []
    → IsValueOf is_canonical value (event_of_json is_canonical value)
unfolding validate_runtime_event event_of_json
event_of_json-IsValueOf is_canonical (obj fields) line h =
    (fields, (refl, fields_are_of is_canonical (entries_of fields) line h))
event_of_json-IsValueOf is_canonical _ line h = cc
