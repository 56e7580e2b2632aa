-- ===== src/Replay/Events.antt =====
-- `validateRuntimeEvent` and `isJsonValue` of packages/journal-replay/src/index.ts, and the event that a
-- value is taken for behind them. `isCanonicalIsoTimestamp` stands on Date, and is the argument
-- `is_canonical`.
use cashblocks.Prelude.{
  ℕ, ◌+◌, Bool, true, not, ◌&&◌, Option, none, some, List, [], ◌∷◌, ◌++◌, String, str_eq,
  if◌then◌else◌, leb, ltb, map,
}
use cashblocks.Prelude.Int.{pos}
use cashblocks.Prelude.Text.{lookup, is_blank}
use cashblocks.Cash.{max_safe_integer}
use cashblocks.Contracts.{
  Json, null, bool, num, text, arr, obj, Items, nil, cons, Fields, end, field, Payload, EventType,
  RuntimeEvent, runtime_started, flow_loaded, flow_failed, session_started, transaction_selected,
  transaction_started, transaction_completed, transaction_cancelled, transaction_failed,
  transaction_reconciliation_required, device_status_changed, host_authorization_requested,
  host_authorization_result, journal_line_logged, transaction_detail_recorded, ui_input_received,
  ui_prompt, Source, from_runtime, from_flow, from_module, from_simulator, from_ui,
}
use cashblocks.Replay.Types.{error, JournalReplayIssue}
use cashblocks.Replay.Payload.{
  PayloadIssue, missing_payload, invalid_payload_field, validate_event_payload,
}

-- `runtimeEventTypes`, `eventSources`
abbrev pub runtime_event_types : List (String × EventType)
runtime_event_types =
    ("runtime.started", runtime_started)
    ∷ ("flow.loaded", flow_loaded)
    ∷ ("flow.failed", flow_failed)
    ∷ ("session.started", session_started)
    ∷ ("transaction.selected", transaction_selected)
    ∷ ("transaction.started", transaction_started)
    ∷ ("transaction.completed", transaction_completed)
    ∷ ("transaction.cancelled", transaction_cancelled)
    ∷ ("transaction.failed", transaction_failed)
    ∷ ("transaction.reconciliation_required", transaction_reconciliation_required)
    ∷ ("device.status_changed", device_status_changed)
    ∷ ("host.authorization_requested", host_authorization_requested)
    ∷ ("host.authorization_result", host_authorization_result)
    ∷ ("journal.line_logged", journal_line_logged)
    ∷ ("transaction.detail_recorded", transaction_detail_recorded)
    ∷ ("ui.input_received", ui_input_received)
    ∷ ("ui.prompt", ui_prompt)
    ∷ []

abbrev pub event_sources : List (String × Source)
event_sources =
    ("runtime", from_runtime)
    ∷ ("flow", from_flow)
    ∷ ("module", from_module)
    ∷ ("simulator", from_simulator)
    ∷ ("ui", from_ui)
    ∷ []

-- `isJsonValue`, on values as JSON.parse makes them: no cycles, and no number that is not finite.
unfoldable mutual
  pub is_json_value : ℕ → Json → Bool
  is_json_value depth null = true
  is_json_value depth (bool b) = true
  is_json_value depth (num n) = true
  is_json_value depth (text s) = true
  is_json_value depth (arr items) = not (leb 20 depth) && are_json_items (depth + 1) items
  is_json_value depth (obj fields) = not (leb 20 depth) && are_json_fields (depth + 1) fields

  pub are_json_items : ℕ → Items → Bool
  are_json_items depth nil = true
  are_json_items depth (cons item items) = is_json_value depth item && are_json_items depth items

  pub are_json_fields : ℕ → Fields → Bool
  are_json_fields depth end = true
  are_json_fields depth (field key value rest) =
      is_json_value depth value && are_json_fields depth rest

unfoldable pub entries_of : Fields → Payload
entries_of end = []
entries_of (field key value rest) = (key, value) ∷ entries_of rest

-- `isJsonRecord`
unfoldable pub json_record : Json → Option Payload
unfolding is_json_value entries_of
json_record (obj fields) = if are_json_fields 0 fields then some (entries_of fields) else none
json_record _ = none

-- The parts of an event that are what they have to be.
abbrev pub seq_of : Option Json → Option ℕ
seq_of (some (num (pos n))) = if ltb 0 n && leb n max_safe_integer then some n else none
seq_of _ = none

unfoldable pub type_of : Option Json → Option EventType
unfolding lookup
type_of (some (text s)) = lookup s runtime_event_types
type_of _ = none

unfoldable pub source_of : Option Json → Option Source
unfolding lookup
source_of (some (text s)) = lookup s event_sources
source_of _ = none

abbrev pub time_of : (String → Bool) → Option Json → Option String
time_of is_canonical (some (text s)) = if not (str_eq s "") && is_canonical s then some s else none
time_of is_canonical _ = none

-- An absent part, or one that is what it has to be; none is an issue.
abbrev pub session_of : Option Json → Option (Option String)
session_of none = some none
session_of (some (text s)) = if is_blank s then none else some (some s)
session_of (some _) = none

abbrev pub payload_of : Option Json → Option (Option Payload)
payload_of none = some none
payload_of (some value) = elim (json_record value) [
  | none ↦ none
  | some payload ↦ some (some payload)
]

-- The sessionId and the seq that an issue names; a seq below 0 is left out.
abbrev pub named_session : Option Json → Option String
named_session (some (text s)) = some s
named_session _ = none

abbrev pub named_seq : Option Json → Option ℕ
named_seq (some (num (pos n))) = some n
named_seq _ = none

abbrev pub event_issue : Payload → ℕ → String → JournalReplayIssue
event_issue value line code = record {
  severity = error;
  code = code;
  line = some line;
  session_id = named_session (lookup "sessionId" value);
  seq = named_seq (lookup "seq" value);
}

abbrev pub issue_unless {ℓ} : {A : Type ℓ} → Option A → JournalReplayIssue → List JournalReplayIssue
issue_unless none issue = issue ∷ []
issue_unless (some a) issue = []

abbrev pub payload_code : PayloadIssue → String
payload_code missing_payload = "MISSING_PAYLOAD"
payload_code (invalid_payload_field key) = "INVALID_PAYLOAD_FIELD"

-- The payload is checked by its type, where both are what they have to be.
abbrev pub payload_issues :
    Option EventType
    → Option (Option Payload)
    → (String → JournalReplayIssue)
    → List JournalReplayIssue
payload_issues type none issue = issue "INVALID_PAYLOAD" ∷ []
payload_issues none (some payload) issue = []
payload_issues (some type) (some payload) issue =
    map (λ i. issue (payload_code i)) (validate_event_payload type payload)

-- `validateRuntimeEvent` of an object.
unfoldable pub validate_fields : (String → Bool) → Payload → ℕ → List JournalReplayIssue
unfolding type_of source_of validate_event_payload is_blank lookup json_record
validate_fields is_canonical value line =
    let issue = event_issue value line in
    issue_unless (seq_of (lookup "seq" value)) (issue "INVALID_SEQUENCE")
    ++ (issue_unless (type_of (lookup "type" value)) (issue "INVALID_EVENT_TYPE")
        ++ (issue_unless (source_of (lookup "source" value)) (issue "INVALID_EVENT_SOURCE")
            ++ (issue_unless (time_of is_canonical (lookup "ts" value)) (issue "INVALID_TIMESTAMP")
                ++ (issue_unless (session_of (lookup "sessionId" value))
                      (issue "INVALID_SESSION_ID")
                    ++ payload_issues (type_of (lookup "type" value))
                        (payload_of (lookup "payload" value)) issue))))

unfoldable pub validate_runtime_event : (String → Bool) → Json → ℕ → List JournalReplayIssue
unfolding validate_fields entries_of
validate_runtime_event is_canonical (obj fields) line =
    validate_fields is_canonical (entries_of fields) line
validate_runtime_event is_canonical _ line =
    record {
      severity = error;
      code = "INVALID_EVENT";
      line = some line;
      session_id = none;
      seq = none;
    }
    ∷ []

-- `value as RuntimeEvent`: the event that a value without an issue is. The fallbacks stand where the
-- value has an issue.
abbrev pub or_other {ℓ} : {A : Type ℓ} → A → Option A → A
or_other other none = other
or_other other (some a) = a

abbrev pub event_of_fields : (String → Bool) → Payload → RuntimeEvent
event_of_fields is_canonical value = record {
  seq = or_other 0 (seq_of (lookup "seq" value));
  ts = or_other "" (time_of is_canonical (lookup "ts" value));
  draft = record {
    type = or_other runtime_started (type_of (lookup "type" value));
    source = or_other from_runtime (source_of (lookup "source" value));
    session_id = or_other none (session_of (lookup "sessionId" value));
    payload = or_other none (payload_of (lookup "payload" value));
  };
}

unfoldable pub event_of_json : (String → Bool) → Json → RuntimeEvent
unfolding type_of source_of is_blank lookup entries_of json_record
event_of_json is_canonical (obj fields) = event_of_fields is_canonical (entries_of fields)
event_of_json is_canonical _ = event_of_fields is_canonical []
