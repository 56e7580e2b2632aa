-- ===== src/Replay/Payload.antt =====
-- `validateEventPayload` of packages/journal-replay/src/index.ts: which payloads parsing lets through.
use cashblocks.Prelude.{
  ◌≡◌, Bool, true, false, not, ◌&&◌, Option, none, some, List, [], ◌∷◌, ◌++◌, String, if◌then◌else◌,
  arith, Option-cases, inl, inr,
}
use cashblocks.Contracts.{
  Json, bool, num, text, Payload, EventType, flow_loaded, transaction_selected, transaction_started,
  transaction_completed, transaction_cancelled, transaction_failed,
  transaction_reconciliation_required, device_status_changed, host_authorization_requested,
  host_authorization_result, transaction_detail_recorded,
}
use cashblocks.Replay.Types.{payload_at, payload_string, number_record}

-- The codes of the issues, with the key that the message names.
pub data PayloadIssue : Type 0 where
  missing_payload : PayloadIssue
  invalid_payload_field : String → PayloadIssue

abbrev pub issue_if : Bool → PayloadIssue → List PayloadIssue
issue_if true issue = issue ∷ []
issue_if false issue = []

abbrev pub is_absent {ℓ} : {A : Type ℓ} → Option A → Bool
is_absent none = true
is_absent (some a) = false

-- `requirePayload() && ...`: what follows only runs on a payload.
abbrev pub require_payload : Option Payload → List PayloadIssue → List PayloadIssue
require_payload none rest = missing_payload ∷ []
require_payload (some payload) rest = rest

unfoldable pub require_string : Option Payload → String → List PayloadIssue
require_string payload key =
    issue_if (is_absent (payload_string payload key)) (invalid_payload_field key)

abbrev pub is_other_than_string : Option Json → Bool
is_other_than_string none = false
is_other_than_string (some (text s)) = false
is_other_than_string (some _) = true

abbrev pub is_other_than_number : Option Json → Bool
is_other_than_number none = false
is_other_than_number (some (num n)) = false
is_other_than_number (some _) = true

abbrev pub is_other_than_boolean : Option Json → Bool
is_other_than_boolean none = false
is_other_than_boolean (some (bool b)) = false
is_other_than_boolean (some _) = true

unfoldable pub optional_string : Option Payload → String → List PayloadIssue
optional_string payload key =
    issue_if (is_other_than_string (payload_at payload key)) (invalid_payload_field key)

unfoldable pub optional_number : Option Payload → String → List PayloadIssue
optional_number payload key =
    issue_if (is_other_than_number (payload_at payload key)) (invalid_payload_field key)

unfoldable pub optional_boolean : Option Payload → String → List PayloadIssue
optional_boolean payload key =
    issue_if (is_other_than_boolean (payload_at payload key)) (invalid_payload_field key)

unfoldable pub optional_strings : Option Payload → List String → List PayloadIssue
optional_strings payload [] = []
optional_strings payload (key ∷ keys) = optional_string payload key ++ optional_strings payload keys

unfoldable pub optional_numbers : Option Payload → List String → List PayloadIssue
optional_numbers payload [] = []
optional_numbers payload (key ∷ keys) = optional_number payload key ++ optional_numbers payload keys

-- The types whose payload must name a transaction.
unfoldable pub needs_transaction : EventType → Bool
needs_transaction transaction_selected = true
needs_transaction transaction_started = true
needs_transaction transaction_completed = true
needs_transaction transaction_failed = true
needs_transaction transaction_reconciliation_required = true
needs_transaction host_authorization_requested = true
needs_transaction host_authorization_result = true
needs_transaction _ = false

-- The checks of the other types that require something.
unfoldable pub validate_by_type : EventType → Option Payload → List PayloadIssue
validate_by_type flow_loaded payload = require_payload payload (require_string payload "entrypoint")
validate_by_type transaction_cancelled payload =
    require_payload payload
      (require_string payload "reason" ++ optional_string payload "transaction")
validate_by_type transaction_detail_recorded payload =
    require_payload payload (require_string payload "detail")
validate_by_type device_status_changed payload = require_payload payload (
    issue_if
      (is_absent (payload_string payload "device") && is_absent (payload_string payload "adapter"))
      (invalid_payload_field "device"))
validate_by_type host_authorization_result payload = optional_boolean payload "ok"
validate_by_type _ payload = []

unfoldable pub name_issues : EventType → Option Payload → List PayloadIssue
name_issues type payload =
    if needs_transaction type
    then require_payload payload (require_string payload "transaction")
    else []

-- The checks that every type has.
unfoldable pub field_issues : Option Payload → List PayloadIssue
field_issues payload =
    optional_strings payload
      ("account" ∷ "currencyCode" ∷ "device" ∷ "adapter" ∷ "status" ∷ "health" ∷ [])
    ++ (optional_numbers payload (
          "amount" ∷ "balance" ∷ "balanceBefore" ∷ "balanceAfter" ∷ "terminalCash"
          ∷ "terminalCashBefore" ∷ "terminalCashAfter" ∷ [])
        ++ issue_if
            (not (is_absent (payload_at payload "accounts"))
              && is_absent (number_record (payload_at payload "accounts")))
            (invalid_payload_field "accounts"))

unfoldable pub validate_event_payload : EventType → Option Payload → List PayloadIssue
validate_event_payload type payload =
    name_issues type payload ++ (validate_by_type type payload ++ field_issues payload)

pub nil_of_append {ℓ} : {A : Type ℓ} (xs ys : List A) → xs ++ ys ≡ [] → xs ≡ []
nil_of_append [] ys h = cc
nil_of_append (x ∷ xs) ys h = cc

-- An event that parsing lets through names its transaction, if its type is one that must: the replay of
-- such an event never has to guess the transaction.
pub validate_event_payload_names :
    (type : EventType) (payload : Option Payload)
    → needs_transaction type ≡ true
    → validate_event_payload type payload ≡ []
    → (transaction : String) × (payload_string payload "transaction" ≡ some transaction)
unfolding validate_event_payload name_issues require_string
validate_event_payload_names type payload needs h =
    let first : name_issues type payload ≡ [] =
      nil_of_append (name_issues type payload)
        (validate_by_type type payload ++ field_issues payload) h in
    elim (Option-cases (payload_string payload "transaction")) [
      | inl absent ↦ ground (arith, present payload (require_string payload "transaction"))
      | inr named ↦ named
    ]
  where
    present :
        (payload : Option Payload) (rest : List PayloadIssue)
        → require_payload payload rest ≡ []
        → rest ≡ []
    present none rest h = cc
    present (some p) rest h = h
