-- ===== src/Reversals/Repair.antt =====
-- `parseEvent` and `repairPartialTail` of packages/host-iso8583/src/reversal-store.ts, over the code
-- units of the file. JSON.parse is the argument `parse_json`, and whether a text is a canonical
-- time, which stands on Date, `is_canonical`.
use cashblocks.Prelude.{
  ℕ, Bool, true, false, not, ◌&&◌, Option, none, some, List, [], ◌∷◌, ◌++◌, String, str_eq,
  if◌then◌else◌, leb, ◌==◌, length, all, any,
}
use cashblocks.Prelude.Text.{codes, lookup}
use cashblocks.Prelude.Int.{pos}
use cashblocks.Contracts.{Json, num, text, obj, Fields, end, field}
use cashblocks.Reversals.{
  ReversalIntent, ReversalEvent, queued, attempted, failed, completed, is_valid_intent,
}
use cashblocks.Reversals.Messages.{is_nothing}

abbrev pub pairs_of : Fields → List (String × Json)
pairs_of end = []
pairs_of (field key value rest) = (key, value) ∷ pairs_of rest

-- `requireExactKeys`
unfoldable pub has_exact_keys : List String → List (String × Json) → Bool
has_exact_keys allowed value =
    length value == length allowed && all (λ f. any (str_eq f.0) allowed) value

abbrev pub text_at : String → List (String × Json) → Option String
text_at key value = elim (lookup key value) [ some (text s) ↦ some s | _ ↦ none ]

abbrev pub natural_at : String → List (String × Json) → Option ℕ
natural_at key value = elim (lookup key value) [ some (num (pos n)) ↦ some n | _ ↦ none ]

abbrev pub intent_keys : List String
intent_keys =
    "id" ∷ "transaction" ∷ "originalTrace" ∷ "amountMinor" ∷ "currencyNumericCode" ∷ "terminalId"
    ∷ "transmissionDateTime" ∷ "reason" ∷ []

abbrev pub or_blank : Option String → String
or_blank none = ""
or_blank (some s) = s

abbrev pub is_there {ℓ} : {A : Type ℓ} → Option A → Bool
is_there none = false
is_there (some a) = true

abbrev pub checked_intent : ℕ → List (String × Json) → Option ReversalIntent
checked_intent amount value =
    let intent : ReversalIntent = record {
      id = or_blank (text_at "id" value);
      transaction = or_blank (text_at "transaction" value);
      original_trace = or_blank (text_at "originalTrace" value);
      amount_minor = amount;
      currency_numeric_code = or_blank (text_at "currencyNumericCode" value);
      terminal_id = or_blank (text_at "terminalId" value);
      transmission_date_time = or_blank (text_at "transmissionDateTime" value);
      reason = or_blank (text_at "reason" value);
    } in
    if all (λ f. any (str_eq f.0) intent_keys) value && is_valid_intent intent
    then some intent
    else none

-- `validateIntent` of a value. An absent text counts as empty, which no pattern of it takes.
abbrev pub intent_of : Option Json → Option ReversalIntent
intent_of (some (obj fields)) = elim (natural_at "amountMinor" (pairs_of fields)) [
  | none ↦ none
  | some amount ↦ checked_intent amount (pairs_of fields)
]
intent_of _ = none

abbrev pub queued_at : String → Option ReversalIntent → Option ReversalEvent
queued_at ts none = none
queued_at ts (some intent) = some (queued ts intent)

-- The events of a record, by their type.
abbrev pub change_at :
    String → String → String → Option String → List (String × Json) → Option ReversalEvent
change_at type ts id error value =
    if str_eq type "attempted" && has_exact_keys ("type" ∷ "ts" ∷ "id" ∷ []) value
    then some (attempted ts id)
    else if str_eq type "completed" && has_exact_keys ("type" ∷ "ts" ∷ "id" ∷ []) value
    then some (completed ts id)
    else if str_eq type "failed"
        && (is_there error
            && (leb (length (codes (or_blank error))) 500
                && has_exact_keys ("type" ∷ "ts" ∷ "id" ∷ "error" ∷ []) value))
    then some (failed ts id (codes (or_blank error)))
    else none

abbrev pub event_at : String → String → List (String × Json) → Option ReversalEvent
event_at type ts value =
    if str_eq type "queued"
    then (if has_exact_keys ("type" ∷ "ts" ∷ "intent" ∷ []) value
        then queued_at ts (intent_of (lookup "intent" value))
        else none)
    else elim (text_at "id" value) [
      | none ↦ none
      | some id ↦ change_at type ts id (text_at "error" value) value
    ]

-- `parseEvent`, with none for what it throws on.
unfoldable pub parse_event : (String → Bool) → Json → Option ReversalEvent
unfolding lookup has_exact_keys is_valid_intent
parse_event is_canonical (obj fields) =
    let value = pairs_of fields in
    let ts = text_at "ts" value in
    let type = text_at "type" value in
    if is_there type && (is_there ts && is_canonical (or_blank ts))
    then event_at (or_blank type) (or_blank ts) value
    else none
parse_event is_canonical _ = none

-- `text.slice(0, text.lastIndexOf("\n") + 1)`, and what is behind it.
unfoldable pub complete_part : List ℕ → List ℕ
complete_part [] = []
complete_part (c ∷ cs) =
    let rest = complete_part cs in if is_nothing rest && not (c == 10) then [] else c ∷ rest

unfoldable pub tail_part : List ℕ → List ℕ
unfolding complete_part
tail_part [] = []
tail_part (c ∷ cs) =
    let rest = tail_part cs in if is_nothing (complete_part (c ∷ cs)) then c ∷ cs else rest

abbrev pub is_event_value : (String → Bool) → Option Json → Bool
is_event_value is_canonical none = false
is_event_value is_canonical (some value) = is_there (parse_event is_canonical value)

-- `repairPartialTail`: what it leaves in the file.
unfoldable pub repair_partial_tail : (List ℕ → Option Json) → (String → Bool) → List ℕ → List ℕ
unfolding tail_part complete_part parse_event
repair_partial_tail parse_json is_canonical content =
    let tail = tail_part content in
    if is_nothing tail
    then content
    else if is_event_value is_canonical (parse_json tail)
    then content ++ (10 ∷ [])
    else complete_part content
