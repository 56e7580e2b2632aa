-- ===== src/Replay/ReadLines.antt =====
-- What the loop over the lines of `inspectJournalText` keeps, in
-- packages/journal-replay/src/index.ts, and what it makes of the lines of a well-formed journal.
use cashblocks.Prelude.{
  ℕ, ◌≡◌, refl, Bool, false, Option, none, some, List, [], ◌∷◌, ◌++◌, String, all, any, length,
  if_rule, if◌then◌else◌, leb, ltb, All, map,
}
use cashblocks.Prelude.Text.{is_space, lookup}
use cashblocks.Contracts.{Json, obj, Payload, EventType}
use cashblocks.Replay.Types.{error, warning, JournalReplayIssue}
use cashblocks.Replay.Log.{is_error}
use cashblocks.Replay.Payload.{validate_event_payload}
use cashblocks.Replay.Events.{
  entries_of, payload_code, seq_of, type_of, source_of, time_of, session_of, payload_of,
  issue_unless, payload_issues, event_issue, validate_fields, validate_runtime_event, event_of_json,
}
use cashblocks.Replay.Reading.{
  Platform, Limits, Reading, Turn, next, stop, line_issue, add_to, read_value, read_line,
  read_lines,
}

-- Where no issue of a value is an error, there is none: the validation only knows errors.
abbrev AreErrors : List JournalReplayIssue → Type 0
AreErrors issues = any is_error issues ≡ false → issues ≡ []

first-AreErrors :
    {A : Type 0} (a : Option A) (value : Payload) (line : ℕ) (code : String)
    (rest : List JournalReplayIssue)
    → AreErrors rest
    → AreErrors (issue_unless a (event_issue value line code) ++ rest)
first-AreErrors none value line code rest h e = cc
first-AreErrors (some a) value line code rest h e = h e

last-AreErrors :
    {A : Type 0} (as_code : A → String) (issues : List A) (value : Payload) (line : ℕ)
    → AreErrors (map (λ i. event_issue value line (as_code i)) issues)
last-AreErrors as_code [] value line e = refl
last-AreErrors as_code (i ∷ issues) value line e = cc

payload_issues-AreErrors :
    (type : Option EventType) (payload : Option (Option Payload)) (value : Payload) (line : ℕ)
    → AreErrors (payload_issues type payload (event_issue value line))
payload_issues-AreErrors type none value line e = cc
payload_issues-AreErrors none (some payload) value line e = refl
payload_issues-AreErrors (some type) (some payload) value line e =
    last-AreErrors payload_code (validate_event_payload type payload) value line e

validate_runtime_event-AreErrors :
    (is_canonical : String → Bool) (value : Json) (line : ℕ)
    → AreErrors (validate_runtime_event is_canonical value line)
unfolding validate_runtime_event validate_fields
validate_runtime_event-AreErrors is_canonical (obj fields) line e =
    let value = entries_of fields in
    let seq = lookup "seq" value in
    let type = lookup "type" value in
    let source = lookup "source" value in
    let ts = lookup "ts" value in
    let session = lookup "sessionId" value in
    let payload = payload_of (lookup "payload" value) in
    let issue = event_issue value line in
    let rest_5 = payload_issues (type_of type) payload issue in
    let rest_4 = issue_unless (session_of session) (issue "INVALID_SESSION_ID") ++ rest_5 in
    let rest_3 = issue_unless (time_of is_canonical ts) (issue "INVALID_TIMESTAMP") ++ rest_4 in
    let rest_2 = issue_unless (source_of source) (issue "INVALID_EVENT_SOURCE") ++ rest_3 in
    let rest_1 = issue_unless (type_of type) (issue "INVALID_EVENT_TYPE") ++ rest_2 in
    first-AreErrors (seq_of seq) value line "INVALID_SEQUENCE" rest_1
      (first-AreErrors (type_of type) value line "INVALID_EVENT_TYPE" rest_2 (
        first-AreErrors (source_of source) value line "INVALID_EVENT_SOURCE" rest_3 (
          first-AreErrors (time_of is_canonical ts) value line "INVALID_TIMESTAMP" rest_4 (
            first-AreErrors (session_of session) value line "INVALID_SESSION_ID" rest_5
              (payload_issues-AreErrors (type_of type) payload value line)))))
      e
validate_runtime_event-AreErrors is_canonical _ line e = cc

module _ (platform : Platform) (limits : Limits) (IsAllowed : ℕ → List ℕ → Type 0)
    (Q : Reading → Type 0)
    (adds : (issues : List JournalReplayIssue) (r : Reading) → Q r → Q (add_to limits issues r))
    (counts : (n : ℕ) (r : Reading) → Q r → Q (record r { line_count = n }))
    (pushes : (n : ℕ) (line : List ℕ) (value : Json) (r : Reading)
      → IsAllowed n line
      → platform.parse_json line ≡ some value
      → validate_runtime_event platform.is_canonical value n ≡ []
      → leb limits.max_events (length r.records) ≡ false
      → Q r
      → Q (record r {
        records =
            r.records
            ++ (record { line = n; event = event_of_json platform.is_canonical value } ∷ []);
      })) where
  unfoldable TurnKeeps : Turn → Type 0
  TurnKeeps (next r) = Q r
  TurnKeeps (stop r) = Q r

  keeps_next : (r : Reading) → Q r → TurnKeeps (next r)
  unfolding TurnKeeps
  keeps_next r h = h

  keeps_stop : (r : Reading) → Q r → TurnKeeps (stop r)
  unfolding TurnKeeps
  keeps_stop r h = h

  read_value_keeps :
      (n : ℕ) (line : List ℕ) (parsed : Option Json) (r : Reading)
      → IsAllowed n line
      → platform.parse_json line ≡ parsed
      → Q r
      → TurnKeeps (read_value platform limits n parsed r)
  unfolding read_value
  read_value_keeps n line none r allowed e h = keeps_next _ (adds _ r h)
  read_value_keeps n line (some value) r allowed e h =
      let issues = validate_runtime_event platform.is_canonical value n in
      let added = add_to limits issues r in
      let keeps = adds issues r h in
      let full = line_issue error "EVENT_LIMIT_EXCEEDED" n ∷ [] in
      let exceeding = stop (add_to limits full added) in
      let pushed = next (record added {
        records =
            added.records
            ++ (record { line = n; event = event_of_json platform.is_canonical value } ∷ []);
      }) in
      let is_full = leb limits.max_events (length added.records) in
      let unless_full = if is_full then exceeding else pushed in
      let unless_error = if any is_error issues then next added else unless_full in
      if_rule TurnKeeps added.parsing.limit_reached (stop added) unless_error
        (λ l. keeps_stop _ keeps)
        (λ l.
          if_rule TurnKeeps (any is_error issues) (next added) unless_full (λ b. keeps_next _ keeps)
            (λ b.
              if_rule TurnKeeps is_full exceeding pushed (λ m. keeps_stop _ (adds full added keeps))
                (λ m. keeps_next _ (
                  pushes n line value added allowed e
                    (validate_runtime_event-AreErrors platform.is_canonical value n b) m keeps))))

  read_line_keeps :
      (n : ℕ) (line : List ℕ) (r : Reading)
      → IsAllowed n line
      → Q r
      → TurnKeeps (read_line platform limits n line r)
  unfolding read_line
  read_line_keeps n line r allowed h =
      let counted = counts n r h in
      let reading = record r { line_count = n } in
      let too_many = line_issue error "LINE_LIMIT_EXCEEDED" n ∷ [] in
      let no_room = line_issue error "ISSUE_LIMIT_EXCEEDED" n ∷ [] in
      let blank = line_issue warning "EMPTY_LINE" n ∷ [] in
      let large = line_issue error "LINE_TOO_LARGE" n ∷ [] in
      let read = read_value platform limits n (platform.parse_json line) reading in
      let is_large = ltb limits.max_line_bytes (platform.byte_length line) in
      let unless_large = if is_large then next (add_to limits large reading) else read in
      let unless_blank =
        if all is_space line then next (add_to limits blank reading) else unless_large in
      let has_no_room = leb limits.max_issues (length r.parsing.issues) in
      let unless_no_room =
        if has_no_room then stop (add_to limits no_room reading) else unless_blank in
      if_rule TurnKeeps (ltb limits.max_lines n) (stop (add_to limits too_many reading))
        unless_no_room (λ a. keeps_stop _ (adds too_many reading counted))
        (λ a.
          if_rule TurnKeeps has_no_room (stop (add_to limits no_room reading)) unless_blank
            (λ b. keeps_stop _ (adds no_room reading counted))
            (λ b.
              if_rule TurnKeeps (all is_space line) (next (add_to limits blank reading))
                unless_large (λ c. keeps_next _ (adds blank reading counted))
                (λ c.
                  if_rule TurnKeeps is_large (next (add_to limits large reading)) read
                    (λ d. keeps_next _ (adds large reading counted))
                    (λ d.
                      read_value_keeps n line (platform.parse_json line) reading allowed refl
                        counted))))

  turn_keeps :
      (lines : List (ℕ × List ℕ))
      → ((r : Reading) → Q r → Q (read_lines platform limits lines r))
      → (turn : Turn) → TurnKeeps turn
      → Q (elim turn [ next read ↦ read_lines platform limits lines read | stop read ↦ read ])
  unfolding TurnKeeps
  turn_keeps lines rest (next read) k = rest read k
  turn_keeps lines rest (stop read) k = k

  pub read_lines_keeps :
      (lines : List (ℕ × List ℕ)) (r : Reading)
      → All (λ l. IsAllowed l.0 l.1) lines
      → Q r
      → Q (read_lines platform limits lines r)
  unfolding read_lines
  read_lines_keeps [] r allowed h = h
  read_lines_keeps ((n, line) ∷ lines) r allowed h =
      turn_keeps lines (λ read. read_lines_keeps lines read allowed.1)
        (read_line platform limits n line r) (read_line_keeps n line r allowed.0 h)
