-- ===== src/HostAdapter/Laws.antt =====
-- What an answer of the ISO 8583 host adapter rests on.
use cashblocks.Prelude.{[], ◌∷◌, refl, ℕ, ◌≡◌, true, arith, Bool-cases, inl, inr}
use cashblocks.Prelude.Result.{Result, ok, err, >>=-eq-ok}
use cashblocks.Contracts.{HostAuthorizationRequest}
use cashblocks.Iso8583.{Text, Message, CodecError, encode, decode, or_empty}
use cashblocks.Prelude.Text.{codes}
use cashblocks.HostAdapter.{
  text_eq, is_nonempty, HostResponseCategory, approved, declined, retryable, error, HostAdapter,
  HostAnswer, answer_of, category_of, is_matching, read_response, next_trace, padded,
  create_authorization_request, encoded, authorize_by_host,
}

answer_of-approved :
    (code : Text) (category : HostResponseCategory)
    → (answer_of code category).success ≡ true
    → category ≡ approved
answer_of-approved code approved h = refl
answer_of-approved code declined h = cc
answer_of-approved code retryable h = cc
answer_of-approved code error h = cc

read_response-approved :
    (adapter : HostAdapter) (trace : Text) (decoded : Result CodecError Message)
    → (read_response adapter trace decoded).success ≡ true
    → (response : Message) × (decoded ≡ ok response)
      × (is_matching trace response ≡ true)
      × (category_of adapter.response_code_map (or_empty (response.fields 39)) ≡ approved)
unfolding read_response
read_response-approved adapter trace (err e) h = cc
read_response-approved adapter trace (ok response) h =
    elim (Bool-cases (is_matching trace response)) [
      | inr differs ↦ ground arith
      | inl matches ↦ (
        response,
        refl,
        matches,
        answer_of-approved (or_empty (response.fields 39)) _ (ground arith),
      )
    ]

text_eq_sound : (t u : Text) → text_eq t u ≡ true → t ≡ u
text_eq_sound [] [] h = refl
text_eq_sound [] (d ∷ ds) h = cc
text_eq_sound (c ∷ cs) [] h = cc
text_eq_sound (c ∷ cs) (d ∷ ds) h = ground (arith, text_eq_sound cs ds)

-- A response that answers the request with this trace number.
pub record Answers (trace : Text) (response : Message) : Type 0 where
  pub type : response.mti ≡ codes "0110"
  pub echoed : or_empty (response.fields 11) ≡ trace
  pub coded : is_nonempty (or_empty (response.fields 39)) ≡ true

is_matching-Answers :
    (trace : Text) (response : Message) → is_matching trace response ≡ true → Answers trace response
unfolding is_matching
is_matching-Answers trace response h = record {
  type = text_eq_sound response.mti (codes "0110") (ground arith);
  echoed = text_eq_sound (or_empty (response.fields 11)) trace (ground arith);
  coded = ground arith;
}

encoded-ok : (r : Result CodecError Text) (payload : Text) → encoded r ≡ ok payload → r ≡ ok payload
encoded-ok (ok p) payload h = ground arith
encoded-ok (err e) payload h = cc

-- An approval is the host's own: it was given to a request that the codec wrote, in a response of type
-- 0110 that the codec reads, that echoes the request's trace number, and whose response code is there
-- and is one that the adapter's table calls approved.
pub authorize_by_host_approved :
    (adapter : HostAdapter) (exchange : Text → Text) (time : Text)
    (request : HostAuthorizationRequest) (last : ℕ) (answer : HostAnswer)
    → authorize_by_host adapter exchange time request last ≡ ok answer
    → answer.success ≡ true
    → (message : Message) × (payload : Text) × (response : Message) × (create_authorization_request
          adapter time request
          (next_trace last)
        ≡ ok message)
      × (encode message ≡ ok payload)
      × (decode (exchange payload) ≡ ok response)
      × Answers (padded 6 (next_trace last)) response
      × (category_of adapter.response_code_map (or_empty (response.fields 39)) ≡ approved)
unfolding authorize_by_host
authorize_by_host_approved adapter exchange time request last answer done success =
    let (message, created, rest) = >>=-eq-ok _ _ done in
    let (payload, written, last_step) = >>=-eq-ok _ _ rest in
    let read : (read_response adapter (padded 6 (next_trace last))
          (decode (exchange payload))).success
        ≡ true =
      ground arith in
    let (response, decoded, matches, category) =
      read_response-approved adapter (padded 6 (next_trace last)) (decode (exchange payload))
        read in
    (
      message,
      payload,
      response,
      created,
      encoded-ok (encode message) payload written,
      decoded,
      is_matching-Answers (padded 6 (next_trace last)) response matches,
      category,
    )
