-- ===== src/HostAdapter.antt =====
-- Iso8583HostAuthorizationAdapter of packages/host-iso8583/src/index.ts behind its constructor, and the
-- trace numbers of packages/host-iso8583/src/stan-store.ts. The transport and the clock are arguments:
-- what `exchange` answers, and the transmission time as ten digits. An amount is an integer, whose
-- product with the scale is exact up to the limit of twelve digits.
pub mod Traces
pub mod Durable
pub mod Laws
mod Tests
mod DurableTests
use cashblocks.Prelude.{
  ℕ, zero, suc, ◌+◌, ◌*◌, ◌/◌, ◌%◌, Bool, true, false, not, ◌&&◌, ◌||◌, Option, none, some, List,
  [], ◌∷◌, ◌++◌, String, ◌==◌, leb, if◌then◌else◌,
}
use cashblocks.Prelude.Int.{ℤ, pos, negsuc}
use cashblocks.Prelude.Result.{Result, ok, err, ◌>>=◌, ◌>>◌, throw_if}
use cashblocks.Prelude.Text.{lookup, codes}
use cashblocks.Contracts.{HostAuthorizationRequest}
use cashblocks.Iso8583.{Text, Message, CodecError, encode, decode, or_empty}

-- `HostResponseCategory`
pub data HostResponseCategory : Type 0 where
  approved declined retryable error : HostResponseCategory

pub data HostError : Type 0 where
  unknown_currency unknown_transaction : String → HostError
  negative_amount amount_out_of_range trace_out_of_range : HostError
  not_encoded : CodecError → HostError

pub record HostAdapter : Type 0 where
  pub terminal_id : Text
  pub currency_numeric_codes : List (String × Text)
  pub minor_unit_scales : List (String × ℕ)
  pub processing_codes : List (String × Text)
  pub response_code_map : List (Text × HostResponseCategory)

abbrev pub text_eq : Text → Text → Bool
text_eq [] [] = true
text_eq (c ∷ cs) (d ∷ ds) = c == d && text_eq cs ds
text_eq _ _ = false

-- `this.responseCodeMap[responseCode] ?? "error"`
unfoldable pub category_of : List (Text × HostResponseCategory) → Text → HostResponseCategory
category_of [] code = error
category_of ((key, category) ∷ map) code =
    if text_eq key code then category else category_of map code

-- The next trace number: of the adapter's own counter, and of DurableStanAllocator.
unfoldable pub next_trace : ℕ → ℕ
next_trace last = last % 999999 + 1

unfoldable pub to_minor_units : ℤ → ℕ → Result HostError ℕ
to_minor_units (negsuc n) scale = err negative_amount
to_minor_units (pos n) scale =
    if leb (n * scale) 999999999999 then ok (n * scale) else err amount_out_of_range

-- `String(n).padStart(width, "0")` for a number that has at most `width` digits.
unfoldable pub padded : ℕ → ℕ → Text
padded zero n = []
padded (suc width) n = padded width (n / 10) ++ ((b'0' + n % 10) ∷ [])

abbrev pub or_zero : Option ℤ → ℤ
or_zero none = pos 0
or_zero (some amount) = amount

-- A key that has no value, where an empty text counts as none.
abbrev pub found : HostError → Option Text → Result HostError Text
found e none = err e
found e (some []) = err e
found e (some (c ∷ cs)) = ok (c ∷ cs)

abbrev pub scale_of : Option ℕ → ℕ
scale_of none = 0
scale_of (some scale) = scale

-- The message, by the field numbers of the source.
unfoldable pub request_fields : Text → Text → Text → Text → Text → Text → ℕ → Option Text
request_fields processing amount time trace terminal currency field =
    if field == 3
    then some processing
    else if field == 4
    then some amount
    else if field == 7
    then some time
    else if field == 11
    then some trace
    else if field == 41
    then some terminal
    else if field == 49
    then some currency
    else none

-- `createAuthorizationRequest` with the trace number that it draws.
unfoldable pub create_authorization_request :
    HostAdapter → Text → HostAuthorizationRequest → ℕ → Result HostError Message
create_authorization_request adapter time request trace = do
  currency ←
      found (unknown_currency request.currency_code)
        (lookup request.currency_code adapter.currency_numeric_codes)
  minor ←
      to_minor_units (or_zero request.amount)
        (scale_of (lookup request.currency_code adapter.minor_unit_scales))
  throw_if (not (leb 1 trace) || not (leb trace 999999)) trace_out_of_range
  processing ←
      found (unknown_transaction request.transaction)
        (lookup request.transaction adapter.processing_codes)
  ok (record {
    mti = codes "0100";
    fields =
        request_fields processing (padded 12 minor) time (padded 6 trace) adapter.terminal_id
          currency;
  })

-- What `authorize` answers, with the response code and the category of its details. The message, which
-- says the code in words, and the caller's operation id are left out, and no call is aborted.
pub record HostAnswer : Type 0 where
  pub success : Bool
  pub code : String
  pub response_code : Option Text
  pub category : Option HostResponseCategory

abbrev pub protocol_failure : HostAnswer
protocol_failure = record {
  success = false;
  code = "HOST_PROTOCOL_ERROR";
  response_code = none;
  category = none;
}

abbrev pub is_nonempty : Text → Bool
is_nonempty [] = false
is_nonempty (c ∷ cs) = true

abbrev pub answer_of : Text → HostResponseCategory → HostAnswer
answer_of code approved = record {
  success = true;
  code = "HOST_APPROVED";
  response_code = some code;
  category = some approved;
}
answer_of code declined = record {
  success = false;
  code = "HOST_DECLINED";
  response_code = some code;
  category = some declined;
}
answer_of code retryable = record {
  success = false;
  code = "HOST_UNAVAILABLE";
  response_code = some code;
  category = some retryable;
}
answer_of code error = record {
  success = false;
  code = "HOST_RESPONSE_ERROR";
  response_code = some code;
  category = some error;
}

-- The check of the response's type, code and trace.
unfoldable pub is_matching : Text → Message → Bool
is_matching trace response =
    text_eq response.mti (codes "0110")
    && (is_nonempty (or_empty (response.fields 39))
        && text_eq (or_empty (response.fields 11)) trace)

unfoldable pub read_response : HostAdapter → Text → Result CodecError Message → HostAnswer
read_response adapter trace (err e) = protocol_failure
read_response adapter trace (ok response) =
    let code = or_empty (response.fields 39) in
    if not (is_matching trace response)
    then protocol_failure
    else answer_of code (category_of adapter.response_code_map code)

abbrev pub encoded : Result CodecError Text → Result HostError Text
encoded (ok payload) = ok payload
encoded (err e) = err (not_encoded e)

-- `authorize`, with the transport's answer to a payload as `exchange`.
unfoldable pub authorize_by_host :
    HostAdapter → (Text → Text) → Text → HostAuthorizationRequest → ℕ → Result HostError HostAnswer
authorize_by_host adapter exchange time request last = do
  let trace = next_trace last
  message ← create_authorization_request adapter time request trace
  payload ← encoded (encode message)
  ok (read_response adapter (padded 6 trace) (decode (exchange payload)))
