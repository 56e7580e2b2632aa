-- ===== src/HostAdapter/Tests.antt =====
-- An authorization that a host approves.
use cashblocks.Prelude.{◌≤◌, ◌≡◌, ◌≢◌, refl, true, false, some, [], ◌∷◌, ◌++◌, arith}
use cashblocks.Prelude.Int.{pos}
use cashblocks.Prelude.Result.{ok}
use cashblocks.Prelude.Text.{codes, lookup}
use cashblocks.Contracts.{HostAuthorizationRequest}
use cashblocks.Iso8583.{
  Text, Message, encode, decode, or_empty, validate_mti, validate_field_value, field_spec,
  encode_field, bitmap_of, encode_fields, hex, is_supported_field, decode_fields, decode_with,
  field_extent, slice, parse_hex, has_bitmap_field, update,
}
use cashblocks.HostAdapter.{
  HostAdapter, HostAnswer, approved, category_of, next_trace, to_minor_units, padded,
  request_fields, create_authorization_request, is_matching, read_response, authorize_by_host,
}
use cashblocks.HostAdapter.Traces.{drawn, drawn_cycle}
use cashblocks.HostAdapter.Laws.{Answers, authorize_by_host_approved}

abbrev adapter : HostAdapter
adapter = record {
  terminal_id = codes "TERM0001";
  currency_numeric_codes = ("AUD", codes "036") ∷ [];
  minor_unit_scales = ("AUD", 100) ∷ [];
  processing_codes = ("CashWithdrawal", codes "010000") ∷ [];
  response_code_map = (codes "00", approved) ∷ [];
}

abbrev withdrawal : HostAuthorizationRequest
withdrawal = record {
  transaction = "CashWithdrawal";
  host = "host";
  account = some "Checking";
  amount = some (pos 60);
  currency_code = "AUD";
  pinless = false;
  chip_required = false;
}

abbrev approving : Text → Text
approving payload = codes "01100020000002000000000001" ++ codes "00"

abbrev midnight : Text
midnight = codes "0101000000"

abbrev approval : HostAnswer
approval = record {
  success = true;
  code = "HOST_APPROVED";
  response_code = some (codes "00");
  category = some approved;
}

withdrawal_is_approved : authorize_by_host adapter approving midnight withdrawal 0 ≡ ok approval
unfolding authorize_by_host create_authorization_request to_minor_units padded request_fields
    next_trace lookup encode validate_mti bitmap_of hex encode_fields encode_field
    validate_field_value field_spec is_supported_field decode decode_fields decode_with field_extent
    slice parse_hex has_bitmap_field update read_response is_matching category_of
withdrawal_is_approved = refl

authorize_by_host_approved_example :
    (message : Message) × (payload : Text) × (response : Message) × (create_authorization_request
        adapter midnight withdrawal
        (next_trace 0)
      ≡ ok message)
    × (encode message ≡ ok payload)
    × (decode (approving payload) ≡ ok response)
    × Answers (padded 6 (next_trace 0)) response
    × (category_of adapter.response_code_map (or_empty (response.fields 39)) ≡ approved)
authorize_by_host_approved_example =
    authorize_by_host_approved adapter approving midnight withdrawal 0 approval
      withdrawal_is_approved refl

drawn_cycle_example :
    (1 ≤ drawn 2 999998) × (drawn 2 999998 ≤ 999999) × (drawn 2 999998 ≢ drawn 5 999998)
drawn_cycle_example = drawn_cycle 2 5 999998 (omega arith) (omega arith)
