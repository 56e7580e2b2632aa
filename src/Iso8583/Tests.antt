-- ===== src/Iso8583/Tests.antt =====
-- An authorization request, written and read back.
use cashblocks.Prelude.{none, some, ◌++◌, ◌≡◌, refl, ◌==◌, if◌then◌else◌}
use cashblocks.Prelude.Result.{ok}
use cashblocks.Prelude.Text.{codes}
use cashblocks.Iso8583.{
  Text, Message, validate_mti, validate_field_value, field_spec, encode_field, bitmap_of,
  encode_fields, hex, encode, decode, is_supported_field,
}
use cashblocks.Iso8583.RoundTrip.{IsReadBack, decode-encode}

abbrev request : Message
request = record {
  mti = codes "0100";
  fields = λ f.
      if f == 2
      then some (codes "4111111111111111")
      else if f == 11
      then some (codes "000042")
      else if f == 41
      then some (codes "TERM0001")
      else none;
}

abbrev written : Text
written = codes "010040200000008000001641111111111111110000" ++ codes "42TERM0001"

request-written : encode request ≡ ok written
unfolding encode validate_mti bitmap_of hex encode_fields encode_field validate_field_value
    field_spec is_supported_field
request-written = refl

decode-encode_example : (m' : Message) × (decode written ≡ ok m') × IsReadBack request m'
decode-encode_example = decode-encode request written request-written

abbrev number : Text
number = codes "4111"

number_written : encode_field 2 number ≡ ok (codes "044111")
unfolding encode_field validate_field_value field_spec
number_written = refl
