-- ===== src/Iso8583.antt =====
-- The ISO 8583 codec of packages/host-iso8583/src/index.ts: `encodeIso8583` and `decodeIso8583`.
-- A text is a list of code units, and a message's fields a function from field numbers.
pub mod Slices
pub mod Bitmap
pub mod Fields
pub mod RoundTrip
mod Tests
use cashblocks.Prelude.{
  ℕ, zero, suc, ◌+◌, ◌-◌, ◌*◌, ◌/◌, ◌%◌, ◌^◌, Bool, true, false, not, ◌&&◌, ◌||◌, Option, none,
  some, List, [], ◌∷◌, ◌++◌, ltb, leb, ◌==◌, if◌then◌else◌, length, take, drop, replicate, all, any,
}
use cashblocks.Prelude.Result.{Result, ok, err, ◌>>=◌, ◌>>◌, throw_if}

abbrev pub Text : Type 0
Text = List ℕ

pub data CodecError : Type 0 where
  bad_mti too_short bad_bitmap secondary_bitmap trailing_data : CodecError
  unsupported bad_prefix too_long truncated not_numeric not_printable bad_length : ℕ → CodecError

pub record Message : Type 0 where
  pub mti : Text
  pub fields : ℕ → Option Text

-- `format` is "llvar" where `is_llvar` holds, else "fixed".
pub record FieldSpec : Type 0 where
  pub is_llvar : Bool
  pub length : ℕ
  pub numeric : Bool

abbrev pub supported_fields : List ℕ
supported_fields = 2 ∷ 3 ∷ 4 ∷ 7 ∷ 11 ∷ 39 ∷ 41 ∷ 49 ∷ []

unfoldable pub is_supported_field : ℕ → Bool
is_supported_field field = any (λ f. f == field) supported_fields

-- `fieldSpecs`; only supported fields are looked up.
unfoldable pub field_spec : ℕ → FieldSpec
field_spec field =
    if field == 2
    then record { is_llvar = true; length = 19; numeric = true }
    else if field == 3
    then record { is_llvar = false; length = 6; numeric = true }
    else if field == 4
    then record { is_llvar = false; length = 12; numeric = true }
    else if field == 7
    then record { is_llvar = false; length = 10; numeric = true }
    else if field == 11
    then record { is_llvar = false; length = 6; numeric = true }
    else if field == 39
    then record { is_llvar = false; length = 2; numeric = true }
    else if field == 41
    then record { is_llvar = false; length = 8; numeric = false }
    else record { is_llvar = false; length = 3; numeric = true }

-- /[0-9]/, /[\x20-\x7E]/ and /[0-9A-Fa-f]/ at one code unit.
abbrev pub is_digit : ℕ → Bool
is_digit c = leb b'0' c && leb c b'9'

abbrev pub is_printable : ℕ → Bool
is_printable c = leb 0x20 c && leb c 0x7e

abbrev pub is_hex : ℕ → Bool
is_hex c = is_digit c || (leb b'A' c && leb c b'F') || (leb b'a' c && leb c b'f')

abbrev pub is_nonempty : Text → Bool
is_nonempty [] = false
is_nonempty (c ∷ cs) = true

-- /^\d{4}$/
unfoldable pub validate_mti : Text → Result CodecError (Unit {0})
validate_mti mti = throw_if (not (length mti == 4 && all is_digit mti)) bad_mti

-- The length of `spec` is given apart, since `decodeField` replaces it by the length that it read.
unfoldable pub validate_field_value : ℕ → Text → FieldSpec → Result CodecError (Unit {0})
validate_field_value field value spec = do
  throw_if (ltb spec.length (length value)) (too_long field)
  throw_if (spec.numeric && not (is_nonempty value && all is_digit value)) (not_numeric field)
  throw_if (not spec.numeric && not (is_nonempty value && all is_printable value))
      (not_printable field)

-- String(n).padStart(2, "0") for n below 100.
abbrev pub two_digits : ℕ → Text
two_digits n = (b'0' + n / 10) ∷ (b'0' + n % 10) ∷ []

unfoldable pub encode_field : ℕ → Text → Result CodecError Text
unfolding validate_field_value field_spec
encode_field field value = do
  let spec = field_spec field
  validate_field_value field value spec
  (if spec.is_llvar
      then ok (two_digits (length value) ++ value)
      else (do throw_if (not (length value == spec.length)) (bad_length field); ok value))

abbrev pub is_present : Option Text → Bool
is_present none = false
is_present (some value) = true

abbrev pub or_empty : Option Text → Text
or_empty none = []
or_empty (some value) = value

-- The loop `bitmap |= 1n << BigInt(64 - field)` over the fields that are present: their bits are
-- distinct, so the union is a sum.
unfoldable pub bitmap_of : (ℕ → Option Text) → List ℕ → ℕ
bitmap_of fields [] = 0
bitmap_of fields (f ∷ fs) =
    (if is_present (fields f) then 2 ^ (64 - f) else 0) + bitmap_of fields fs

-- presentFields.map(encodeField).join("")
unfoldable pub encode_fields : (ℕ → Option Text) → List ℕ → Result CodecError Text
encode_fields fields [] = ok []
encode_fields fields (f ∷ fs) =
    if is_present (fields f)
    then (do
      value ← encode_field f (or_empty (fields f))
      rest ← encode_fields fields fs
      ok (value ++ rest))
    else encode_fields fields fs

abbrev pub hex_digit : ℕ → ℕ
hex_digit n = if ltb n 10 then b'0' + n else b'A' + (n - 10)

-- bitmap.toString(16).toUpperCase().padStart(16, "0"): the lowest `k` hexadecimal digits.
unfoldable pub hex : ℕ → ℕ → Text
hex zero n = []
hex (suc k) n = hex k (n / 16) ++ hex_digit (n % 16) ∷ []

unfoldable pub encode : Message → Result CodecError Text
encode message = do
  validate_mti message.mti
  body ← encode_fields message.fields supported_fields
  ok (message.mti ++ (hex 16 (bitmap_of message.fields supported_fields) ++ body))

abbrev pub hex_value : ℕ → ℕ
hex_value c = if is_digit c then c - b'0' else if leb b'a' c then c - b'a' + 10 else c - b'A' + 10

-- BigInt(`0x${text}`)
unfoldable pub parse_hex : ℕ → Text → ℕ
parse_hex acc [] = acc
parse_hex acc (c ∷ cs) = parse_hex (acc * 16 + hex_value c) cs

-- (bitmap & (1n << BigInt(64 - field))) !== 0n
unfoldable pub has_bitmap_field : ℕ → ℕ → Bool
has_bitmap_field bitmap field = bitmap / 2 ^ (64 - field) % 2 == 1

-- text.slice(from, to)
unfoldable pub slice : Text → ℕ → ℕ → Text
slice s from to = take (to - from) (drop from s)

-- Number(text) of a text of digits.
abbrev pub parse_number : ℕ → Text → ℕ
parse_number acc [] = acc
parse_number acc (c ∷ cs) = parse_number (acc * 10 + (c - b'0')) cs

abbrev pub number_of : Text → ℕ
number_of text = parse_number 0 text

-- The length of the value and its offset: of an llvar field they come from its two-digit prefix.
unfoldable pub field_extent : ℕ → FieldSpec → Text → ℕ → Result CodecError (ℕ × ℕ)
field_extent field spec payload offset =
    if spec.is_llvar
    then (do
      let prefix = slice payload offset (offset + 2)
      throw_if (not (length prefix == 2 && all is_digit prefix)) (bad_prefix field)
      throw_if (ltb spec.length (number_of prefix)) (too_long field)
      ok (number_of prefix, offset + 2))
    else ok (spec.length, offset)

-- `decodeField` after its first line, with the specification that it looks up there.
unfoldable pub decode_with : ℕ → FieldSpec → Text → ℕ → Result CodecError (Text × ℕ)
unfolding field_extent
decode_with field spec payload offset = do
  extent ← field_extent field spec payload offset
  let value = slice payload extent.1 (extent.1 + extent.0)
  throw_if (not (length value == extent.0)) (truncated field)
  validate_field_value field value (record spec { length = extent.0 })
  ok (value, extent.1 + extent.0)

abbrev pub decode_field : ℕ → Text → ℕ → Result CodecError (Text × ℕ)
decode_field field payload offset = decode_with field (field_spec field) payload offset

-- fields[field] = value
unfoldable pub update : (ℕ → Option Text) → ℕ → Text → ℕ → Option Text
update fields field value f = if field == f then some value else fields f

-- The loop over the field numbers, with the offset that it ends at.
unfoldable pub decode_fields :
    ℕ → Text → List ℕ → (ℕ → Option Text) → ℕ → Result CodecError ((ℕ → Option Text) × ℕ)
unfolding update
decode_fields bitmap payload [] fields offset = ok (fields, offset)
decode_fields bitmap payload (f ∷ fs) fields offset = elim (has_bitmap_field bitmap f) [
  | false ↦ decode_fields bitmap payload fs fields offset
  | true ↦ do
    throw_if (not (is_supported_field f)) (unsupported f)
    decoded ← decode_field f payload offset
    decode_fields bitmap payload fs (update fields f decoded.0) decoded.1
]

-- from, from + 1, …: `n` numbers.
abbrev pub numbers_from : ℕ → ℕ → List ℕ
numbers_from from zero = []
numbers_from from (suc n) = from ∷ numbers_from (from + 1) n

-- `for (let field = 2; field <= 64; field += 1)`
abbrev pub bitmap_fields : List ℕ
bitmap_fields = numbers_from 2 63

unfoldable pub decode : Text → Result CodecError Message
decode payload = do
  throw_if (ltb (length payload) 20) too_short
  let mti = slice payload 0 4
  validate_mti mti
  let bitmap_text = slice payload 4 20
  throw_if (not (length bitmap_text == 16 && all is_hex bitmap_text)) bad_bitmap
  let bitmap = parse_hex 0 bitmap_text
  throw_if (has_bitmap_field bitmap 1) secondary_bitmap
  decoded ← decode_fields bitmap payload bitmap_fields (λ f. none) 20
  throw_if (not (decoded.1 == length payload)) trailing_data
  ok (record { mti = mti; fields = decoded.0 })
