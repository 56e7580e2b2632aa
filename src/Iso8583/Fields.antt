-- ===== src/Iso8583/Fields.antt =====
-- One field: what `encodeField` writes, `decodeField` reads back from any place in a payload.
use cashblocks.Prelude.{
  ℕ, ◌+◌, ◌≤◌, ◌<◌, ◌≡◌, refl, sym, ◌∙◌, true, false, not, ◌⊎◌, inl, inr, ◌++◌, ◌==◌, if◌then◌else◌,
  length, all, arith, length-append, append_assoc,
}
use cashblocks.Prelude.Result.{ok, ◌>>◌, throw_if}
use cashblocks.Iso8583.{
  Text, FieldSpec, CodecError, field_spec, is_digit, validate_field_value, two_digits, encode_field,
  slice, number_of, field_extent, decode_field, decode_with,
}
use cashblocks.Iso8583.Slices.{slice-middle}

field_spec_small : (f : ℕ) → (field_spec f).length < 100
unfolding field_spec
field_spec_small f = ground arith

encode_field-cases :
    (f : ℕ) (value text : Text)
    → encode_field f value ≡ ok text
    → (validate_field_value f value (field_spec f) ≡ ok tt)
      × (((field_spec f).is_llvar ≡ true) × (text ≡ two_digits (length value) ++ value)
          ⊎ ((field_spec f).is_llvar ≡ false)
            × (length value ≡ (field_spec f).length)
            × (text ≡ value))
encode_field-cases f value text h = cases (field_spec f) (unfold encode_field in h)
  where
    cases :
        (spec : FieldSpec)
        → (do
          validate_field_value f value spec
          (if spec.is_llvar then ok (two_digits (length value) ++ value) else (do
            throw_if (not (length value == spec.length)) (CodecError.bad_length f)
            ok value)))
          ≡ ok text
        → (validate_field_value f value spec ≡ ok tt)
          × ((spec.is_llvar ≡ true) × (text ≡ two_digits (length value) ++ value)
              ⊎ (spec.is_llvar ≡ false) × (length value ≡ spec.length) × (text ≡ value))
    cases spec h = ground arith

-- A value that is valid is valid at its own length, and no longer than its field.
validate_at_length :
    (f : ℕ) (value : Text) (spec : FieldSpec)
    → validate_field_value f value spec ≡ ok tt
    → (validate_field_value f value (record spec { length = length value }) ≡ ok tt)
      × (length value ≤ spec.length)
unfolding validate_field_value
validate_at_length f value spec h = ground arith

prefix_digits :
    (n : ℕ) → n < 100 → (all is_digit (two_digits n) ≡ true) × (number_of (two_digits n) ≡ n)
prefix_digits n h = (ground arith, omega arith)

decoded_fixed :
    (f offset : ℕ) (spec : FieldSpec) (payload value : Text)
    → spec.is_llvar ≡ false
    → length value ≡ spec.length
    → slice payload offset (offset + spec.length) ≡ value
    → validate_field_value f value (record spec { length = length value }) ≡ ok tt
    → decode_with f spec payload offset ≡ ok (value, offset + length value)
unfolding decode_with
decoded_fixed f offset spec payload value fixed size found valid = ground arith

extent_llvar :
    (f offset : ℕ) (spec : FieldSpec) (payload : Text) (n : ℕ)
    → spec.is_llvar ≡ true
    → n ≤ spec.length
    → n < 100
    → slice payload offset (offset + 2) ≡ two_digits n
    → field_extent f spec payload offset ≡ ok (n, offset + 2)
unfolding field_extent
extent_llvar f offset spec payload n llvar short small prefix =
    let (digits, number) = prefix_digits n small in
    let two : length (slice payload offset (offset + 2)) ≡ 2 = rw prefix refl in
    let numeric : all is_digit (slice payload offset (offset + 2)) ≡ true = rw prefix digits in
    let reads : number_of (slice payload offset (offset + 2)) ≡ n = rw prefix number in ground arith

decoded_llvar :
    (f offset : ℕ) (spec : FieldSpec) (payload value : Text)
    → spec.is_llvar ≡ true
    → length value ≤ spec.length
    → length value < 100
    → slice payload offset (offset + 2) ≡ two_digits (length value)
    → slice payload (offset + 2) (offset + 2 + length value) ≡ value
    → validate_field_value f value (record spec { length = length value }) ≡ ok tt
    → decode_with f spec payload offset ≡ ok (value, offset + 2 + length value)
unfolding decode_with
decoded_llvar f offset spec payload value llvar short small prefix found valid =
    let (digits, number) = prefix_digits (length value) small in
    let extent = extent_llvar f offset spec payload (length value) llvar short small prefix in
    rw (extent, decode_with) (ground arith)

-- Whatever `encodeField` writes, `decodeField` reads back, and ends behind it.
pub decode_field-encode_field :
    (f : ℕ) (before value text after : Text)
    → encode_field f value ≡ ok text
    → decode_field f (before ++ (text ++ after)) (length before)
      ≡ ok (value, length before + length text)
decode_field-encode_field f before value text after h =
    let spec = field_spec f in
    let (valid, form) = encode_field-cases f value text h in
    let (at_length, short) = validate_at_length f value spec valid in
    elim form [
      | inr (fixed, size, e) ↦ rw e (
          decoded_fixed f (length before) spec (before ++ (value ++ after)) value fixed size
            (slice-middle before value after spec.length (sym size)) at_length)
      | inl (llvar, e) ↦
          let n = length value in
          let tail = value ++ after in
          let payload = before ++ (text ++ after) in
          let split : payload ≡ before ++ (two_digits n ++ tail) =
            rw (e, append_assoc (two_digits n) value after) in
          let regrouped : payload ≡ (before ++ two_digits n) ++ tail =
            split ∙ sym (append_assoc before (two_digits n) tail) in
          let offset : length (before ++ two_digits n) ≡ length before + 2 =
            length-append before (two_digits n) in
          let found : slice payload (length before + 2) (length before + 2 + n) ≡ value =
            rw (regrouped, ← offset) (slice-middle (before ++ two_digits n) value after n refl) in
          let sized : length text ≡ 2 + n = rw e (omega arith) in
          let ends : length before + 2 + n ≡ length before + length text = omega arith in
          rw (← ends) (
            decoded_llvar f (length before) spec payload value llvar short
              (omega (arith, field_spec_small f))
              (rw split (slice-middle before (two_digits n) tail 2 refl)) found at_length)
    ]
