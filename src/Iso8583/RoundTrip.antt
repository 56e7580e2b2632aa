-- ===== src/Iso8583/RoundTrip.antt =====
-- Every message that `encodeIso8583` accepts is read back by `decodeIso8583`.
use cashblocks.Prelude.{
  ℕ, ◌≡◌, refl, sym, ◌∙◌, subst, true, false, ◌&&◌, Option, none, some, List, [], ◌∷◌, ◌++◌, ltb,
  ◌==◌, if◌then◌else◌, length, all, any, arith, length-append, append_assoc, append-nil, Bool-cases,
  Option-cases, inl, inr, ==_self, ==→eq, &&-true,
}
use cashblocks.Prelude.Result.{ok, >>=-eq-ok, ok-injective}
use cashblocks.Iso8583.{
  Text, Message, is_supported_field, supported_fields, is_hex, validate_mti, encode_field,
  is_present, or_empty, bitmap_of, encode_fields, hex, encode, parse_hex, has_bitmap_field, slice,
  decode_field, update, decode_fields, bitmap_fields, decode,
}
use cashblocks.Iso8583.Slices.{slice-middle}
use cashblocks.Iso8583.Bitmap.{Tells, bitmap_of-IsBitmap}
use cashblocks.Iso8583.Fields.{decode_field-encode_field}

-- The supported ones of some field numbers.
kept : List ℕ → List ℕ
kept [] = []
kept (f ∷ fs) = if is_supported_field f then f ∷ kept fs else kept fs

kept_all : kept bitmap_fields ≡ supported_fields
unfolding kept is_supported_field
kept_all = refl

abbrev Takes : (ℕ → Option Text) → List ℕ → (ℕ → Option Text) → (ℕ → Option Text) → Type 0
Takes fields fs before after =
    (f : ℕ)
    → after f ≡ (
        if any (λ g. g == f) fs && (is_supported_field f && is_present (fields f))
        then fields f
        else before f)

decode_skip :
    (bitmap offset f : ℕ) (payload : Text) (fs : List ℕ) (found : ℕ → Option Text)
    → has_bitmap_field bitmap f ≡ false
    → decode_fields bitmap payload (f ∷ fs) found offset
      ≡ decode_fields bitmap payload fs found offset
unfolding decode_fields
decode_skip bitmap offset f payload fs found h = rw (h, decode_fields)

decode_take :
    (bitmap offset f next : ℕ) (payload value : Text) (fs : List ℕ) (found : ℕ → Option Text)
    → has_bitmap_field bitmap f ≡ true
    → is_supported_field f ≡ true
    → decode_field f payload offset ≡ ok (value, next)
    → decode_fields bitmap payload (f ∷ fs) found offset
      ≡ decode_fields bitmap payload fs (update found f value) next
unfolding decode_fields
decode_take bitmap offset f next payload value fs found h supported read =
    rw (h, decode_fields) (rw supported (rw read))

encode-kept_skip :
    (fields : ℕ → Option Text) (f : ℕ) (fs : List ℕ)
    → (is_supported_field f && is_present (fields f)) ≡ false
    → encode_fields fields (kept (f ∷ fs)) ≡ encode_fields fields (kept fs)
unfolding encode_fields kept
encode-kept_skip fields f fs h = ground arith

encode-kept_take :
    (fields : ℕ → Option Text) (f : ℕ) (fs : List ℕ) (body : Text)
    → is_supported_field f ≡ true
    → is_present (fields f) ≡ true
    → encode_fields fields (kept (f ∷ fs)) ≡ ok body
    → (text : Text) × (rest : Text) × (encode_field f (or_empty (fields f)) ≡ ok text)
      × (encode_fields fields (kept fs) ≡ ok rest)
      × (body ≡ text ++ rest)
unfolding encode_fields kept
encode-kept_take fields f fs body supported present e =
    let step = rw (supported, kept, present) at e in
    let (text, h₁, more) = >>=-eq-ok (encode_field f (or_empty (fields f))) _ step in
    let (rest, h₂, whole) = >>=-eq-ok (encode_fields fields (kept fs)) _ more in
    (text, rest, h₁, h₂, sym (ok-injective (text ++ rest) body whole))

Takes-skip :
    (fields before after : ℕ → Option Text) (f : ℕ) (fs : List ℕ)
    → (is_supported_field f && is_present (fields f)) ≡ false
    → Takes fields fs before after
    → Takes fields (f ∷ fs) before after
Takes-skip fields before after f fs h takes g = elim (Bool-cases (f == g)) [
  | inl same ↦
      let e : (is_supported_field g && is_present (fields g)) ≡ false =
        subst (λ (k : ℕ). (is_supported_field k && is_present (fields k)) ≡ false) (==→eq f g same)
          h in
      ground (arith, takes g)
  | inr other ↦ ground (arith, takes g)
]

Takes-take :
    (fields before after : ℕ → Option Text) (f : ℕ) (value : Text) (fs : List ℕ)
    → is_supported_field f ≡ true
    → fields f ≡ some value
    → Takes fields fs (update before f value) after
    → Takes fields (f ∷ fs) before after
unfolding update
Takes-take fields before after f value fs supported given takes g = elim (Bool-cases (f == g)) [
  | inl same ↦
      let e = ==→eq f g same in
      let supported' : is_supported_field g ≡ true = rw (← e) supported in
      let given' : fields g ≡ some value = rw (← e) given in ground (arith, takes g)
  | inr other ↦ ground (arith, takes g)
]

some_of_present : (o : Option Text) → is_present o ≡ true → o ≡ some (or_empty o)
some_of_present none h = cc
some_of_present (some v) h = refl

decode_loop :
    (fields : ℕ → Option Text) (bitmap : ℕ) (fs : List ℕ) (before body : Text)
    (found : ℕ → Option Text)
    → Tells fields bitmap fs
    → encode_fields fields (kept fs) ≡ ok body
    → (after : ℕ → Option Text) × (decode_fields bitmap (before ++ body) fs found (length before)
        ≡ ok (after, length (before ++ body)))
      × Takes fields fs found after
unfolding decode_fields encode_fields kept
decode_loop fields bitmap [] before body found tells e =
    let empty : body ≡ [] = sym (ok-injective [] body e) in
    (found, rw (empty, append-nil) refl, λ f. refl)
decode_loop fields bitmap (f ∷ fs) before body found (here, tells) e =
    elim (Bool-cases (is_supported_field f && is_present (fields f))) [
      | inr absent ↦
          let (after, h, takes) =
            decode_loop fields bitmap fs before body found tells
              (sym (encode-kept_skip fields f fs absent) ∙ e) in
          (
            after,
            decode_skip bitmap (length before) f (before ++ body) fs found (here ∙ absent) ∙ h,
            Takes-skip fields found after f fs absent takes,
          )
      | inl there ↦
          let (supported, present) = &&-true (is_supported_field f) (is_present (fields f)) there in
          let (text, rest, written, more, whole) =
            encode-kept_take fields f fs body supported present e in
          let value = or_empty (fields f) in
          let given : fields f ≡ some value = some_of_present (fields f) present in
          let read = decode_field-encode_field f before value text rest written in
          let (after, h, takes) =
            decode_loop fields bitmap fs (before ++ text) rest (update found f value) tells more in
          let regrouped : before ++ body ≡ (before ++ text) ++ rest =
            rw whole (sym (append_assoc before text rest)) in
          let size = length-append before text in
          let read_on : decode_field f (before ++ body) (length before)
              ≡ ok (value, length (before ++ text)) =
            rw (whole, size) read in
          (
            after,
            decode_take bitmap (length before) f (length (before ++ text)) (before ++ body) value fs
                  found (here ∙ there) supported read_on
                ∙ subst
                    (λ (p : Text).
                      decode_fields bitmap p fs (update found f value) (length (before ++ text))
                      ≡ ok (after, length p))
                    (sym regrouped) h,
            Takes-take fields found after f value fs supported given takes,
          )
    ]

-- A message comes back with its type and all its supported fields, and with no field besides.
pub record IsReadBack (sent received : Message) : Type 0 where
  pub mti : received.mti ≡ sent.mti
  pub supported : (f : ℕ) → is_supported_field f ≡ true → received.fields f ≡ sent.fields f
  pub unsupported : (f : ℕ) → is_supported_field f ≡ false → received.fields f ≡ none

Takes-IsReadBack :
    (sent : Message) (after : ℕ → Option Text)
    → Takes sent.fields bitmap_fields (λ f. none) after
    → IsReadBack sent (record { mti = sent.mti; fields = after })
Takes-IsReadBack sent after takes = record {
  mti = refl;
  supported = λ f h.
      let listed = supported_listed f h in
      elim (Option-cases (sent.fields f)) [
        | inl absent ↦
            let gone : is_present (sent.fields f) ≡ false = rw absent refl in
            ground (arith, takes f)
        | inr (v, given) ↦
            let there : is_present (sent.fields f) ≡ true = rw given refl in ground (arith, takes f)
      ];
  unsupported = λ f h. ground (arith, takes f);
}
  where
    supported_listed :
        (f : ℕ) → is_supported_field f ≡ true → any (λ g. g == f) bitmap_fields ≡ true
    supported_listed f h = unfold is_supported_field in ground arith

mti_size : (mti : Text) → validate_mti mti ≡ ok tt → length mti ≡ 4
unfolding validate_mti
mti_size mti h = ground arith

encode-cases :
    (m : Message) (payload : Text)
    → encode m ≡ ok payload
    → (validate_mti m.mti ≡ ok tt)
      × (length m.mti ≡ 4)
      × ((body : Text) × (encode_fields m.fields supported_fields ≡ ok body)
          × (payload ≡ m.mti ++ (hex 16 (bitmap_of m.fields supported_fields) ++ body)))
unfolding encode
encode-cases m payload h =
    let (unit, valid, h₁) = >>=-eq-ok (validate_mti m.mti) _ h in
    let (body, written, h₂) = >>=-eq-ok (encode_fields m.fields supported_fields) _ h₁ in
    (valid, mti_size m.mti valid, (body, written, sym (ok-injective _ payload h₂)))

-- The steps of `decodeIso8583`, one equation for each.
decode_steps :
    (payload mti bits : Text) (n : ℕ) (after : ℕ → Option Text)
    → ltb (length payload) 20 ≡ false
    → slice payload 0 4 ≡ mti
    → validate_mti mti ≡ ok tt
    → slice payload 4 20 ≡ bits
    → length bits ≡ 16
    → all is_hex bits ≡ true
    → parse_hex 0 bits ≡ n
    → has_bitmap_field n 1 ≡ false
    → decode_fields n payload bitmap_fields (λ f. none) 20 ≡ ok (after, length payload)
    → decode payload ≡ ok (record { mti = mti; fields = after })
unfolding decode
decode_steps payload mti bits n after long first valid second width digits value primary found =
    let sized : (length bits == 16) ≡ true = rw width refl in
    rw long (
      rw first
        (rw valid (rw second (rw (sized, digits) (rw value (rw primary (rw found (rw ==_self))))))))

-- Whatever `encodeIso8583` accepts, `decodeIso8583` reads back: the message type, every supported
-- field, and no field besides.
pub decode-encode :
    (m : Message) (payload : Text)
    → encode m ≡ ok payload
    → (m' : Message) × (decode payload ≡ ok m') × IsReadBack m m'
decode-encode m payload h =
    let (valid, size, (body, written, whole)) = encode-cases m payload h in
    let n = bitmap_of m.fields supported_fields in
    let bits = hex 16 n in
    let is = bitmap_of-IsBitmap m.fields in
    let (after, read, takes) =
      decode_loop m.fields n bitmap_fields (m.mti ++ bits) body (λ f. none) is.tells
        (rw kept_all written) in
    let start : length (m.mti ++ bits) ≡ 20 = omega (arith, length-append m.mti bits, is.width) in
    let joined : payload ≡ (m.mti ++ bits) ++ body =
      rw whole (sym (append_assoc m.mti bits body)) in
    let long : ltb (length payload) 20 ≡ false =
      rw whole
        (ground (arith, length-append m.mti (bits ++ body), length-append bits body, is.width)) in
    (
      record { mti = m.mti; fields = after },
      decode_steps payload m.mti bits n after long
          (rw whole (slice-middle [] m.mti (bits ++ body) 4 (sym size))) valid
          (rw whole (rw size at (slice-middle m.mti bits body 16 (sym is.width)))) is.width
          is.digits is.reads_back is.primary
          (subst
            (λ (p : Text). decode_fields n p bitmap_fields (λ f. none) 20 ≡ ok (after, length p))
            (sym joined) (rw start at read)),
      Takes-IsReadBack m after takes,
    )
