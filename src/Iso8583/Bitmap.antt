-- ===== src/Iso8583/Bitmap.antt =====
-- The primary bitmap: sixteen hexadecimal digits that say which fields are there. The eight
-- supported fields give 256 bitmaps, and each is checked by evaluation.
use cashblocks.Prelude.{
  ℕ, zero, suc, ◌+◌, ◌-◌, ◌^◌, ◌≡◌, refl, ap, sym, ◌∙◌, subst, All, Bool-cases, inl, inr, Bool,
  true, false, not, ◌&&◌, ◌||◌, Option, List, [], ◌∷◌, ◌==◌, if◌then◌else◌, length, all, any, arith,
  ==→eq, &&-true,
}
use cashblocks.Iso8583.{
  Text, is_present, bitmap_of, hex, parse_hex, is_hex, has_bitmap_field, is_supported_field,
  supported_fields, bitmap_fields,
}

-- The presence of the eight supported fields, in their order.
abbrev pub Presence : Type 0
Presence = List Bool

unfoldable pub sum_bits : List ℕ → List Bool → ℕ
sum_bits [] ps = 0
sum_bits (f ∷ fs) [] = 0
sum_bits (f ∷ fs) (p ∷ ps) = (if p then 2 ^ (64 - f) else 0) + sum_bits fs ps

-- Which of the fields a list of presences says are there.
unfoldable pub says : List ℕ → List Bool → ℕ → Bool
says [] ps f = false
says (g ∷ fs) [] f = false
says (g ∷ fs) (p ∷ ps) f = (g == f && p) || says fs ps f

abbrev same : Bool → Bool → Bool
same true b = b
same false b = not b

-- What the round trip needs of one bitmap.
abbrev good : List Bool → Bool
good ps =
    let n = sum_bits supported_fields ps in
    let text = hex 16 n in
    length text == 16
    && all is_hex text
    && parse_hex 0 text == n
    && not (has_bitmap_field n 1)
    && all (λ f. same (has_bitmap_field n f) (says supported_fields ps f)) bitmap_fields

-- `p` at every list of `n` presences.
all_presences : ℕ → (List Bool → Bool) → Bool
all_presences zero p = p []
all_presences (suc n) p =
    all_presences n (λ ps. p (true ∷ ps)) && all_presences n (λ ps. p (false ∷ ps))

every_bitmap_good : all_presences 8 good ≡ true
unfolding all_presences sum_bits says hex parse_hex has_bitmap_field
every_bitmap_good = refl

presences : (ℕ → Option Text) → List ℕ → List Bool
presences fields [] = []
presences fields (f ∷ fs) = is_present (fields f) ∷ presences fields fs

length-presences :
    (fields : ℕ → Option Text) (fs : List ℕ) → length (presences fields fs) ≡ length fs
unfolding presences
length-presences fields [] = refl
length-presences fields (f ∷ fs) = ap suc (length-presences fields fs)

all_presences_sound :
    (n : ℕ) (p : List Bool → Bool) (ps : List Bool)
    → all_presences n p ≡ true
    → length ps ≡ n
    → p ps ≡ true
unfolding all_presences
all_presences_sound zero p [] h e = h
all_presences_sound zero p (b ∷ ps) h e = absurd (omega arith)
all_presences_sound (suc n) p [] h e = absurd (omega arith)
all_presences_sound (suc n) p (true ∷ ps) h e =
    all_presences_sound n (λ qs. p (true ∷ qs)) ps (&&-true _ _ h).0 (omega arith)
all_presences_sound (suc n) p (false ∷ ps) h e =
    all_presences_sound n (λ qs. p (false ∷ qs)) ps (&&-true _ _ h).1 (omega arith)

bitmap_of-eq :
    (fields : ℕ → Option Text) (fs : List ℕ)
    → bitmap_of fields fs ≡ sum_bits fs (presences fields fs)
unfolding bitmap_of sum_bits presences
bitmap_of-eq fields [] = refl
bitmap_of-eq fields (f ∷ fs) =
    ap (λ (n : ℕ). (if is_present (fields f) then 2 ^ (64 - f) else 0) + n) (bitmap_of-eq fields fs)

says-presences :
    (fields : ℕ → Option Text) (fs : List ℕ) (f : ℕ)
    → says fs (presences fields fs) f ≡ (any (λ g. g == f) fs && is_present (fields f))
unfolding says presences
says-presences fields [] f = refl
says-presences fields (g ∷ fs) f = elim (Bool-cases (g == f)) [
  | inl here ↦
      let e : g ≡ f = ==→eq g f here in
      subst
        (λ (k : ℕ).
          ((g == f && is_present (fields k)) || says fs (presences fields fs) f)
          ≡ ((g == f || any (λ g. g == f) fs) && is_present (fields f)))
        (sym e) (ground (arith, says-presences fields fs f))
  | inr other ↦ ground (arith, says-presences fields fs f)
]

-- The bits of a bitmap are the fields that are there, and no other.
abbrev pub Tells : (ℕ → Option Text) → ℕ → List ℕ → Type 0
Tells fields bitmap fs =
    All (λ f. has_bitmap_field bitmap f ≡ (is_supported_field f && is_present (fields f))) fs

Tells-of_all :
    (fields : ℕ → Option Text) (n : ℕ) (fs : List ℕ)
    → all
        (λ f.
          same (has_bitmap_field n f) (says supported_fields (presences fields supported_fields) f))
        fs
      ≡ true
    → Tells fields n fs
unfolding is_supported_field
Tells-of_all fields n [] h = tt
Tells-of_all fields n (f ∷ fs) h =
    let (here, rest) = &&-true _ _ h in
    (same_eq _ _ here ∙ says-presences fields supported_fields f, Tells-of_all fields n fs rest)
  where
    same_eq : (p q : Bool) → same p q ≡ true → p ≡ q
    same_eq p q h = ground arith

and_parts :
    (a b c d e : Bool)
    → (a && b && c && d && e) ≡ true
    → (a ≡ true) × (b ≡ true) × (c ≡ true) × (d ≡ true) × (e ≡ true)
and_parts a b c d e h = ground arith

not-true : (b : Bool) → not b ≡ true → b ≡ false
not-true b h = ground arith

-- The text of a bitmap is sixteen hexadecimal digits that read back as the bitmap.
pub record IsBitmap (fields : ℕ → Option Text) (n : ℕ) : Type 0 where
  pub width : length (hex 16 n) ≡ 16
  pub digits : all is_hex (hex 16 n) ≡ true
  pub reads_back : parse_hex 0 (hex 16 n) ≡ n
  pub primary : has_bitmap_field n 1 ≡ false
  pub tells : Tells fields n bitmap_fields

pub bitmap_of-IsBitmap :
    (fields : ℕ → Option Text) → IsBitmap fields (bitmap_of fields supported_fields)
bitmap_of-IsBitmap fields =
    let ps = presences fields supported_fields in
    let n = sum_bits supported_fields ps in
    let (a, b, c, d, e) =
      and_parts (length (hex 16 n) == 16) (all is_hex (hex 16 n)) (parse_hex 0 (hex 16 n) == n)
        (not (has_bitmap_field n 1)) _
        (all_presences_sound 8 good ps every_bitmap_good
          (length-presences fields supported_fields)) in
    rw bitmap_of-eq (record {
      width = ==→eq _ _ a;
      digits = b;
      reads_back = ==→eq _ _ c;
      primary = not-true _ d;
      tells = Tells-of_all fields _ bitmap_fields e;
    })
