-- ===== src/Transport/Frames.antt =====
-- The length headers of packages/host-iso8583/src/framed-transport.ts.
use cashblocks.Prelude.{ℕ, ◌+◌, ◌*◌, ◌/◌, ◌%◌, ◌≡◌, ◌≤◌, refl, [], ◌∷◌, ◌++◌, length, arith, drop}
use cashblocks.Transport.{Bytes, Width, two, four, bytes_of, representable, header, read_length}

pub length-header : (w : Width) (n : ℕ) → length (header w n) ≡ bytes_of w
length-header two n = refl
length-header four n = refl

pub drop-header :
    (w : Width) (n : ℕ) (payload : Bytes) → drop (bytes_of w) (header w n ++ payload) ≡ payload
drop-header two n payload = refl
drop-header four n payload = refl

value_two : (n : ℕ) → n ≤ 0xffff → n / 256 % 256 * 256 + n % 256 ≡ n
value_two n h = omega arith

value_four :
    (n : ℕ)
    → n ≤ 0xffffffff
    → n / 16777216 % 256 * 16777216 + n / 65536 % 256 * 65536 + n / 256 % 256 * 256 + n % 256 ≡ n
value_four n h = omega arith

-- What is read at the start of a frame, once its header is there.
pub read_length-header :
    (w : Width) (n : ℕ) (b rest payload : Bytes)
    → n ≤ representable w
    → bytes_of w ≤ length b
    → b ++ rest ≡ header w n ++ payload
    → read_length w b ≡ n
read_length-header two n [] rest payload fits h e = absurd (omega arith)
read_length-header two n (a ∷ []) rest payload fits h e = absurd (omega arith)
read_length-header two n (a ∷ c ∷ b) rest payload fits h e =
    let first : a ≡ n / 256 % 256 = cc in
    let second : c ≡ n % 256 = cc in rw (first, second) (value_two n fits)
read_length-header four n [] rest payload fits h e = absurd (omega arith)
read_length-header four n (a ∷ []) rest payload fits h e = absurd (omega arith)
read_length-header four n (a ∷ c ∷ []) rest payload fits h e = absurd (omega arith)
read_length-header four n (a ∷ c ∷ d ∷ []) rest payload fits h e = absurd (omega arith)
read_length-header four n (a ∷ c ∷ d ∷ f ∷ b) rest payload fits h e =
    let first : a ≡ n / 16777216 % 256 = cc in
    let second : c ≡ n / 65536 % 256 = cc in
    let third : d ≡ n / 256 % 256 = cc in
    let fourth : f ≡ n % 256 = cc in rw (first, second, third, fourth) (value_four n fits)
