-- ===== src/Reversals/Messages.antt =====
-- `boundedError` of packages/host-iso8583/src/reversal-store.ts, over the code units of a message.
use cashblocks.Prelude.{
  ℕ, zero, suc, ◌-◌, Bool, true, false, ◌&&◌, ◌||◌, List, [], ◌∷◌, ◌++◌, if◌then◌else◌, leb, ltb,
  ◌==◌, length, take, all,
}
use cashblocks.Prelude.Text.{codes, is_space}
use cashblocks.Iso8583.{is_digit}

-- How many digits a text starts with.
unfoldable pub leading_digits : List ℕ → ℕ
leading_digits [] = 0
leading_digits (c ∷ cs) = let more = leading_digits cs in if is_digit c then suc more else 0

-- `/\d{12,19}/g` takes as many digits as it can.
abbrev pub most_digits : ℕ → ℕ
most_digits n = if leb n 19 then n else 19

abbrev pub redacted : List ℕ
redacted = b'[' ∷ b'r' ∷ b'e' ∷ b'd' ∷ b'a' ∷ b'c' ∷ b't' ∷ b'e' ∷ b'd' ∷ b']' ∷ []

-- `message.replace(/\d{12,19}/g, "[redacted]")`, where `skip` units belong to a match.
unfoldable pub redact : ℕ → List ℕ → List ℕ
unfolding leading_digits
redact skip [] = []
redact (suc skip) (c ∷ cs) = redact skip cs
redact zero (c ∷ cs) =
    let taken = most_digits (leading_digits (c ∷ cs)) in
    let behind = redacted ++ redact (taken - 1) cs in
    let rest = c ∷ redact 0 cs in if leb 12 taken then behind else rest

abbrev pub is_break : ℕ → Bool
is_break c = c == 10 || c == 13

abbrev pub starts_broken : List ℕ → Bool
starts_broken [] = false
starts_broken (c ∷ cs) = is_break c

-- `.replace(/[\r\n]+/g, " ")`
unfoldable pub join_lines : List ℕ → List ℕ
join_lines [] = []
join_lines (c ∷ cs) =
    let rest = join_lines cs in
    if is_break c then (if starts_broken cs then rest else b' ' ∷ rest) else c ∷ rest

abbrev pub is_nothing : List ℕ → Bool
is_nothing [] = true
is_nothing (c ∷ cs) = false

-- `trim`
unfoldable pub cut_start : List ℕ → List ℕ
unfolding is_space
cut_start [] = []
cut_start (c ∷ cs) = let rest = cut_start cs in if is_space c then rest else c ∷ cs

unfoldable pub cut_end : List ℕ → List ℕ
unfolding is_space
cut_end [] = []
cut_end (c ∷ cs) = let rest = cut_end cs in if is_space c && is_nothing rest then [] else c ∷ rest

abbrev pub unknown_error : List ℕ
unknown_error = codes "Unknown reversal error."

unfoldable pub bounded_error : List ℕ → List ℕ
unfolding redact join_lines cut_start cut_end
bounded_error message =
    let scrubbed = take 500 (cut_end (cut_start (join_lines (redact 0 message)))) in
    if is_nothing scrubbed then unknown_error else scrubbed

-- What markFailed refuses.
unfoldable pub is_bad_message : List ℕ → Bool
unfolding is_space
is_bad_message message = all is_space message || ltb 500 (length message)

-- Twelve digits in a row.
abbrev pub has_card : List ℕ → Bool
has_card [] = false
has_card (c ∷ cs) = leb 12 (leading_digits (c ∷ cs)) || has_card cs
