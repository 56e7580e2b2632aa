-- ===== src/HostAdapter/Durable.antt =====
-- DurableStanAllocator of packages/host-iso8583/src/stan-store.ts: a counter that a file keeps. The file's
-- text is absent or code units; the lock, which makes the calls follow one another, and the steps of the
-- file system are left out. JSON.parse, JSON.stringify of a state and
-- Buffer.byteLength are arguments.
use cashblocks.Prelude.{
  ℕ, zero, suc, ◌≡◌, ◌≤◌, ◌&&◌, Option, none, some, List, String, ◌==◌, leb, ltb, str_eq, ◌++◌, [],
  ◌∷◌, arith, if_rule, if◌then◌else◌, ◌∙◌, ap,
}
use cashblocks.Prelude.Int.{pos}
use cashblocks.Prelude.Result.{Result, ok, err, ◌>>=◌}
use cashblocks.Contracts.{Json, num, obj, Fields, end, field}
use cashblocks.HostAdapter.{next_trace}
use cashblocks.HostAdapter.Traces.{drawn}

pub data StanError : Type 0 where
  state_too_large state_no_json state_invalid : StanError

pub record StanFile : Type 0 where
  pub parse_json : List ℕ → Option Json
  pub stringify : Json → List ℕ
  pub byte_length : List ℕ → ℕ

abbrev pub number_at : String → Fields → Option ℕ
number_at key end = none
number_at key (field k (num (pos n)) rest) =
    let later = number_at key rest in if str_eq k key then some n else later
number_at key (field k value rest) =
    let later = number_at key rest in if str_eq k key then none else later

abbrev pub checked_state : Option ℕ → Option ℕ → Result StanError ℕ
checked_state (some version) (some last) =
    if version == 1 && leb last 999999 then ok last else err state_invalid
checked_state _ _ = err state_invalid

abbrev pub state_of : Option Json → Result StanError ℕ
state_of none = err state_no_json
state_of (some (obj fields)) = checked_state (number_at "version" fields) (number_at "last" fields)
state_of (some _) = err state_invalid

-- `readState`, of which the version is 1 and not kept.
unfoldable pub read_state : StanFile → Option (List ℕ) → Result StanError ℕ
read_state f none = ok 0
read_state f (some content) =
    if ltb 1024 (f.byte_length content)
    then err state_too_large
    else state_of (f.parse_json content)

abbrev pub state_json : ℕ → Json
state_json last = obj (field "version" (num (pos 1)) (field "last" (num (pos last)) end))

-- The text that `writeState` leaves in the file, with the line feed behind it.
abbrev pub write_state : StanFile → ℕ → Option (List ℕ)
write_state f last = some (f.stringify (state_json last) ++ (10 ∷ []))

-- `next`
unfoldable pub next_stan : StanFile → Option (List ℕ) → Result StanError (ℕ × Option (List ℕ))
unfolding read_state next_trace
next_stan f file = do
  last ← read_state f file
  ok (next_trace last, write_state f (next_trace last))

-- JSON.parse reads back what JSON.stringify wrote of a state, before a line feed too, and
-- the text is short.
pub record Writes (f : StanFile) : Type 0 where
  pub parses :
      (last : ℕ)
      → f.parse_json (f.stringify (state_json last) ++ (10 ∷ [])) ≡ some (state_json last)
  pub is_short :
      (last : ℕ) → last ≤ 999999 → f.byte_length (f.stringify (state_json last) ++ (10 ∷ [])) ≤ 1024

-- The k-th call behind a file, and the file that it leaves.
unfoldable pub next_nth : StanFile → ℕ → Option (List ℕ) → Result StanError (ℕ × Option (List ℕ))
unfolding next_stan
next_nth f zero file = next_stan f file
next_nth f (suc k) file = next_nth f k file >>= λ before. next_stan f before.1

written :
    (f : StanFile)
    → Writes f
    → (last : ℕ) → last ≤ 999999
    → read_state f (write_state f last) ≡ ok last
unfolding read_state
written f writes last fits =
    let short = writes.is_short last fits in
    if_rule (λ (r : Result StanError ℕ). r ≡ ok last)
      (ltb 1024 (f.byte_length (f.stringify (state_json last) ++ (10 ∷ [])))) _ _
      (λ e. absurd (ground arith)) (λ e. ap state_of (writes.parses last) ∙ checked last fits)
  where
    checked : (last : ℕ) → last ≤ 999999 → checked_state (some 1) (some last) ≡ ok last
    checked last fits = ground arith

drawn_fits : (k last : ℕ) → drawn k last ≤ 999999
unfolding drawn next_trace
drawn_fits zero last = omega arith
drawn_fits (suc k) last = omega arith

-- Where the file's text reads back what was written, the calls on a file whose number is `last` hand
-- out the numbers that a counter at `last` draws, one after the other, and none of them fails.
pub next_nth-drawn :
    (f : StanFile) (file : Option (List ℕ)) (last k : ℕ)
    → Writes f
    → read_state f file ≡ ok last
    → next_nth f k file ≡ ok (drawn k last, write_state f (drawn k last))
unfolding next_nth next_stan drawn
next_nth-drawn f file last zero writes h =
    ap (λ r. r >>= λ n. ok (next_trace n, write_state f (next_trace n))) h
next_nth-drawn f file last (suc k) writes h =
    ap (λ r. r >>= λ before. next_stan f before.1) (next_nth-drawn f file last k writes h)
    ∙ ap (λ r. r >>= λ n. ok (next_trace n, write_state f (next_trace n)))
        (written f writes (drawn k last) (drawn_fits k last))
