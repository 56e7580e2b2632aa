-- ===== src/HostAdapter/DurableTests.antt =====
-- A file of trace numbers that is new.
use cashblocks.Prelude.{ℕ, ◌≡◌, refl, Option, none, some, List, [], ◌∷◌, length, arith}
use cashblocks.Prelude.Int.{pos}
use cashblocks.Prelude.Result.{ok}
use cashblocks.Contracts.{Json, num, obj, end, field}
use cashblocks.HostAdapter.Traces.{drawn}
use cashblocks.HostAdapter.Durable.{
  StanFile, state_json, read_state, write_state, Writes, next_nth, next_nth-drawn,
}

-- A printer that keeps the number alone.
abbrev print_last : Json → List ℕ
print_last (obj (field version one (field last (num (pos n)) end))) = n ∷ []
print_last _ = []

abbrev parse_last : List ℕ → Option Json
parse_last (n ∷ end_of_line ∷ []) = some (state_json n)
parse_last _ = none

abbrev number_file : StanFile
number_file = record { parse_json = parse_last; stringify = print_last; byte_length = length }

number_file-Writes : Writes number_file
number_file-Writes = record { parses = λ last. refl; is_short = λ last fits. omega arith }

new_file_is_read : read_state number_file none ≡ ok 0
unfolding read_state
new_file_is_read = refl

next_nth-drawn_example :
    next_nth number_file 2 none ≡ ok (drawn 2 0, write_state number_file (drawn 2 0))
next_nth-drawn_example = next_nth-drawn number_file none 0 2 number_file-Writes new_file_is_read
