-- ===== src/Replay/Lines.antt =====
-- `journalLines` of packages/journal-replay/src/index.ts, over the code units of a journal's text.
use cashblocks.Prelude.{
  ℕ, ◌+◌, ◌≡◌, refl, ◌∙◌, ap, sym, Bool, true, not, ◌&&◌, List, [], ◌∷◌, ◌++◌, append_assoc,
  append-nil, if◌then◌else◌, ◌==◌, all, arith, if_rule,
}

abbrev pub line_feed : ℕ
line_feed = 10

abbrev pub carriage_return : ℕ
carriage_return = 13

-- A line without the carriage return that ends it.
unfoldable pub without_return : List ℕ → List ℕ
without_return [] = []
without_return (c ∷ []) = if c == carriage_return then [] else c ∷ []
without_return (c ∷ d ∷ cs) = c ∷ without_return (d ∷ cs)

abbrev pub last_line : ℕ → List ℕ → List (ℕ × List ℕ)
last_line n [] = []
last_line n (c ∷ cs) = (n + 1, without_return (c ∷ cs)) ∷ []

-- The loop: `n` is `lineNumber`, and `current` is `text.slice(start, index)`.
unfoldable pub lines_from : ℕ → List ℕ → List ℕ → List (ℕ × List ℕ)
unfolding without_return
lines_from n current [] = last_line n current
lines_from n current (c ∷ cs) =
    let next = (n + 1, without_return current) ∷ lines_from (n + 1) [] cs in
    let same = lines_from n (current ++ (c ∷ [])) cs in if c == line_feed then next else same

unfoldable pub journal_lines : List ℕ → List (ℕ × List ℕ)
unfolding lines_from
journal_lines text = lines_from 0 [] text

-- What the writer of a journal does with its lines: each ends with a line feed.
abbrev pub ended_lines : List (List ℕ) → List ℕ
ended_lines [] = []
ended_lines (line ∷ lines) = line ++ (line_feed ∷ ended_lines lines)

abbrev pub numbered_from : ℕ → List (List ℕ) → List (ℕ × List ℕ)
numbered_from n [] = []
numbered_from n (line ∷ lines) = (n + 1, line) ∷ numbered_from (n + 1) lines

-- A line with neither of the units that end one.
abbrev pub is_plain : List ℕ → Bool
is_plain line = all (λ c. not (c == line_feed) && not (c == carriage_return)) line

abbrev pub are_plain : List (List ℕ) → Bool
are_plain lines = all is_plain lines

without_return_plain : (line : List ℕ) → is_plain line ≡ true → without_return line ≡ line
unfolding without_return
without_return_plain [] h = refl
without_return_plain (c ∷ []) h = ground arith
without_return_plain (c ∷ d ∷ cs) h = ap (c ∷◌) (without_return_plain (d ∷ cs) (ground arith))

lines_from-plain :
    (n : ℕ) (current line rest : List ℕ)
    → is_plain line ≡ true
    → lines_from n current (line ++ (line_feed ∷ rest))
      ≡ (n + 1, without_return (current ++ line)) ∷ lines_from (n + 1) [] rest
unfolding lines_from
lines_from-plain n current [] rest h =
    ap (λ c. (n + 1, without_return c) ∷ lines_from (n + 1) [] rest) (sym (append-nil current))
lines_from-plain n current (c ∷ cs) rest h =
    let ih = lines_from-plain n (current ++ (c ∷ [])) cs rest (ground arith) in
    let regroup = append_assoc current (c ∷ []) cs in
    if_rule
      (λ read. read ≡ (n + 1, without_return (current ++ (c ∷ cs))) ∷ lines_from (n + 1) [] rest)
      (c == line_feed) _ _ (λ e. absurd (ground arith))
      (λ e. ih ∙ ap (λ read. (n + 1, without_return read) ∷ lines_from (n + 1) [] rest) regroup)

lines_from_ended :
    (n : ℕ) (lines : List (List ℕ))
    → are_plain lines ≡ true
    → lines_from n [] (ended_lines lines) ≡ numbered_from n lines
unfolding lines_from
lines_from_ended n [] h = refl
lines_from_ended n (line ∷ lines) h =
    lines_from-plain n [] line (ended_lines lines) (ground arith)
    ∙ (ap (λ read. (n + 1, read) ∷ lines_from (n + 1) [] (ended_lines lines))
          (without_return_plain line (ground arith))
        ∙ ap ((n + 1, line) ∷◌) (lines_from_ended (n + 1) lines (ground arith)))

-- Lines that hold neither a line feed nor a carriage return are read back as they were written, and
-- numbered from 1.
pub journal_lines-ended_lines :
    (lines : List (List ℕ))
    → are_plain lines ≡ true
    → journal_lines (ended_lines lines) ≡ numbered_from 0 lines
unfolding journal_lines
journal_lines-ended_lines lines h = lines_from_ended 0 lines h
