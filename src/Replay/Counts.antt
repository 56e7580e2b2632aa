-- ===== src/Replay/Counts.antt =====
-- What the report of `inspectJournalText` counts, in packages/journal-replay/src/index.ts.
use cashblocks.Prelude.{
  ℕ, suc, ◌+◌, ◌≡◌, refl, ap, ◌∙◌, Bool, true, Option, none, some, List, [], ◌∷◌, ◌++◌, String,
  length, length-append, arith, if_rule, filter,
}
use cashblocks.Prelude.Int.{ℤ}
use cashblocks.Prelude.Text.{lookup, insert}
use cashblocks.Replay.Types.{JournalRecord}
use cashblocks.Replay.Log.{Log}
use cashblocks.Replay.Session.{Mode, ReplayOptions, replay_session_records}
use cashblocks.Replay.Reading.{Platform, Limits, Reading}
use cashblocks.Prelude.Sort.{place, sort}
use cashblocks.Replay.Groups.{scope_of, records_of, group_under, group, is_unscoped}
use cashblocks.Replay.Inspect.{check_journal, replay_groups, budget_of, is_later, report_of}

-- The sum of a number of each.
abbrev pub sum_of {ℓ} : {A : Type ℓ} → (A → ℕ) → List A → ℕ
sum_of size [] = 0
sum_of size (x ∷ xs) = size x + sum_of size xs

abbrev group_size : String × List JournalRecord → ℕ
group_size (id, records) = length records

insert_size :
    (id : String) (r : JournalRecord) (groups : List (String × List JournalRecord))
    → sum_of group_size (insert id (records_of (lookup id groups) ++ (r ∷ [])) groups)
      ≡ suc (sum_of group_size groups)
unfolding insert lookup
insert_size id r [] = refl
insert_size id r ((j, records) ∷ groups) =
    ground (arith, insert_size id r groups, length-append records (r ∷ []))

length-place :
    {A : Type 0} (is_after : A → A → Bool) (a : A) (xs : List A)
    → length (place is_after a xs) ≡ suc (length xs)
unfolding place
length-place is_after a [] = refl
length-place {A} is_after a (x ∷ xs) =
    if_rule {B = List A} (λ l. length l ≡ suc (suc (length xs))) (is_after a x) _ _
      (λ e. ap suc (length-place is_after a xs)) (λ e. refl)

pub length-sort :
    {A : Type 0} (is_after : A → A → Bool) (xs : List A) → length (sort is_after xs) ≡ length xs
unfolding sort
length-sort is_after [] = refl
length-sort is_after (x ∷ xs) =
    length-place is_after x (sort is_after xs) ∙ ap suc (length-sort is_after xs)

grouped_size :
    (scope : Option String) (r : JournalRecord) (groups : List (String × List JournalRecord))
    → sum_of group_size (group_under scope r groups) + (elim scope [ none ↦ 1 | some id ↦ 0 ])
      ≡ suc (sum_of group_size groups)
grouped_size none r groups = omega arith
grouped_size (some id) r groups = omega (arith, insert_size id r groups)

group_sum :
    (records : List JournalRecord) (groups : List (String × List JournalRecord))
    → sum_of group_size (group records groups) + length (filter is_unscoped records)
      ≡ sum_of group_size groups + length records
unfolding group
group_sum [] groups = refl
group_sum (r ∷ rs) groups =
    let scope = scope_of r.event.draft.session_id in
    ground (arith, group_sum rs (group_under scope r groups), grouped_size scope r groups)

sessions_sum :
    (parse_time : String → Option ℤ) (options : ReplayOptions)
    (groups : List (String × List JournalRecord)) (log : Log)
    → (sum_of (λ s. s.event_count) (replay_groups parse_time options groups log).0
        ≡ sum_of group_size groups)
unfolding replay_groups replay_session_records
sessions_sum parse_time options [] log = refl
sessions_sum parse_time options ((id, records) ∷ groups) log =
    ap (length records +◌) (sessions_sum parse_time options groups _)

pub sessions_length :
    (parse_time : String → Option ℤ) (options : ReplayOptions)
    (groups : List (String × List JournalRecord)) (log : Log)
    → length (replay_groups parse_time options groups log).0 ≡ length groups
unfolding replay_groups
sessions_length parse_time options [] log = refl
sessions_length parse_time options ((id, records) ∷ groups) log =
    ap suc (sessions_length parse_time options groups _)

module _ {A : Type 0} (is_after : A → A → Bool) (size : A → ℕ) where
  place_sum : (a : A) (xs : List A) → sum_of size (place is_after a xs) ≡ size a + sum_of size xs
  unfolding place
  place_sum a [] = refl
  place_sum a (x ∷ xs) =
      if_rule (λ l. sum_of size l ≡ size a + (size x + sum_of size xs)) (is_after a x) _ _
        (λ e. omega (arith, place_sum a xs)) (λ e. refl)

  pub sort_sum : (xs : List A) → sum_of size (sort is_after xs) ≡ sum_of size xs
  unfolding sort
  sort_sum [] = refl
  sort_sum (x ∷ xs) = place_sum x (sort is_after xs) ∙ ap (size x +◌) (sort_sum xs)

pub counted :
    (platform : Platform) (mode : Mode) (frames : Bool) (limits : Limits) (read : Reading)
    → let report = report_of platform mode frames limits read in
      report.event_count ≡ report.unscoped_event_count + sum_of (λ s. s.event_count) report.sessions
unfolding report_of
counted platform mode frames limits read =
    let grouped = group read.records [] in
    let checked =
      check_journal limits.max_issues mode read.line_count (filter is_unscoped read.records) grouped
        read.parsing in
    let options : ReplayOptions = record {
      include_frames = frames;
      mode = mode;
      require_anchor = true;
    } in
    let replayed =
      (replay_groups platform.parse_time options grouped (budget_of limits checked)).0 in
    omega (
      arith,
      group_sum read.records [],
      sessions_sum platform.parse_time options grouped (budget_of limits checked),
      sort_sum (is_later platform) (λ s. s.event_count) replayed,
    )
