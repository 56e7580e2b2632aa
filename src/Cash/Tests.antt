-- ===== src/Cash/Tests.antt =====
-- Runs of `allocateCash`, and its laws at concrete inventories.
use cashblocks.Prelude.{ℕ, ◌≡◌, ◌≤◌, ◌↔◌, refl, none, some, List, [], ◌∷◌, arith}
use cashblocks.Cash.{allocate_cash, available, split, bundles_of}
use cashblocks.Cash.Record.{Counts, count_or, increase, total}
use cashblocks.Cash.Bundles.{Pays}
use cashblocks.Cash.Laws.{allocate_sound, allocate-none_iff}

abbrev notes : List ℕ
notes = 20 ∷ 50 ∷ []

abbrev drawer : Counts
drawer = (20, 3) ∷ (50, 1) ∷ []

runs :
    (allocate_cash 60 notes (some drawer) ≡ some ((20, 3) ∷ []))
    × (allocate_cash 110 notes (some drawer) ≡ some ((50, 1) ∷ (20, 3) ∷ []))
    × (allocate_cash 80 notes (some drawer) ≡ none)
    × (allocate_cash 30 notes none ≡ none)
    × (allocate_cash 0 notes none ≡ none)
unfolding allocate_cash count_or increase
runs = (refl, refl, refl, refl, refl)

split_thirteen : bundles_of 130 none (10 ∷ []) ≡ split 10 13 13 1
unfolding bundles_of
split_thirteen = refl

allocate_sound_example :
    (total ((50, 1) ∷ (20, 3) ∷ []) ≡ 110)
    × ((d : ℕ) → count_or ((50, 1) ∷ (20, 3) ∷ []) d 0 ≤ available (some drawer) d)
allocate_sound_example =
    allocate_sound 110 notes (some drawer) ((50, 1) ∷ (20, 3) ∷ []) (omega arith) (omega arith)
      runs.1

allocate-none_iff_example :
    (allocate_cash 80 notes (some drawer) ≡ none) ↔ (¬ Pays (some drawer) notes 80)
allocate-none_iff_example =
    allocate-none_iff 80 notes (some drawer) (omega arith) (omega arith) (omega arith)
