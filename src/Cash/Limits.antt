-- ===== src/Cash/Limits.antt =====
-- The bundles of each denomination hold at most the units that are available.
use cashblocks.Prelude.{
  ℕ, zero, suc, ◌+◌, ◌-◌, ◌*◌, ◌/◌, ◌≤◌, ◌<◌, ◌≡◌, ◌≢◌, refl, inl, inr, Option, List, [], ◌∷◌, ◌++◌,
  arith, ◌==◌, if◌then◌else◌, Bool-cases, All, All-append, min,
}
use cashblocks.Cash.{Bundle, split, available, bundles_of}
use cashblocks.Cash.Record.{Counts}
use cashblocks.Cash.Spend.{IsBundle, AreBundles, units}

pub split-AreBundles : (d fuel r size : ℕ) → 0 < d → 0 < size → AreBundles (split d fuel r size)
unfolding split
split-AreBundles d zero r size pos hs = tt
split-AreBundles d (suc fuel) zero size pos hs = tt
split-AreBundles d (suc fuel) (suc r) size pos hs = (
  (value_pos pos hs, refl),
  split-AreBundles d fuel (suc r - min size (suc r)) (size * 2) pos (omega arith),
)
  where
    value_pos : 0 < d → 0 < size → 0 < d * min size (suc r)
    value_pos hd hs = let m : 0 < min size (suc r) = omega arith in grind arith

pub bundles_of-AreBundles :
    (amount : ℕ) (inventory : Option Counts) (ds : List ℕ)
    → All (λ d. 0 < d) ds
    → AreBundles (bundles_of amount inventory ds)
unfolding bundles_of
bundles_of-AreBundles amount inventory [] _ = tt
bundles_of-AreBundles amount inventory (d ∷ ds) (pos, poss) =
    All-append IsBundle (split d _ _ 1) (bundles_of amount inventory ds)
      (split-AreBundles d _ _ 1 pos (omega arith)) (bundles_of-AreBundles amount inventory ds poss)

units-append : (d : ℕ) (xs ys : List Bundle) → units d (xs ++ ys) ≡ units d xs + units d ys
unfolding units
units-append d [] ys = omega arith
units-append d (x ∷ xs) ys = omega (arith, units-append d xs ys)

units-split : (d e fuel r size : ℕ) → units e (split d fuel r size) ≤ (if d == e then r else 0)
unfolding units split
units-split d e zero r size = omega arith
units-split d e (suc fuel) zero size = omega arith
units-split d e (suc fuel) (suc r) size =
    ground (arith, units-split d e fuel (suc r - min size (suc r)) (size * 2))

-- Distinct denominations, as the profile's validation demands.
abbrev pub AreDistinct : List ℕ → Type 0
AreDistinct [] = Unit
AreDistinct (d ∷ ds) = All (λ e. d ≢ e) ds × AreDistinct ds

pub units-bundles_of_absent :
    (amount e : ℕ) (inventory : Option Counts) (ds : List ℕ)
    → All (λ d. e ≢ d) ds
    → units e (bundles_of amount inventory ds) ≡ 0
unfolding units bundles_of
units-bundles_of_absent amount e inventory [] _ = refl
units-bundles_of_absent amount e inventory (d ∷ ds) (ne, nes) =
    let m = min (amount / d) (available inventory d) in
    ground (
      arith,
      units-append e (split d m m 1) (bundles_of amount inventory ds),
      units-split d e m m 1,
      units-bundles_of_absent amount e inventory ds nes,
    )

pub units-bundles_of :
    (amount e : ℕ) (inventory : Option Counts) (ds : List ℕ)
    → AreDistinct ds
    → units e (bundles_of amount inventory ds) ≤ available inventory e
unfolding units bundles_of
units-bundles_of amount e inventory [] _ = omega arith
units-bundles_of amount e inventory (d ∷ ds) (nes, distinct) =
    let m = min (amount / d) (available inventory d) in
    let apart = units-append e (split d m m 1) (bundles_of amount inventory ds) in
    elim (Bool-cases (d == e)) [
      | inl same ↦
          let same' : d ≡ e = ground arith in
          let none_else = units-bundles_of_absent amount d inventory ds nes in
          ground (arith, apart, units-split d e m m 1, none_else)
      | inr other ↦
          ground
            (arith, apart, units-split d e m m 1, units-bundles_of amount e inventory ds distinct)
    ]
