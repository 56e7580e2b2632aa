-- ===== src/Prelude/Sort.antt =====
-- The order that `Array.prototype.sort` brings a list into.
use mathlib.Core.Bool.{Bool}
use mathlib.Core.List.{List, [], ◌∷◌}
use cashblocks.Prelude.Tests.{if◌then◌else◌}

-- `Array.prototype.sort`, which keeps the order of what it finds equal: `is_after a b` says that a
-- goes behind b.
module _ {ℓ} {A : Type ℓ} (is_after : A → A → Bool) where
  unfoldable pub place : A → List A → List A
  place a [] = a ∷ []
  place a (b ∷ bs) = let behind = b ∷ place a bs in if is_after a b then behind else a ∷ b ∷ bs

  unfoldable pub sort : List A → List A
  sort [] = []
  sort (a ∷ rest) = place a (sort rest)
