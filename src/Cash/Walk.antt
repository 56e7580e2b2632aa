-- ===== src/Cash/Walk.antt =====
-- The walk back of `allocateCash`: from each cell that is set it goes down through bundles with
-- strictly falling indices, so no bundle is spent twice, and it ends at 0.
use cashblocks.Prelude.{
  ℕ, zero, suc, ◌∙◌, ◌+◌, ◌-◌, ◌≤◌, ◌<◌, ◌≡◌, refl, ◌⊎◌, inl, inr, some, List, [], ◌∷◌, arith,
  if◌then◌else◌, ltb, All, get_elem?, drop, length, subst,
}
use cashblocks.Cash.{Table, Bundle, visit, pass, fill, start, write}
use cashblocks.Cash.Fill.{IsSetAt, previous-visit_keeps, selected-visit_keeps}

-- From cell `c` the bundles `used` lead down to 0, each with an index below the one before and below
-- `k`.
abbrev pub Walk : List Bundle → Table → ℕ → ℕ → List Bundle → Type 0
Walk bs t k c [] = c ≡ 0
Walk bs t k c (b ∷ used) =
    (i : ℕ) × (p : ℕ) × (i < k)
    × (t.selected c ≡ some i)
    × (get_elem? bs i ≡ some b)
    × (t.previous c ≡ some p)
    × (c ≡ p + b.value)
    × Walk bs t i p used

Walk-mono :
    (bs : List Bundle) (t : Table) (k k' c : ℕ) (used : List Bundle)
    → k ≤ k'
    → Walk bs t k c used
    → Walk bs t k' c used
Walk-mono bs t k k' c [] le w = w
Walk-mono bs t k k' c (b ∷ used) le (i, p, lt, sel, at, prev, sum, rest) =
    (i, p, omega arith, sel, at, prev, sum, rest)

Walk-visit :
    (bs : List Bundle) (t : Table) (index value current k c : ℕ) (used : List Bundle)
    → Walk bs t k c used
    → Walk bs (visit index value current t) k c used
Walk-visit bs t index value current k c [] w = w
Walk-visit bs t index value current k c (b ∷ used) (i, p, lt, sel, at, prev, sum, rest) = (
  i,
  p,
  lt,
  selected-visit_keeps index value current t c p prev ∙ sel,
  at,
  previous-visit_keeps index value current t c p prev,
  sum,
  Walk-visit bs t index value current i p used rest,
)

-- Cells below `low` are reached by bundles before `k`, the others also by bundle `k`.
abbrev bound : ℕ → ℕ → ℕ → ℕ
bound k low c = if ltb c low then k else suc k

abbrev HasWalks : List Bundle → Table → ℕ → ℕ → Type 0
HasWalks bs t k low =
    (c : ℕ) → IsSetAt t c → (used : List Bundle) × Walk bs t (bound k low c) c used

-- What a visit sets: either the cell was set before, or it is the visited one.
visit-cases :
    (index value current : ℕ) (t : Table) (c : ℕ)
    → IsSetAt (visit index value current t) c
    → IsSetAt t c
      ⊎ ((c ≡ current)
          × IsSetAt t (current - value)
          × ((visit index value current t).previous c ≡ some (current - value))
          × ((visit index value current t).selected c ≡ some index))
unfolding visit
visit-cases index value current t c h = ground arith

module _ (bs : List Bundle) (k : ℕ) (b : Bundle) (at : get_elem? bs k ≡ some b)
    (pos : 0 < b.value) where
  visit-HasWalks :
      (n : ℕ) (t : Table)
      → HasWalks bs t k (b.value + suc n)
      → HasWalks bs (visit k b.value (b.value + n) t) k (b.value + n)
  visit-HasWalks n t h c set = elim (visit-cases k b.value (b.value + n) t c set) [
    | inl old ↦
        let (used, w) = h c old in
        (
          used,
          Walk-mono bs _ _ _ c used (ground arith)
              (Walk-visit bs t k b.value (b.value + n) _ c used w),
        )
    | inr (here, below, prev, sel) ↦
        let (used, w) = h (b.value + n - b.value) below in
        (
          b ∷ used,
          (
            k,
            b.value + n - b.value,
            ground arith,
            sel,
            at,
            prev,
            omega arith,
            Walk-mono bs _ _ k _ used (ground arith)
                (Walk-visit bs t k b.value (b.value + n) _ _ used w),
          ),
        )
  ]

  pass-HasWalks :
      (n : ℕ) (t : Table)
      → HasWalks bs t k (b.value + n)
      → HasWalks bs (pass k b.value n t) k b.value
  unfolding pass
  pass-HasWalks zero t h =
      let e : b.value + 0 ≡ b.value = omega arith in subst (HasWalks bs t k) e h
  pass-HasWalks (suc n) t h =
      pass-HasWalks n (visit k b.value (b.value + n) t) (visit-HasWalks n t h)

-- Every cell that is set has a walk through bundles before `k`.
abbrev pub HasAllWalks : List Bundle → Table → ℕ → Type 0
HasAllWalks bs t k = (c : ℕ) → IsSetAt t c → (used : List Bundle) × Walk bs t k c used

start-HasAllWalks : (bs : List Bundle) → HasAllWalks bs start 0
unfolding start write
start-HasAllWalks bs c h = ([], ground arith)

pub drop-cons :
    (bs rest : List Bundle) (k : ℕ) (b : Bundle)
    → drop k bs ≡ b ∷ rest
    → (get_elem? bs k ≡ some b) × (drop (suc k) bs ≡ rest)
drop-cons [] rest zero b e = cc
drop-cons [] rest (suc k) b e = cc
drop-cons (a ∷ bs) rest zero b e = (cc, cc)
drop-cons (a ∷ bs) rest (suc k) b e = drop-cons bs rest k b e

fill-HasAllWalks :
    (amount k : ℕ) (bs rest : List Bundle) (t : Table)
    → All (λ b. 0 < b.value) rest
    → drop k bs ≡ rest
    → HasAllWalks bs t k
    → HasAllWalks bs (fill amount k rest t) (k + length rest)
unfolding fill
fill-HasAllWalks amount k bs [] t pos e h c set =
    let (used, w) = h c set in (used, Walk-mono bs t k _ c used (omega arith) w)
fill-HasAllWalks amount k bs (b ∷ rest) t (pos, poss) e h c set =
    let (at, next) = drop-cons bs rest k b e in
    let n = suc amount - b.value in
    let before : HasWalks bs t k (b.value + n) =
      λ c set. let (used, w) = h c set in (used, Walk-mono bs t k _ c used (ground arith) w) in
    let after : HasAllWalks bs (pass k b.value n t) (suc k) = λ c set.
      let (used, w) = pass-HasWalks bs k b at pos n t before c set in
      (used, Walk-mono bs _ _ (suc k) c used (ground arith) w) in
    let (used, w) =
      fill-HasAllWalks amount (suc k) bs rest (pass k b.value n t) poss next after c set in
    (used, Walk-mono bs _ _ _ c used (omega arith) w)

-- After the loops, every cell that is set has a walk.
pub fill_walks :
    (amount : ℕ) (bs : List Bundle)
    → All (λ b. 0 < b.value) bs
    → HasAllWalks bs (fill amount 0 bs start) (length bs)
fill_walks amount bs pos c set =
    let (used, w) = fill-HasAllWalks amount 0 bs bs start pos refl (start-HasAllWalks bs) c set in
    (used, Walk-mono bs _ _ _ c used (omega arith) w)
