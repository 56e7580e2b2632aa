-- ===== src/Cash/Spend.antt =====
-- What the walk back of `allocateCash` adds up: the amount, and no bundle twice.
use cashblocks.Prelude.{
  ℕ, zero, suc, ◌+◌, ◌*◌, ◌≤◌, ◌<◌, ◌≡◌, refl, inl, inr, some, List, [], ◌∷◌, arith, ◌==◌,
  if◌then◌else◌, All, All-get_elem?, get_elem?, take, length, sym, ap, ◌∙◌,
}
use cashblocks.Cash.{Table, Bundle, collect}
use cashblocks.Cash.Record.{Counts, count_or, increase, total, count_or-increase, total-increase}
use cashblocks.Cash.Bundles.{SubsetSum}
use cashblocks.Cash.Walk.{Walk}

-- The record that the walk back builds.
unfoldable pub spend : Counts → List Bundle → Counts
spend allocation [] = allocation
spend allocation (b ∷ used) = spend (increase allocation b.denomination b.count) used

-- The notes of one denomination among some bundles.
unfoldable pub units : ℕ → List Bundle → ℕ
units d [] = 0
units d (b ∷ bs) = (if b.denomination == d then b.count else 0) + units d bs

unfoldable pub sum_of : List Bundle → ℕ
sum_of [] = 0
sum_of (b ∷ bs) = b.denomination * b.count + sum_of bs

pub count_or-spend :
    (c : Counts) (used : List Bundle) (d : ℕ)
    → count_or (spend c used) d 0 ≡ count_or c d 0 + units d used
unfolding spend units
count_or-spend c [] d = omega arith
count_or-spend c (b ∷ used) d = ground (
  arith,
  count_or-spend (increase c b.denomination b.count) used d,
  count_or-increase c b.denomination b.count d 0,
)

pub total-spend : (c : Counts) (used : List Bundle) → total (spend c used) ≡ total c + sum_of used
unfolding spend sum_of
total-spend c [] = omega arith
total-spend c (b ∷ used) = omega (
  arith,
  total-spend (increase c b.denomination b.count) used,
  total-increase c b.denomination b.count,
)

-- What the bundles of a list have in common.
abbrev pub IsBundle : Bundle → Type 0
IsBundle b = (0 < b.value) × (b.value ≡ b.denomination * b.count)

abbrev pub AreBundles : List Bundle → Type 0
AreBundles = All IsBundle

collect-step :
    (bs : List Bundle) (t : Table) (fuel c i p : ℕ) (b : Bundle) (allocation : Counts)
    → t.selected (suc c) ≡ some i
    → get_elem? bs i ≡ some b
    → t.previous (suc c) ≡ some p
    → collect (suc fuel) bs t (suc c) allocation
      ≡ collect fuel bs t p (increase allocation b.denomination b.count)
unfolding collect
collect-step bs t fuel c i p b allocation sel at prev = ground arith

-- With the amount as fuel the walk back comes to its end.
pub collect-Walk :
    (bs : List Bundle) (t : Table) (fuel k c : ℕ) (used : List Bundle) (allocation : Counts)
    → AreBundles bs
    → c ≤ fuel
    → Walk bs t k c used
    → collect fuel bs t c allocation ≡ some (spend allocation used)
unfolding collect spend
collect-Walk bs t fuel k c [] allocation are fits w = rw w
collect-Walk bs t fuel k zero (b ∷ used) allocation are fits (i, p, lt, sel, at, prev, sum, rest) =
    let (pos, _) = All-get_elem? IsBundle bs i are at in absurd (omega arith)
collect-Walk bs t zero k (suc c) (b ∷ used) allocation are fits w = absurd (omega arith)
collect-Walk bs t (suc fuel) k (suc c) (b ∷ used) allocation are fits
      (i, p, lt, sel, at, prev, sum, rest) =
    let (pos, _) = All-get_elem? IsBundle bs i are at in
    collect-step bs t fuel c i p b allocation sel at prev
    ∙ collect-Walk bs t fuel i p used (increase allocation b.denomination b.count) are (omega arith)
        rest

pub Walk-sum_of :
    (bs : List Bundle) (t : Table) (k c : ℕ) (used : List Bundle)
    → AreBundles bs
    → Walk bs t k c used
    → sum_of used ≡ c
unfolding sum_of
Walk-sum_of bs t k c [] are w = sym w
Walk-sum_of bs t k c (b ∷ used) are (i, p, lt, sel, at, prev, sum, rest) =
    let (_, e) = All-get_elem? IsBundle bs i are at in
    omega (arith, Walk-sum_of bs t i p used are rest)

units-take :
    (d i k : ℕ) (b : Bundle) (bs : List Bundle)
    → get_elem? bs i ≡ some b
    → i < k
    → (if b.denomination == d then b.count else 0) + units d (take i bs) ≤ units d (take k bs)
unfolding units
units-take d i zero b bs at lt = absurd (omega arith)
units-take d i (suc k) b [] at lt = cc
units-take d zero (suc k) b (a ∷ bs) at lt = ground arith
units-take d (suc i) (suc k) b (a ∷ bs) at lt =
    omega (arith, units-take d i k b bs at (omega arith))

-- A walk spends no bundle twice.
pub Walk-units :
    (d : ℕ) (bs : List Bundle) (t : Table) (k c : ℕ) (used : List Bundle)
    → Walk bs t k c used
    → units d used ≤ units d (take k bs)
unfolding units
Walk-units d bs t k c [] w = omega arith
Walk-units d bs t k c (b ∷ used) (i, p, lt, sel, at, prev, sum, rest) =
    omega (arith, Walk-units d bs t i p used rest, units-take d i k b bs at lt)

pub take-length {ℓ} : {A : Type ℓ} (xs : List A) → take (length xs) xs ≡ xs
take-length [] = refl
take-length (x ∷ xs) = ap (λ l. x ∷ l) (take-length xs)

-- A walk is a sum of some of the bundles before `k`.
SubsetSum-zero_sum : (bs : List Bundle) → SubsetSum bs 0
SubsetSum-zero_sum [] = refl
SubsetSum-zero_sum (b ∷ bs) = inl (SubsetSum-zero_sum bs)

SubsetSum-take :
    (i k s : ℕ) (b : Bundle) (bs : List Bundle)
    → get_elem? bs i ≡ some b
    → i < k
    → SubsetSum (take i bs) s
    → SubsetSum (take k bs) (s + b.value)
SubsetSum-take i zero s b bs at lt h = absurd (omega arith)
SubsetSum-take i (suc k) s b [] at lt h = cc
SubsetSum-take zero (suc k) s b (a ∷ bs) at lt h =
    let e : a ≡ b = ground arith in rw e (inr (0, omega arith, SubsetSum-zero_sum (take k bs)))
SubsetSum-take (suc i) (suc k) s b (a ∷ bs) at lt (inl h) =
    inl (SubsetSum-take i k s b bs at (omega arith) h)
SubsetSum-take (suc i) (suc k) s b (a ∷ bs) at lt (inr (r, e, h)) =
    inr (r + b.value, omega arith, SubsetSum-take i k r b bs at (omega arith) h)

pub Walk-SubsetSum :
    (bs : List Bundle) (t : Table) (k c : ℕ) (used : List Bundle)
    → Walk bs t k c used
    → SubsetSum (take k bs) c
Walk-SubsetSum bs t k c [] w = rw w (SubsetSum-zero_sum (take k bs))
Walk-SubsetSum bs t k c (b ∷ used) (i, p, lt, sel, at, prev, sum, rest) =
    rw sum (SubsetSum-take i k p b bs at lt (Walk-SubsetSum bs t i p used rest))
