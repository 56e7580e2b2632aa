-- ===== src/Cash/Bundles.antt =====
-- The bundles of `allocateCash`: sizes 1, 2, 4, … and a rest represent every smaller count.
use cashblocks.Prelude.{
  ℕ, zero, suc, ◌+◌, ◌-◌, ◌*◌, ◌/◌, ◌≤◌, ◌<◌, ◌≡◌, refl, ◌⊎◌, inl, inr, Option, List, [], ◌∷◌, ◌++◌,
  arith, All, min, Bool-cases, leb, leb→le,
}
use cashblocks.Cash.{Bundle, split, available, bundles_of}
use cashblocks.Cash.Record.{Counts}

-- `s` is the sum of the values of some of the bundles, each taken at most once.
abbrev pub SubsetSum : List Bundle → ℕ → Type 0
SubsetSum [] s = s ≡ 0
SubsetSum (b ∷ bs) s = SubsetSum bs s ⊎ ((r : ℕ) × (s ≡ b.value + r) × SubsetSum bs r)

-- `s` is paid by units of the denominations, of each at most as many as are available.
abbrev pub Pays : Option Counts → List ℕ → ℕ → Type 0
Pays inventory [] s = s ≡ 0
Pays inventory (d ∷ ds) s =
    (n : ℕ) × (r : ℕ) × (n ≤ available inventory d) × (s ≡ d * n + r) × Pays inventory ds r

pub SubsetSum-append :
    (xs ys : List Bundle) (s r : ℕ) → SubsetSum xs s → SubsetSum ys r → SubsetSum (xs ++ ys) (s + r)
SubsetSum-append [] ys s r h k = let e : s + r ≡ r = omega arith in ground (arith)
SubsetSum-append (b ∷ xs) ys s r (inl h) k = inl (SubsetSum-append xs ys s r h k)
SubsetSum-append (b ∷ xs) ys s r (inr (q, e, h)) k =
    inr (q + r, omega arith, SubsetSum-append xs ys q r h k)

pub SubsetSum-of_append :
    (xs ys : List Bundle) (s : ℕ)
    → SubsetSum (xs ++ ys) s
    → (p : ℕ) × (q : ℕ) × (s ≡ p + q) × SubsetSum xs p × SubsetSum ys q
SubsetSum-of_append [] ys s h = (0, s, omega arith, refl, h)
SubsetSum-of_append (b ∷ xs) ys s (inl h) =
    let (p, q, e, hp, hq) = SubsetSum-of_append xs ys s h in (p, q, e, inl hp, hq)
SubsetSum-of_append (b ∷ xs) ys s (inr (r, same, h)) =
    let (p, q, e, hp, hq) = SubsetSum-of_append xs ys r h in
    (b.value + p, q, omega arith, inr (p, refl, hp), hq)

SubsetSum-zero : (d : ℕ) (bs : List Bundle) → SubsetSum bs (d * 0)
SubsetSum-zero d [] = omega arith
SubsetSum-zero d (b ∷ bs) = inl (SubsetSum-zero d bs)

-- With bundles of 1 to `size / 2` already there, every count below `size + r` is a rest below `size`
-- and a sum of the bundles that `split` adds.
split_complete :
    (d fuel r size c : ℕ)
    → r ≤ fuel
    → 0 < size
    → c < size + r
    → (x : ℕ) × (y : ℕ) × (x < size) × (c ≡ x + y) × SubsetSum (split d fuel r size) (d * y)
unfolding split
split_complete d zero r size c hr hs hc = (c, 0, omega arith, omega arith, omega arith)
split_complete d (suc fuel) zero size c hr hs hc = (c, 0, omega arith, omega arith, omega arith)
split_complete d (suc fuel) (suc r) size c hr hs hc = elim (Bool-cases (leb size (suc r))) [
  | inl fits ↦
      let fits' = leb→le _ _ fits in
      let (x, y, hx, e, h) =
        split_complete d fuel (suc r - min size (suc r)) (size * 2) c (omega arith) (omega arith)
          (omega arith) in
      elim (Bool-cases (leb size x)) [
        | inl high ↦
            let high' = leb→le _ _ high in
            (x - size, y + size, omega arith, omega arith, inr (d * y, grind arith, h))
        | inr low ↦ (x, y, ground arith, e, inl h)
      ]
  | inr short ↦
      let short' : suc r < size = ground arith in
      elim (Bool-cases (leb size c)) [
        | inl high ↦
            let high' = leb→le _ _ high in
            (
              c - suc r,
              suc r,
              omega arith,
              omega arith,
              inr (d * 0, short_value short', SubsetSum-zero d _),
            )
        | inr low ↦ (c, 0, ground arith, omega arith, inl (SubsetSum-zero d _))
      ]
]
  where
    short_value : suc r < size → d * suc r ≡ d * min size (suc r) + d * 0
    short_value h = let e : min size (suc r) ≡ suc r = omega arith in rw e (omega arith)

-- Whatever some bundles of `split` add up to is a number of units, at most `r` of them.
split_sound :
    (d fuel r size s : ℕ) → SubsetSum (split d fuel r size) s → (n : ℕ) × (n ≤ r) × (s ≡ d * n)
unfolding split
split_sound d zero r size s h = (0, omega arith, omega arith)
split_sound d (suc fuel) zero size s h = (0, omega arith, omega arith)
split_sound d (suc fuel) (suc r) size s (inl h) =
    let (n, le, e) = split_sound d fuel (suc r - min size (suc r)) (size * 2) s h in
    (n, omega arith, e)
split_sound d (suc fuel) (suc r) size s (inr (q, same, h)) =
    let (n, le, e) = split_sound d fuel (suc r - min size (suc r)) (size * 2) q h in
    (n + min size (suc r), omega arith, grind arith)

le-div : (d n amount : ℕ) → 0 < d → d * n ≤ amount → n ≤ amount / d
le-div d n amount pos h = grind arith

-- What can be paid is a sum of bundles, where no count exceeds what the amount has room for.
pub bundles_complete :
    (amount s : ℕ) (inventory : Option Counts) (ds : List ℕ)
    → All (λ d. 0 < d) ds
    → s ≤ amount
    → Pays inventory ds s
    → SubsetSum (bundles_of amount inventory ds) s
unfolding bundles_of
bundles_complete amount s inventory [] _ _ h = h
bundles_complete amount s inventory (d ∷ ds) (pos, poss) fits (n, r, enough, e, h) =
    let m = min (amount / d) (available inventory d) in
    let room : n ≤ amount / d = le-div d n amount pos (omega arith) in
    let (x, y, hx, split_n, part) =
      split_complete d m m 1 n (omega arith) (omega arith) (omega arith) in
    let same : y ≡ n = omega arith in
    rw e (
      SubsetSum-append (split d m m 1) (bundles_of amount inventory ds) (d * n) r (rw same at part)
        (bundles_complete amount r inventory ds poss (omega arith) h))

pub bundles_sound :
    (amount s : ℕ) (inventory : Option Counts) (ds : List ℕ)
    → SubsetSum (bundles_of amount inventory ds) s
    → Pays inventory ds s
unfolding bundles_of
bundles_sound amount s inventory [] h = h
bundles_sound amount s inventory (d ∷ ds) h =
    let m = min (amount / d) (available inventory d) in
    let (p, q, e, hp, hq) = SubsetSum-of_append (split d m m 1) _ s h in
    let (n, le, same) = split_sound d m m 1 p hp in
    (n, q, omega arith, omega arith, bundles_sound amount q inventory ds hq)
