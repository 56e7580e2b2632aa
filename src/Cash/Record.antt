-- ===== src/Cash/Record.antt =====
-- `Record<string, number>` of counts, keyed by denomination: reads with a default, additions, totals.
use cashblocks.Prelude.{
  ℕ, ◌+◌, ◌*◌, ◌≡◌, refl, Bool, true, false, ◌||◌, List, [], ◌∷◌, ◌==◌, if◌then◌else◌, arith,
  Bool-cases, inl, inr,
}

abbrev pub Counts : Type 0
Counts = List (ℕ × ℕ)

-- record[key] ?? fallback
unfoldable pub count_or : Counts → ℕ → ℕ → ℕ
count_or [] key fallback = fallback
count_or ((k, n) ∷ rest) key fallback = if k == key then n else count_or rest key fallback

abbrev pub count_of : Counts → ℕ → ℕ
unfolding count_or
count_of counts key = count_or counts key 0

-- record[key] = n
unfoldable pub assign : Counts → ℕ → ℕ → Counts
assign [] key n = (key, n) ∷ []
assign ((k, m) ∷ rest) key n = if k == key then (k, n) ∷ rest else (k, m) ∷ assign rest key n

-- record[key] = (record[key] ?? 0) + n
unfoldable pub increase : Counts → ℕ → ℕ → Counts
unfolding assign count_or
increase counts key n = assign counts key (count_or counts key 0 + n)

-- `String(key) in record`
unfoldable pub has_key : Counts → ℕ → Bool
has_key [] d = false
has_key ((k, n) ∷ rest) d = k == d || has_key rest d

-- The sum of denomination times count, over all entries.
unfoldable pub total : Counts → ℕ
total [] = 0
total ((k, n) ∷ rest) = k * n + total rest

pub count_or-assign :
    (c : Counts) (key n j z : ℕ)
    → count_or (assign c key n) j z ≡ (if key == j then n else count_or c j z)
unfolding count_or assign
count_or-assign [] key n j z = refl
count_or-assign ((k, m) ∷ rest) key n j z = ground (arith, count_or-assign rest key n j z)

pub count_or-increase :
    (c : Counts) (key n j z : ℕ)
    → count_or (increase c key n) j z ≡ (if key == j then count_or c key 0 + n else count_or c j z)
unfolding increase
count_or-increase c key n j z = count_or-assign c key (count_or c key 0 + n) j z

-- The only entry that an assignment changes is the first with its key.
pub total-assign :
    (c : Counts) (key n : ℕ) → total (assign c key n) + key * count_or c key 0 ≡ total c + key * n
unfolding count_or assign total
total-assign [] key n = grind arith
total-assign ((k, m) ∷ rest) key n = grind (arith, total-assign rest key n)

pub total-increase : (c : Counts) (key n : ℕ) → total (increase c key n) ≡ total c + key * n
unfolding increase
total-increase c key n = omega (arith, total-assign c key (count_or c key 0 + n))

pub has_key-assign :
    (c : Counts) (key n j : ℕ) → has_key (assign c key n) j ≡ (key == j || has_key c j)
unfolding has_key assign
has_key-assign [] key n j = ground arith
has_key-assign ((k, m) ∷ rest) key n j = ground (arith, has_key-assign rest key n j)

-- A key that is present makes the fallback irrelevant, and an absent one reads as the fallback.
pub count_or_of_key :
    (c : Counts) (j y z : ℕ) → has_key c j ≡ true → count_or c j y ≡ count_or c j z
unfolding has_key count_or
count_or_of_key [] j y z h = cc
count_or_of_key ((k, m) ∷ rest) j y z h = ground (arith, count_or_of_key rest j y z)

pub count_or_of_absent : (c : Counts) (j z : ℕ) → has_key c j ≡ false → count_or c j z ≡ z
unfolding has_key count_or
count_or_of_absent [] j z h = refl
count_or_of_absent ((k, m) ∷ rest) j z h = ground (arith, count_or_of_absent rest j z)

-- No key stands twice.
abbrev pub HasDistinctKeys : Counts → Type 0
HasDistinctKeys [] = Unit
HasDistinctKeys ((k, n) ∷ rest) = (has_key rest k ≡ false) × HasDistinctKeys rest

pub assign-HasDistinctKeys :
    (c : Counts) (key n : ℕ) → HasDistinctKeys c → HasDistinctKeys (assign c key n)
unfolding assign has_key
assign-HasDistinctKeys [] key n h = (refl, tt)
assign-HasDistinctKeys ((k, m) ∷ rest) key n (absent, h) = elim (Bool-cases (k == key)) [
  | inl same ↦ rw same (absent, h)
  | inr other ↦
      rw other (ground (arith, has_key-assign rest key n k), assign-HasDistinctKeys rest key n h)
]
