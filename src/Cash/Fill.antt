-- ===== src/Cash/Fill.antt =====
-- What the in-place loops of `allocateCash` keep: a cell that is set is never written again.
use cashblocks.Prelude.{
  ℕ, zero, suc, ◌+◌, ◌-◌, ◌≤◌, ◌<◌, ◌≡◌, refl, inl, inr, some, List, [], ◌∷◌, true, arith, ◌==◌,
  Bool-cases,
}
use cashblocks.Cash.{Table, Bundle, is_set, visit, pass, fill, start}
use cashblocks.Cash.Bundles.{SubsetSum}

abbrev pub IsSetAt : Table → ℕ → Type 0
IsSetAt t c = is_set (t.previous c) ≡ true

module _ (index value current : ℕ) (t : Table) where
  pub previous-visit_keeps :
      (c p : ℕ) → t.previous c ≡ some p → (visit index value current t).previous c ≡ some p
  unfolding visit
  previous-visit_keeps c p h = ground arith

  pub selected-visit_keeps :
      (c p : ℕ) → t.previous c ≡ some p → (visit index value current t).selected c ≡ t.selected c
  unfolding visit
  selected-visit_keeps c p h = ground arith

  visit-IsSetAt_mono : (c : ℕ) → IsSetAt t c → IsSetAt (visit index value current t) c
  unfolding visit
  visit-IsSetAt_mono c h = ground arith

  -- A visit sets its cell if the cell that lies the bundle's value below is set.
  visit-IsSetAt : IsSetAt t (current - value) → IsSetAt (visit index value current t) current
  unfolding visit
  visit-IsSetAt h = ground arith

module _ (index value : ℕ) where
  pass-IsSetAt_mono : (n c : ℕ) (t : Table) → IsSetAt t c → IsSetAt (pass index value n t) c
  unfolding pass
  pass-IsSetAt_mono zero c t h = h
  pass-IsSetAt_mono (suc n) c t h =
      pass-IsSetAt_mono n c (visit index value (value + n) t)
        (visit-IsSetAt_mono index value (value + n) t c h)

  -- After a pass every cell in its range that one more bundle can reach is set.
  pass-IsSetAt :
      (n j : ℕ) (t : Table) → j < n → IsSetAt t j → IsSetAt (pass index value n t) (value + j)
  unfolding pass
  pass-IsSetAt zero j t lt h = absurd (omega arith)
  pass-IsSetAt (suc n) j t lt h = elim (Bool-cases (j == n)) [
    | inl same ↦
        let e : j ≡ n = ground arith in
        let back : value + n - value ≡ j = omega arith in
        rw e (
          pass-IsSetAt_mono n (value + n) (visit index value (value + n) t)
            (visit-IsSetAt index value (value + n) t (rw back h)))
    | inr other ↦
        pass-IsSetAt n j (visit index value (value + n) t) (ground arith)
          (visit-IsSetAt_mono index value (value + n) t j h)
  ]

-- Every sum of bundles within the amount is reached.
pub fill-IsSetAt :
    (amount index c s : ℕ) (bs : List Bundle) (t : Table)
    → IsSetAt t c
    → SubsetSum bs s
    → c + s ≤ amount
    → IsSetAt (fill amount index bs t) (c + s)
unfolding fill
fill-IsSetAt amount index c s [] t h none_left fits = let e : c + s ≡ c = omega arith in rw e h
fill-IsSetAt amount index c s (b ∷ bs) t h (inl skipped) fits =
    fill-IsSetAt amount (suc index) c s bs (pass index b.value (suc amount - b.value) t)
      (pass-IsSetAt_mono index b.value (suc amount - b.value) c t h) skipped fits
fill-IsSetAt amount index c s (b ∷ bs) t h (inr (r, e, rest)) fits =
    let moved : c + s ≡ b.value + c + r = omega arith in
    rw moved (
      fill-IsSetAt amount (suc index) (b.value + c) r bs
        (pass index b.value (suc amount - b.value) t)
        (pass-IsSetAt index b.value (suc amount - b.value) c t (omega arith) h) rest (omega arith))

pub start-IsSetAt : IsSetAt start 0
unfolding start
start-IsSetAt = refl
