-- ===== src/Profile/Laws.antt =====
-- What a profile that passed `defineSimulatorProfile` satisfies.
use cashblocks.Prelude.{
  ℕ, ◌≤◌, ◌<◌, ◌≡◌, ◌≢◌, refl, Bool, true, false, not, ◌&&◌, List, [], ◌∷◌, ltb, length, any, All,
  arith,
}
use cashblocks.Prelude.Int.{ℤ, pos, negsuc}
use cashblocks.Prelude.Result.{ok, >>=-eq-ok, throw_if-eq-ok, ok-injective}
use cashblocks.Prelude.Text.{is_blank}
use cashblocks.Cash.{max_safe_integer, max_transaction_amount, max_cash_unit_count}
use cashblocks.Cash.Record.{Counts, total, has_key}
use cashblocks.Cash.Limits.{AreDistinct}
use cashblocks.Cash.Laws.{ArePositive}
use cashblocks.Profile.{
  RawProfile, Profile, Field, Key, id_required, currency_required, not_dispensable,
  count_out_of_range, missing_denomination, not_recyclable, dispense_field, accept_field,
  max_dispense_field, max_deposit_field, numeral, other_number, not_canonical, contains, magnitude,
  is_unique, magnitudes, is_positive_safe, is_empty, validate_denominations,
  validate_positive_amount, is_bad_count, check_inventory, check_covered, inventory_total,
  define_profile, max_denomination_count,
}

pub record AreDenominations (ds : List ℕ) : Type 0 where
  pub positive : ArePositive ds
  pub distinct : AreDistinct ds
  pub nonempty : 0 < length ds
  pub few : length ds ≤ max_denomination_count

pub record IsValid (p : Profile) : Type 0 where
  pub named : is_blank p.id ≡ false
  pub priced : is_blank p.currency_code ≡ false
  pub dispense : AreDenominations p.cash_management.dispense_denominations
  pub accept : AreDenominations p.cash_management.accept_denominations
  pub dispense_limit :
      (0 < p.cash_management.max_dispense_amount)
      × (p.cash_management.max_dispense_amount ≤ max_transaction_amount)
  pub deposit_limit :
      (0 < p.cash_management.max_deposit_amount)
      × (p.cash_management.max_deposit_amount ≤ max_transaction_amount)
  pub listed :
      All
        (λ e.
          (contains p.cash_management.dispense_denominations e.0 ≡ true)
          × (e.1 ≤ max_cash_unit_count))
        p.cash_management.initial_inventory
  pub covered :
      All
        (λ d. has_key p.cash_management.initial_inventory d ≡ true)
        p.cash_management.dispense_denominations
  pub recyclable :
      p.cash_management.recycle_deposits ≡ true
      → All
          (λ d. contains p.cash_management.dispense_denominations d ≡ true)
          p.cash_management.accept_denominations
  pub safe_total : total p.cash_management.initial_inventory ≤ max_safe_integer

magnitudes-positive :
    (xs : List ℤ) → any (λ d. not (is_positive_safe d)) xs ≡ false → ArePositive (magnitudes xs)
magnitudes-positive [] h = tt
magnitudes-positive (pos n ∷ xs) h = (ground arith, magnitudes-positive xs (ground arith))
magnitudes-positive (negsuc n ∷ xs) h = cc

length-magnitudes : (xs : List ℤ) → length (magnitudes xs) ≡ length xs
length-magnitudes [] = refl
length-magnitudes (x ∷ xs) = omega (arith, length-magnitudes xs)

pub absent_of_contains : (ds : List ℕ) (d : ℕ) → contains ds d ≡ false → All (λ e. d ≢ e) ds
absent_of_contains [] d h = tt
absent_of_contains (e ∷ ds) d h = (ground arith, absent_of_contains ds d (ground arith))

distinct_of_is_unique : (ds : List ℕ) → is_unique ds ≡ true → AreDistinct ds
unfolding is_unique
distinct_of_is_unique [] h = tt
distinct_of_is_unique (d ∷ ds) h =
    (absent_of_contains ds d (ground arith), distinct_of_is_unique ds (ground arith))

validate_denominations_cases :
    (xs : List ℤ) (field : Field) (ds : List ℕ)
    → validate_denominations xs field ≡ ok ds
    → (is_empty xs ≡ false)
      × (ltb max_denomination_count (length xs) ≡ false)
      × (any (λ d. not (is_positive_safe d)) xs ≡ false)
      × (is_unique (magnitudes xs) ≡ true)
      × (magnitudes xs ≡ ds)
unfolding validate_denominations
validate_denominations_cases xs field ds h = ground arith

validate_denominations_sound :
    (xs : List ℤ) (field : Field) (ds : List ℕ)
    → validate_denominations xs field ≡ ok ds
    → AreDenominations ds
validate_denominations_sound [] field ds h = cc ((validate_denominations_cases [] field ds h).0)
validate_denominations_sound (x ∷ xs) field ds h =
    let (nonempty, few, positive, unique, e) = validate_denominations_cases (x ∷ xs) field ds h in
    rw (← e) (record {
      positive = magnitudes-positive (x ∷ xs) positive;
      distinct = distinct_of_is_unique (magnitudes (x ∷ xs)) unique;
      nonempty = omega arith;
      few = ground (arith, length-magnitudes xs);
    })

validate_positive_amount_sound :
    (x : ℤ) (field : Field) (n : ℕ)
    → validate_positive_amount x field ≡ ok n
    → (0 < n) × (n ≤ max_transaction_amount)
unfolding validate_positive_amount
validate_positive_amount_sound (pos m) field n h = ground arith
validate_positive_amount_sound (negsuc m) field n h = cc

check_inventory_sound :
    (ds : List ℕ) (raw : List (Key × ℤ)) (inventory : Counts)
    → check_inventory ds raw ≡ ok inventory
    → All (λ e. (contains ds e.0 ≡ true) × (e.1 ≤ max_cash_unit_count)) inventory
unfolding check_inventory
check_inventory_sound ds [] inventory h = let e : inventory ≡ [] = cc in rw e tt
check_inventory_sound ds ((not_canonical s, n) ∷ raw) inventory h = cc
check_inventory_sound ds ((other_number s, n) ∷ raw) inventory h = cc
check_inventory_sound ds ((numeral d, n) ∷ raw) inventory h =
    let (listed, h₁) = throw_if-eq-ok (not (contains ds d)) (not_dispensable (numeral d)) _ h in
    let (good, h₂) = throw_if-eq-ok (is_bad_count n) (count_out_of_range (numeral d)) _ h₁ in
    let (checked, h₃, h₄) =
      >>=-eq-ok (check_inventory ds raw) (λ x. ok ((d, magnitude n) ∷ x)) h₂ in
    let e = ok-injective ((d, magnitude n) ∷ checked) inventory h₄ in
    rw (← e) ((ground arith, small n good), check_inventory_sound ds raw checked h₃)
  where
    small : (n : ℤ) → is_bad_count n ≡ false → magnitude n ≤ max_cash_unit_count
    small (pos m) h = ground arith
    small (negsuc m) h = cc

check_covered_sound :
    (inventory : Counts) (ds : List ℕ)
    → check_covered inventory ds ≡ ok tt
    → All (λ d. has_key inventory d ≡ true) ds
unfolding check_covered
check_covered_sound inventory [] h = tt
check_covered_sound inventory (d ∷ ds) h =
    let (here, rest) = throw_if-eq-ok (not (has_key inventory d)) (missing_denomination d) _ h in
    (not_false here, check_covered_sound inventory ds rest)
  where
    not_false : not (has_key inventory d) ≡ false → has_key inventory d ≡ true
    not_false e = ground arith

contained_of_any :
    (ds accept : List ℕ)
    → any (λ d. not (contains ds d)) accept ≡ false
    → All (λ d. contains ds d ≡ true) accept
contained_of_any ds [] h = tt
contained_of_any ds (d ∷ accept) h = (ground arith, contained_of_any ds accept (ground arith))

only_if : (on found : Bool) → on ≡ true → (on && found) ≡ false → found ≡ false
only_if on found h e = ground arith

inventory_total_sound :
    (inventory : Counts) (n : ℕ)
    → inventory_total inventory ≡ ok n
    → total inventory ≤ max_safe_integer
unfolding inventory_total
inventory_total_sound inventory n h = ground arith

-- Every profile that `defineSimulatorProfile` returns is valid, and keeps the identity, the currency,
-- the capabilities and the recycling of the profile that was given.
pub define_profile_sound :
    (raw : RawProfile) (p : Profile)
    → define_profile raw ≡ ok p
    → IsValid p
      × (p.id ≡ raw.id)
      × (p.currency_code ≡ raw.currency_code)
      × (p.capabilities ≡ raw.capabilities)
      × (p.cash_management.recycle_deposits ≡ raw.cash_management.recycle_deposits)
unfolding define_profile
define_profile_sound raw p h =
    let cash = raw.cash_management in
    let (named, h₁) = throw_if-eq-ok (is_blank raw.id) id_required _ h in
    let (priced, h₂) = throw_if-eq-ok (is_blank raw.currency_code) currency_required _ h₁ in
    let (ds, hd, h₃) =
      >>=-eq-ok (validate_denominations cash.dispense_denominations dispense_field) _ h₂ in
    let (accept, ha, h₄) =
      >>=-eq-ok (validate_denominations cash.accept_denominations accept_field) _ h₃ in
    let (max_dispense, hmd, h₅) =
      >>=-eq-ok (validate_positive_amount cash.max_dispense_amount max_dispense_field) _ h₄ in
    let (max_deposit, hma, h₆) =
      >>=-eq-ok (validate_positive_amount cash.max_deposit_amount max_deposit_field) _ h₅ in
    let (inventory, hi, h₇) = >>=-eq-ok (check_inventory ds cash.initial_inventory) _ h₆ in
    let (unit, hc, h₈) = >>=-eq-ok (check_covered inventory ds) _ h₇ in
    let (recycled, h₉) =
      throw_if-eq-ok (cash.recycle_deposits && any (λ d. not (contains ds d)) accept) not_recyclable
        _ h₈ in
    let (worth, hw, h₁₀) = >>=-eq-ok (inventory_total inventory) _ h₉ in
    let e = ok-injective _ p h₁₀ in
    rw (← e) (
      record {
        named = named;
        priced = priced;
        dispense = validate_denominations_sound cash.dispense_denominations dispense_field ds hd;
        accept = validate_denominations_sound cash.accept_denominations accept_field accept ha;
        dispense_limit =
            validate_positive_amount_sound cash.max_dispense_amount max_dispense_field max_dispense
              hmd;
        deposit_limit =
            validate_positive_amount_sound cash.max_deposit_amount max_deposit_field max_deposit
              hma;
        listed = check_inventory_sound ds cash.initial_inventory inventory hi;
        covered = check_covered_sound inventory ds hc;
        recyclable = λ on. contained_of_any ds accept (only_if _ _ on recycled);
        safe_total = inventory_total_sound inventory worth hw;
      },
      refl,
      refl,
      refl,
      refl,
    )
