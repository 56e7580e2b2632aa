-- ===== src/Simulator/Fresh.antt =====
-- The constructor of the simulator builds a sound state.
use cashblocks.Prelude.{◌≤◌, ◌≡◌, subst, true, false, not, ◌&&◌, arith, Option-cases, inl, inr}
use cashblocks.Prelude.Int.{ℤ, pos, negsuc}
use cashblocks.Prelude.Result.{ok, >>=-eq-ok, throw_if-eq-ok, ok-injective}
use cashblocks.Cash.{max_safe_integer, is_set}
use cashblocks.Profile.{RawProfile, Profile, magnitude, define_profile}
use cashblocks.Profile.Laws.{IsValid, define_profile_sound}
use cashblocks.Simulator.{Simulator, get_or, bad_terminal_cash, profile_with_terminal_cash}
use cashblocks.Simulator.Build.{
  Options, new_simulator, define, default_profile, is_non_negative_safe, fresh, initial_units,
  initial_cash,
}
use cashblocks.Simulator.Held.{IsHeld, IsSound, initial-IsHeld}

define-eq : (raw : RawProfile) (p : Profile) → define raw ≡ ok p → define_profile raw ≡ ok p
define-eq raw p h = ground arith

fresh-IsHeld :
    (options : Options) (p : Profile)
    → IsValid p
    → not (is_set options.terminal_cash) ≡ true
    → IsHeld p (initial_units options p) (magnitude (initial_cash options p))
fresh-IsHeld options p valid finite = elim (Option-cases options.terminal_cash) [
  | inl none_given ↦ rw none_given (initial-IsHeld p valid)
  | inr (cash, given) ↦ cc
]

fresh-IsSound :
    (options : Options) (p : Profile)
    → IsValid p
    → not (is_non_negative_safe (initial_cash options p)) ≡ false
    → IsSound (fresh options p)
unfolding fresh
fresh-IsSound options p valid safe = record {
  valid = valid;
  safe = small (initial_cash options p) safe;
  held = fresh-IsHeld options p valid;
}
  where
    small : (x : ℤ) → not (is_non_negative_safe x) ≡ false → magnitude x ≤ max_safe_integer
    small (pos n) h = ground arith
    small (negsuc n) h = cc

-- A simulator that the constructor returns is in a sound state.
pub new_simulator-IsSound :
    (options : Options) (s : Simulator) → new_simulator options ≡ ok s → IsSound s
unfolding new_simulator
new_simulator-IsSound options s h =
    let (apart, h₁) =
      throw_if-eq-ok (is_set options.profile && is_set options.terminal_cash)
        profile_with_terminal_cash _ h in
    let raw = get_or default_profile options.profile in
    let (p, hp, h₂) = >>=-eq-ok (define raw) _ h₁ in
    let valid = (define_profile_sound raw p (define-eq raw p hp)).0 in
    let (safe, h₃) =
      throw_if-eq-ok (not (is_non_negative_safe (initial_cash options p))) bad_terminal_cash _ h₂ in
    subst IsSound (ok-injective (fresh options p) s h₃) (fresh-IsSound options p valid safe)
