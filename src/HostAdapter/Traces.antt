-- ===== src/HostAdapter/Traces.antt =====
-- The trace numbers that one counter hands out.
use cashblocks.Prelude.{ℕ, zero, suc, ◌+◌, ◌%◌, ◌≤◌, ◌<◌, ◌≡◌, ◌≢◌, arith}
use cashblocks.HostAdapter.{next_trace}

-- The number that is handed out as the k-th, counted from 0, by a counter at `last`.
unfoldable pub drawn : ℕ → ℕ → ℕ
drawn zero last = next_trace last
drawn (suc k) last = next_trace (drawn k last)

drawn_value : (k last : ℕ) → drawn k last ≡ (last + k) % 999999 + 1
unfolding drawn next_trace
drawn_value zero last = omega arith
drawn_value (suc k) last = omega (arith, drawn_value k last)

-- A counter hands out numbers from 1 to 999999, whatever it starts from, and 999999 of them in a row
-- all differ.
pub drawn_cycle :
    (i j last : ℕ)
    → i < j
    → j < i + 999999
    → (1 ≤ drawn i last) × (drawn i last ≤ 999999) × (drawn i last ≢ drawn j last)
drawn_cycle i j last before near =
    let a = drawn_value i last in
    let b = drawn_value j last in (omega arith, omega arith, λ same. omega arith)
