-- ===== src/Iso8583/Slices.antt =====
-- `slice` of a text that is put together from parts.
use cashblocks.Prelude.{ℕ, ◌+◌, ◌-◌, ◌≡◌, ◌++◌, length, arith, take-append, drop-append}
use cashblocks.Iso8583.{Text, slice}

-- The middle part, by its offset and its length.
pub slice-middle :
    (before middle after : Text) (n : ℕ)
    → n ≡ length middle
    → slice (before ++ (middle ++ after)) (length before) (length before + n) ≡ middle
unfolding slice
slice-middle before middle after n e =
    let size : length before + n - length before ≡ length middle = omega arith in
    rw (size, drop-append) (take-append middle after)
