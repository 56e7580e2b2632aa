-- ===== src/Reversals/Redaction.antt =====
-- What `boundedError` of packages/host-iso8583/src/reversal-store.ts lets through.
use cashblocks.Prelude.{
  ℕ, zero, suc, ◌-◌, ◌≡◌, ◌≤◌, refl, true, false, ◌&&◌, ◌||◌, List, [], ◌∷◌, if_rule, leb, ltb,
  length, take, take_le, all, arith,
}
use cashblocks.Prelude.Text.{is_space}
use cashblocks.Reversals.Messages.{
  leading_digits, most_digits, redact, starts_broken, join_lines, is_nothing, cut_start, cut_end,
  bounded_error, is_bad_message, has_card,
}

lead_redact : (message : List ℕ) → leading_digits (redact 0 message) ≤ leading_digits message
unfolding leading_digits redact
lead_redact [] = omega arith
lead_redact (c ∷ cs) =
    if_rule (λ out. leading_digits out ≤ leading_digits (c ∷ cs))
      (leb 12 (most_digits (leading_digits (c ∷ cs)))) _ _ (λ e. omega arith)
      (λ e. ground (arith, lead_redact cs))

redact_free : (skip : ℕ) (message : List ℕ) → has_card (redact skip message) ≡ false
unfolding leading_digits redact
redact_free zero [] = refl
redact_free (suc skip) [] = refl
redact_free (suc skip) (c ∷ cs) = redact_free skip cs
redact_free zero (c ∷ cs) =
    if_rule (λ out. has_card out ≡ false) (leb 12 (most_digits (leading_digits (c ∷ cs)))) _ _
      (λ e. redact_free (most_digits (leading_digits (c ∷ cs)) - 1) cs)
      (λ e. let l = lead_redact cs in let r = redact_free 0 cs in ground arith)

broken_lead :
    (message : List ℕ) → starts_broken message ≡ true → leading_digits (join_lines message) ≡ 0
unfolding leading_digits join_lines
broken_lead [] h = refl
broken_lead (c ∷ cs) h = ground (arith, broken_lead cs)

lead_join : (message : List ℕ) → leading_digits (join_lines message) ≤ leading_digits message
unfolding leading_digits join_lines
lead_join [] = omega arith
lead_join (c ∷ cs) = ground (arith, lead_join cs, broken_lead cs)

join_free : (message : List ℕ) → has_card message ≡ false → has_card (join_lines message) ≡ false
unfolding leading_digits join_lines
join_free [] h = refl
join_free (c ∷ cs) h = ground (arith, join_free cs, lead_join cs)

cut_start_free :
    (message : List ℕ) → has_card message ≡ false → has_card (cut_start message) ≡ false
unfolding cut_start
cut_start_free [] h = refl
cut_start_free (c ∷ cs) h =
    if_rule (λ out. has_card out ≡ false) (is_space c) _ _ (λ e. cut_start_free cs (ground arith))
      (λ e. h)

lead_cut : (message : List ℕ) → leading_digits (cut_end message) ≤ leading_digits message
unfolding leading_digits cut_end
lead_cut [] = omega arith
lead_cut (c ∷ cs) = ground (arith, lead_cut cs)

cut_end_free : (message : List ℕ) → has_card message ≡ false → has_card (cut_end message) ≡ false
unfolding leading_digits cut_end
cut_end_free [] h = refl
cut_end_free (c ∷ cs) h = ground (arith, cut_end_free cs, lead_cut cs)

lead_take : (n : ℕ) (message : List ℕ) → leading_digits (take n message) ≤ leading_digits message
unfolding leading_digits
lead_take zero message = omega arith
lead_take (suc n) [] = omega arith
lead_take (suc n) (c ∷ cs) = ground (arith, lead_take n cs)

take_free :
    (n : ℕ) (message : List ℕ) → has_card message ≡ false → has_card (take n message) ≡ false
unfolding leading_digits
take_free zero message h = refl
take_free (suc n) [] h = refl
take_free (suc n) (c ∷ cs) h = ground (arith, take_free n cs, lead_take n cs)

-- What is left of a message never has twelve digits in a row, whatever the message holds.
bounded_error-has_card : (message : List ℕ) → has_card (bounded_error message) ≡ false
unfolding bounded_error leading_digits
bounded_error-has_card message =
    let joined = join_free (redact 0 message) (redact_free 0 message) in
    let cut =
      cut_end_free (cut_start (join_lines (redact 0 message)))
        (cut_start_free (join_lines (redact 0 message)) joined) in
    let taken = take_free 500 (cut_end (cut_start (join_lines (redact 0 message)))) cut in
    if_rule (λ out. has_card out ≡ false)
      (is_nothing (take 500 (cut_end (cut_start (join_lines (redact 0 message)))))) _ _ (λ e. refl)
      (λ e. taken)

-- A text that is cut at both ends is nothing, or not blank.
cut_blank :
    (n : ℕ) (message : List ℕ)
    → is_nothing (take (suc n) (cut_end (cut_start message))) ≡ false
    → all is_space (take (suc n) (cut_end (cut_start message))) ≡ false
unfolding cut_start cut_end
cut_blank n [] h = cc
cut_blank n (c ∷ cs) h =
    if_rule
      (λ rest.
        is_nothing (take (suc n) (cut_end rest)) ≡ false
        → all is_space (take (suc n) (cut_end rest)) ≡ false)
      (is_space c) (cut_start cs) (c ∷ cs) (λ e. cut_blank n cs)
      (λ e.
        if_rule
          (λ out. is_nothing (take (suc n) out) ≡ false → all is_space (take (suc n) out) ≡ false)
          (is_space c && is_nothing (cut_end cs)) [] (c ∷ cut_end cs) (λ f k. cc)
          (λ f k. ground arith))
      h

-- What is left of a message is never what markFailed refuses: it is not blank, and no longer than 500.
bounded_error_accepted : (message : List ℕ) → is_bad_message (bounded_error message) ≡ false
unfolding bounded_error is_bad_message
bounded_error_accepted message =
    let cut = cut_end (cut_start (join_lines (redact 0 message))) in
    if_rule (λ out. (all is_space out || ltb 500 (length out)) ≡ false) (is_nothing (take 500 cut))
      _ _ (λ e. refl)
      (λ e. ground (arith, cut_blank 499 (join_lines (redact 0 message)) e, take_le 500 cut))

-- Whatever a message holds, what is recorded of it never has twelve digits in a row, as a card's number
-- has, and is never what markFailed refuses: it is not blank, and no longer than 500.
pub bounded_error_safe :
    (message : List ℕ)
    → (has_card (bounded_error message) ≡ false) × (is_bad_message (bounded_error message) ≡ false)
bounded_error_safe message = (bounded_error-has_card message, bounded_error_accepted message)
