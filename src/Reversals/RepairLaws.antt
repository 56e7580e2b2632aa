-- ===== src/Reversals/RepairLaws.antt =====
-- What `repairPartialTail` of packages/host-iso8583/src/reversal-store.ts leaves of a file.
use cashblocks.Prelude.{
  ℕ, ◌≡◌, refl, ◌∙◌, ap, sym, Bool, true, false, not, ◌&&◌, Option, List, [], ◌∷◌, ◌++◌, String,
  if◌then◌else◌, if_rule, ◌==◌, arith, append_assoc, append-nil, all,
}
use cashblocks.Contracts.{Json}
use cashblocks.Reversals.Messages.{is_nothing}
use cashblocks.Reversals.Repair.{complete_part, tail_part, is_event_value, repair_partial_tail}

nothing_is_nil : (cs : List ℕ) → is_nothing cs ≡ true → cs ≡ []
nothing_is_nil [] h = refl
nothing_is_nil (c ∷ cs) h = cc

complete_tail : (content : List ℕ) → complete_part content ++ tail_part content ≡ content
unfolding complete_part tail_part
complete_tail [] = refl
complete_tail (c ∷ cs) =
    if_rule (λ part. part ++ (if is_nothing part then c ∷ cs else tail_part cs) ≡ c ∷ cs)
      (is_nothing (complete_part cs) && not (c == 10)) [] (c ∷ complete_part cs) (λ e. refl)
      (λ e. ap (c ∷◌) (complete_tail cs))

complete_part_again :
    (content : List ℕ) → complete_part (complete_part content) ≡ complete_part content
unfolding complete_part
complete_part_again [] = refl
complete_part_again (c ∷ cs) = ground (arith, complete_part_again cs)

tail_complete : (content : List ℕ) → tail_part (complete_part content) ≡ []
unfolding complete_part tail_part
tail_complete [] = refl
tail_complete (c ∷ cs) =
    let same = complete_part_again cs in
    let rest = tail_complete cs in
    if_rule (λ part. tail_part part ≡ []) (is_nothing (complete_part cs) && not (c == 10)) []
      (c ∷ complete_part cs) (λ e. refl)
      (λ e.
        if_rule (λ out. out ≡ []) (is_nothing (complete_part (c ∷ complete_part cs))) _ _
          (λ f. absurd (
            still c (complete_part cs) (complete_part (complete_part cs)) (ap is_nothing same) e f))
          (λ f. rest))
  where
    still :
        (c : ℕ) (part again : List ℕ)
        → is_nothing again ≡ is_nothing part
        → (is_nothing part && not (c == 10)) ≡ false
        → is_nothing (if is_nothing again && not (c == 10) then [] else c ∷ again) ≡ true
        → ⊥
    still c part again same e f = ground (arith)

ended_is_something : (content : List ℕ) → is_nothing (complete_part (content ++ (10 ∷ []))) ≡ false
unfolding complete_part
ended_is_something [] = refl
ended_is_something (c ∷ cs) = ground (arith, ended_is_something cs)

tail-ended : (content : List ℕ) → tail_part (content ++ (10 ∷ [])) ≡ []
unfolding complete_part tail_part
tail-ended [] = refl
tail-ended (c ∷ cs) =
    if_rule (λ tail. tail ≡ []) (is_nothing (complete_part (c ∷ (cs ++ (10 ∷ []))))) _ _
      (λ e. let s = ended_is_something (c ∷ cs) in absurd (ground arith)) (λ e. tail-ended cs)

tail-repair_partial_tail :
    (parse_json : List ℕ → Option Json) (is_canonical : String → Bool) (content : List ℕ)
    → tail_part (repair_partial_tail parse_json is_canonical content) ≡ []
unfolding repair_partial_tail
tail-repair_partial_tail parse_json is_canonical content =
    if_rule (λ out. tail_part out ≡ []) (is_nothing (tail_part content)) content _
      (λ e. nothing_is_nil (tail_part content) e)
      (λ e.
        if_rule (λ out. tail_part out ≡ [])
          (is_event_value is_canonical (parse_json (tail_part content))) _ _
          (λ f. tail-ended content) (λ f. tail_complete content))

-- A text that is empty or ends with a line feed.
abbrev pub is_ended : List ℕ → Bool
is_ended [] = true
is_ended (c ∷ []) = c == 10
is_ended (c ∷ d ∷ cs) = is_ended (d ∷ cs)

complete_is_ended : (content : List ℕ) → is_ended (complete_part content) ≡ true
unfolding complete_part
complete_is_ended [] = refl
complete_is_ended (c ∷ cs) = put_first (complete_part cs) (complete_is_ended cs)
  where
    put_first :
        (rest : List ℕ)
        → is_ended rest ≡ true
        → is_ended (if is_nothing rest && not (c == 10) then [] else c ∷ rest) ≡ true
    put_first [] h = ground arith
    put_first (d ∷ ds) h = h

abbrev pub is_one_line : List ℕ → Bool
is_one_line content = all (λ c. not (c == 10)) content

no_complete_part :
    (content : List ℕ) → is_nothing (complete_part content) ≡ true → is_one_line content ≡ true
unfolding complete_part
no_complete_part [] h = refl
no_complete_part (c ∷ cs) h = ground (arith, no_complete_part cs)

tail_is_one_line : (content : List ℕ) → is_one_line (tail_part content) ≡ true
unfolding tail_part
tail_is_one_line [] = refl
tail_is_one_line (c ∷ cs) =
    if_rule (λ tail. is_one_line tail ≡ true) (is_nothing (complete_part (c ∷ cs))) (c ∷ cs)
      (tail_part cs) (no_complete_part (c ∷ cs)) (λ e. tail_is_one_line cs)

-- What a repair leaves, by the line behind the last line feed: without one the file stays, one that is an
-- event is ended, and one that is none is cut off.
abbrev pub Leaves : Bool → List ℕ → List ℕ → List ℕ → Type 0
Leaves is_event complete [] after = after ≡ complete
Leaves true complete (c ∷ cs) after = after ≡ complete ++ (c ∷ cs ++ (10 ∷ []))
Leaves false complete (c ∷ cs) after = after ≡ complete

-- What a repair of a file does. The file is a text of ended lines and one line without an end, which may
-- be empty.
pub record IsRepair (parse_json : List ℕ → Option Json) (is_canonical : String → Bool)
    (content after : List ℕ) : Type 0 where
  pub complete : List ℕ
  pub tail : List ℕ
  pub splits : content ≡ complete ++ tail
  pub ended : is_ended complete ≡ true
  pub unended : is_one_line tail ≡ true
  pub leaves : Leaves (is_event_value is_canonical (parse_json tail)) complete tail after
  pub settled : repair_partial_tail parse_json is_canonical after ≡ after

no_tail :
    (parse_json : List ℕ → Option Json) (is_canonical : String → Bool) (content : List ℕ)
    → tail_part content ≡ []
    → repair_partial_tail parse_json is_canonical content ≡ content
unfolding repair_partial_tail
no_tail parse_json is_canonical content h = rw h refl

repaired-Leaves :
    (is_event : Bool) (complete tail content : List ℕ)
    → complete ++ tail ≡ content
    → Leaves is_event complete tail
        (if is_nothing tail then content else if is_event then content ++ (10 ∷ []) else complete)
repaired-Leaves is_event complete [] content whole = sym whole ∙ append-nil complete
repaired-Leaves true complete (c ∷ cs) content whole =
    ap (◌++ (10 ∷ [])) (sym whole) ∙ append_assoc complete (c ∷ cs) (10 ∷ [])
repaired-Leaves false complete (c ∷ cs) content whole = refl

-- A file is a text of ended lines and a line behind them that has no end and may be empty. A repair keeps the
-- ended lines. It keeps the line behind them too, and ends it, where it is an event; where it is
-- none, the repair cuts it off. Without such a line the file stays as it is, and a second repair changes
-- nothing.
pub repair_partial_tail-IsRepair :
    (parse_json : List ℕ → Option Json) (is_canonical : String → Bool) (content : List ℕ)
    → IsRepair parse_json is_canonical content (repair_partial_tail parse_json is_canonical content)
unfolding repair_partial_tail
repair_partial_tail-IsRepair parse_json is_canonical content = record {
  complete = complete_part content;
  tail = tail_part content;
  splits = sym (complete_tail content);
  ended = complete_is_ended content;
  unended = tail_is_one_line content;
  leaves =
      repaired-Leaves (is_event_value is_canonical (parse_json (tail_part content)))
        (complete_part content) (tail_part content) content (complete_tail content);
  settled =
      no_tail parse_json is_canonical (repair_partial_tail parse_json is_canonical content)
        (tail-repair_partial_tail parse_json is_canonical content);
}
