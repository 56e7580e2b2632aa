-- ===== src/Sessions/Answers.antt =====
-- What `answer` of packages/terminal-session/src/index.ts does to a prompt.
use cashblocks.Prelude.{
  if_rule, ℕ, ◌≡◌, refl, sym, ap, ◌∙◌, Bool, true, false, not, Option, none, some, [], ◌∷◌, ◌++◌,
  String, str_eq, eq_iff, arith, subst, Option-cases, inl, inr,
}
use cashblocks.Prelude.Text.{lookup, lookup-insert}
use cashblocks.Sessions.Keeps.{some-injective}
use cashblocks.Sessions.{
  Manager, Session, PendingPrompt, Queue, answered, touch, put, prune_expired, AnswerStatus,
  accepted, stale, invalid, answer_prompt, answer_session, answer, is_valid_answer, answer_pending,
}

-- The prompt of that id waits in the session of that id.
pub record Pends (id prompt_id : String) (m : Manager) (s : Session) (p : PendingPrompt)
    : Type 0 where
  pub found : lookup id m.sessions ≡ some s
  pub waits : s.interaction.pending ≡ some p
  pub named : p.id ≡ prompt_id

-- How an answer to a prompt ends, by its status.
unfoldable pub Answered : String → String → String → Manager → AnswerStatus × Manager → Type 0
Answered id prompt_id value m (accepted, n) =
    (s : Session) × (p : PendingPrompt) × Pends id prompt_id m s p
    × (is_valid_answer p.prompt value ≡ true)
    × (lookup id n.sessions
        ≡ some (record s {
          interaction = record {
            pending = none;
            settled = s.interaction.settled ++ ((p.id, answered value) ∷ []);
          };
        }))
Answered id prompt_id value m (stale, n) =
    ((s : Session) (p : PendingPrompt) → ¬ Pends id prompt_id m s p) × (n.sessions ≡ m.sessions)
Answered id prompt_id value m (invalid, n) =
    (s : Session) × (p : PendingPrompt) × Pends id prompt_id m s p
    × (is_valid_answer p.prompt value ≡ false)
    × (n.sessions ≡ m.sessions)

lookup-put : (id : String) (s : Session) (m : Manager) → lookup id (put id s m).sessions ≡ some s
lookup-put id s m = lookup-insert id id s m.sessions ∙ ground (arith, eq_iff id id)

answers_pending :
    (p : PendingPrompt) (prompt_id value : String) (q : Queue)
    → p.id ≡ prompt_id
    → (answer_pending (some p) prompt_id value q).1
      ≡ record { pending = none; settled = q.settled ++ ((p.id, answered value) ∷ []) }
answers_pending p prompt_id value q named =
    if_rule
      (λ (r : Bool × Queue).
        r.1 ≡ record { pending = none; settled = q.settled ++ ((p.id, answered value) ∷ []) })
      (str_eq p.id prompt_id) _ _ (λ _. refl) (λ no. absurd (ground (arith, eq_iff p.id prompt_id)))

settles_prompt :
    (id prompt_id value : String) (s : Session) (p : PendingPrompt) (m n : Manager)
    → lookup id m.sessions ≡ some s
    → s.interaction.pending ≡ some p
    → n.sessions ≡ m.sessions
    → Answered id prompt_id value m (answer_prompt id s (some p) prompt_id value n)
unfolding Answered
settles_prompt id prompt_id value s p m n found waits same =
    if_rule (Answered id prompt_id value m) (not (str_eq p.id prompt_id)) (stale, n) _
      (λ other. (
        (λ s' p' pends.
            let same_session = some-injective s s' (sym found ∙ pends.found) in
            let same_prompt = some-injective p p' (
              sym waits ∙ ap (λ (s : Session). s.interaction.pending) same_session ∙ pends.waits) in
            let named : p.id ≡ prompt_id =
              ap (λ (p : PendingPrompt). p.id) same_prompt ∙ pends.named in
            absurd (ground (arith, eq_iff p.id prompt_id))),
        same,
      ))
      (λ matches.
        let named : p.id ≡ prompt_id = ground (arith, eq_iff p.id prompt_id) in
        let pends : Pends id prompt_id m s p = record {
          found = found;
          waits = waits;
          named = named;
        } in
        if_rule (Answered id prompt_id value m) (not (is_valid_answer p.prompt value)) (invalid, n)
          _ (λ wrong. (s, p, pends, ground arith, same))
          (λ right. (
            s,
            p,
            pends,
            ground arith,
            lookup-put id _ n
                ∙ ap (λ q. some (record s { interaction = q }))
                    (answers_pending p prompt_id value s.interaction named),
          )))

answer_session-Answered :
    (now : ℕ) (id prompt_id value : String) (m : Manager) (found : Option Session)
    → lookup id m.sessions ≡ found
    → Answered id prompt_id value m (answer_session now id found prompt_id value m)
unfolding Answered touch
answer_session-Answered now id prompt_id value m none at =
    ((λ s p pends. let clash : none ≡ some s = sym at ∙ pends.found in cc), refl)
answer_session-Answered now id prompt_id value m (some s) at =
    elim (Option-cases s.interaction.pending) [
      | inl idle ↦
          subst
            (λ pending.
              Answered id prompt_id value m
                (answer_prompt id s pending prompt_id value (touch id now m)))
            (sym idle)
            (
              (λ s' p' pends.
                  let same_session = some-injective s s' (sym at ∙ pends.found) in
                  let clash : none ≡ some p' =
                    sym idle
                    ∙ ap (λ (s : Session). s.interaction.pending) same_session
                    ∙ pends.waits in
                  cc),
              refl,
            )
      | inr (p, waits) ↦
          subst
            (λ pending.
              Answered id prompt_id value m
                (answer_prompt id s pending prompt_id value (touch id now m)))
            (sym waits) (settles_prompt id prompt_id value s p m (touch id now m) at waits refl)
    ]

-- All is said of the sessions that are left once pruneExpired has removed those that have expired. An
-- answer is accepted only where its prompt waits in its session and takes the value: then the prompt has
-- been answered with it, and waits no more. It is invalid where the prompt waits and does not take the
-- value, and stale where no such prompt waits, and in both cases it changes none of the sessions
-- that were left.
pub answer-Answered :
    (now : ℕ) (id prompt_id value : String) (m : Manager)
    → Answered id prompt_id value (prune_expired now m) (answer now id prompt_id value m)
unfolding answer
answer-Answered now id prompt_id value m =
    answer_session-Answered now id prompt_id value (prune_expired now m) _ refl
