-- ===== src/Sessions/Keeps.antt =====
-- What the operations of packages/terminal-session/src/index.ts keep of the manager's maps.
use cashblocks.Prelude.{
  if_rule, ℕ, ◌+◌, ◌≡◌, ◌≤◌, sym, ◌∙◌, ap, not, Option, none, some, List, [], ◌∷◌, String, str_eq,
  leb, length, arith, Option-cases, inl, inr,
}
use cashblocks.Prelude.Text.{lookup, insert, remove}
use cashblocks.Cash.{is_set}
use cashblocks.Sessions.{
  SessionError, Manager, Session, PendingPrompt, remove_session, touch, put, cancel_session, expire,
  prune, prune_expired, sweep, remove_completed, new_session, admit, answer_prompt, answer_session,
  touch_if, state, change_session, is_valid_answer, AnswerStatus, stale, invalid,
}
use cashblocks.Sessions.Keys.{
  keys, with_key, without_key, length-keys, keys-insert, keys-remove, with_key-present,
  length-with_key, length-without_key,
}

-- The two maps have the same keys, and no more than the manager takes.
pub record IsManaged (m : Manager) : Type 0 where
  pub paired : keys m.sessions ≡ keys m.last_access
  pub bounded : length m.sessions ≤ m.max_sessions

pub some-injective : {A : Type 0} (a b : A) → some a ≡ some b → a ≡ b
some-injective a b h = cc

pub remove_session-IsManaged :
    (id : String) (m : Manager) → IsManaged m → IsManaged (remove_session id m)
unfolding remove_session
remove_session-IsManaged id m h =
    let removed = keys-remove id m.sessions in
    let less : length (keys (remove id m.sessions)) ≤ length (keys m.sessions) =
      rw removed (length-without_key id (keys m.sessions)) in
    let before = length-keys m.sessions in
    let after = length-keys (remove id m.sessions) in
    let bounded = h.bounded in
    record {
      paired = removed ∙ ap (without_key id) h.paired ∙ sym (keys-remove id m.last_access);
      bounded = omega arith;
    }

pub touch-IsManaged :
    (id : String) (now : ℕ) (m : Manager) (s : Session)
    → lookup id m.sessions ≡ some s
    → IsManaged m
    → IsManaged (touch id now m)
unfolding touch
touch-IsManaged id now m s found h = record {
  paired =
      sym (with_key-present id s m.sessions found)
      ∙ ap (with_key id) h.paired
      ∙ sym (keys-insert id now m.last_access);
  bounded = h.bounded;
}

pub put-IsManaged :
    (id : String) (m : Manager) (s s' : Session)
    → lookup id m.sessions ≡ some s
    → IsManaged m
    → IsManaged (put id s' m)
put-IsManaged id m s s' found h =
    let same : keys (insert id s' m.sessions) ≡ keys m.sessions =
      keys-insert id s' m.sessions ∙ with_key-present id s m.sessions found in
    let bounded = h.bounded in
    let before = length-keys m.sessions in
    let after = length-keys (insert id s' m.sessions) in
    let equal = ap length same in record { paired = same ∙ h.paired; bounded = omega arith }

pub cancel_session-IsManaged :
    (id : String) (found : Option Session) (m : Manager)
    → IsManaged m
    → IsManaged (cancel_session id found m)
cancel_session-IsManaged id none m h = h
cancel_session-IsManaged id (some s) m h = record { paired = h.paired; bounded = h.bounded }

pub prune-IsManaged :
    (now : ℕ) (entries : List (String × ℕ)) (m : Manager)
    → IsManaged m
    → IsManaged (prune now entries m)
unfolding prune
prune-IsManaged now [] m h = h
prune-IsManaged now ((id, accessed) ∷ rest) m h = prune-IsManaged now rest _ (
    if_rule IsManaged (leb (accessed + m.session_ttl) now) (expire id m) m
      (λ _. remove_session-IsManaged id _ (cancel_session-IsManaged id (lookup id m.sessions) m h))
      (λ _. h))

pub sweep-IsManaged :
    (entries : List (String × Session)) (m : Manager) → IsManaged m → IsManaged (sweep entries m)
unfolding sweep
sweep-IsManaged [] m h = h
sweep-IsManaged ((id, s) ∷ rest) m h = sweep-IsManaged rest _ (
    if_rule IsManaged (is_set s.result) (remove_session id m) m
      (λ _. remove_session-IsManaged id m h) (λ _. h))

pub cleared-IsManaged :
    (now : ℕ) (m : Manager) → IsManaged m → IsManaged (remove_completed (prune_expired now m))
unfolding prune_expired remove_completed
cleared-IsManaged now m h =
    sweep-IsManaged (prune_expired now m).sessions (prune_expired now m)
      (prune-IsManaged now m.last_access m h)

pub pruned-IsManaged : (now : ℕ) (m : Manager) → IsManaged m → IsManaged (prune_expired now m)
unfolding prune_expired
pruned-IsManaged now m h = prune-IsManaged now m.last_access m h

pub admit-IsManaged :
    (now : ℕ) (id : String) (m : Manager) → IsManaged m → IsManaged (admit now id m).1
unfolding touch
admit-IsManaged now id m h =
    if_rule (λ (r : Option SessionError × Manager). IsManaged r.1)
      (leb m.max_sessions (length m.sessions)) _ _ (λ full. h)
      (λ free.
        let added = keys-insert id new_session m.sessions in
        let before = length-keys m.sessions in
        let after = length-keys (insert id new_session m.sessions) in
        let grown = length-with_key id (keys m.sessions) in
        let equal = ap length added in
        record {
          paired = added ∙ ap (with_key id) h.paired ∙ sym (keys-insert id now m.last_access);
          bounded = ground arith;
        })

pub answer_prompt-IsManaged :
    (id : String) (s : Session) (pending : Option PendingPrompt) (prompt_id value : String)
    (m : Manager)
    → lookup id m.sessions ≡ some s
    → IsManaged m
    → IsManaged (answer_prompt id s pending prompt_id value m).1
answer_prompt-IsManaged id s none prompt_id value m at h = h
answer_prompt-IsManaged id s (some p) prompt_id value m at h =
    if_rule (λ (r : AnswerStatus × Manager). IsManaged r.1) (not (str_eq p.id prompt_id)) (stale, m)
      _ (λ _. h)
      (λ _.
        if_rule (λ (r : AnswerStatus × Manager). IsManaged r.1)
          (not (is_valid_answer p.prompt value)) (invalid, m) _ (λ _. h)
          (λ _. put-IsManaged id m s _ at h))

pub answer_session-IsManaged :
    (now : ℕ) (id : String) (found : Option Session) (prompt_id value : String) (m : Manager)
    → lookup id m.sessions ≡ found
    → IsManaged m
    → IsManaged (answer_session now id found prompt_id value m).1
unfolding touch
answer_session-IsManaged now id none prompt_id value m at h = h
answer_session-IsManaged now id (some s) prompt_id value m at h =
    answer_prompt-IsManaged id s s.interaction.pending prompt_id value (touch id now m) at
      (touch-IsManaged id now m s at h)

pub state-IsManaged :
    (now : ℕ) (id : String) (m : Manager) → IsManaged m → IsManaged (state now id m).1
unfolding state
state-IsManaged now id m h =
    let kept = pruned-IsManaged now m h in
    elim (Option-cases (lookup id (prune_expired now m).sessions)) [
      | inl missing ↦
          if_rule (λ (r : Option SessionError × Manager). IsManaged r.1)
            (is_set (lookup id (prune_expired now m).sessions)) _ _
            (λ yes. let no = ap is_set missing in cc) (λ _. kept)
      | inr (s, found) ↦
          if_rule (λ (r : Option SessionError × Manager). IsManaged r.1)
            (is_set (lookup id (prune_expired now m).sessions)) _ _
            (λ _. touch-IsManaged id now (prune_expired now m) s found kept) (λ _. kept)
    ]

pub touch_if-IsManaged :
    (found : Option Session) (id : String) (now : ℕ) (m : Manager)
    → lookup id m.sessions ≡ found
    → IsManaged m
    → IsManaged (touch_if found id now m)
touch_if-IsManaged none id now m at h = h
touch_if-IsManaged (some s) id now m at h = touch-IsManaged id now m s at h

pub change_session-IsManaged :
    (id : String) (change : Session → Session) (found : Option Session) (m : Manager)
    → lookup id m.sessions ≡ found
    → IsManaged m
    → IsManaged (change_session id change found m)
change_session-IsManaged id change none m at h = h
change_session-IsManaged id change (some s) m at h = put-IsManaged id m s (change s) at h
