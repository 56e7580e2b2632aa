-- ===== src/Sessions/Reach.antt =====
-- The states that the sessions of packages/terminal-session/src/index.ts can reach.
use cashblocks.Prelude.{if_rule, ℕ, ◌≡◌, refl, subst, ◌&&◌, Option, some, String, arith}
use cashblocks.Prelude.Text.{lookup}
use cashblocks.Cash.{is_set}
use cashblocks.Sessions.{
  Manager, Session, new_manager, remove_session, prune_expired, start_session, answer, get, state,
  end_state, size, change_session, is_option,
}
use cashblocks.Sessions.Keeps.{
  IsManaged, some-injective, remove_session-IsManaged, cleared-IsManaged, pruned-IsManaged,
  admit-IsManaged, answer_session-IsManaged, state-IsManaged, touch_if-IsManaged,
  change_session-IsManaged,
}

-- A call of the manager, one that throws included, or something that a flow does to its session.
pub data Step : Manager → Manager → Type 0 where
  starts : (now : ℕ) (id : String) (m : Manager) → Step m (start_session now id m).1
  answers :
      (now : ℕ) (id prompt_id value : String) (m : Manager)
      → Step m (answer now id prompt_id value m).1
  gets : (now : ℕ) (id : String) (m : Manager) → Step m (get now id m).1
  states : (now : ℕ) (id : String) (m : Manager) → Step m (state now id m).1
  ends_state : (id : String) (s : Session) (m : Manager) → Step m (end_state id s m)
  sizes : (now : ℕ) (m : Manager) → Step m (size now m).1
  flows :
      (id : String) (change : Session → Session) (m : Manager)
      → Step m (change_session id change (lookup id m.sessions) m)

pub data Reachable : Manager → Type 0 where
  fresh :
      (max_sessions session_ttl : ℕ) (m : Manager)
      → new_manager max_sessions session_ttl ≡ some m
      → Reachable m
  next : (m n : Manager) → Reachable m → Step m n → Reachable n

Step-IsManaged : (m n : Manager) → IsManaged m → Step m n → IsManaged n
unfolding start_session answer get size
Step-IsManaged _ _ h (starts now id m) = admit-IsManaged now id _ (cleared-IsManaged now m h)
Step-IsManaged _ _ h (answers now id prompt_id value m) =
    answer_session-IsManaged now id _ prompt_id value (prune_expired now m) refl
      (pruned-IsManaged now m h)
Step-IsManaged _ _ h (gets now id m) =
    touch_if-IsManaged _ id now (prune_expired now m) refl (pruned-IsManaged now m h)
Step-IsManaged _ _ h (states now id m) = state-IsManaged now id m h
Step-IsManaged _ _ h (ends_state id s m) =
    if_rule IsManaged (is_set s.result) (remove_session id m) m
      (λ _. remove_session-IsManaged id m h) (λ _. h)
Step-IsManaged _ _ h (sizes now m) = cleared-IsManaged now m h
Step-IsManaged _ _ h (flows id change m) = change_session-IsManaged id change _ m refl h

-- However its calls and the flows of its sessions interleave, a manager has a time of last access for
-- exactly its sessions, and never more sessions than its maximum.
pub reachable-IsManaged : (m : Manager) → Reachable m → IsManaged m
reachable-IsManaged _ (fresh max_sessions session_ttl m e) =
    if_rule (λ (o : Option Manager). o ≡ some m → IsManaged m)
      (is_option max_sessions && is_option session_ttl) _ _
      (λ _ made.
        subst IsManaged (some-injective _ m made) (record { paired = refl; bounded = omega arith }))
      (λ _ refused. cc) e
reachable-IsManaged _ (next m n r s) = Step-IsManaged m n (reachable-IsManaged m r) s
