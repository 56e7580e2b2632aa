-- ===== src/Sessions/Tests.antt =====
-- A session that starts, asks for a PIN and is answered.
use cashblocks.Prelude.{◌≡◌, refl, subst, none, [], ◌∷◌}
use cashblocks.Prelude.Text.{lookup, insert}
use cashblocks.AtmModules.Customer.{pin_prompt}
use cashblocks.Sessions.{
  Manager, Session, start_session, prune_expired, prune, remove_completed, sweep, touch,
  new_session, ask, change_session, answer, AnswerStatus, is_valid_answer,
}
use cashblocks.Sessions.Keeps.{IsManaged}
use cashblocks.Sessions.Reach.{Step, fresh, next, starts, reachable-IsManaged}
use cashblocks.Sessions.Answers.{Answered, answer-Answered}

abbrev idle : Manager
idle = record { sessions = []; last_access = []; max_sessions = 2; session_ttl = 60; expired = [] }

abbrev started : Manager
started = record idle { sessions = ("s1", new_session) ∷ []; last_access = ("s1", 5) ∷ [] }

abbrev asks : Session → Session
asks s = record s { interaction = ask "p1" (pin_prompt "Enter PIN") s.interaction }

abbrev asking : Manager
asking = record started { sessions = ("s1", asks new_session) ∷ [] }

starts_up : start_session 5 "s1" idle ≡ (none, started)
unfolding start_session prune_expired prune remove_completed sweep touch insert
starts_up = refl

is_asked : change_session "s1" asks (lookup "s1" started.sessions) started ≡ asking
unfolding lookup insert
is_asked = refl

is_accepted : (answer 9 "s1" "p1" "1234" asking).0 ≡ AnswerStatus.accepted
unfolding answer prune_expired prune touch insert lookup is_valid_answer
is_accepted = refl

reachable-IsManaged_example : IsManaged started
reachable-IsManaged_example = reachable-IsManaged started (
    next idle started (fresh 2 60 idle refl)
      (subst (λ r. Step idle r.1) starts_up (starts 5 "s1" idle)))

answer-Answered_example :
    Answered "s1" "p1" "1234" (prune_expired 9 asking) (answer 9 "s1" "p1" "1234" asking)
answer-Answered_example = answer-Answered 9 "s1" "p1" "1234" asking
