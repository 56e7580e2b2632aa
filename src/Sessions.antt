-- ===== src/Sessions.antt =====
-- TerminalSessionManager of packages/terminal-session/src/index.ts, over QueuedCustomerInteraction of
-- packages/runtime-core/src/index.ts. A flow runs beside the manager: it asks its prompts and ends by
-- steps of its own, and the id of a session and of a prompt are given. The cap of the integers on
-- `maxSessions` and `sessionTtlMs` is checked by the constructor.
pub mod Keys
pub mod Keeps
pub mod Reach
pub mod Answers
mod Tests
use cashblocks.Prelude.{
  ℕ, ◌+◌, Bool, true, false, not, ◌&&◌, ◌||◌, Option, none, some, List, [], ◌∷◌, ◌++◌, String,
  str_eq, str_append, if◌then◌else◌, leb, ◌==◌, length, all,
}
use cashblocks.Prelude.Int.{ℤ, pos, negsuc}
use cashblocks.Prelude.Text.{codes, lookup, insert, remove}
use cashblocks.Prelude.Result.{Result, ok, err}
use cashblocks.Cash.{is_set, max_safe_integer}
use cashblocks.Iso8583.{is_digit, parse_number}
use cashblocks.Simulator.{includes}
use cashblocks.AtmModules.Customer.{
  CustomerPrompt, pin_prompt, transaction_prompt, account_prompt, amount_prompt, option_prompt,
}

-- `PendingCustomerPrompt`
pub record PendingPrompt : Type 0 where
  pub id : String
  pub prompt : CustomerPrompt

-- How the promise of a prompt settles.
pub data PromptResult : Type 0 where
  answered : String → PromptResult
  cancelled : String → PromptResult

-- `QueuedCustomerInteraction`, with the promises that it settled.
pub record Queue : Type 0 where
  pub pending : Option PendingPrompt
  pub settled : List (String × PromptResult)

abbrev pub empty_queue : Queue
empty_queue = record { pending = none; settled = [] }

-- `request`
abbrev pub ask : String → CustomerPrompt → Queue → Queue
ask id prompt q = record q { pending = some (record { id = id; prompt = prompt }) }

-- `answer`
abbrev pub answer_pending : Option PendingPrompt → String → String → Queue → Bool × Queue
answer_pending none id value q = (false, q)
answer_pending (some p) id value q =
    if str_eq p.id id
    then (true, record { pending = none; settled = q.settled ++ (p.id, answered value) ∷ [] })
    else (false, q)

-- `cancelPending`
abbrev pub cancel_prompt : Option PendingPrompt → String → Queue → Queue
cancel_prompt none reason q = q
cancel_prompt (some p) reason q = record {
  pending = none;
  settled = q.settled ++ (p.id, cancelled reason) ∷ [];
}

-- `InteractiveSession`; the result is whether the flow that ended was ok.
pub record Session : Type 0 where
  pub interaction : Queue
  pub result : Option Bool

-- The fields of the manager, with the sessions that expired.
pub record Manager : Type 0 where
  pub sessions : List (String × Session)
  pub last_access : List (String × ℕ)
  pub max_sessions : ℕ
  pub session_ttl : ℕ
  pub expired : List (String × Session)

pub data SessionError : Type 0 where
  capacity_reached : ℕ → SessionError
  session_expired : SessionError

abbrev pub is_option : ℕ → Bool
is_option n = leb 1 n && leb n max_safe_integer

abbrev pub new_manager : ℕ → ℕ → Option Manager
new_manager max_sessions session_ttl =
    if is_option max_sessions && is_option session_ttl
    then some (record {
      sessions = [];
      last_access = [];
      max_sessions = max_sessions;
      session_ttl = session_ttl;
      expired = [];
    })
    else none

-- The private `remove`.
unfoldable pub remove_session : String → Manager → Manager
remove_session id m = record m {
  sessions = remove id m.sessions;
  last_access = remove id m.last_access;
}

unfoldable pub touch : String → ℕ → Manager → Manager
touch id now m = record m { last_access = insert id now m.last_access }

abbrev pub put : String → Session → Manager → Manager
put id s m = record m { sessions = insert id s m.sessions }

abbrev pub expiry : String → String
expiry id = str_append "Interactive session " (str_append id " has expired.")

abbrev pub cancel_session : String → Option Session → Manager → Manager
cancel_session id none m = m
cancel_session id (some s) m = record m {
  expired =
      m.expired
      ++ (
        id,
        record s { interaction = cancel_prompt s.interaction.pending (expiry id) s.interaction },
      )
        ∷ [];
}

abbrev pub expire : String → Manager → Manager
expire id m = remove_session id (cancel_session id (lookup id m.sessions) m)

-- The loop of `pruneExpired`.
unfoldable pub prune : ℕ → List (String × ℕ) → Manager → Manager
unfolding remove_session
prune now [] m = m
prune now ((id, accessed) ∷ rest) m =
    prune now rest (if leb (accessed + m.session_ttl) now then expire id m else m)

unfoldable pub prune_expired : ℕ → Manager → Manager
unfolding prune
prune_expired now m = prune now m.last_access m

-- The loop of `removeCompleted`.
unfoldable pub sweep : List (String × Session) → Manager → Manager
unfolding remove_session
sweep [] m = m
sweep ((id, s) ∷ rest) m = sweep rest (if is_set s.result then remove_session id m else m)

unfoldable pub remove_completed : Manager → Manager
unfolding sweep
remove_completed m = sweep m.sessions m

abbrev pub new_session : Session
new_session = record { interaction = empty_queue; result = none }

abbrev pub admit : ℕ → String → Manager → Option SessionError × Manager
admit now id m =
    if leb m.max_sessions (length m.sessions)
    then (some (capacity_reached m.max_sessions), m)
    else (none, touch id now (put id new_session m))

-- `start`: what it throws, and the manager, in which expired and completed sessions are gone either way.
unfoldable pub start_session : ℕ → String → Manager → Option SessionError × Manager
unfolding prune_expired remove_completed touch
start_session now id m = admit now id (remove_completed (prune_expired now m))

pub data AnswerStatus : Type 0 where
  accepted stale invalid : AnswerStatus

abbrev pub starts_amount : List ℕ → Bool
starts_amount [] = false
starts_amount (c ∷ cs) = leb b'1' c && is_digit c

abbrev pub includes_amount : ℕ → List ℤ → Bool
includes_amount n [] = false
includes_amount n (pos m ∷ presets) = m == n || includes_amount n presets
includes_amount n (negsuc m ∷ presets) = includes_amount n presets

-- `isValidPromptAnswer`
unfoldable pub is_valid_answer : CustomerPrompt → String → Bool
unfolding includes
is_valid_answer (pin_prompt text) value = length (codes value) == 4 && all is_digit (codes value)
is_valid_answer (transaction_prompt text options) value = includes options value
is_valid_answer (account_prompt text options) value = includes options value
is_valid_answer (option_prompt screen text options) value = includes options value
is_valid_answer (amount_prompt text currency presets allow_custom) value =
    let amount = parse_number 0 (codes value) in
    starts_amount (codes value)
    && (all is_digit (codes value)
        && (leb amount max_safe_integer && (allow_custom || includes_amount amount presets)))

abbrev pub answer_prompt :
    String → Session → Option PendingPrompt → String → String → Manager → AnswerStatus × Manager
answer_prompt id s none prompt_id value m = (stale, m)
answer_prompt id s (some p) prompt_id value m =
    if not (str_eq p.id prompt_id)
    then (stale, m)
    else if not (is_valid_answer p.prompt value)
    then (invalid, m)
    else (
      accepted,
      put id (record s { interaction = (answer_pending (some p) prompt_id value s.interaction).1 })
          m,
    )

abbrev pub answer_session :
    ℕ → String → Option Session → String → String → Manager → AnswerStatus × Manager
answer_session now id none prompt_id value m = (stale, m)
answer_session now id (some s) prompt_id value m =
    answer_prompt id s s.interaction.pending prompt_id value (touch id now m)

-- `answer`
unfoldable pub answer : ℕ → String → String → String → Manager → AnswerStatus × Manager
unfolding prune_expired touch is_valid_answer
answer now id prompt_id value m =
    let m = prune_expired now m in answer_session now id (lookup id m.sessions) prompt_id value m

abbrev pub touch_if : Option Session → String → ℕ → Manager → Manager
touch_if none id now m = m
touch_if (some s) id now m = touch id now m

-- `get`
unfoldable pub get : ℕ → String → Manager → Option Session × Manager
unfolding prune_expired touch
get now id m =
    let m = prune_expired now m in (lookup id m.sessions, touch_if (lookup id m.sessions) id now m)

-- `state`, up to its wait: what it throws, and the manager, in which expired sessions are gone either
-- way.
unfoldable pub state : ℕ → String → Manager → Option SessionError × Manager
unfolding prune_expired touch
state now id m =
    let m = prune_expired now m in
    if is_set (lookup id m.sessions) then (none, touch id now m) else (some session_expired, m)

-- The end of `state`, for the session that it was called with.
abbrev pub end_state : String → Session → Manager → Manager
end_state id s m = if is_set s.result then remove_session id m else m

-- `size`
unfoldable pub size : ℕ → Manager → ℕ × Manager
unfolding prune_expired remove_completed
size now m = let m = remove_completed (prune_expired now m) in (length m.sessions, m)

-- What a flow does to the session that it runs for.
abbrev pub change_session : String → (Session → Session) → Option Session → Manager → Manager
change_session id change none m = m
change_session id change (some s) m = put id (change s) m
