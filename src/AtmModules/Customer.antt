-- ===== src/AtmModules/Customer.antt =====
-- CustomerModule of packages/atm-modules/src/index.ts, and SimulatorCustomerInteraction of
-- packages/runtime-core/src/index.ts. `Number(answer.value)` is the argument `to_number`, with none for
-- what is not finite; amounts are taken to be whole.
use cashblocks.Prelude.{
  ℕ, Bool, true, false, ◌&&◌, Option, some, List, [], ◌∷◌, String, if◌then◌else◌, ltb, length, ◌==◌,
}
use cashblocks.Prelude.Int.{ℤ, pos}
use cashblocks.Prelude.Text.{codes, is_space}
use cashblocks.Prelude.Exec.{Exec, return, throw, updates, ◌>>=◌, ◌>>◌}
use cashblocks.Prelude.Result.{Result, ok}
use cashblocks.Contracts.{
  text, num, Payload, AdapterResult, EventType, Source, from_module, from_ui, transaction_failed,
  ui_prompt, ui_input_received, transaction_selected, transaction_detail_recorded,
}
use cashblocks.Simulator.{
  Simulator, shift_or, includes, next_pin, next_transaction, next_account, next_amount, next_option,
}
use cashblocks.Validation.{card_reader}
use cashblocks.Terminal.{Terminal, record_event}
use cashblocks.AtmModules.Calls.{Adapters, call_adapter, adapter_timeout_result}
use cashblocks.AtmModules.Withdrawal.{amount_text}

-- `CustomerPrompt`
pub data CustomerPrompt : Type 0 where
  pin_prompt : String → CustomerPrompt
  transaction_prompt : String → List String → CustomerPrompt
  account_prompt : String → List String → CustomerPrompt
  amount_prompt : String → String → List ℤ → Bool → CustomerPrompt
  option_prompt : String → String → List String → CustomerPrompt

-- `CustomerInteraction`: the answer's value, or the message of a rejection.
abbrev pub Interaction : Type 0
Interaction = CustomerPrompt → Simulator → Result String String × Simulator

abbrev pub first_of : List String → String
first_of options = (shift_or "" options).0

abbrev pub one_of : List String → String → String
one_of options selected = if includes options selected then selected else first_of options

abbrev pub answer : String × Simulator → Result String String × Simulator
answer (value, s) = (ok value, s)

-- SimulatorCustomerInteraction.request
unfoldable pub simulated_interaction : Interaction
unfolding includes next_pin next_transaction next_account next_amount next_option
simulated_interaction (pin_prompt prompt) s = answer (next_pin s)
simulated_interaction (transaction_prompt prompt options) s =
    answer (one_of options (next_transaction s).0, (next_transaction s).1)
simulated_interaction (account_prompt prompt options) s = answer (next_account options s)
simulated_interaction (amount_prompt prompt currency presets custom) s =
    answer (amount_text (next_amount presets s).0, (next_amount presets s).1)
simulated_interaction (option_prompt screen prompt options) s = answer (next_option options s)

abbrev pub asked : Result String String × Simulator → Exec Terminal String
asked (r, s) t = (r, record t { simulator = s })

unfoldable pub request : Interaction → CustomerPrompt → Exec Terminal String
request interaction prompt t = asked (interaction prompt t.simulator) t

abbrev pub log_ui : EventType → Source → Payload → Exec Terminal (Unit {0})
log_ui type source payload = updates (record_event type source (some payload))

-- The rest of `PinEntry` behind a card that was read.
unfoldable pub enter_pin : Interaction → Exec Terminal (Unit {0})
unfolding record_event request
enter_pin interaction = do
  log_ui ui_prompt from_module (("prompt", text "PIN") ∷ [])
  pin ← request interaction (pin_prompt "Enter PIN")
  log_ui ui_input_received from_ui
      (("prompt", text "PIN") ∷ ("length", num (pos (length (codes pin)))) ∷ [])

unfoldable pub reject_card : AdapterResult → Exec Terminal (Unit {0})
unfolding record_event
reject_card card = do
  log_ui transaction_failed from_module (
      ("transaction", text "CustomerIdentification")
      ∷ ("code", text card.code)
      ∷ ("message", text card.message)
      ∷ [])
  throw card.message

abbrev pub after_card : Interaction → AdapterResult → Exec Terminal (Unit {0})
after_card interaction card = if card.success then enter_pin interaction else reject_card card

-- PinEntry
unfoldable pub pin_entry : Adapters → Interaction → Exec Terminal (Unit {0})
unfolding call_adapter enter_pin reject_card
pin_entry adapters interaction = do
  card ←
      call_adapter card_reader "readCard" adapters.read_card adapter_timeout_result
        "CustomerIdentification" []
  after_card interaction card

-- SelectTransaction; the answer is the module's TransactionSelected.
unfoldable pub select_transaction : Interaction → Exec Terminal String
unfolding record_event request
select_transaction interaction = do
  transaction ← request interaction (
      transaction_prompt "Select transaction" (
        "BalanceInquiry" ∷ "CashWithdrawal" ∷ "CashDeposit" ∷ "FastCash" ∷ "CardlessWithdrawal"
        ∷ "AdminBalanceTerminal" ∷ "AdminCashAdjustment" ∷ "AdminPrintTotals" ∷ []))
  log_ui transaction_selected from_ui (("transaction", text transaction) ∷ [])
  return transaction

-- SelectAccount
unfoldable pub select_account : Interaction → List String → Exec Terminal String
unfolding record_event request includes
select_account interaction options = do
  value ← request interaction (account_prompt "Select account" options)
  let account = one_of options value
  log_ui transaction_detail_recorded from_ui
      (("detail", text "account.selected") ∷ ("account", text account) ∷ [])
  return account

abbrev pub positive_or : ℤ → Option ℤ → ℤ
positive_or fallback (some (pos n)) = if ltb 0 n then pos n else fallback
positive_or fallback _ = fallback

-- SelectAmount
unfoldable pub select_amount :
    (String → Option ℤ) → Interaction → String → String → List ℤ → Bool → Exec Terminal ℤ
unfolding record_event request
select_amount to_number interaction prompt currency_code presets allow_custom = do
  value ← request interaction (amount_prompt prompt currency_code presets allow_custom)
  let selected = positive_or (shift_or (pos 0) presets).0 (to_number value)
  log_ui transaction_detail_recorded from_ui (
      ("detail", text "amount.selected")
      ∷ ("amount", num selected)
      ∷ ("currencyCode", text currency_code)
      ∷ [])
  return selected

-- `optionCsv.split(",").map((option) => option.trim()).filter(Boolean)`, on code units.
abbrev pub add_unit : ℕ → List (List ℕ) → List (List ℕ)
add_unit c [] = (c ∷ []) ∷ []
add_unit c (part ∷ parts) = (c ∷ part) ∷ parts

unfoldable pub split_commas : List ℕ → List (List ℕ)
split_commas [] = [] ∷ []
split_commas (c ∷ cs) =
    let parts = split_commas cs in if c == b',' then [] ∷ parts else add_unit c parts

unfoldable pub trim_start : List ℕ → List ℕ
unfolding is_space
trim_start [] = []
trim_start (c ∷ cs) = let rest = trim_start cs in if is_space c then rest else c ∷ cs

abbrev pub is_none : List ℕ → Bool
is_none [] = true
is_none (c ∷ cs) = false

unfoldable pub trim_end : List ℕ → List ℕ
unfolding is_space
trim_end [] = []
trim_end (c ∷ cs) = let rest = trim_end cs in if is_space c && is_none rest then [] else c ∷ rest

unfoldable pub options_of : List (List ℕ) → List (List ℕ)
unfolding trim_start trim_end
options_of [] = []
options_of (part ∷ parts) =
    let rest = options_of parts in
    let option = trim_end (trim_start part) in if is_none option then rest else option ∷ rest

unfoldable pub parse_options : String → List (List ℕ)
unfolding split_commas options_of
parse_options csv = options_of (split_commas (codes csv))

-- SelectOption, behind the parsing of its list of options.
unfoldable pub select_option : Interaction → String → List String → Exec Terminal String
unfolding record_event request includes
select_option interaction screen options = do
  value ← request interaction (option_prompt screen screen options)
  let selected = one_of options value
  log_ui ui_prompt from_ui (("screen", text screen) ∷ ("selected", text selected) ∷ [])
  return selected
