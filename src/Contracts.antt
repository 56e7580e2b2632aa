-- ===== src/Contracts.antt =====
-- packages/runtime-contracts/src/index.ts: the values that adapters, modules and the journal exchange.
-- A JSON number is an integer here; fractions are not modelled. A `Record<string, JsonValue>` is a
-- list of its entries.
use cashblocks.Prelude.{ℕ, Bool, List, Option, String}
use cashblocks.Prelude.Int.{ℤ}

mutual
  pub data Json : Type 0 where
    null : Json
    bool : Bool → Json
    num : ℤ → Json
    text : String → Json
    arr : Items → Json
    obj : Fields → Json

  pub data Items : Type 0 where
    nil : Items
    cons : Json → Items → Items

  pub data Fields : Type 0 where
    end : Fields
    field : String → Json → Fields → Fields

abbrev pub Payload : Type 0
Payload = List (String × Json)

pub data DeviceHealth : Type 0 where
  healthy degraded fatal missing : DeviceHealth

pub data PaperStatus : Type 0 where
  paper_ok paper_low paper_out : PaperStatus

pub record PrinterStatus : Type 0 where
  pub health : DeviceHealth
  pub paper : PaperStatus

-- `AdapterResult`, and `TransactionResult`, which has the same fields.
pub record AdapterResult : Type 0 where
  pub success : Bool
  pub code : String
  pub message : String
  pub details : Option Payload

pub record HostAuthorizationRequest : Type 0 where
  pub transaction : String
  pub host : String
  pub account : Option String
  pub amount : Option ℤ
  pub currency_code : String
  pub pinless : Bool
  pub chip_required : Bool

pub data EventType : Type 0 where
  runtime_started flow_loaded flow_failed session_started : EventType
  transaction_selected transaction_started transaction_completed transaction_cancelled : EventType
  transaction_failed transaction_reconciliation_required : EventType
  device_status_changed host_authorization_requested host_authorization_result : EventType
  journal_line_logged transaction_detail_recorded ui_input_received ui_prompt : EventType

pub data Source : Type 0 where
  from_runtime from_flow from_module from_simulator from_ui : Source

-- `RuntimeEventDraft`, with no time of its own.
pub record EventDraft : Type 0 where
  pub type : EventType
  pub source : Source
  pub session_id : Option String
  pub payload : Option Payload

pub record RuntimeEvent : Type 0 where
  pub seq : ℕ
  pub ts : String
  pub draft : EventDraft
  pub open draft use *
