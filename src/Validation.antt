-- ===== src/Validation.antt =====
-- packages/runtime-contracts/src/index.ts: `validateFlowPackage` and `validateTerminalAdapters`. A
-- message is a case of Complaint.
pub mod Laws
pub mod Simulated
mod Tests
use cashblocks.Prelude.{
  Bool, true, false, not, ◌||◌, Option, none, some, List, [], ◌∷◌, ◌++◌, String, if◌then◌else◌,
  str_eq, any,
}
use cashblocks.Prelude.Text.{is_blank}

pub data Complaint : Type 0 where
  is_required duplicate_id wrong_kind bad_capabilities : Complaint
  unknown_value unsupported_capability capability_missing operation_missing : String → Complaint

pub record ValidationIssue : Type 0 where
  pub field : String
  pub message : Complaint

abbrev pub issue_if : Bool → String → Complaint → List ValidationIssue
issue_if true field message = record { field = field; message = message } ∷ []
issue_if false field message = []

abbrev pub includes : List String → String → Bool
includes texts t = any (λ u. str_eq u t) texts

pub record FlowPackage : Type 0 where
  pub id : String
  pub version : String
  pub description : Option String
  pub entrypoint : String
  pub capabilities : List String
  pub modules : Option (List String)

abbrev pub known_flow_capabilities : List String
known_flow_capabilities =
    "receipt-printer" ∷ "cash-dispenser" ∷ "cash-acceptor" ∷ "card-reader" ∷ "host-authorization"
    ∷ []

abbrev pub known_atm_modules : List String
known_atm_modules =
    "Idle" ∷ "Customer" ∷ "CoreSession" ∷ "BalanceInquiry" ∷ "CashWithdrawal"
    ∷ "CardlessCashWithdrawal" ∷ "CashDeposit" ∷ "FastCash" ∷ "TerminalAdmin" ∷ []

-- An issue for every value that is not known.
unfoldable pub unknown_values : String → List String → List String → List ValidationIssue
unknown_values field known [] = []
unknown_values field known (value ∷ values) =
    issue_if (not (includes known value)) field (unknown_value value)
    ++ unknown_values field known values

abbrev pub or_none : Option (List String) → List String
or_none none = []
or_none (some values) = values

unfoldable pub validate_flow_package : FlowPackage → List ValidationIssue
validate_flow_package p =
    issue_if (is_blank p.id) "id" is_required
    ++ (issue_if (is_blank p.version) "version" is_required
        ++ (issue_if (is_blank p.entrypoint) "entrypoint" is_required
            ++ (unknown_values "capabilities" known_flow_capabilities p.capabilities
                ++ unknown_values "modules" known_atm_modules (or_none p.modules))))

-- `AdapterKind`, which also names the slots of `TerminalAdapters`.
pub data AdapterKind : Type 0 where
  receipt_printer cash_dispenser cash_acceptor card_reader host_authorization : AdapterKind

abbrev pub is_kind : AdapterKind → AdapterKind → Bool
is_kind receipt_printer receipt_printer = true
is_kind cash_dispenser cash_dispenser = true
is_kind cash_acceptor cash_acceptor = true
is_kind card_reader card_reader = true
is_kind host_authorization host_authorization = true
is_kind _ _ = false

abbrev pub slot_name : AdapterKind → String
slot_name receipt_printer = "receiptPrinter"
slot_name cash_dispenser = "cashDispenser"
slot_name cash_acceptor = "cashAcceptor"
slot_name card_reader = "cardReader"
slot_name host_authorization = "hostAuthorization"

-- `operations` lists the properties of the adapter that are functions.
pub record TerminalAdapter : Type 0 where
  pub id : String
  pub kind : AdapterKind
  pub capabilities : List String
  pub operations : List String

unfoldable pub allowed_capabilities : AdapterKind → List String
allowed_capabilities receipt_printer = "status" ∷ "print" ∷ []
allowed_capabilities cash_dispenser = "dispense" ∷ "finite-inventory" ∷ []
allowed_capabilities cash_acceptor = "accept" ∷ "amount-confirmation" ∷ "recycling" ∷ []
allowed_capabilities card_reader = "read" ∷ "contact" ∷ "contactless" ∷ "chip" ∷ "magstripe" ∷ []
allowed_capabilities host_authorization = "authorize" ∷ "reversal" ∷ "advice" ∷ []

unfoldable pub required_operations : AdapterKind → List String
required_operations receipt_printer = "getStatus" ∷ "printReceipt" ∷ []
required_operations cash_dispenser = "dispense" ∷ []
required_operations cash_acceptor = "accept" ∷ []
required_operations card_reader = "readCard" ∷ []
required_operations host_authorization = "authorize" ∷ []

unfoldable pub required_capabilities : AdapterKind → List String
required_capabilities receipt_printer = "status" ∷ "print" ∷ []
required_capabilities cash_dispenser = "dispense" ∷ []
required_capabilities cash_acceptor = "accept" ∷ []
required_capabilities card_reader = "read" ∷ []
required_capabilities host_authorization = "authorize" ∷ []

-- `new Set(texts).size !== texts.length`
unfoldable pub has_repeat : List String → Bool
has_repeat [] = false
has_repeat (t ∷ ts) = includes ts t || has_repeat ts

-- An issue for every text that the list does not have.
unfoldable pub missing_from :
    String → (String → Complaint) → List String → List String → List ValidationIssue
missing_from field complaint present [] = []
missing_from field complaint present (t ∷ ts) =
    issue_if (not (includes present t)) field (complaint t)
    ++ missing_from field complaint present ts

unfoldable pub check_id : String → String → List String → List ValidationIssue
check_id field id ids =
    if is_blank id
    then issue_if true field is_required
    else issue_if (includes ids id) field duplicate_id

-- The issues of one slot, behind its id.
unfoldable pub check_slot : AdapterKind → TerminalAdapter → List ValidationIssue
check_slot slot a =
    issue_if (not (is_kind a.kind slot)) (slot_name slot) wrong_kind
    ++ (issue_if (any is_blank a.capabilities || has_repeat a.capabilities) (slot_name slot)
          bad_capabilities
        ++ (missing_from (slot_name slot) unsupported_capability (allowed_capabilities slot)
              a.capabilities
            ++ (missing_from (slot_name slot) capability_missing a.capabilities
                  (required_capabilities slot)
                ++ missing_from (slot_name slot) operation_missing a.operations
                    (required_operations slot))))

abbrev pub add_id : String → List String → List String
add_id id ids = if is_blank id || includes ids id then ids else id ∷ ids

-- The loop over the slots, with the ids that have been seen.
unfoldable pub validate_slots :
    List String → List (AdapterKind × TerminalAdapter) → List ValidationIssue
validate_slots ids [] = []
validate_slots ids ((slot, a) ∷ slots) =
    check_id (slot_name slot) a.id ids
    ++ (check_slot slot a ++ validate_slots (add_id a.id ids) slots)

pub record TerminalAdapters : Type 0 where
  pub printer : TerminalAdapter
  pub dispenser : TerminalAdapter
  pub acceptor : TerminalAdapter
  pub reader : TerminalAdapter
  pub host : TerminalAdapter

abbrev pub slots_of : TerminalAdapters → List (AdapterKind × TerminalAdapter)
slots_of adapters =
    (receipt_printer, adapters.printer)
    ∷ (cash_dispenser, adapters.dispenser)
    ∷ (cash_acceptor, adapters.acceptor)
    ∷ (card_reader, adapters.reader)
    ∷ (host_authorization, adapters.host)
    ∷ []

unfoldable pub validate_terminal_adapters : TerminalAdapters → List ValidationIssue
validate_terminal_adapters adapters = validate_slots [] (slots_of adapters)
