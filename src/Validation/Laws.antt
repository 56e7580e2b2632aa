-- ===== src/Validation/Laws.antt =====
-- What `validateFlowPackage` and `validateTerminalAdapters` let through.
use cashblocks.Prelude.{
  ◌≡◌, Bool, true, false, not, ◌||◌, ◌&&◌, List, [], ◌∷◌, ◌++◌, String, arith, all, any,
}
use cashblocks.Prelude.Text.{is_blank}
use cashblocks.Validation.{
  Complaint, ValidationIssue, issue_if, includes, FlowPackage, known_flow_capabilities,
  known_atm_modules, unknown_values, or_none, validate_flow_package, AdapterKind, is_kind,
  slot_name, TerminalAdapter, TerminalAdapters, allowed_capabilities, required_operations,
  required_capabilities, has_repeat, missing_from, check_id, check_slot, add_id, validate_slots,
  slots_of, validate_terminal_adapters, unknown_value,
}

unfoldable pub is_empty : List ValidationIssue → Bool
is_empty [] = true
is_empty (i ∷ is) = false

is_empty-append :
    (xs ys : List ValidationIssue) → is_empty (xs ++ ys) ≡ (is_empty xs && is_empty ys)
unfolding is_empty
is_empty-append [] ys = ground arith
is_empty-append (x ∷ xs) ys = ground arith

is_empty-issue_if :
    (b : Bool) (field : String) (message : Complaint) → is_empty (issue_if b field message) ≡ not b
unfolding is_empty
is_empty-issue_if true field message = ground arith
is_empty-issue_if false field message = ground arith

is_empty-unknown_values :
    (field : String) (known values : List String)
    → is_empty (unknown_values field known values) ≡ all (includes known) values
unfolding unknown_values is_empty
is_empty-unknown_values field known [] = ground arith
is_empty-unknown_values field known (v ∷ vs) = ground (
  arith,
  is_empty-append (issue_if (not (includes known v)) field (unknown_value v))
      (unknown_values field known vs),
  is_empty-issue_if (not (includes known v)) field (unknown_value v),
  is_empty-unknown_values field known vs,
)

-- A flow package has no issue exactly when its id, version and entrypoint are not blank and each of its
-- capabilities and modules is a known one.
pub validate_flow_package-is_empty :
    (p : FlowPackage)
    → is_empty (validate_flow_package p) ≡ (
        not (is_blank p.id)
        && (not (is_blank p.version)
            && (not (is_blank p.entrypoint)
                && (all (includes known_flow_capabilities) p.capabilities
                    && all (includes known_atm_modules) (or_none p.modules)))))
unfolding validate_flow_package
validate_flow_package-is_empty p =
    simp (is_empty-append, is_empty-issue_if, is_empty-unknown_values)

is_empty-missing_from :
    (field : String) (complaint : String → Complaint) (present texts : List String)
    → is_empty (missing_from field complaint present texts) ≡ all (includes present) texts
unfolding missing_from is_empty
is_empty-missing_from field complaint present [] = ground arith
is_empty-missing_from field complaint present (t ∷ ts) = ground (
  arith,
  is_empty-append (issue_if (not (includes present t)) field (complaint t))
      (missing_from field complaint present ts),
  is_empty-issue_if (not (includes present t)) field (complaint t),
  is_empty-missing_from field complaint present ts,
)

-- An adapter that suits its slot: its kind, its capabilities and its operations.
pub record IsFit (slot : AdapterKind) (a : TerminalAdapter) : Type 0 where
  pub kind : is_kind a.kind slot ≡ true
  pub regular : (any is_blank a.capabilities || has_repeat a.capabilities) ≡ false
  pub allowed : all (includes (allowed_capabilities slot)) a.capabilities ≡ true
  pub capable : all (includes a.capabilities) (required_capabilities slot) ≡ true
  pub able : all (includes a.operations) (required_operations slot) ≡ true

check_slot-IsFit :
    (slot : AdapterKind) (a : TerminalAdapter) → is_empty (check_slot slot a) ≡ true → IsFit slot a
unfolding check_slot
check_slot-IsFit slot a h =
    let parts : (not (not (is_kind a.kind slot))
          && (not (any is_blank a.capabilities || has_repeat a.capabilities)
              && (all (includes (allowed_capabilities slot)) a.capabilities
                  && (all (includes a.capabilities) (required_capabilities slot)
                      && all (includes a.operations) (required_operations slot)))))
        ≡ true =
      simp (is_empty-append, is_empty-issue_if, is_empty-missing_from) at h in
    record {
      kind = ground arith;
      regular = ground arith;
      allowed = ground arith;
      capable = ground arith;
      able = ground arith;
    }

-- Adapters that suit their slots, each with an id that is not blank and that no earlier one has.
abbrev pub AreWired : List String → List (AdapterKind × TerminalAdapter) → Type 0
AreWired ids [] = Unit
AreWired ids ((slot, a) ∷ slots) =
    (is_blank a.id ≡ false)
    × (includes ids a.id ≡ false)
    × IsFit slot a
    × AreWired (a.id ∷ ids) slots

check_id-cases :
    (field id : String) (ids : List String)
    → is_empty (check_id field id ids) ≡ true
    → (is_blank id ≡ false) × (includes ids id ≡ false) × (add_id id ids ≡ id ∷ ids)
unfolding check_id is_empty
check_id-cases field id ids h = (ground arith, ground arith, ground arith)

validate_slots-AreWired :
    (ids : List String) (slots : List (AdapterKind × TerminalAdapter))
    → is_empty (validate_slots ids slots) ≡ true
    → AreWired ids slots
unfolding validate_slots
validate_slots-AreWired ids [] h = tt
validate_slots-AreWired ids ((slot, a) ∷ slots) h =
    let parts : (is_empty (check_id (slot_name slot) a.id ids)
          && (is_empty (check_slot slot a) && is_empty (validate_slots (add_id a.id ids) slots)))
        ≡ true =
      simp is_empty-append at h in
    let (named, new, added) = check_id-cases (slot_name slot) a.id ids (ground arith) in
    let rest : is_empty (validate_slots (a.id ∷ ids) slots) ≡ true = rw (← added) (ground arith) in
    (
      named,
      new,
      check_slot-IsFit slot a (ground arith),
      validate_slots-AreWired (a.id ∷ ids) slots rest,
    )

-- Adapters without an issue suit their slots: each has the kind, the capabilities and the operations
-- that its slot asks for, and the five ids are not blank and differ.
pub validate_terminal_adapters-AreWired :
    (adapters : TerminalAdapters)
    → is_empty (validate_terminal_adapters adapters) ≡ true
    → AreWired [] (slots_of adapters)
unfolding validate_terminal_adapters
validate_terminal_adapters-AreWired adapters h = validate_slots-AreWired [] (slots_of adapters) h
