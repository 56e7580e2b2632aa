-- ===== src/Validation/Tests.antt =====
-- A flow basic_package, and adapters that suit their slots.
use cashblocks.Prelude.{◌≡◌, refl, not, ◌&&◌, all, true, none, some, [], ◌∷◌}
use cashblocks.Prelude.Text.{is_blank}
use cashblocks.Validation.{
  FlowPackage, slots_of, validate_flow_package, validate_terminal_adapters, validate_slots,
  check_slot, check_id, missing_from, has_repeat, allowed_capabilities, required_capabilities,
  required_operations, known_flow_capabilities, known_atm_modules, or_none, includes,
}
use cashblocks.Validation.Simulated.{simulated}
use cashblocks.Validation.Laws.{
  is_empty, AreWired, validate_flow_package-is_empty, validate_terminal_adapters-AreWired,
}

abbrev basic_package : FlowPackage
basic_package = record {
  id = "atm-basic";
  version = "1.0.0";
  description = none;
  entrypoint = "Idle";
  capabilities = "cash-dispenser" ∷ [];
  modules = some ("Idle" ∷ []);
}

validate_flow_package-is_empty_example : is_empty (validate_flow_package basic_package) ≡ (
    not (is_blank basic_package.id)
    && (not (is_blank basic_package.version)
        && (not (is_blank basic_package.entrypoint)
            && (all (includes known_flow_capabilities) basic_package.capabilities
                && all (includes known_atm_modules) (or_none basic_package.modules)))))
validate_flow_package-is_empty_example = validate_flow_package-is_empty basic_package

simulated_is_accepted : is_empty (validate_terminal_adapters simulated) ≡ true
unfolding is_empty validate_terminal_adapters validate_slots check_slot check_id missing_from
    has_repeat allowed_capabilities required_capabilities required_operations is_blank
simulated_is_accepted = refl

validate_terminal_adapters-AreWired_example : AreWired [] (slots_of simulated)
validate_terminal_adapters-AreWired_example =
    validate_terminal_adapters-AreWired simulated simulated_is_accepted
