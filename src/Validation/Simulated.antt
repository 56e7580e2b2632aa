-- ===== src/Validation/Simulated.antt =====
-- The descriptors of the simulated adapters of packages/runtime-core/src/index.ts.
use cashblocks.Prelude.{[], ◌∷◌}
use cashblocks.Validation.{
  TerminalAdapters, receipt_printer, cash_dispenser, cash_acceptor, card_reader, host_authorization,
}

abbrev pub simulated : TerminalAdapters
simulated = record {
  printer = record {
    id = "simulated-receipt-printer";
    kind = receipt_printer;
    capabilities = "status" ∷ "print" ∷ [];
    operations = "getStatus" ∷ "printReceipt" ∷ [];
  };
  dispenser = record {
    id = "simulated-cash-dispenser";
    kind = cash_dispenser;
    capabilities = "dispense" ∷ "finite-inventory" ∷ [];
    operations = "dispense" ∷ [];
  };
  acceptor = record {
    id = "simulated-cash-acceptor";
    kind = cash_acceptor;
    capabilities = "accept" ∷ "amount-confirmation" ∷ [];
    operations = "accept" ∷ [];
  };
  reader = record {
    id = "simulated-card-reader";
    kind = card_reader;
    capabilities = "read" ∷ [];
    operations = "readCard" ∷ [];
  };
  host = record {
    id = "simulated-host-authorization";
    kind = host_authorization;
    capabilities = "authorize" ∷ [];
    operations = "authorize" ∷ [];
  };
}
