-- ===== src/Lib.antt =====
-- CashBlocks is a terminal runtime: a flow of transaction modules runs over device and host adapters,
-- every step is journalled, and tools outside the terminal replay the journal. The development models
-- these parts:
--   Contracts      packages/runtime-contracts/src/index.ts: the types that the parts exchange
--   Profile        packages/runtime-core/src/index.ts, defineSimulatorProfile and its checks
--   Cash           allocateCash of the same file: the choice of notes by dynamic programming
--   Simulator      class RuntimeSimulator: the shared state of the simulated devices
--   Devices        the five simulated adapters over the simulator
--   Iso8583        packages/host-iso8583/src/index.ts, encodeIso8583 and decodeIso8583
--   Validation     packages/runtime-contracts/src/index.ts, validateFlowPackage, validateTerminalAdapters
--   Replay         packages/journal-replay/src/index.ts: the replay of a session with its issues and its
--                  budget (Session over Log, Lifecycle and State), the checks of a payload (Payload), of an
--                  event (Events) and of a journal from its lines to the report (Lines, Reading, Groups,
--                  Inspect), and the replay of one session alone (Single)
--   HostAdapter    packages/host-iso8583/src/index.ts, the host adapter over the codec, and the trace
--                  numbers of packages/host-iso8583/src/stan-store.ts (Traces, Durable)
--   Runtime        packages/runtime-core/src/index.ts, RuntimeJournal and HandlerRegistry
--   Terminal       packages/runtime-core/src/index.ts, CashblocksRuntime: the state that modules share
--   AtmModules     packages/atm-modules/src/index.ts: the modules over the runtime and its adapters, an
--                  operation of which answers, throws or is timed out (Calls)
--   Transport      packages/host-iso8583/src/framed-transport.ts: an exchange over the events of its socket
--   Sessions       packages/terminal-session/src/index.ts: the manager of sessions over the queued prompts
--                  of packages/runtime-core/src/index.ts, and the states that it can reach (Reach)
--   Reversals      packages/host-iso8583/src/reversal-store.ts, JsonlReversalStore: a log of events, the
--                  processor (Process), the texts of errors (Messages) and the repair of the file (Repair)
-- Prelude holds the numbers, lists, texts and results that they share.
--
-- How the code is read. A class is a record and a method a function from that record to its answer and the
-- next record. A method that throws answers with an error, and what it wrote before stays written.
-- Promises are run in order, one call at a time; where callers interleave, the calls are the steps of a
-- relation (Sessions) or the events of a run (Transport). An adapter's operation is a function of its
-- context and of the simulator, and what it still does after its timeout is not modelled. A number that
-- the code tests with isSafeInteger is an integer: fractions, infinities and NaN are not modelled, and
-- every test refuses them where it refuses an integer out of range. Sums are exact: the rounding of
-- doubles beyond 2^53 is not modelled. A dictionary with decimal keys is an association list over natural
-- numbers, in the order of its first writes, and the cells of an Int32Array are functions into Option,
-- with none for -1. A profile's switch usesLegacyScalarCash is the negation of finiteCashInventory, which
-- is the one that is kept. Where the declared type of a value is a text, as of the property Currency.Code,
-- one that is none reads as absent. The totals of a report hold the accounts as they are when it is made,
-- where the code hands out the simulator's own object.
--
-- Fuel. The loop that splits a count has the count as fuel, and each round takes at least one; the walk
-- back through the table has the amount as fuel, and each step lowers what is left by a note's value,
-- so both end before the fuel does, which the theorems on allocateCash use.
--
-- Arguments of the model: the clock, Date.parse, JSON.parse, JSON.stringify, Buffer.byteLength, the order of
-- localeCompare, the transport's answer to a payload, the operations of the adapters, the answers of a
-- customer and what Number reads of them, the handlers of a module, the ids of sessions and prompts, the
-- events of a socket, the options of the processor of reversals, the texts of a store's errors, and whether
-- a line still fits the file of the reversals are functions or values that the definitions take.
--
-- Not modelled: the diagnostic sinks, the listeners of a prompt, the flows and their builder in
-- packages/flow-sdk, an abort of the processor of reversals, and what is input and output over other
-- programs' protocols: sockets, files, timers, web servers and user interfaces, the device gateway, the
-- XFS4IoT client and the certification harness.
pub mod Prelude
pub mod AtmModules
pub mod Cash
pub mod Contracts
pub mod Devices
pub mod HostAdapter
pub mod Iso8583
pub mod Profile
pub mod Replay
pub mod Reversals
pub mod Runtime
pub mod Sessions
pub mod Simulator
pub mod Terminal
pub mod Transport
pub mod Validation
