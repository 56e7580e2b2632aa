-- ===== src/Transport/Tests.antt =====
-- A frame of two bytes that comes in three chunks.
use cashblocks.Prelude.{◌≡◌, refl, true, false, none, some, [], ◌∷◌, arith, List, Option}
use cashblocks.Prelude.Int.{ℤ, pos}
use cashblocks.Prelude.Result.{ok}
use cashblocks.Prelude.Text.{is_blank}
use cashblocks.Cash.{is_set}
use cashblocks.Transport.{
  Bytes, two, Transport, TransportOptions, Exchange, new_transport, positive_integer, frame_of,
  exchange, run, connects, closes, opened,
}
use cashblocks.Transport.Runs.{exchange-reassembles, run_settles, data_events}

abbrev options : TransportOptions
options = record {
  host = "127.0.0.1";
  port = pos 5000;
  tls = false;
  allow_insecure_loopback = true;
  length_bytes = none;
  connect_timeout_ms = none;
  response_timeout_ms = none;
  max_frame_bytes = some (pos 100);
}

abbrev transport : Transport
transport = record {
  secure = false;
  width = two;
  connect_timeout = 5000;
  response_timeout = 30000;
  max_frame = 100;
}

is_configured : new_transport options ≡ ok transport
unfolding new_transport positive_integer is_blank
is_configured = refl

abbrev message : Bytes
message = b'A' ∷ b'B' ∷ []

abbrev started : Exchange
started = record {
  frame = frame_of transport message;
  settled = none;
  connected = false;
  timer = 5000;
  expected_length = none;
  received = 0;
  chunks = [];
  written = [];
  socket = opened;
}

is_started : exchange transport false message none ≡ ok started
unfolding exchange
is_started = refl

abbrev sent : List (Option ℤ × Bytes)
sent = (none, 0 ∷ []) ∷ (some (pos 9), 2 ∷ b'C' ∷ []) ∷ (none, b'D' ∷ []) ∷ []

exchange-reassembles_example :
    (run transport ((none, connects true) ∷ data_events sent) started).settled
    ≡ some (ok (b'C' ∷ b'D' ∷ []))
exchange-reassembles_example =
    exchange-reassembles transport message (b'C' ∷ b'D' ∷ []) none none started sent
      (record {
        present = omega arith;
        bounded = omega arith;
        representable = omega arith;
        printable = refl;
      })
      is_started refl (refl, (refl, (refl, tt))) refl

run_settles_example :
    is_set (run transport ((none, connects true) ∷ (none, closes) ∷ []) started).settled ≡ true
run_settles_example =
    run_settles transport ((none, connects true) ∷ (none, closes) ∷ []) started refl
