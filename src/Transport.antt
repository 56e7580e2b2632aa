-- ===== src/Transport.antt =====
-- packages/host-iso8583/src/framed-transport.ts: the exchange of one message over a socket. What the
-- socket does comes as events; the socket itself and the timers are not modelled. The context of an
-- operation is what is left until its deadline when the event comes, with none where there is no
-- deadline.
pub mod Frames
pub mod Laws
pub mod Runs
mod Tests
use cashblocks.Prelude.{
  ℕ, ◌+◌, ◌*◌, ◌/◌, ◌%◌, min, max, Bool, true, false, not, ◌&&◌, ◌||◌, Option, none, some, List, [],
  ◌∷◌, ◌++◌, String, str_eq, if◌then◌else◌, leb, ltb, ◌==◌, length, drop, all, any,
}
use cashblocks.Prelude.Int.{ℤ, pos, negsuc}
use cashblocks.Prelude.Text.{codes, is_blank}
use cashblocks.Prelude.Result.{Result, ok, err, ◌>>=◌, ◌>>◌, throw_if}
use cashblocks.Cash.{is_set, max_safe_integer}
use cashblocks.Iso8583.{is_printable, is_nonempty}
use cashblocks.Simulator.{get_or}

abbrev pub Bytes : Type 0
Bytes = List ℕ

pub data TransportError : Type 0 where
  bad_host bad_port not_secure too_large_maximum : TransportError
  bad_option : String → TransportError
  aborted bad_request long_request late_connect unauthorized late_send : TransportError
  not_a_buffer long_response bad_length trailing late_response bad_response : TransportError
  socket_error closed_early : TransportError
  connect_timed_out response_timed_out : TransportError

-- `lengthBytes`
pub data Width : Type 0 where
  two four : Width

abbrev pub bytes_of : Width → ℕ
bytes_of two = 2
bytes_of four = 4

abbrev pub representable : Width → ℕ
representable two = 0xffff
representable four = 0xffffffff

pub record TransportOptions : Type 0 where
  pub host : String
  pub port : ℤ
  pub tls : Bool
  pub allow_insecure_loopback : Bool
  pub length_bytes : Option Width
  pub connect_timeout_ms : Option ℤ
  pub response_timeout_ms : Option ℤ
  pub max_frame_bytes : Option ℤ

pub record Transport : Type 0 where
  pub secure : Bool
  pub width : Width
  pub connect_timeout : ℕ
  pub response_timeout : ℕ
  pub max_frame : ℕ

abbrev pub is_loopback : String → Bool
is_loopback host = str_eq host "localhost" || str_eq host "127.0.0.1" || str_eq host "::1"

unfoldable pub positive_integer : ℤ → String → Result TransportError ℕ
positive_integer (pos n) label =
    if ltb 0 n && leb n max_safe_integer then ok n else err (bad_option label)
positive_integer (negsuc n) label = err (bad_option label)

abbrev pub is_port : ℤ → Bool
is_port (pos n) = leb 1 n && leb n 65535
is_port (negsuc n) = false

-- The constructor
unfoldable pub new_transport : TransportOptions → Result TransportError Transport
unfolding positive_integer is_blank
new_transport o = do
  throw_if (is_blank o.host || ltb 253 (length (codes o.host))) bad_host
  throw_if (not (is_port o.port)) bad_port
  throw_if (not o.tls && (not o.allow_insecure_loopback || not (is_loopback o.host))) not_secure
  connect_timeout ← positive_integer (get_or (pos 5000) o.connect_timeout_ms) "connectTimeoutMs"
  response_timeout ← positive_integer (get_or (pos 30000) o.response_timeout_ms) "responseTimeoutMs"
  max_frame ← positive_integer (get_or (pos 0xffff) o.max_frame_bytes) "maxFrameBytes"
  let width = get_or two o.length_bytes
  throw_if (ltb (representable width) max_frame) too_large_maximum
  ok (record {
    secure = o.tls;
    width = width;
    connect_timeout = connect_timeout;
    response_timeout = response_timeout;
    max_frame = max_frame;
  })

-- `writeUInt16BE` and `writeUInt32BE`
abbrev pub header : Width → ℕ → Bytes
header two n = n / 256 % 256 ∷ n % 256 ∷ []
header four n = n / 16777216 % 256 ∷ n / 65536 % 256 ∷ n / 256 % 256 ∷ n % 256 ∷ []

-- `readUInt16BE` and `readUInt32BE` at 0
abbrev pub read_length : Width → Bytes → ℕ
read_length two (a ∷ b ∷ rest) = a * 256 + b
read_length four (a ∷ b ∷ c ∷ d ∷ rest) = a * 16777216 + b * 65536 + c * 256 + d
read_length _ _ = 0

abbrev pub frame_of : Transport → Bytes → Bytes
frame_of t payload = header t.width (length payload) ++ payload

-- `deadlineElapsed`, `effectiveTimeout`
abbrev pub deadline_elapsed : Option ℤ → Bool
deadline_elapsed none = false
deadline_elapsed (some (pos left)) = left == 0
deadline_elapsed (some (negsuc left)) = true

abbrev pub effective_timeout : ℕ → Option ℤ → ℕ
effective_timeout configured none = configured
effective_timeout configured (some (pos left)) = max 1 (min configured left)
effective_timeout configured (some (negsuc left)) = 1

pub data SocketState : Type 0 where
  opened ended destroyed : SocketState

-- The variables of `exchange`.
pub record Exchange : Type 0 where
  pub frame : Bytes
  pub settled : Option (Result TransportError Bytes)
  pub connected : Bool
  pub timer : ℕ
  pub expected_length : Option ℕ
  pub received : ℕ
  pub chunks : List Bytes
  pub written : List Bytes
  pub socket : SocketState

abbrev pub fail : TransportError → Exchange → Exchange
fail e x = if is_set x.settled then x else record x { settled = some (err e); socket = destroyed }

abbrev pub succeed : Bytes → Exchange → Exchange
succeed response x =
    if is_set x.settled then x else record x { settled = some (ok response); socket = ended }

-- `exchange`, up to the socket that it opens.
unfoldable pub exchange : Transport → Bool → Bytes → Option ℤ → Result TransportError Exchange
exchange t is_aborted message left = do
  throw_if is_aborted aborted
  throw_if (not (is_nonempty message && all is_printable message)) bad_request
  throw_if (ltb t.max_frame (length message)) long_request
  throw_if (deadline_elapsed left) late_connect
  ok (record {
    frame = frame_of t message;
    settled = none;
    connected = false;
    timer = effective_timeout t.connect_timeout left;
    expected_length = none;
    received = 0;
    chunks = [];
    written = [];
    socket = opened;
  })

-- `onConnect`
unfoldable pub on_connect : Transport → Bool → Option ℤ → Exchange → Exchange
on_connect t authorized left x =
    if is_set x.settled || x.connected
    then x
    else if t.secure && not authorized
    then fail unauthorized x
    else if deadline_elapsed left
    then fail late_send x
    else record x {
      connected = true;
      written = x.written ++ x.frame ∷ [];
      timer = effective_timeout t.response_timeout left;
    }

abbrev pub joined : List Bytes → Bytes
joined [] = []
joined (chunk ∷ chunks) = chunk ++ joined chunks

abbrev pub answer_with : Bytes → Exchange → Exchange
answer_with response x =
    if any (λ byte. not (is_printable byte)) response
    then fail bad_response x
    else succeed response x

abbrev pub is_complete : Transport → Exchange → Option ℕ → Bool
is_complete t x none = false
is_complete t x (some n) = x.received == bytes_of t.width + n

-- `onData`, from its last part to the whole.
unfoldable pub finish_frame : Transport → Option ℤ → Exchange → Exchange
finish_frame t left x =
    if ltb (bytes_of t.width + get_or t.max_frame x.expected_length) x.received
    then fail trailing x
    else if not (is_complete t x x.expected_length)
    then x
    else if deadline_elapsed left
    then fail late_response x
    else answer_with (drop (bytes_of t.width) (joined x.chunks)) x

unfoldable pub begin_frame : Transport → Option ℤ → ℕ → Exchange → Exchange
unfolding finish_frame
begin_frame t left n x =
    let begun = record x { expected_length = some n; chunks = joined x.chunks ∷ [] } in
    if ltb n 1 || ltb t.max_frame n then fail bad_length begun else finish_frame t left begun

unfoldable pub receive : Transport → Option ℤ → Exchange → Exchange
unfolding finish_frame begin_frame
receive t left x =
    if ltb (bytes_of t.width + t.max_frame) x.received
    then fail long_response x
    else if not (is_set x.expected_length) && leb (bytes_of t.width) x.received
    then begin_frame t left (read_length t.width (joined x.chunks)) x
    else finish_frame t left x

-- What the socket emits for data; none is no buffer.
unfoldable pub on_data : Transport → Option ℤ → Option Bytes → Exchange → Exchange
unfolding receive
on_data t left none x = if is_set x.settled || not x.connected then x else fail not_a_buffer x
on_data t left (some chunk) x =
    if is_set x.settled || not x.connected
    then x
    else receive t left
        (record x { chunks = x.chunks ++ chunk ∷ []; received = x.received + length chunk })

-- The events of an exchange, and the other handlers.
pub data SocketEvent : Type 0 where
  connects : Bool → SocketEvent
  data_comes : Option Bytes → SocketEvent
  errs closes timer_fires aborts : SocketEvent

abbrev pub timeout_error : Bool → TransportError
timeout_error true = response_timed_out
timeout_error false = connect_timed_out

unfoldable pub handle : Transport → Option ℤ → SocketEvent → Exchange → Exchange
unfolding on_connect on_data
handle t left (connects authorized) x = on_connect t authorized left x
handle t left (data_comes chunk) x = on_data t left chunk x
handle t left errs x = fail socket_error x
handle t left closes x = fail closed_early x
handle t left timer_fires x = fail (timeout_error x.connected) x
handle t left aborts x = fail aborted x

unfoldable pub run : Transport → List (Option ℤ × SocketEvent) → Exchange → Exchange
unfolding handle
run t [] x = x
run t ((left, event) ∷ events) x = run t events (handle t left event x)
