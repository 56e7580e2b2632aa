-- ===== src/Transport/Runs.antt =====
-- Whole runs of an exchange of packages/host-iso8583/src/framed-transport.ts.
use cashblocks.Prelude.{
  if_rule, ◌≡◌, ◌<◌, refl, sym, ap, subst, ◌∙◌, Bool, true, false, not, ◌&&◌, ◌||◌, Option, none,
  some, List, [], ◌∷◌, ◌++◌, append_assoc, append-nil, length, All, all, any, ltb, Bool-cases,
  arith, inl, inr,
}
use cashblocks.Prelude.Int.{ℤ}
use cashblocks.Prelude.Result.{ok, throw_if-eq-ok, ok-injective}
use cashblocks.Iso8583.{is_nonempty, is_printable}
use cashblocks.Cash.{is_set}
use cashblocks.Transport.{
  Bytes, Width, two, four, TransportError, bytes_of, Transport, frame_of, deadline_elapsed,
  Exchange, fail, joined, exchange, on_connect, on_data, handle, run, SocketEvent, connects,
  data_comes, errs, closes, timer_fires, aborts,
}
use cashblocks.Transport.Laws.{IsPayload, Waits, data-Goes, length-frame_of}

fail-settled : (e : TransportError) (x : Exchange) → is_set x.settled ≡ true → fail e x ≡ x
fail-settled e x h = if_rule (λ y. y ≡ x) (is_set x.settled) x _ (λ _. refl) (λ no. cc)

handle-settled :
    (t : Transport) (left : Option ℤ) (event : SocketEvent) (x : Exchange)
    → is_set x.settled ≡ true
    → handle t left event x ≡ x
unfolding handle on_connect on_data
handle-settled t left (connects authorized) x h =
    if_rule (λ y. y ≡ x) (is_set x.settled || x.connected) x _ (λ _. refl)
      (λ no. absurd (ground arith))
handle-settled t left (data_comes none) x h =
    if_rule (λ y. y ≡ x) (is_set x.settled || not x.connected) x _ (λ _. refl)
      (λ no. absurd (ground arith))
handle-settled t left (data_comes (some chunk)) x h =
    if_rule (λ y. y ≡ x) (is_set x.settled || not x.connected) x _ (λ _. refl)
      (λ no. absurd (ground arith))
handle-settled t left errs x h = fail-settled _ x h
handle-settled t left closes x h = fail-settled _ x h
handle-settled t left timer_fires x h = fail-settled _ x h
handle-settled t left aborts x h = fail-settled _ x h

-- An exchange settles once: whatever the socket, the timer and the signal still do, an exchange that has
-- settled stays as it is.
pub run-settled :
    (t : Transport) (events : List (Option ℤ × SocketEvent)) (x : Exchange)
    → is_set x.settled ≡ true
    → run t events x ≡ x
unfolding run
run-settled t [] x h = refl
run-settled t ((left, event) ∷ events) x h =
    let same = handle-settled t left event x h in ap (run t events) same ∙ run-settled t events x h

-- The events of chunks that come, and the bytes that they bring.
abbrev pub data_events : List (Option ℤ × Bytes) → List (Option ℤ × SocketEvent)
data_events [] = []
data_events ((left, chunk) ∷ chunks) = (left, data_comes (some chunk)) ∷ data_events chunks

abbrev pub bytes_sent : List (Option ℤ × Bytes) → Bytes
bytes_sent [] = []
bytes_sent ((left, chunk) ∷ chunks) = chunk ++ bytes_sent chunks

abbrev pub IsEarly : Option ℤ × Bytes → Type 0
IsEarly (left, chunk) = deadline_elapsed left ≡ false

module _ (t : Transport) (payload : Bytes) (is_payload : IsPayload t payload) where
  run-Waits :
      (chunks : List (Option ℤ × Bytes)) (b : Bytes) (x : Exchange)
      → All IsEarly chunks
      → b ++ bytes_sent chunks ≡ frame_of t payload
      → Waits t payload b x
      → length b < length (frame_of t payload)
      → (run t (data_events chunks) x).settled ≡ some (ok payload)
  unfolding run handle
  run-Waits [] b x early e w less =
      let whole : length b ≡ length (frame_of t payload) = ap length (sym (append-nil b) ∙ e) in
      absurd (omega arith)
  run-Waits ((left, chunk) ∷ chunks) b x (first, early) e w less =
      let e : (b ++ chunk) ++ bytes_sent chunks ≡ frame_of t payload =
        append_assoc b chunk (bytes_sent chunks) ∙ e in
      elim (data-Goes t payload is_payload left chunk b (bytes_sent chunks) x first e w) [
        | inl (waits, less) ↦ run-Waits chunks (b ++ chunk) _ early e waits less
        | inr (answered, whole) ↦
            ap (λ (x : Exchange). x.settled)
              (run-settled t (data_events chunks) (on_data t left (some chunk) x)
                (ap is_set answered))
            ∙ answered
      ]

-- What the exchange is once it has opened its socket.
exchange-ok :
    (t : Transport) (message : Bytes) (left : Option ℤ) (x : Exchange)
    → exchange t false message left ≡ ok x
    → (x.settled ≡ none)
      × (x.connected ≡ false)
      × (x.frame ≡ frame_of t message)
      × (x.written ≡ [])
      × (x.expected_length ≡ none)
      × (x.chunks ≡ [])
      × (x.received ≡ 0)
unfolding exchange
exchange-ok t message left x h =
    let (_, h) = throw_if-eq-ok (not (is_nonempty message && all is_printable message)) _ _ h in
    let (_, h) = throw_if-eq-ok (ltb t.max_frame (length message)) _ _ h in
    let (_, h) = throw_if-eq-ok (deadline_elapsed left) _ _ h in
    subst
      (λ (x : Exchange).
        (x.settled ≡ none)
        × (x.connected ≡ false)
        × (x.frame ≡ frame_of t message)
        × (x.written ≡ [])
        × (x.expected_length ≡ none)
        × (x.chunks ≡ [])
        × (x.received ≡ 0))
      (ok-injective _ x h) (refl, refl, refl, refl, refl, refl, refl)

bytes_positive : (w : Width) → 0 < bytes_of w
bytes_positive two = omega arith
bytes_positive four = omega arith

-- Whatever the chunks are in which the frame of a payload comes, as long as each comes before the
-- deadline, an exchange whose socket connects, and is authorized where it has to be, answers with that
-- payload.
pub exchange-reassembles :
    (t : Transport) (message payload : Bytes) (left left' : Option ℤ) (x : Exchange)
    (chunks : List (Option ℤ × Bytes))
    → IsPayload t payload
    → exchange t false message left ≡ ok x
    → deadline_elapsed left' ≡ false
    → All IsEarly chunks
    → bytes_sent chunks ≡ frame_of t payload
    → (run t ((left', connects true) ∷ data_events chunks) x).settled ≡ some (ok payload)
unfolding run handle on_connect
exchange-reassembles t message payload left left' x chunks is_payload started early all_early sent =
    let (open_, unlinked, framed, nothing, unknown, empty, none_yet) =
      exchange-ok t message left x started in
    let positive = bytes_positive t.width in
    let size = length-frame_of t payload in
    let set : is_set x.settled ≡ false = ap is_set open_ in
    if_rule (λ y. (run t (data_events chunks) y).settled ≡ some (ok payload))
      (is_set x.settled || x.connected) x _ (λ bad. absurd (ground arith))
      (λ _.
        if_rule (λ y. (run t (data_events chunks) y).settled ≡ some (ok payload))
          (t.secure && not true) _ _ (λ bad. absurd (ground arith))
          (λ _.
            if_rule (λ y. (run t (data_events chunks) y).settled ≡ some (ok payload))
              (deadline_elapsed left') _ _ (λ late. cc)
              (λ _.
                run-Waits t payload is_payload chunks [] _ all_early sent
                  (record {
                    settled = open_;
                    connected = refl;
                    joins = ap joined empty;
                    counts = none_yet;
                    expects = inl (positive, unknown);
                  })
                  (rw size (omega arith)))))

-- The events that end an exchange: an error, a close, a timeout or an abort.
abbrev pub is_end : SocketEvent → Bool
is_end (connects authorized) = false
is_end (data_comes chunk) = false
is_end errs = true
is_end closes = true
is_end timer_fires = true
is_end aborts = true

fail_settles : (e : TransportError) (x : Exchange) → is_set (fail e x).settled ≡ true
fail_settles e x =
    if_rule (λ (y : Exchange). is_set y.settled ≡ true) (is_set x.settled) x _ (λ set. set)
      (λ _. refl)

handle_settles :
    (t : Transport) (left : Option ℤ) (event : SocketEvent) (x : Exchange)
    → is_end event ≡ true
    → is_set (handle t left event x).settled ≡ true
unfolding handle
handle_settles t left (connects authorized) x h = cc
handle_settles t left (data_comes chunk) x h = cc
handle_settles t left errs x h = fail_settles _ x
handle_settles t left closes x h = fail_settles _ x
handle_settles t left timer_fires x h = fail_settles _ x
handle_settles t left aborts x h = fail_settles _ x

-- An exchange ends: a run in which the socket errs or closes, the timer fires or the operation is
-- aborted has settled, whatever comes before and after.
pub run_settles :
    (t : Transport) (events : List (Option ℤ × SocketEvent)) (x : Exchange)
    → any (λ e. is_end e.1) events ≡ true
    → is_set (run t events x).settled ≡ true
unfolding run
run_settles t [] x h = cc
run_settles t ((left, event) ∷ events) x h = elim (Bool-cases (is_end event)) [
  | inl ends ↦
      let set = handle_settles t left event x ends in
      rw (run-settled t events (handle t left event x) set) set
  | inr goes ↦ run_settles t events (handle t left event x) (ground arith)
]
