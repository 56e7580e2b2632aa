-- ===== src/Transport/Laws.antt =====
-- What an exchange of packages/host-iso8583/src/framed-transport.ts makes of the chunks that come.
use cashblocks.Prelude.{
  if_rule, ◌+◌, ◌≡◌, ◌≤◌, ◌<◌, refl, sym, ap, subst, ◌∙◌, true, false, not, ◌&&◌, ◌||◌, Option,
  none, some, List, [], ◌∷◌, ◌++◌, append_assoc, append-nil, length, length-append, drop, any,
  arith, inl, inr, ◌⊎◌, ltb, leb, ◌==◌, Bool-cases,
}
use cashblocks.Prelude.Int.{ℤ}
use cashblocks.Prelude.Result.{ok}
use cashblocks.Cash.{is_set}
use cashblocks.Simulator.{get_or}
use cashblocks.Iso8583.{is_printable}
use cashblocks.Transport.{
  Bytes, bytes_of, representable, Transport, header, read_length, frame_of, deadline_elapsed,
  Exchange, joined, answer_with, is_complete, finish_frame, begin_frame, receive, on_data,
}
use cashblocks.Transport.Frames.{length-header, drop-header, read_length-header}

-- A payload that the transport takes.
pub record IsPayload (t : Transport) (payload : Bytes) : Type 0 where
  pub present : 1 ≤ length payload
  pub bounded : length payload ≤ t.max_frame
  pub representable : t.max_frame ≤ representable t.width
  pub printable : any (λ byte. not (is_printable byte)) payload ≡ false

-- The exchange has been sent `b` and waits for more.
pub record Waits (t : Transport) (payload b : Bytes) (x : Exchange) : Type 0 where
  pub settled : x.settled ≡ none
  pub connected : x.connected ≡ true
  pub joins : joined x.chunks ≡ b
  pub counts : x.received ≡ length b
  pub expects :
      ((length b < bytes_of t.width) × (x.expected_length ≡ none))
      ⊎ ((bytes_of t.width ≤ length b) × (x.expected_length ≡ some (length payload)))

abbrev pub Goes : Transport → Bytes → Bytes → Exchange → Type 0
Goes t payload b x =
    (Waits t payload b x × (length b < length (frame_of t payload)))
    ⊎ ((x.settled ≡ some (ok payload)) × (length b ≡ length (frame_of t payload)))

joined-snoc :
    (chunks : List Bytes) (chunk : Bytes) → joined (chunks ++ (chunk ∷ [])) ≡ joined chunks ++ chunk
joined-snoc [] chunk = append-nil chunk
joined-snoc (c ∷ chunks) chunk =
    ap (c ++◌) (joined-snoc chunks chunk) ∙ sym (append_assoc c (joined chunks) chunk)

pub length-frame_of :
    (t : Transport) (payload : Bytes)
    → length (frame_of t payload) ≡ bytes_of t.width + length payload
length-frame_of t payload =
    length-append (header t.width (length payload)) payload
    ∙ ap (◌+ length payload) (length-header t.width (length payload))

all_there : (b rest frame : Bytes) → b ++ rest ≡ frame → length b ≡ length frame → b ≡ frame
all_there b [] frame e h = sym (append-nil b) ∙ e
all_there b (c ∷ rest) frame e h =
    let size : length b + length (c ∷ rest) ≡ length frame =
      sym (length-append b (c ∷ rest)) ∙ ap length e in
    absurd (omega arith)

module _ (t : Transport) (payload : Bytes) (is_payload : IsPayload t payload) where
  answers : (x : Exchange) → x.settled ≡ none → (answer_with payload x).settled ≡ some (ok payload)
  answers x open_ = rw (is_payload.printable, open_) refl

  within :
      (b rest : Bytes)
      → b ++ rest ≡ frame_of t payload
      → length b ≤ bytes_of t.width + length payload
  within b rest e =
      let size : length b + length rest ≡ bytes_of t.width + length payload =
        sym (length-append b rest) ∙ ap length e ∙ length-frame_of t payload in
      omega arith

  -- The two tests of a frame that is under way.
  not_trailing :
      (b : Bytes) (x : Exchange)
      → length b ≤ bytes_of t.width + length payload
      → Waits t payload b x
      → ltb (bytes_of t.width + get_or t.max_frame x.expected_length) x.received ≡ false
  not_trailing b x fits w =
      let counts = w.counts in
      elim w.expects [
        | inl (short, unknown) ↦ rw unknown (ground arith)
        | inr (long, known) ↦ rw known (ground arith)
      ]

  completeness :
      (b : Bytes) (x : Exchange)
      → length b ≤ bytes_of t.width + length payload
      → Waits t payload b x
      → ((is_complete t x x.expected_length ≡ true)
          × (length b ≡ bytes_of t.width + length payload))
        ⊎ ((is_complete t x x.expected_length ≡ false)
            × (length b < bytes_of t.width + length payload))
  completeness b x fits w =
      let counts = w.counts in
      elim w.expects [
        | inl (short, unknown) ↦ inr (rw unknown refl, omega arith)
        | inr (long, known) ↦ elim (Bool-cases (x.received == bytes_of t.width + length payload)) [
          | inl whole ↦ inl (rw known whole, ground arith)
          | inr part ↦ inr (rw known part, ground arith)
        ]
      ]

  finish-Goes :
      (left : Option ℤ) (b rest : Bytes) (x : Exchange)
      → deadline_elapsed left ≡ false
      → b ++ rest ≡ frame_of t payload
      → Waits t payload b x
      → Goes t payload b (finish_frame t left x)
  unfolding finish_frame
  finish-Goes left b rest x early e w =
      let fits = within b rest e in
      let size = length-frame_of t payload in
      elim (completeness b x fits w) [
        | inl (whole, full) ↦
            let is_frame = all_there b rest (frame_of t payload) e (full ∙ sym size) in
            let response : drop (bytes_of t.width) (joined x.chunks) ≡ payload =
              ap (drop (bytes_of t.width)) (w.joins ∙ is_frame)
              ∙ drop-header t.width (length payload) payload in
            inr (
              rw (not_trailing b x fits w, whole, early, response) (answers x w.settled),
              full ∙ sym size,
            )
        | inr (part, less) ↦ inl (rw (not_trailing b x fits w, part) w, rw size less)
      ]

  begin-Goes :
      (left : Option ℤ) (b rest : Bytes) (x : Exchange)
      → deadline_elapsed left ≡ false
      → b ++ rest ≡ frame_of t payload
      → x.settled ≡ none
      → x.connected ≡ true
      → joined x.chunks ≡ b
      → x.received ≡ length b
      → bytes_of t.width ≤ length b
      → Goes t payload b (begin_frame t left (length payload) x)
  unfolding begin_frame
  begin-Goes left b rest x early e open_ connected joins counts long =
      let present = is_payload.present in
      let bounded = is_payload.bounded in
      let valid : (ltb (length payload) 1 || ltb t.max_frame (length payload)) ≡ false =
        ground arith in
      rw valid (
        finish-Goes left b rest _ early e (record {
          settled = open_;
          connected = connected;
          joins = append-nil (joined x.chunks) ∙ joins;
          counts = counts;
          expects = inr (long, refl);
        }))

  receive-Goes :
      (left : Option ℤ) (b rest : Bytes) (x : Exchange)
      → deadline_elapsed left ≡ false
      → b ++ rest ≡ frame_of t payload
      → x.settled ≡ none
      → x.connected ≡ true
      → joined x.chunks ≡ b
      → x.received ≡ length b
      → ((x.expected_length ≡ none)
          ⊎ ((bytes_of t.width ≤ length b) × (x.expected_length ≡ some (length payload))))
      → Goes t payload b (receive t left x)
  unfolding receive
  receive-Goes left b rest x early e open_ connected joins counts expects =
      let fits = within b rest e in
      let bounded = is_payload.bounded in
      if_rule (Goes t payload b) (ltb (bytes_of t.width + t.max_frame) x.received) _ _
        (λ bad. absurd (ground arith))
        (λ fine.
          if_rule (Goes t payload b)
            (not (is_set x.expected_length) && leb (bytes_of t.width) x.received)
            (begin_frame t left (read_length t.width (joined x.chunks)) x) _
            (λ begins.
              let long : bytes_of t.width ≤ length b = ground arith in
              let read : read_length t.width (joined x.chunks) ≡ length payload =
                rw joins (
                  read_length-header t.width (length payload) b rest payload (omega arith) long
                    e) in
              subst (λ n. Goes t payload b (begin_frame t left n x)) (sym read)
                (begin-Goes left b rest x early e open_ connected joins counts long))
            (λ continues. finish-Goes left b rest x early e (record {
              settled = open_;
              connected = connected;
              joins = joins;
              counts = counts;
              expects = elim expects [
                | inr known ↦ inr known
                | inl unknown ↦
                    let no_prefix : is_set x.expected_length ≡ false = ap is_set unknown in
                    inl (ground arith, unknown)
              ];
            })))

  pub data-Goes :
      (left : Option ℤ) (chunk b rest : Bytes) (x : Exchange)
      → deadline_elapsed left ≡ false
      → (b ++ chunk) ++ rest ≡ frame_of t payload
      → Waits t payload b x
      → Goes t payload (b ++ chunk) (on_data t left (some chunk) x)
  unfolding on_data
  data-Goes left chunk b rest x early e w =
      let size = length-append b chunk in
      let open_ : is_set x.settled ≡ false = ap is_set w.settled in
      let linked = w.connected in
      if_rule (Goes t payload (b ++ chunk)) (is_set x.settled || not x.connected) _ _
        (λ closed. absurd (ground arith))
        (λ fine.
          receive-Goes left (b ++ chunk) rest _ early e w.settled w.connected
            (joined-snoc x.chunks chunk ∙ ap (◌++ chunk) w.joins)
            (ap (◌+ length chunk) w.counts ∙ sym size)
            (elim w.expects [
              | inl (short, unknown) ↦ inl unknown
              | inr (long, known) ↦ inr (omega arith, known)
            ]))
