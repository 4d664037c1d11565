-- ===== src/Ble/Transport/Linked.antt =====
-- The transport and the session layer, on whether a phone is there.
use strixcam.Prelude.{
  Bool, true, false, Option, none, some, List, [], ◌∷◌, ◌≡◌, refl, ◌∙◌, arith, sym, subst,
  if◌then◌else◌, Option-cases, inl, inr, Bool-cases, nat_eq,
}
use strixcam.Ble.Assembler.{Bytes, ChunkedPayload, Sent, begin_outbound, on_ack}
use strixcam.Ble.Transport.{
  BleTransport, WirePorts, StartOutcome, StopOutcome, on_raw_command, start, stop, called, notify,
  send_all, send_inbound_ack, send_response, run_command, receive, acknowledge, offer, brought_up,
}

pub data TransportCall : Type 0 where
  writes : Bytes → TransportCall
  starts : StartOutcome → StopOutcome → TransportCall
  stops : StopOutcome → TransportCall

module _ {C Q W : Type 0} (wire : WirePorts C Q) where
  abbrev pub step : TransportCall → BleTransport C Q W × W → BleTransport C Q W × W
  step (writes bytes) (t, w) = on_raw_command wire bytes t w
  step (starts o undo) (t, w) = start o undo t w
  step (stops o) (t, w) = stop o t w

  abbrev pub run : List TransportCall → BleTransport C Q W × W → BleTransport C Q W × W
  run [] s = s
  run (c ∷ cs) s = run cs (step c s)

  -- Who is told, and whether somebody is there.
  pub record SameEnds (a b : BleTransport C Q W) : Type 0 where
    pub on_command : a.on_command ≡ b.on_command
    pub on_connect : a.on_connect ≡ b.on_connect
    pub on_disconnect : a.on_disconnect ≡ b.on_disconnect
    pub central_present : a.central_present ≡ b.central_present

  SameEnds-refl : (t : BleTransport C Q W) → SameEnds t t
  SameEnds-refl t = record {
    on_command = refl;
    on_connect = refl;
    on_disconnect = refl;
    central_present = refl;
  }

  SameEnds-trans : (a b c : BleTransport C Q W) → SameEnds a b → SameEnds b c → SameEnds a c
  SameEnds-trans a b c p q = record {
    on_command = p.on_command ∙ q.on_command;
    on_connect = p.on_connect ∙ q.on_connect;
    on_disconnect = p.on_disconnect ∙ q.on_disconnect;
    central_present = p.central_present ∙ q.central_present;
  }

  notify-SameEnds : (bytes : Bytes) (t : BleTransport C Q W) → SameEnds (notify wire bytes t) t
  notify-SameEnds bytes t = record {
    on_command = ground arith;
    on_connect = ground arith;
    on_disconnect = ground arith;
    central_present = ground arith;
  }

  send_all-SameEnds : (sent : Sent) (t : BleTransport C Q W) → SameEnds (send_all wire sent t) t
  unfolding send_all
  send_all-SameEnds [] t = SameEnds-refl t
  send_all-SameEnds ((f, chunk) ∷ sent) t =
      let next = notify wire (wire.chunk_bytes chunk) t in
      SameEnds-trans _ next _ (send_all-SameEnds sent next)
        (notify-SameEnds (wire.chunk_bytes chunk) t)

  send_response-SameEnds :
      (response : Q) (t : BleTransport C Q W) → SameEnds (send_response wire response t) t
  unfolding send_response
  send_response-SameEnds response t =
      let begun =
        begin_outbound t.assembler (wire.response_id response) (wire.response_bytes response)
          (some 0) in
      let sent = send_all-SameEnds begun.2 (record t { assembler = begun.0 }) in
      record {
        on_command = ground (arith, sent.on_command);
        on_connect = ground (arith, sent.on_connect);
        on_disconnect = ground (arith, sent.on_disconnect);
        central_present = ground (arith, sent.central_present);
      }

  offer-SameEnds :
      (chunk : ChunkedPayload) (t : BleTransport C Q W) → SameEnds (offer wire chunk t).0 t
  unfolding offer send_inbound_ack
  offer-SameEnds chunk t = record {
    on_command = ground arith;
    on_connect = ground arith;
    on_disconnect = ground arith;
    central_present = ground arith;
  }

  acknowledge-SameEnds :
      (chunk : ChunkedPayload) (t : BleTransport C Q W) → SameEnds (acknowledge wire chunk t) t
  unfolding acknowledge
  acknowledge-SameEnds chunk t =
      let result = on_ack t.assembler chunk.correlation_id chunk.chunk_index in
      let sent = send_all-SameEnds result.2 (record t { assembler = result.0 }) in
      record {
        on_command = sent.on_command;
        on_connect = sent.on_connect;
        on_disconnect = sent.on_disconnect;
        central_present = sent.central_present;
      }

  receive-SameEnds :
      (chunk : ChunkedPayload) (t : BleTransport C Q W) → SameEnds (receive wire chunk t).0 t
  unfolding receive
  receive-SameEnds chunk t = elim (Bool-cases (nat_eq chunk.total_chunks 0)) [
    | inl ack ↦ rw ack (acknowledge-SameEnds chunk t)
    | inr chunked ↦ rw chunked (offer-SameEnds chunk t)
  ]

  module _ (linked : W → Bool) (connect disconnect : W → W) (command : C → W → W × Q)
      (linked-connect : (w : W) → linked (connect w) ≡ true)
      (linked-disconnect : (w : W) → linked (disconnect w) ≡ false)
      (linked-command : (c : C) (w : W) → linked (command c w).0 ≡ linked w) where
    -- The transport's handlers are these, and the session layer has been told what it knows.
    pub record IsLinked (s : BleTransport C Q W × W) : Type 0 where
      pub on_command : s.0.on_command ≡ some command
      pub on_connect : s.0.on_connect ≡ some connect
      pub on_disconnect : s.0.on_disconnect ≡ some disconnect
      pub agree : linked s.1 ≡ s.0.central_present

    SameEnds-IsLinked :
        (a b : BleTransport C Q W) (w : W) → SameEnds a b → IsLinked (b, w) → IsLinked (a, w)
    SameEnds-IsLinked a b w same h = record {
      on_command = same.on_command ∙ h.on_command;
      on_connect = same.on_connect ∙ h.on_connect;
      on_disconnect = same.on_disconnect ∙ h.on_disconnect;
      agree = h.agree ∙ sym same.central_present;
    }

    run_command-IsLinked :
        (c : Option C) (t : BleTransport C Q W) (w : W)
        → IsLinked (t, w)
        → IsLinked (run_command wire (some command) c t w)
    unfolding run_command
    run_command-IsLinked none t w h = h
    run_command-IsLinked (some c) t w h =
        SameEnds-IsLinked _ t _ (send_response-SameEnds (command c w).1 t) (record {
          on_command = h.on_command;
          on_connect = h.on_connect;
          on_disconnect = h.on_disconnect;
          agree = linked-command c w ∙ h.agree;
        })

    chunk-IsLinked :
        (chunk : ChunkedPayload) (t : BleTransport C Q W) (w : W)
        → IsLinked (t, w)
        → let (received, c) = receive wire chunk (record t { central_present = true }) in
          IsLinked (
            run_command wire t.on_command c received
              (if t.central_present then w else called t.on_connect w))
    chunk-IsLinked chunk t w h =
        let got = receive wire chunk (record t { central_present = true }) in
        let told : linked (if t.central_present then w else called t.on_connect w) ≡ true =
          elim (Bool-cases t.central_present) [
            | inl there ↦ rw there (h.agree ∙ there)
            | inr gone ↦ rw (gone, h.on_connect) (linked-connect w)
          ] in
        let present : BleTransport C Q W = record t { central_present = true } in
        let linked_now = if t.central_present then w else called t.on_connect w in
        subst (λ k. IsLinked (run_command wire k got.1 got.0 linked_now)) (sym h.on_command)
          (run_command-IsLinked got.1 got.0 linked_now (
            SameEnds-IsLinked got.0 present linked_now (receive-SameEnds chunk present) (record {
              on_command = h.on_command;
              on_connect = h.on_connect;
              on_disconnect = h.on_disconnect;
              agree = told;
            })))

    on_raw_command-IsLinked :
        (bytes : Bytes) (t : BleTransport C Q W) (w : W)
        → IsLinked (t, w)
        → IsLinked (on_raw_command wire bytes t w)
    unfolding on_raw_command
    on_raw_command-IsLinked bytes t w h = elim (Option-cases (wire.parse_chunk bytes)) [
      | inl e ↦ rw (e, on_raw_command) h
      | inr (chunk, e) ↦ rw (e, on_raw_command) (chunk-IsLinked chunk t w h)
    ]

    stop-IsLinked :
        (o : StopOutcome) (t : BleTransport C Q W) (w : W) → IsLinked (t, w) → IsLinked (stop o t w)
    unfolding stop
    stop-IsLinked o t w h =
        let told = linked-disconnect w in
        record {
          on_command = ground (arith, h.on_command);
          on_connect = ground (arith, h.on_connect);
          on_disconnect = ground (arith, h.on_disconnect);
          agree = ground (arith, h.on_disconnect, h.agree, told);
        }

    brought_up-SameEnds :
        (o : StartOutcome) (t : BleTransport C Q W) → SameEnds (brought_up o t).0 t
    brought_up-SameEnds o t = record {
      on_command = ground arith;
      on_connect = ground arith;
      on_disconnect = ground arith;
      central_present = ground arith;
    }

    start-IsLinked :
        (o : StartOutcome) (undo : StopOutcome) (t : BleTransport C Q W) (w : W)
        → IsLinked (t, w)
        → IsLinked (start o undo t w)
    unfolding start
    start-IsLinked o undo t w h =
        let bound : BleTransport C Q W = record t { connection = true } in
        let up = (brought_up o bound).0 in
        let ups : IsLinked (up, w) =
          SameEnds-IsLinked up bound w (brought_up-SameEnds o bound) (record {
            on_command = h.on_command;
            on_connect = h.on_connect;
            on_disconnect = h.on_disconnect;
            agree = h.agree;
          }) in
        elim (Bool-cases t.running) [
          | inl runs ↦ subst IsLinked (ground (arith, runs)) h
          | inr rests ↦ elim (Bool-cases o.bus) [
            | inr none_there ↦ subst IsLinked (ground (arith, rests, none_there)) h
            | inl there ↦ elim (Bool-cases (brought_up o bound).1) [
              | inl all_up ↦ subst IsLinked (ground (arith, rests, there, all_up)) ups
              | inr failed_ ↦
                  subst IsLinked (ground (arith, rests, there, failed_))
                    (stop-IsLinked undo up w ups)
            ]
          ]
        ]

    step-IsLinked :
        (c : TransportCall) (s : BleTransport C Q W × W) → IsLinked s → IsLinked (step c s)
    step-IsLinked (writes bytes) (t, w) h = on_raw_command-IsLinked bytes t w h
    step-IsLinked (starts o undo) (t, w) h = start-IsLinked o undo t w h
    step-IsLinked (stops o) (t, w) h = stop-IsLinked o t w h

    -- Whatever bytes are written and however often the transport is started and stopped, with calls
    -- of D-Bus that fail or not: the session layer takes a phone for connected exactly as long as
    -- the transport has one, where its connect and disconnect handlers set this and the command
    -- handler leaves it.
    pub run-IsLinked :
        (cs : List TransportCall) (s : BleTransport C Q W × W) → IsLinked s → IsLinked (run cs s)
    run-IsLinked [] s h = h
    run-IsLinked (c ∷ cs) s h = run-IsLinked cs (step c s) (step-IsLinked c s h)
