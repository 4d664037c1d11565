-- ===== src/Ble/Transport.antt =====
-- src/adapters/control/ble/bluez/bluez-ble-transport.cpp and src/app/control/services/chunk-ack: the
-- transport between the phone's writes and the command handler. What is notified is a list. The
-- messages' parsing and printing are parameters, and so is which D-Bus call throws. The handlers
-- act on a world `W`; between the two locked parts of `OnRawCommand` no other thread calls.
pub mod Linked
pub mod Commands
use strixcam.Prelude.{
  ℕ, Bool, true, false, not, ◌&&◌, ◌||◌, Option, none, some, String, List, [], ◌∷◌, ◌++◌, map,
  nat_eq, if◌then◌else◌,
}
use strixcam.Ble.Assembler.{
  Bytes, ChunkAssembler, ChunkedPayload, OfferResult, Sent, offer_inbound, on_ack, begin_outbound,
  reset,
}

-- sst_cam::ChunkAck
pub record ChunkAck : Type 0 where
  pub correlation_id : String
  pub chunk_index : ℕ

abbrev pub chunk_ack_total_chunks : ℕ
chunk_ack_total_chunks = 0

abbrev pub build_inbound_ack : String → ℕ → ChunkAck
build_inbound_ack corr index = record { correlation_id = corr; chunk_index = index }

-- Commands `C` and responses `Q` on the wire.
pub record WirePorts (C Q : Type 0) : Type 0 where
  pub parse_chunk : Bytes → Option ChunkedPayload
  pub chunk_bytes : ChunkedPayload → Bytes
  pub ack_bytes : ChunkAck → Bytes
  pub parse_command : Bytes → Option C
  pub response_bytes : Q → Bytes
  pub response_id : Q → String

pub record BleTransport (C Q W : Type 0) : Type 0 where
  pub connection : Bool
  pub gatt_app : Bool
  pub on_command : Option (C → W → W × Q)
  pub on_connect : Option (W → W)
  pub on_disconnect : Option (W → W)
  pub central_present : Bool
  pub assembler : ChunkAssembler
  pub running : Bool
  pub advertisement_registered : Bool
  pub application_registered : Bool
  pub notified : List Bytes

-- Whether each step of `Start` succeeds. `objects` is the making of the GATT application.
pub record StartOutcome : Type 0 where
  pub bus : Bool
  pub objects : Bool
  pub advertisement : Bool
  pub register_advertisement : Bool
  pub register_application : Bool
  pub event_loop : Bool

-- Whether the unregistrations succeed, with the making of the proxy before them.
pub record StopOutcome : Type 0 where
  pub proxy : Bool
  pub unregister_advertisement : Bool
  pub unregister_application : Bool

-- The name under which the assembler keeps the transport's send closure.
abbrev pub send_closure : ℕ
send_closure = 0

-- An empty handler is not called.
abbrev pub called : {W : Type 0} → Option (W → W) → W → W
called none w = w
called (some f) w = f w

abbrev pub parsed : {C : Type 0} → (Bytes → Option C) → Option Bytes → Option C
parsed parse none = none
parsed parse (some payload) = parse payload

module _ {C Q W : Type 0} where
  abbrev unregistered : StopOutcome → BleTransport C Q W → BleTransport C Q W
  unregistered o t =
      if not (t.connection && (t.advertisement_registered || t.application_registered))
      then t
      else if not o.proxy
      then t
      else if t.advertisement_registered && not o.unregister_advertisement
      then t
      else if t.application_registered && not o.unregister_application
      then record t { advertisement_registered = false }
      else record t { advertisement_registered = false; application_registered = false }

  -- After the clean-up: no object of D-Bus is left, and nothing half-assembled.
  abbrev dropped : BleTransport C Q W → BleTransport C Q W
  dropped t = record t {
    assembler = reset t.assembler;
    gatt_app = false;
    connection = false;
    running = false;
  }

  unfoldable pub stop : StopOutcome → BleTransport C Q W → W → BleTransport C Q W × W
  stop o t w =
      if not t.running
        && not t.advertisement_registered
        && not t.application_registered
        && not t.connection
      then (t, w)
      else let gone = record t { central_present = false } in
        (dropped (unregistered o gone), if t.central_present then called t.on_disconnect w else w)

  -- How far `Start` comes before a call throws, and whether it comes to its end.
  abbrev pub brought_up : StartOutcome → BleTransport C Q W → BleTransport C Q W × Bool
  brought_up o t =
      if not o.objects
      then (t, false)
      else if not (o.advertisement && o.register_advertisement)
      then (record t { gatt_app = true }, false)
      else if not o.register_application
      then (record t { gatt_app = true; advertisement_registered = true }, false)
      else let up = record t {
        gatt_app = true;
        advertisement_registered = true;
        application_registered = true;
      } in
        if o.event_loop then (record up { running = true }, true) else (up, false)

  unfoldable pub start :
      StartOutcome → StopOutcome → BleTransport C Q W → W → BleTransport C Q W × W
  unfolding stop
  start o undo t w =
      if t.running
      then (t, w)
      else if not o.bus
      then (t, w)
      else let (up, succeeded) = brought_up o (record t { connection = true }) in
        if succeeded then (up, w) else stop undo up w

  module _ (wire : WirePorts C Q) where
    -- `SendNotification`, where the GATT application is there.
    abbrev pub notify : Bytes → BleTransport C Q W → BleTransport C Q W
    notify bytes t = if t.gatt_app then record t { notified = t.notified ++ bytes ∷ [] } else t

    -- The closure that the assembler was given, at every chunk that it sends.
    unfoldable pub send_all : Sent → BleTransport C Q W → BleTransport C Q W
    send_all [] t = t
    send_all ((f, chunk) ∷ sent) t = send_all sent (notify (wire.chunk_bytes chunk) t)

    unfoldable pub send_inbound_ack : String → ℕ → BleTransport C Q W → BleTransport C Q W
    send_inbound_ack corr index t = notify (wire.ack_bytes (build_inbound_ack corr index)) t

    unfoldable pub send_response : Q → BleTransport C Q W → BleTransport C Q W
    unfolding send_all
    send_response response t =
        if not t.gatt_app
        then t
        else let (assembler, total, sent) =
            begin_outbound t.assembler (wire.response_id response) (wire.response_bytes response)
              (some send_closure) in
          send_all sent (record t { assembler = assembler })

    -- A write of the phone that acknowledges a chunk of a response.
    unfoldable pub acknowledge : ChunkedPayload → BleTransport C Q W → BleTransport C Q W
    unfolding send_all
    acknowledge chunk t =
        let (assembler, finished, sent) =
          on_ack t.assembler chunk.correlation_id chunk.chunk_index in
        send_all sent (record t { assembler = assembler })

    -- A chunk of a command: acknowledged where the assembler accepts it.
    unfoldable pub offer : ChunkedPayload → BleTransport C Q W → BleTransport C Q W × Option C
    unfolding send_inbound_ack
    offer chunk t =
        let (assembler, result) = offer_inbound t.assembler chunk in
        let offered = record t { assembler = assembler } in
        (
          if result.accepted
              then send_inbound_ack chunk.correlation_id chunk.chunk_index offered
              else offered,
          parsed wire.parse_command result.payload,
        )

    -- The first locked part.
    unfoldable pub receive : ChunkedPayload → BleTransport C Q W → BleTransport C Q W × Option C
    unfolding acknowledge offer
    receive chunk t =
        if nat_eq chunk.total_chunks chunk_ack_total_chunks
        then (acknowledge chunk t, none)
        else offer chunk t

    -- The command, run without the lock, and its response.
    unfoldable pub run_command :
        Option (C → W → W × Q) → Option C → BleTransport C Q W → W → BleTransport C Q W × W
    unfolding send_response
    run_command handler none t w = (t, w)
    run_command none (some command) t w = (t, w)
    run_command (some handler) (some command) t w =
        let (after, response) = handler command w in (send_response response t, after)

    unfoldable pub on_raw_command : Bytes → BleTransport C Q W → W → BleTransport C Q W × W
    unfolding receive run_command
    on_raw_command bytes t w = elim (wire.parse_chunk bytes) [
      | none ↦ (t, w)
      | some chunk ↦
          let (received, command) = receive chunk (record t { central_present = true }) in
          let connected = if t.central_present then w else called t.on_connect w in
          run_command t.on_command command received connected
    ]
