-- ===== src/Control/StreamingHandler/Egress.antt =====
-- The egress stream under StreamingHandler.
use strixcam.Prelude.{
  if◌then◌else◌, Bool, true, false, ◌&&◌, ◌||◌, Option, none, some, String, ◌==◌, text_keys, not,
  ◌≡◌, arith,
}
use strixcam.Prelude.Int.{int_keys, ℤ_eq}
use strixcam.Prelude.Assoc.{lookup, lookup-insert, lookup-erase}
use strixcam.Control.Message.{ResponseStatus, ok, error}
use strixcam.Streaming.{StreamPorts, start_platform_stream, stop_platform_stream}
use strixcam.Control.StreamingHandler.{
  StreamingHandler, StreamingAction, streaming_start, streaming_stop, other_action, control, egress,
  egress_stream_id, destination_of, handle, handle_control,
}

abbrev pub active : {A S : Type 0} → StreamingHandler A S → Bool
active h = elim (lookup egress_stream_id h.streaming.platform_streams) [
  | none ↦ false
  | some _ ↦ true
]

abbrev pub status_of : Bool → ResponseStatus
status_of true = ok
status_of false = error

-- Whether the factory makes a streamer that starts to this destination.
abbrev pub would_start : {F A S : Type 0} → StreamPorts F A S → String → Option S → Bool
would_start ports url none = false
would_start ports url (some streamer) = (ports.start (egress url) streamer).1

module _ {F A S : Type 0} (ports : StreamPorts F A S) where
  abbrev pub succeeds : StreamingAction → String → Option S → StreamingHandler A S → Bool
  succeeds streaming_start url made h =
      not (url == "") && not (active h) && would_start ports url made
  succeeds streaming_stop url made h = active h
  succeeds other_action url made h = false

  abbrev pub active_after : StreamingAction → Bool → StreamingHandler A S → Bool
  active_after streaming_start good h = active h || good
  active_after streaming_stop good h = false
  active_after other_action good h = active h

  -- A start is answered OK exactly when there is a destination, its own or the configured one, no
  -- egress runs yet and the streamer starts to this destination; then the egress runs, and
  -- otherwise it runs if it did before. A stop is answered OK exactly when the egress ran, and
  -- leaves none. No control changes the configured URL.
  pub handle_control-active :
      (action : StreamingAction) (asked : String) (made : Option S) (h : StreamingHandler A S)
      → let url = if asked == "" then h.configured_rtmp_url else asked in
        let good = succeeds action url made h in
        let result = handle ports (control action asked) made h in
        (result.1.status ≡ status_of good)
        × (active result.0 ≡ active_after action good h)
        × (result.0.configured_rtmp_url ≡ h.configured_rtmp_url)
  unfolding handle handle_control start_platform_stream stop_platform_stream ℤ_eq
  handle_control-active streaming_start asked none h = ground arith
  handle_control-active streaming_start asked (some streamer) h =
      let url = destination_of asked h.configured_rtmp_url in
      ground (
        arith,
        lookup-insert egress_stream_id egress_stream_id (ports.start (egress url) streamer).0
            h.streaming.platform_streams,
      )
  handle_control-active streaming_stop asked made h =
      ground (arith, lookup-erase egress_stream_id egress_stream_id h.streaming.platform_streams)
  handle_control-active other_action asked made h = ground arith
