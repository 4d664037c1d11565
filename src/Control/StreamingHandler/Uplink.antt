-- ===== src/Control/StreamingHandler/Uplink.antt =====
-- StreamingHandler with the RTMP streamer that main.cpp gives it.
use strixcam.Prelude.{false, some, String, text_keys, ◌≡◌, arith}
use strixcam.Control.Message.{error}
use strixcam.Streaming.{StreamPorts}
use strixcam.Streaming.Rtmp.{RtmpStreamer, LaunchOutcome, idle_streamer, start}
use strixcam.Control.StreamingHandler.{
  StreamingHandler, streaming_start, control, destination_of, handle,
}
use strixcam.Control.StreamingHandler.Egress.{active, handle_control-active, would_start, succeeds}

module _ {F A : Type 0} (ports : StreamPorts F A RtmpStreamer) (outcome : LaunchOutcome) where
  -- The ports whose streamers start as the RTMP streamer does.
  abbrev pub rtmp_ports : StreamPorts F A RtmpStreamer
  rtmp_ports = record ports { start = start outcome }

  never_starts : (url : String) → would_start rtmp_ports url (some idle_streamer) ≡ false
  unfolding start
  never_starts url = ground arith

  never_succeeds :
      (url : String) (h : StreamingHandler A RtmpStreamer)
      → succeeds rtmp_ports streaming_start url (some idle_streamer) h ≡ false
  never_succeeds url h = ground (arith, never_starts url)

  -- With the RTMP streamer no start of the egress is ever answered OK, whatever destination the
  -- command or the configuration names and whatever GStreamer would do, and no egress runs that
  -- did not run before: the handler passes no stream key, and the streamer wants one.
  pub start-uplink_fails :
      (asked : String) (h : StreamingHandler A RtmpStreamer)
      → let result = handle rtmp_ports (control streaming_start asked) (some idle_streamer) h in
        (result.1.status ≡ error) × (active result.0 ≡ active h)
  start-uplink_fails asked h =
      let url = destination_of asked h.configured_rtmp_url in
      let (status, after, _) =
        handle_control-active rtmp_ports streaming_start asked (some idle_streamer) h in
      let bad = never_succeeds url h in (ground (arith, status, bad), ground (arith, after, bad))
