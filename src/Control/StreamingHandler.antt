-- ===== src/Control/StreamingHandler.antt =====
-- src/app/control/services/handlers/streaming.handler.cpp: the commands on the egress stream.
pub mod Egress
pub mod Uplink
use strixcam.Prelude.{
  ℕ, Bool, true, false, Option, none, some, String, List, [], ◌==◌, text_keys, not, if◌then◌else◌,
}
use strixcam.Prelude.Int.{ℤ, pos}
use strixcam.Control.Message.{Response, done, failed, ok_or}
use strixcam.Streaming.{
  StreamPorts, StreamingService, PlatformStreamConfig, default_platform, rtmp,
  start_platform_stream, stop_platform_stream,
}

pub data StreamingAction : Type 0 where
  streaming_start streaming_stop other_action : StreamingAction

-- The handler's command; `configure` carries the custom RTMP URL.
pub data StreamingCommand : Type 0 where
  control : StreamingAction → String → StreamingCommand
  set_config : String → StreamingCommand

pub record StreamingHandler (A S : Type 0) : Type 0 where
  pub streaming : StreamingService A S
  pub configured_rtmp_url : String

abbrev pub egress_stream_id : ℤ
egress_stream_id = pos 1

abbrev pub egress : String → PlatformStreamConfig
egress url = record default_platform {
  stream_id = egress_stream_id;
  name = "egress";
  type = rtmp;
  url = url;
}

abbrev pub destination_of : String → String → String
destination_of asked fallback = if asked == "" then fallback else asked

module _ {F A S : Type 0} (ports : StreamPorts F A S) where
  -- `made` is what the factory of streamers would return.
  unfoldable pub handle_control :
      StreamingAction → String → Option S → StreamingHandler A S → StreamingHandler A S × Response
  handle_control streaming_start asked made h =
      let url = destination_of asked h.configured_rtmp_url in
      if url == ""
      then (h, failed "streaming start: no destination provided or configured")
      else let (service, started) = start_platform_stream ports (egress url) made h.streaming in
        (
          record h { streaming = service },
          ok_or "streaming start failed (already streaming or bad destination)" started,
        )
  handle_control streaming_stop asked made h =
      let (service, released, stopped) = stop_platform_stream ports egress_stream_id h.streaming in
      (record h { streaming = service }, ok_or "no active stream to stop" stopped)
  handle_control other_action asked made h = (h, failed "unknown streaming action")

  unfoldable pub handle :
      StreamingCommand → Option S → StreamingHandler A S → StreamingHandler A S × Response
  unfolding handle_control
  handle (control action asked) made h = handle_control action asked made h
  handle (set_config url) made h = (record h { configured_rtmp_url = url }, done)
