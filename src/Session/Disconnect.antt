-- ===== src/Session/Disconnect.antt =====
-- src/app/session/services/session_cleanup/session-cleanup.cpp, and what a disconnect leaves.
use strixcam.Prelude.{Bool, true, false, [], ◌∙◌, ◌≡◌, refl, arith}
use strixcam.Session.{
  SessionState, idle, SessionCleanup, cleared, on_disconnect, fan_out, same_phase,
}
use strixcam.Recording.{RecordingPorts, RecordingService, stop, is_idle}
use strixcam.Streaming.{StreamPorts, StreamingService, stop_streaming, is_app_stream_running}
use strixcam.Streaming.Mirror.{IsMirrored, stop_streaming_lem}
use strixcam.Control.WifiDirect.{NetworkPorts}
use strixcam.Control.WifiDirect.Rollback.{StopLaws}

-- What the clean-up refers to.
pub record Devices (F W A S N : Type 0) : Type 0 where
  pub recording : RecordingService F
  pub outside : W
  pub streaming : StreamingService A S
  pub network : N

module _ {F W A S N : Type 0} (recorder : RecordingPorts F W) (streams : StreamPorts F A S)
    (net : NetworkPorts N) where
  abbrev finalize_recording : Devices F W A S N → Devices F W A S N × Bool
  finalize_recording d =
      let (service, outside, result) = stop recorder d.recording d.outside in
      (record d { recording = service; outside = outside }, false)

  abbrev stop_streams : Devices F W A S N → Devices F W A S N × Bool
  stop_streams d = (record d { streaming = (stop_streaming streams d.streaming).0 }, false)

  abbrev teardown_wifi_direct : Devices F W A S N → Devices F W A S N × Bool
  teardown_wifi_direct d = (record d { network = net.wifi_stop (net.dhcp_stop d.network) }, false)

  -- The implementation, where no port throws.
  abbrev pub session_cleanup : SessionCleanup (Devices F W A S N)
  session_cleanup = record {
    finalize_recording = finalize_recording;
    stop_streaming = stop_streams;
    teardown_wifi_direct = teardown_wifi_direct;
  }

  is_idle-stop : (r : RecordingService F) (w : W) → is_idle (stop recorder r w).0.state ≡ true
  unfolding stop
  is_idle-stop r w = ground arith

  -- From a session that is not idle, with the streams mirrored, ports that stop what they are told
  -- to stop and no step that throws: after a disconnect the session is cleared, the recording
  -- service is idle, no stream runs, and the group and its
  -- DHCP server are down.
  pub on_disconnect_lem :
      (laws : StopLaws net)
      → ((a : A) → streams.app_running (streams.app_stop a) ≡ false)
      → (s : SessionState) (d : Devices F W A S N) → same_phase s.phase idle ≡ false
      → IsMirrored d.streaming
      → let result = on_disconnect session_cleanup s d in
        (result.0 ≡ cleared)
        × (is_idle result.1.recording.state ≡ true)
        × (is_app_stream_running streams result.1.streaming ≡ false)
        × (result.1.streaming.platform_streams ≡ [])
        × (laws.wifi_up result.1.network ≡ false)
        × (laws.dhcp_up result.1.network ≡ false)
  unfolding on_disconnect fan_out
  on_disconnect_lem laws quiet s d busy v =
      let streaming = stop_streaming_lem streams quiet d.streaming v in
      let down = laws.wifi_stop_keeps (net.dhcp_stop d.network) ∙ laws.dhcp_stops d.network in
      rw busy (
        refl,
        is_idle-stop d.recording d.outside,
        streaming.0,
        streaming.1,
        laws.wifi_stops (net.dhcp_stop d.network),
        down,
      )
