-- ===== src/Control/RecordingHandler.antt =====
-- src/app/control/services/handlers/recording.handler.cpp: the commands that start and stop the
-- recording, over the session manager and the recording service.
pub mod Pairing
use strixcam.Prelude.{Bool, true, false, Option, none, some, not, if◌then◌else◌, String}
use strixcam.Control.Message.{
  Response, RecordingAction, start_action, stop_action, pause_action, resume_action, other_action,
  done, failed, ok_or,
}
use strixcam.Session.{
  SessionState, SessionPhase, ready, same_phase, on_recording_start, on_recording_stop,
}
use strixcam.Recording.{RecordingPorts, RecordingService, start_recording, pause, resume, stop}

-- What the handler refers to.
pub record RecordingWorld (F W : Type 0) : Type 0 where
  pub session : SessionState
  pub recording : RecordingService F
  pub outside : W

module _ {F W : Type 0} (ports : RecordingPorts F W) where
  unfoldable pub handle_start : RecordingWorld F W → RecordingWorld F W × Response
  handle_start w = elim w.session.config [
    | none ↦ (w, failed "recording start with no active session config")
    | some config ↦
        if not (same_phase w.session.phase ready)
        then (w, failed "recording start rejected: session not ready")
        else let (service, outside, started) =
            start_recording ports config.video_output_path config.thumbnail_output_path w.recording
              w.outside in
          if not started
          then (
            record w { recording = service; outside = outside },
            failed "recorder failed to start (disk full or already running)",
          )
          else let (session, accepted) = on_recording_start w.session in
            if accepted
            then (record { session = session; recording = service; outside = outside }, done)
            else let (service', outside', result) = stop ports service outside in
              (
                record { session = session; recording = service'; outside = outside' },
                failed "recording start rejected: session not ready",
              )
  ]

  unfoldable pub handle_stop : RecordingWorld F W → RecordingWorld F W × Response
  handle_stop w =
      let (service, outside, result) = stop ports w.recording w.outside in
      let (session, stopped) = on_recording_stop w.session in
      (
        record { session = session; recording = service; outside = outside },
        ok_or "no active recording to stop" result.success,
      )

  unfoldable pub handle : RecordingAction → RecordingWorld F W → RecordingWorld F W × Response
  unfolding handle_start handle_stop
  handle start_action w = handle_start w
  handle stop_action w = handle_stop w
  handle pause_action w =
      let (service, outside, paused) = pause ports w.recording w.outside in
      (
        record w { recording = service; outside = outside },
        ok_or "cannot pause: not recording" paused,
      )
  handle resume_action w =
      let (service, outside, resumed) = resume ports w.recording w.outside in
      (
        record w { recording = service; outside = outside },
        ok_or "cannot resume: not paused" resumed,
      )
  handle other_action w = (w, failed "unknown recording action")
