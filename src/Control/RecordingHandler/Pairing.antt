-- ===== src/Control/RecordingHandler/Pairing.antt =====
-- The session beside the recording service, under the recording handler.
use strixcam.Prelude.{refl, ◌&&◌, Bool, false, Option, none, some, ◌≡◌, ◌≢◌, List, [], ◌∷◌, arith}
use strixcam.Control.Message.{ok, RecordingAction, start_action}
use strixcam.Session.{
  SessionCleanup, on_disconnect, fan_out, SessionConfig, LiveMatch, ready, recording, same_phase,
  on_recording_start, on_recording_stop, cleared, on_connect, on_wifi_ready, on_wifi_stopped,
  apply_session_config, on_overlay_configured, apply_match_update,
}
use strixcam.Session.Paths.{FilePath}
use strixcam.Recording.{
  RecordingPorts, RecordingService, recording as rolling, start_recording, pause, resume, stop,
  is_idle, push,
}
use strixcam.Control.RecordingHandler.{RecordingWorld, handle, handle_start, handle_stop}

-- What happens to the session and the service: a command, a call of another handler or thread on
-- the session, a frame, or a disconnect with its clean-up.
pub data Event (F : Type 0) : Type 0 where
  commands : RecordingAction → Event F
  connects wifi_comes wifi_goes overlays : Event F
  configures : (FilePath → Bool) → SessionConfig → Event F
  updates : Option (LiveMatch → LiveMatch) → Event F
  frames : F → Event F
  leaves : Event F

module _ {F W : Type 0} (ports : RecordingPorts F W) where
  -- The clean-up of the recording; that of the streams and the network does not touch it.
  abbrev finalizing : SessionCleanup (RecordingService F × W)
  finalizing = record {
    finalize_recording = λ (service, outside).
        let (stopped, after, result) = stop ports service outside in ((stopped, after), false);
    stop_streaming = λ d. (d, false);
    teardown_wifi_direct = λ d. (d, false);
  }

  unfoldable pub happen : RecordingWorld F W → Event F → RecordingWorld F W
  unfolding handle push on_disconnect
  happen w (commands action) = (handle ports action w).0
  happen w connects = record w { session = (on_connect w.session).0 }
  happen w wifi_comes = record w { session = (on_wifi_ready w.session).0 }
  happen w wifi_goes = record w { session = (on_wifi_stopped w.session).0 }
  happen w overlays = record w { session = (on_overlay_configured w.session).0 }
  happen w (configures mkdir config) = record w {
    session = (apply_session_config mkdir config w.session).0;
  }
  happen w (updates mutate) = record w { session = (apply_match_update mutate w.session).0 }
  happen w (frames frame) =
      let (service, outside) = push ports frame w.recording w.outside in
      record w { recording = service; outside = outside }
  happen w leaves =
      let (session, (service, outside)) =
        on_disconnect finalizing w.session (w.recording, w.outside) in
      record { session = session; recording = service; outside = outside }

  -- A session in its recording phase has a busy recording service.
  abbrev pub IsPaired : RecordingWorld F W → Type 0
  IsPaired w = (same_phase w.session.phase recording && is_idle w.recording.state) ≡ false

  happen-IsPaired : (w : RecordingWorld F W) (e : Event F) → IsPaired w → IsPaired (happen w e)
  unfolding happen handle handle_start handle_stop on_recording_start start_recording stop pause
      resume push on_recording_stop on_connect on_wifi_ready on_wifi_stopped on_overlay_configured
      apply_session_config apply_match_update on_disconnect fan_out
  happen-IsPaired w (commands start_action) v = ground (arith, v)
  happen-IsPaired w (commands action) v = ground (arith, v)
  happen-IsPaired w (updates none) v = v
  happen-IsPaired w e v = ground (arith, v)

  unfoldable pub happen_all : RecordingWorld F W → List (Event F) → RecordingWorld F W
  happen_all w [] = w
  happen_all w (e ∷ es) = happen_all (happen w e) es

  -- Whatever happens and whatever the ports answer, from a cleared session on: a session in its
  -- recording phase has a busy recording service.
  pub happen_all-IsPaired :
      (service : RecordingService F) (outside : W) (es : List (Event F))
      → IsPaired
          (happen_all (record { session = cleared; recording = service; outside = outside }) es)
  unfolding happen_all
  happen_all-IsPaired service outside es =
      from (record { session = cleared; recording = service; outside = outside }) es refl
    where
      from :
          (w : RecordingWorld F W) (rest : List (Event F))
          → IsPaired w
          → IsPaired (happen_all w rest)
      from w [] v = v
      from w (e ∷ rest) v = from (happen w e) rest (happen-IsPaired w e v)

  -- A start of a session with a config that is answered OK came to a ready session, and leaves the
  -- session recording and the service recording into the file of the config.
  pub start_ok_lem :
      (w : RecordingWorld F W) (config : SessionConfig)
      → w.session.config ≡ some config
      → (handle ports start_action w).1.status ≡ ok
      → (w.session.phase ≡ ready)
        × ((handle ports start_action w).0.session.phase ≡ recording)
        × ((handle ports start_action w).0.recording.state ≡ rolling)
        × ((handle ports start_action w).0.recording.video_path ≡ config.video_output_path)
  unfolding handle handle_start on_recording_start start_recording stop
  start_ok_lem w config h e = ground arith

  -- A start that is not answered OK leaves the session as it was.
  pub start_failed_lem :
      (w : RecordingWorld F W)
      → (handle ports start_action w).1.status ≢ ok
      → (handle ports start_action w).0.session ≡ w.session
  unfolding handle handle_start on_recording_start start_recording stop
  start_failed_lem w h = ground arith
