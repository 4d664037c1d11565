-- ===== src/Control/RawCapture.antt =====
-- src/app/control/services/handlers/raw-capture.handler.cpp: the commands
-- on the raw capture, whose sink is a port on a value of `R`.
use strixcam.Prelude.{Bool, Option, none, some, String, ◌==◌, text_keys, if◌then◌else◌}
use strixcam.Control.Message.{
  Response, RecordingAction, start_action, stop_action, pause_action, resume_action, other_action,
  failed, refused, ok_or,
}

-- IRawCaptureSink.
pub record RawCapturePorts (R : Type 0) : Type 0 where
  pub start : String → R → R × Bool
  pub stop : R → R × Bool

-- A field that is not set is `none`.
pub record RawCaptureCommand : Type 0 where
  pub action : Option RecordingAction
  pub capture_group_id : Option String

module _ {R : Type 0} (sink : RawCapturePorts R) where
  abbrev answer : String → R × Bool → R × Response
  answer why (r, good) = (r, ok_or why good)

  abbrev start_group : Option String → R → R × Response
  start_group none r = (r, failed "raw capture start: missing capture_group_id")
  start_group (some group) r =
      if group == ""
      then (r, failed "raw capture start: missing capture_group_id")
      else answer "raw capture failed to start (already capturing or I/O)" (sink.start group r)

  abbrev act : RecordingAction → Option String → R → R × Response
  act start_action group r = start_group group r
  act stop_action group r = answer "raw capture stop: no active raw capture" (sink.stop r)
  act pause_action group r = (r, refused "raw capture does not support pause/resume")
  act resume_action group r = (r, refused "raw capture does not support pause/resume")
  act other_action group r = (r, failed "raw capture: unsupported action")

  unfoldable pub handle : RawCaptureCommand → R → R × Response
  handle cmd r = elim cmd.action [
    | none ↦ (r, failed "raw capture: action not set")
    | some action ↦ act action cmd.capture_group_id r
  ]
