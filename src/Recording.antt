-- ===== src/Recording.antt =====
-- src/app/storage/services/recording_service, with the ports of src/app/storage/ports. Each method
-- runs under the service's mutex, so it is one atomic step. The recorder, the thumbnail writer and
-- the disk guard are ports: operations on a world `W` that they share.
pub mod Protocol
pub mod RawSink
pub mod Recorder
pub mod DiskGuard
use strixcam.Prelude.{Bool, true, false, Option, none, some, List, [], ◌&&◌, not, if◌then◌else◌}
use strixcam.Session.Paths.{FilePath, is_empty}

pub data RecordingState : Type 0 where
  idle recording paused : RecordingState

-- IContinuousRecorder, IThumbnailWriter and IDiskGuard, over frames `F`.
pub record RecordingPorts {ℓ} (F W : Type ℓ) : Type ℓ where
  pub has_enough_free_space : W → Bool
  pub start : FilePath → W → W × Bool
  pub pause : W → W
  pub resume : W → W
  pub stop : W → W × Bool
  pub push : F → W → W
  pub write : F → FilePath → W → W × Bool

pub record RecordingService {ℓ} (F : Type ℓ) : Type ℓ where
  pub state : RecordingState
  pub video_path : FilePath
  pub thumbnail_path : FilePath
  pub last_frame : Option F

pub record StopRecordingResult : Type 0 where
  pub success : Bool
  pub file_path : FilePath
  pub thumbnail_written : Bool

abbrev pub idle_service {ℓ} : {F : Type ℓ} → RecordingService F
idle_service = record { state = idle; video_path = []; thumbnail_path = []; last_frame = none }

abbrev pub is_idle : RecordingState → Bool
is_idle idle = true
is_idle _ = false

abbrev pub is_recording : RecordingState → Bool
is_recording recording = true
is_recording _ = false

abbrev pub is_paused : RecordingState → Bool
is_paused paused = true
is_paused _ = false

module _ {ℓ} {F W : Type ℓ} (ports : RecordingPorts F W) where
  -- What a failed start of the recorder leaves, and what a good one does.
  abbrev started :
      FilePath → FilePath → RecordingService F → W × Bool → RecordingService F × W × Bool
  started video thumbnail s (w, true) =
      (record s { state = recording; video_path = video; thumbnail_path = thumbnail }, w, true)
  started video thumbnail s (w, false) =
      (record s { video_path = []; thumbnail_path = [] }, w, false)

  unfoldable pub start_recording :
      FilePath → FilePath → RecordingService F → W → RecordingService F × W × Bool
  start_recording video thumbnail s w =
      if not (is_idle s.state)
      then (s, w, false)
      else if is_empty video
      then (s, w, false)
      else if not (ports.has_enough_free_space w)
      then (s, w, false)
      else started video thumbnail s (ports.start video w)

  unfoldable pub pause : RecordingService F → W → RecordingService F × W × Bool
  pause s w =
      if not (is_recording s.state)
      then (s, w, false)
      else (record s { state = paused }, ports.pause w, true)

  unfoldable pub resume : RecordingService F → W → RecordingService F × W × Bool
  resume s w =
      if not (is_paused s.state)
      then (s, w, false)
      else (record s { state = recording }, ports.resume w, true)

  -- `if (last_frame_ && !thumbnail_path_.empty())`
  abbrev write_thumbnail : Option F → FilePath → W → W × Bool
  write_thumbnail none path w = (w, false)
  write_thumbnail (some frame) path w =
      if is_empty path then (w, false) else ports.write frame path w

  unfoldable pub stop : RecordingService F → W → RecordingService F × W × StopRecordingResult
  stop s w =
      if is_idle s.state
      then (s, w, record { success = false; file_path = []; thumbnail_written = false })
      else let (w1, stopped) = ports.stop w in
        let (w2, thumb) = write_thumbnail s.last_frame s.thumbnail_path w1 in
        (
          idle_service,
          w2,
          record { success = stopped; file_path = s.video_path; thumbnail_written = thumb },
        )

  unfoldable pub push : F → RecordingService F → W → RecordingService F × W
  push frame s w =
      if is_idle s.state then (s, w) else (record s { last_frame = some frame }, ports.push frame w)
