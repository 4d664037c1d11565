-- ===== src/Recording/Recorder.antt =====
-- src/adapters/storage/gstreamer/gst-continuous-recorder.cpp: the continuous recorder over GStreamer,
-- whose calls are outcomes given to the operations. An element is there or not; what the source
-- takes in is a list. The tuning of the encoder and the wait for the end of the stream are left out.
pub mod Feed
use strixcam.Prelude.{
  ℕ, ◌+◌, Bool, true, false, not, ◌&&◌, ◌||◌, Option, none, some, String, List, [], ◌∷◌, ◌++◌,
  if◌then◌else◌,
}
use strixcam.Session.Paths.{FilePath}

pub data PixelFormat : Type 0 where
  bgr8 rgb8 bgra8 rgba8 gray8 nv12 i420 yuyv : PixelFormat

unfoldable pub gst_format_for : PixelFormat → String
gst_format_for bgr8 = "BGR"
gst_format_for rgb8 = "RGB"
gst_format_for bgra8 = "BGRA"
gst_format_for rgba8 = "RGBA"
gst_format_for gray8 = "GRAY8"
gst_format_for nv12 = "NV12"
gst_format_for i420 = "I420"
gst_format_for yuyv = "YUY2"

-- A frame: its format, its size, and the bytes of its planes.
pub record RecordedFrame : Type 0 where
  pub format : PixelFormat
  pub width : ℕ
  pub height : ℕ
  pub planes : List (List ℕ)

-- What the source is given: the caps, by format and size, and buffers.
pub data Fed : Type 0 where
  caps : String → ℕ → ℕ → Fed
  buffer : List ℕ → Fed

pub record GstContinuousRecorder : Type 0 where
  pub running : Bool
  pub paused : Bool
  pub caps_set : Bool
  pub pipeline : Bool
  pub appsrc : Bool
  pub encoder : Bool
  pub location : FilePath
  pub fed : List Fed
  pub key_units : ℕ

-- What GStreamer does in a start: whether there is a pipeline, whether the text parses without an
-- error, whether the two elements are found, and whether it plays.
pub record RecorderLaunch : Type 0 where
  pub pipeline : Bool
  pub parses : Bool
  pub appsrc : Bool
  pub encoder : Bool
  pub plays : Bool

unfoldable pub teardown : GstContinuousRecorder → GstContinuousRecorder
teardown r = record r {
  encoder = false;
  appsrc = false;
  pipeline = false;
  running = false;
  paused = false;
  caps_set = false;
}

unfoldable pub start :
    RecorderLaunch → FilePath → GstContinuousRecorder → GstContinuousRecorder × Bool
unfolding teardown
start o output r =
    let launched = record r { pipeline = o.pipeline } in
    let found = record launched { appsrc = o.appsrc; encoder = o.encoder } in
    if r.running
    then (r, false)
    else if not o.pipeline || not o.parses
    then (teardown launched, false)
    else if not o.appsrc
    then (teardown found, false)
    else if not o.plays
    then (teardown found, false)
    else (
      record found {
        caps_set = false;
        paused = false;
        running = true;
        location = output;
        fed = [];
      },
      true,
    )

unfoldable pub pause : GstContinuousRecorder → GstContinuousRecorder
pause r = record r { paused = true }

-- `pad` is whether the encoder has its sink pad.
unfoldable pub resume : Bool → GstContinuousRecorder → GstContinuousRecorder
resume pad r =
    if not r.running
    then r
    else if r.encoder && pad
    then record r { key_units = r.key_units + 1; paused = false }
    else record r { paused = false }

unfoldable pub stop : GstContinuousRecorder → GstContinuousRecorder × Bool
unfolding teardown
stop r = if not r.running then (r, false) else (teardown r, true)

abbrev pub is_running : GstContinuousRecorder → Bool
is_running r = r.running

abbrev with_caps : RecordedFrame → GstContinuousRecorder → GstContinuousRecorder
with_caps frame r = if r.caps_set then r else record r {
  caps_set = true;
  fed = r.fed ++ caps (gst_format_for frame.format) frame.width frame.height ∷ [];
}

-- `allocated` is whether there is a buffer, `taken` whether the source takes it.
unfoldable pub push : Bool → Bool → RecordedFrame → GstContinuousRecorder → GstContinuousRecorder
push allocated taken frame r = elim frame.planes [
  | [] ↦ r
  | plane ∷ _ ↦
      if not r.running || r.paused || not r.appsrc
      then r
      else let fed = with_caps frame r in
        if allocated && taken then record fed { fed = fed.fed ++ buffer plane ∷ [] } else fed
]
