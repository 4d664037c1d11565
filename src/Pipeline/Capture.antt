-- ===== src/Pipeline/Capture.antt =====
-- src/adapters/capture/frame/gstreamer/gstreamer.cpp: one camera over GStreamer, whose calls are
-- outcomes given to the operations, and src/domain/config/utils/parse-model-version.hpp. A sample is
-- what the code reads of it; the launch text is left out but for the choice by the model.
pub mod Planes
use strixcam.Prelude.{
  ℕ, ◌+◌, ◌-◌, ◌*◌, ◌%◌, ◌^◌, Bool, true, false, not, ◌&&◌, ◌||◌, Option, none, some, List, [], ◌∷◌,
  map, leb, ltb, nat_eq, if◌then◌else◌,
}
use strixcam.Prelude.Int.{ℤ, pos, negsuc}
use strixcam.Prelude.Bytes.{Bytes}
use strixcam.Network.Naming.{is_digit}
use strixcam.Recording.Recorder.{PixelFormat}

-- The digits of `std::from_chars`, up to the end of the text.
unfoldable pub digits_value : ℕ → Bytes → Option ℕ
digits_value acc [] = some acc
digits_value acc (c ∷ cs) =
    let rest = digits_value (acc * 10 + (c - b'0')) cs in if is_digit c then rest else none

abbrev below_limit : ℕ → (ℕ → ℤ) → Option ℕ → Option ℤ
below_limit limit sign none = none
below_limit limit sign (some n) = if ltb n limit then some (sign n) else none

abbrev negative : ℕ → ℤ
negative n = if nat_eq n 0 then pos 0 else negsuc (n - 1)

-- `std::from_chars` of an `int`, which wants a digit, takes a minus sign and refuses an overflow,
-- where it takes in the whole text.
abbrev int_from_chars : Bytes → Option ℤ
int_from_chars [] = none
int_from_chars (c ∷ []) = below_limit (2 ^ 31) pos (digits_value 0 (c ∷ []))
int_from_chars (c ∷ d ∷ cs) =
    if nat_eq c b'-'
    then below_limit (2 ^ 31 + 1) negative (digits_value 0 (d ∷ cs))
    else below_limit (2 ^ 31) pos (digits_value 0 (c ∷ d ∷ cs))

unfoldable pub parse_model_version : Bytes → Option ℤ
unfolding digits_value
parse_model_version [] = none
parse_model_version (c ∷ digits) =
    if nat_eq c b'v' || nat_eq c b'V' then int_from_chars digits else none

-- Whether `CreatePipeline` has a text for the model: version 1 alone is supported.
abbrev supported : Option ℤ → Bool
supported (some (pos n)) = nat_eq n 1
supported _ = false

-- GstVideoInfo: the size, the format where it is one of those supported, and each plane's stride
-- and offset.
pub record VideoInfo : Type 0 where
  pub width : ℕ
  pub height : ℕ
  pub format : Option PixelFormat
  pub planes : List (ℕ × ℕ)

-- A sample: the info of its caps, whether its buffer is there and maps, the size mapped, and
-- whether the mapping has data.
pub record GstSample : Type 0 where
  pub info : Option VideoInfo
  pub buffer : Bool
  pub maps : Bool
  pub mapped_size : ℕ
  pub mapped_data : Bool

pub record FramePlane : Type 0 where
  pub offset : ℕ
  pub size : ℕ
  pub stride : ℕ

pub record Frame : Type 0 where
  pub frame_id : ℕ
  pub width : ℕ
  pub height : ℕ
  pub format : PixelFormat
  pub planes : List FramePlane

-- Where the plane at `offset` ends: at the nearest offset behind it, or at `current`.
unfoldable pub end_of : ℕ → ℕ → List (ℕ × ℕ) → ℕ
end_of offset current [] = current
end_of offset current ((stride, other) ∷ rest) =
    end_of offset (if ltb offset other && ltb other current then other else current) rest

unfoldable pub plane_of : ℕ → List (ℕ × ℕ) → ℕ × ℕ → Option FramePlane
unfolding end_of
plane_of mapped all_planes (stride, offset) =
    let last = end_of offset mapped all_planes in
    if leb mapped offset
    then none
    else if leb last offset
    then none
    else if nat_eq (last - offset) 0 || ltb mapped (offset + (last - offset))
    then none
    else some (record { offset = offset; size = last - offset; stride = stride })

abbrev both_planes : Option FramePlane → Option (List FramePlane) → Option (List FramePlane)
both_planes (some p) (some ps) = some (p ∷ ps)
both_planes _ _ = none

-- One bad plane refuses the frame.
unfoldable pub planes_of : ℕ → List (ℕ × ℕ) → List (ℕ × ℕ) → Option (List FramePlane)
unfolding plane_of
planes_of mapped all_planes [] = some []
planes_of mapped all_planes (p ∷ ps) =
    both_planes (plane_of mapped all_planes p) (planes_of mapped all_planes ps)

pub record GStreamerAdapter : Type 0 where
  pub is_running : Bool
  pub pipeline : Bool
  pub bus : Bool
  pub sink : Bool
  pub last_frame : Option Frame
  pub frame_counter : ℕ

abbrev has_planes : List (ℕ × ℕ) → Bool
has_planes [] = false
has_planes (p ∷ ps) = true

-- The frame of the planes; the counter goes up before the format is looked at.
abbrev frame_of :
    VideoInfo → Option (List FramePlane) → GStreamerAdapter → GStreamerAdapter × Option Frame
frame_of info none a = (a, none)
frame_of info (some planes) a = (
  record a { frame_counter = (a.frame_counter + 1) % 2 ^ 64 },
  elim info.format [
    | none ↦ none
    | some format ↦ some (record {
      frame_id = a.frame_counter;
      width = info.width;
      height = info.height;
      format = format;
      planes = planes;
    })
  ],
)

abbrev frame_from_info :
    GstSample → Option VideoInfo → GStreamerAdapter → GStreamerAdapter × Option Frame
frame_from_info sample none a = (a, none)
frame_from_info sample (some info) a =
    if not sample.buffer || not sample.maps || not (has_planes info.planes)
    then (a, none)
    else if not sample.mapped_data || nat_eq sample.mapped_size 0
    then (a, none)
    else frame_of info (planes_of sample.mapped_size info.planes info.planes) a

unfoldable pub create_frame_from_sample :
    GstSample → GStreamerAdapter → GStreamerAdapter × Option Frame
unfolding planes_of
create_frame_from_sample sample a = frame_from_info sample sample.info a

abbrev cleanup_pipeline : GStreamerAdapter → GStreamerAdapter
cleanup_pipeline a = record a { sink = false; bus = false; pipeline = false }

-- What GStreamer does in a start; `prime` is the first sample, where one comes in time.
pub record CaptureLaunch : Type 0 where
  pub parses : Bool
  pub pipeline : Bool
  pub bus : Bool
  pub sink : Bool
  pub plays : Bool
  pub prime : Option GstSample

abbrev keep_frame : GStreamerAdapter × Option Frame → GStreamerAdapter
keep_frame (a, none) = a
keep_frame (a, some frame) = record a { last_frame = some frame }

abbrev primed : Option GstSample → GStreamerAdapter → GStreamerAdapter
primed none a = a
primed (some sample) a = keep_frame (create_frame_from_sample sample a)

unfoldable pub start : CaptureLaunch → Bytes → GStreamerAdapter → GStreamerAdapter
unfolding create_frame_from_sample parse_model_version
start o model a =
    if a.is_running
    then a
    else if not (supported (parse_model_version model))
    then a
    else if not o.parses
    then cleanup_pipeline a
    else if not o.pipeline
    then record a { pipeline = false }
    else if not o.bus || not o.sink || not o.plays
    then cleanup_pipeline a
    else primed o.prime (record a { pipeline = true; bus = true; sink = true; is_running = true })

unfoldable pub stop : GStreamerAdapter → GStreamerAdapter
stop a = record (cleanup_pipeline a) { last_frame = none; is_running = false }

abbrev pub is_running : GStreamerAdapter → Bool
is_running a = a.is_running && a.pipeline

-- `ended` is whether the bus has an error or the end of the stream.
unfoldable pub handle_bus_messages : Bool → GStreamerAdapter → GStreamerAdapter × Bool
unfolding stop
handle_bus_messages ended a =
    if not a.bus then (a, false) else if ended then (stop a, false) else (a, true)

-- The last of the samples that are there is the one taken.
unfoldable pub last_sample : Option GstSample → List GstSample → Option GstSample
last_sample last [] = last
last_sample last (s ∷ ss) = last_sample (some s) ss

abbrev fresh_or_last : GStreamerAdapter × Option Frame → GStreamerAdapter × Option Frame
fresh_or_last (a, none) = (a, a.last_frame)
fresh_or_last (a, some frame) = (record a { last_frame = some frame }, some frame)

abbrev taken : Option GstSample → GStreamerAdapter → GStreamerAdapter × Option Frame
taken none a = (a, a.last_frame)
taken (some sample) a = fresh_or_last (create_frame_from_sample sample a)

unfoldable pub capture : Bool → List GstSample → GStreamerAdapter → GStreamerAdapter × Option Frame
unfolding handle_bus_messages last_sample create_frame_from_sample
capture ended samples a =
    if not a.is_running || not a.pipeline || not a.sink || not a.bus
    then (a, none)
    else let (next, goes_on) = handle_bus_messages ended a in
      if goes_on then taken (last_sample none samples) next else (next, none)
