-- ===== src/Streaming/Rtmp.antt =====
-- src/adapters/streaming/gst_rtmp/gst-rtmp-streamer.cpp: one RTMP uplink over GStreamer, whose calls
-- are outcomes given to the operations. A pipeline or an element is there or not; what the element
-- takes in is a list of buffers. The launch text beside the location is left out, and so are the
-- waits for the end of a stream.
pub mod Backoff
use strixcam.Prelude.{
  ℕ, ◌+◌, ◌*◌, Bool, true, false, not, ◌&&◌, ◌||◌, Option, none, some, String, List, [], ◌∷◌, ◌++◌,
  take, min, ltb, nat_eq, if◌then◌else◌, ◌==◌, text_keys,
}
use strixcam.Prelude.Int.{ℤ}
use strixcam.Prelude.Bytes.{Bytes, codes}
use strixcam.Streaming.{PlatformStreamConfig, default_platform}

-- `std::string::back() == '/'` of a text that is not empty.
abbrev ends_in_slash : Bytes → Bool
ends_in_slash [] = false
ends_in_slash (c ∷ []) = nat_eq c b'/'
ends_in_slash (c ∷ d ∷ cs) = ends_in_slash (d ∷ cs)

unfoldable pub build_location : PlatformStreamConfig → Bytes
build_location cfg =
    if cfg.url == ""
    then codes cfg.stream_key
    else if ends_in_slash (codes cfg.url)
    then codes cfg.url ++ codes cfg.stream_key
    else codes cfg.url ++ codes "/" ++ codes cfg.stream_key

-- A plane of a frame: its bytes, where there are any, and its size.
pub record FramePlane : Type 0 where
  pub data_ : Option Bytes
  pub size : ℕ

unfoldable pub frame_byte_size : List FramePlane → ℕ
frame_byte_size [] = 0
frame_byte_size (p ∷ ps) = p.size + frame_byte_size ps

abbrev plane_bytes : FramePlane → Bytes
plane_bytes p = elim p.data_ [
  | none ↦ []
  | some bytes ↦ if ltb 0 p.size then take p.size bytes else []
]

-- What the copy loop writes, from the start of the buffer.
unfoldable pub copied : List FramePlane → Bytes
copied [] = []
copied (p ∷ ps) = plane_bytes p ++ copied ps

-- A buffer of GStreamer: its size, and the bytes written from its start.
pub record GstBuffer : Type 0 where
  pub size : ℕ
  pub written : Bytes

pub record RtmpStreamer : Type 0 where
  pub config : PlatformStreamConfig
  pub running : Bool
  pub watching : Bool
  pub pipeline : Bool
  pub appsrc : Bool
  pub pushed : List GstBuffer

abbrev pub idle_streamer : RtmpStreamer
idle_streamer = record {
  config = default_platform;
  running = false;
  watching = false;
  pipeline = false;
  appsrc = false;
  pushed = [];
}

-- What GStreamer does in the building of a pipeline: whether the launch text parses, whether there
-- is a pipeline then, whether it has the source, and whether it plays.
pub record LaunchOutcome : Type 0 where
  pub parses : Bool
  pub pipeline : Bool
  pub appsrc : Bool
  pub plays : Bool

unfoldable pub teardown : RtmpStreamer → RtmpStreamer
teardown s = record s { appsrc = false; pipeline = false }

unfoldable pub build_and_play_locked : LaunchOutcome → RtmpStreamer → RtmpStreamer × Bool
unfolding teardown
build_and_play_locked o s =
    let launched = record s { pipeline = o.pipeline } in
    if not o.parses
    then (teardown launched, false)
    else if not o.pipeline
    then (launched, false)
    else if not o.appsrc
    then (teardown (record launched { appsrc = false }), false)
    else if not o.plays
    then (teardown (record launched { appsrc = true }), false)
    else (record launched { appsrc = true }, true)

unfoldable pub start : LaunchOutcome → PlatformStreamConfig → RtmpStreamer → RtmpStreamer × Bool
unfolding build_and_play_locked
start o config s =
    if s.running
    then (s, true)
    else if config.url == "" || config.stream_key == ""
    then (s, false)
    else let (built, plays) = build_and_play_locked o (record s { config = config }) in
      if not plays then (built, false) else (record built { running = true; watching = true }, true)

unfoldable pub stop : RtmpStreamer → RtmpStreamer
unfolding teardown
stop s =
    if not s.running
    then record s { watching = false }
    else teardown (record s { watching = false; running = false })

abbrev pub is_running : RtmpStreamer → Bool
is_running s = s.running

abbrev pub id : RtmpStreamer → ℤ
id s = s.config.stream_id

-- `free` is whether the lock is to be had, `allocated` and `mapped` what GStreamer says.
unfoldable pub push : Bool → Bool → Bool → List FramePlane → RtmpStreamer → RtmpStreamer
unfolding frame_byte_size copied
push free allocated mapped planes s =
    if not free || not s.running || not s.appsrc
    then s
    else if nat_eq (frame_byte_size planes) 0 || not allocated || not mapped
    then s
    else record s {
      pushed = s.pushed ++ record { size = frame_byte_size planes; written = copied planes } ∷ [];
    }

abbrev pub base_backoff : ℕ
base_backoff = 500

abbrev pub max_backoff : ℕ
max_backoff = 8000

abbrev pub backoff_slice_ms : ℕ
backoff_slice_ms = 100

-- What a turn of the watcher meets: whether the pipeline's bus is to be had, whether it has an
-- error, whether the streamer still watches and runs after the wait, and the rebuilding.
pub record WatcherTurn : Type 0 where
  pub bus : Bool
  pub error : Bool
  pub watching : Bool
  pub running : Bool
  pub rebuild : LaunchOutcome

-- The loop's state; `over` is after the `break`.
pub record Watcher : Type 0 where
  pub streamer : RtmpStreamer
  pub backoff : ℕ
  pub over : Bool

-- The wait in slices, over the readings of `watching_`: how long it is in the end.
unfoldable pub wait : ℕ → ℕ → List Bool → ℕ
wait backoff waited [] = waited
wait backoff waited (reading ∷ readings) =
    let longer = wait backoff (waited + backoff_slice_ms) readings in
    if reading && ltb waited backoff then longer else waited

abbrev rebuilt : ℕ → RtmpStreamer × Bool → Watcher
rebuilt backoff (s, true) = record { streamer = s; backoff = base_backoff; over = false }
rebuilt backoff (s, false) = record {
  streamer = s;
  backoff = min (backoff * 2) max_backoff;
  over = false;
}

unfoldable pub watcher_turn : WatcherTurn → Watcher → Watcher
unfolding build_and_play_locked teardown
watcher_turn turn w =
    if w.streamer.pipeline && turn.bus && not turn.error
    then record w { backoff = base_backoff }
    else if not turn.watching || not turn.running
    then record w { over = true }
    else rebuilt w.backoff (build_and_play_locked turn.rebuild (teardown w.streamer))

unfoldable pub watcher_loop : List WatcherTurn → Watcher → Watcher
unfolding watcher_turn
watcher_loop [] w = w
watcher_loop (turn ∷ turns) w = if w.over then w else watcher_loop turns (watcher_turn turn w)
