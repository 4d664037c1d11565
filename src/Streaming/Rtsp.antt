-- ===== src/Streaming/Rtsp.antt =====
-- src/adapters/streaming/gst_rtsp/gst-rtsp-app-stream-server.cpp: the preview server over GStreamer,
-- whose calls are outcomes given to the operations. An object is there or not; what the source of
-- the connected client takes in is a list of buffers. The launch text is left out. `Stop` is taken
-- without calls of other threads between its two locked parts.
pub mod Objects
use strixcam.Prelude.{
  ℕ, Bool, true, false, not, ◌&&◌, ◌||◌, List, [], ◌∷◌, ◌++◌, nat_eq, if◌then◌else◌,
}
use strixcam.Streaming.{AppStreamConfig}
use strixcam.Streaming.Rtmp.{FramePlane, GstBuffer, frame_byte_size, copied}

pub record RtspServer : Type 0 where
  pub config : AppStreamConfig
  pub running : Bool
  pub context : Bool
  pub loop : Bool
  pub server : Bool
  pub factory : Bool
  pub source_id : ℕ
  pub appsrc : Bool
  pub pushed : List GstBuffer

-- `source_id` is what attaching the server returns: 0 is a failure.
unfoldable pub start : ℕ → AppStreamConfig → RtspServer → RtspServer × Bool
start source_id config s =
    if s.running
    then (s, true)
    else if nat_eq source_id 0
    then (
      record s {
        config = config;
        context = false;
        loop = false;
        server = false;
        factory = true;
        source_id = 0;
      },
      false,
    )
    else (
      record s {
        config = config;
        running = true;
        context = true;
        loop = true;
        server = true;
        factory = true;
        source_id = source_id;
      },
      true,
    )

unfoldable pub stop : RtspServer → RtspServer
stop s = if not s.running then s else record s {
  appsrc = false;
  running = false;
  source_id = if not (nat_eq s.source_id 0) && s.context then 0 else s.source_id;
  server = false;
  loop = false;
  context = false;
  factory = false;
}

abbrev pub is_running : RtspServer → Bool
is_running s = s.running

unfoldable pub push : Bool → Bool → List FramePlane → RtspServer → RtspServer
push allocated mapped planes s =
    if not s.running || not s.appsrc
    then s
    else if nat_eq (frame_byte_size planes) 0 || not allocated || not mapped
    then s
    else record s {
      pushed = s.pushed ++ record { size = frame_byte_size planes; written = copied planes } ∷ [];
    }

-- A client connects: `element` and `source` are whether the media has its element and its source.
unfoldable pub on_media_configure : Bool → Bool → RtspServer → RtspServer
on_media_configure element source s =
    if not element || not source then s else record s { appsrc = true }
