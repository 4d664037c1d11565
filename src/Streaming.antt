-- ===== src/Streaming.antt =====
-- src/app/streaming: the streaming service over its ports. Each method runs under the service's
-- mutex. A server is always there (`main.cpp` builds it), so its pointer is never null; a streamer
-- from the factory may be null, and then it is `none`. A streamer is a value of `S` that its
-- methods change; one that is destroyed after `Stop` comes back to the caller in a list.
pub mod Mirror
pub mod Rtmp
pub mod Rtsp
use strixcam.Prelude.{
  ℕ, Bool, true, false, Option, none, some, List, [], ◌∷◌, ◌++◌, String, map, if◌then◌else◌,
  Comparable, not, ◌≡◌, ◌↔◌, nat_eq, arith, ◌&&◌,
}
use strixcam.Prelude.Int.{ℤ, pos, negsuc, leb_ℤ, int_keys}
use strixcam.Prelude.Assoc.{Assoc, lookup, insert, erase}

pub data PlatformStreamType : Type 0 where
  rtmp rtmps : PlatformStreamType

pub data PlatformStreamCodec : Type 0 where
  h264 h265 : PlatformStreamCodec

pub record PlatformStreamConfig : Type 0 where
  pub stream_id : ℤ
  pub name : String
  pub type : PlatformStreamType
  pub url : String
  pub stream_key : String
  pub codec : PlatformStreamCodec
  pub width : ℤ
  pub height : ℤ
  pub framerate : ℤ
  pub bitrate_kbps : ℤ

abbrev pub default_platform : PlatformStreamConfig
default_platform = record {
  stream_id = pos 0;
  name = "";
  type = rtmp;
  url = "";
  stream_key = "";
  codec = h264;
  width = pos 1920;
  height = pos 1080;
  framerate = pos 60;
  bitrate_kbps = pos 4000;
}

pub record AppStreamConfig : Type 0 where
  pub address : String
  pub mount_point : String
  pub port : ℕ
  pub width : ℕ
  pub height : ℕ
  pub framerate : ℕ
  pub bitrate_kbps : ℕ

abbrev pub default_app : AppStreamConfig
default_app = record {
  address = "0.0.0.0";
  mount_point = "/preview";
  port = 8554;
  width = 854;
  height = 480;
  framerate = 30;
  bitrate_kbps = 1500;
}

-- IAppStreamServer over a server `A`, IPlatformStreamer over a streamer `S`, frames `F`.
pub record StreamPorts {ℓ} (F A S : Type ℓ) : Type ℓ where
  pub app_start : AppStreamConfig → A → A × Bool
  pub app_stop : A → A
  pub app_running : A → Bool
  pub app_push : F → A → A
  pub start : PlatformStreamConfig → S → S × Bool
  pub stop : S → S
  pub running : S → Bool
  pub push : F → S → S

pub record StreamingService {ℓ} (A S : Type ℓ) : Type ℓ where
  pub app_stream_server : A
  pub platform_streams : Assoc ℤ S
  pub active_names : Assoc ℤ String

module _ {ℓ} {F A S : Type ℓ} (ports : StreamPorts F A S) where
  unfoldable pub start_app_stream :
      AppStreamConfig → StreamingService A S → StreamingService A S × Bool
  start_app_stream config s =
      if ports.app_running s.app_stream_server
      then (s, true)
      else let (server, started) = ports.app_start config s.app_stream_server in
        (record s { app_stream_server = server }, started)

  unfoldable pub stop_app_stream : StreamingService A S → StreamingService A S × Bool
  stop_app_stream s =
      if not (ports.app_running s.app_stream_server)
      then (s, false)
      else (record s { app_stream_server = ports.app_stop s.app_stream_server }, true)

  abbrev pub is_app_stream_running : StreamingService A S → Bool
  is_app_stream_running s = ports.app_running s.app_stream_server

  abbrev is_some : {B : Type ℓ} → Option B → Bool
  is_some none = false
  is_some (some b) = true

  -- A streamer that did not start is destroyed with the call.
  abbrev start_streamer :
      PlatformStreamConfig → Option S → StreamingService A S → StreamingService A S × Bool
  start_streamer config none s = (s, false)
  start_streamer config (some streamer) s =
      let (streamer', started) = ports.start config streamer in
      if not started then (s, false) else (
        record s {
          active_names = insert config.stream_id config.name s.active_names;
          platform_streams = insert config.stream_id streamer' s.platform_streams;
        },
        true,
      )

  -- `made` is what the factory returns.
  unfoldable pub start_platform_stream :
      PlatformStreamConfig → Option S → StreamingService A S → StreamingService A S × Bool
  start_platform_stream config made s =
      if leb_ℤ config.stream_id (pos 0)
      then (s, false)
      else if is_some (lookup config.stream_id s.platform_streams)
      then (s, false)
      else start_streamer config made s

  unfoldable pub stop_platform_stream :
      ℤ → StreamingService A S → StreamingService A S × List S × Bool
  stop_platform_stream stream_id s = elim (lookup stream_id s.platform_streams) [
    | none ↦ (s, [], false)
    | some taken ↦ (
      record s {
        platform_streams = erase stream_id s.platform_streams;
        active_names = erase stream_id s.active_names;
      },
      ports.stop taken ∷ [],
      true,
    )
  ]

  abbrev pub list_active_platform_streams : StreamingService A S → List (ℤ × String)
  list_active_platform_streams s = s.active_names

  abbrev push_to : F → S → S
  push_to frame streamer = if ports.running streamer then ports.push frame streamer else streamer

  unfoldable pub push : F → StreamingService A S → StreamingService A S
  push frame s = record s {
    app_stream_server =
        if ports.app_running s.app_stream_server
        then ports.app_push frame s.app_stream_server
        else s.app_stream_server;
    platform_streams = map (λ e. (e.0, push_to frame e.1)) s.platform_streams;
  }

  -- `SessionCleanup::StopStreaming` of src/app/session/services/session_cleanup.
  unfoldable pub stop_all : List (ℤ × String) → StreamingService A S → StreamingService A S × List S
  stop_all [] s = (s, [])
  stop_all ((id, name) ∷ rest) s =
      let (s', released, done) = stop_platform_stream id s in
      let (s'', more) = stop_all rest s' in (s'', released ++ more)

  unfoldable pub stop_streaming : StreamingService A S → StreamingService A S × List S
  unfolding stop_all
  stop_streaming s =
      let (s', done) = stop_app_stream s in stop_all (list_active_platform_streams s') s'
