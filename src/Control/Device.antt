-- ===== src/Control/Device.antt =====
-- src/app/control/services/handlers/device.handler.cpp and thumbnail.handler.cpp: what the phone
-- reads of the device, and a picture of the latest frame. The statistics, the flags and the encoder
-- are parameters; a float is a value of `R`. A flag provider may be empty, and then it is `none`.
use strixcam.Prelude.{ℕ, Bool, false, Option, none, some, String, List, [], ◌∷◌}
use strixcam.Control.Message.{CommandResponse, done_with, failed}

-- SystemStats of src/domain/control/models.
pub record SystemStats (R : Type 0) : Type 0 where
  pub storage_free_bytes : ℕ
  pub storage_total_bytes : ℕ
  pub temp_celsius : R
  pub ram_used_pct : R
  pub cpu_used_pct : R
  pub uptime_seconds : ℕ
  pub battery_level_pct : ℕ

-- The fields of DeviceData that the handler reads.
pub record DeviceData : Type 0 where
  pub serial_number : Option String
  pub name : Option String
  pub version : Option String
  pub model : Option String

pub record DeviceInfo : Type 0 where
  pub device_id : String
  pub name : String
  pub firmware_version : String
  pub model : String
  pub protocol_version : ℕ

-- DeviceTelemetry; the state of the WiFi stays WIFI_UNKNOWN.
pub record Telemetry (R : Type 0) : Type 0 where
  pub stats : SystemStats R
  pub is_recording : Bool
  pub is_streaming : Bool
  pub is_raw_capturing : Bool
  pub internet_reachable : Bool

pub data DeviceBody (R : Type 0) : Type 0 where
  device_info : DeviceInfo → DeviceBody R
  telemetry : Telemetry R → DeviceBody R

pub data DeviceCommand : Type 0 where
  get_device_info get_telemetry : DeviceCommand

abbrev pub protocol_version : ℕ
protocol_version = 1

abbrev value_or : String → Option String → String
value_or d none = d
value_or d (some s) = s

abbrev flag : Option Bool → Bool
flag none = false
flag (some b) = b

unfoldable pub handle_device_info : {R : Type 0} → DeviceData → CommandResponse (DeviceBody R)
handle_device_info device = done_with (
    device_info (record {
      device_id = value_or "" device.serial_number;
      name = value_or "" device.name;
      firmware_version = value_or "" device.version;
      model = value_or "" device.model;
      protocol_version = protocol_version;
    }))

-- The flags as their providers read.
pub record Flags : Type 0 where
  pub is_recording : Option Bool
  pub is_streaming : Option Bool
  pub is_raw_capturing : Option Bool

unfoldable pub handle_telemetry :
    {R : Type 0} → SystemStats R → Flags → CommandResponse (DeviceBody R)
handle_telemetry stats flags = done_with (
    telemetry (record {
      stats = stats;
      is_recording = flag flags.is_recording;
      is_streaming = flag flags.is_streaming;
      is_raw_capturing = flag flags.is_raw_capturing;
      internet_reachable = false;
    }))

unfoldable pub handle :
    {R : Type 0}
    → DeviceData
    → SystemStats R
    → Flags
    → DeviceCommand
    → CommandResponse (DeviceBody R)
unfolding handle_device_info handle_telemetry
handle device stats flags get_device_info = handle_device_info device
handle device stats flags get_telemetry = handle_telemetry stats flags

pub record ThumbnailRequest : Type 0 where
  pub width : ℕ
  pub height : ℕ
  pub quality : ℕ

pub record ThumbnailBody : Type 0 where
  pub jpeg_bytes : List ℕ
  pub capture_timestamp : ℕ

abbrev jpeg_response : ℕ → Option (List ℕ) → CommandResponse ThumbnailBody
jpeg_response now none = failed "thumbnail JPEG encode failed"
jpeg_response now (some []) = failed "thumbnail JPEG encode failed"
jpeg_response now (some (b ∷ bs)) =
    done_with (record { jpeg_bytes = b ∷ bs; capture_timestamp = now })

-- `latest` is the snapshot's frame, `encode` the encoder.
unfoldable pub handle_thumbnail :
    {F : Type 0}
    → (F → ℕ → ℕ → ℕ → Option (List ℕ))
    → ℕ
    → Option F
    → ThumbnailRequest
    → CommandResponse ThumbnailBody
handle_thumbnail encode now none req = failed "no frame available for thumbnail"
handle_thumbnail encode now (some frame) req =
    jpeg_response now (encode frame req.width req.height req.quality)
