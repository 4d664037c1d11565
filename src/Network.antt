-- ===== src/Network.antt =====
-- src/app/network/services/download_server: the catalogue of recordings and the download tokens.
-- What the file system lists is an argument: no listing where the video root is missing, and else
-- the entries that the iteration visits, up to its end or its first error. Times are `uint64_t`.
pub mod Naming
pub mod Tokens
pub mod Wifi
pub mod Http
pub mod Dhcp
use strixcam.Prelude.{
  ℕ, ◌+◌, ◌%◌, ◌^◌, Bool, true, false, ◌&&◌, ◌||◌, not, Option, none, some, String, List, [], ◌∷◌,
  ◌==◌, text_keys, if◌then◌else◌, leb,
}
use strixcam.Prelude.Assoc.{Assoc, lookup, insert, erase}
use strixcam.Prelude.Bytes.{Bytes, bytes_eq}
use Naming.{RawCaptureIdentity, parse_file_name}

-- A directory entry, by the parts of its path.
pub record DirEntry : Type 0 where
  pub path : String
  pub stem : String
  pub extension : String
  pub filename : Bytes
  pub is_regular_file : Bool
  pub size_bytes : ℕ
  pub last_write_unix : ℕ

-- The fields that `Enumerate` sets.
pub record RecordingSummary : Type 0 where
  pub recording_id : String
  pub thumbnail_id : String
  pub size_bytes : ℕ
  pub started_at_unix : ℕ
  pub is_raw : Bool
  pub camera_index : ℕ
  pub capture_group_id : Bytes

abbrev mp4_extension : String
mp4_extension = ".mp4"

abbrev raw_extension : String
raw_extension = ".nv12"

abbrev mp4_summary : DirEntry → RecordingSummary
mp4_summary entry = record {
  recording_id = entry.stem;
  thumbnail_id = entry.stem;
  size_bytes = entry.size_bytes;
  started_at_unix = entry.last_write_unix;
  is_raw = false;
  camera_index = 0;
  capture_group_id = [];
}

abbrev raw_summary : DirEntry → RawCaptureIdentity → RecordingSummary
raw_summary entry identity = record {
  recording_id = entry.stem;
  thumbnail_id = "";
  size_bytes = entry.size_bytes;
  started_at_unix = entry.last_write_unix;
  is_raw = true;
  camera_index = identity.camera_index;
  capture_group_id = identity.capture_group_id;
}

abbrev identified : DirEntry → Option RawCaptureIdentity → Option RecordingSummary
identified entry none = none
identified entry (some identity) = some (raw_summary entry identity)

unfoldable pub summary_of : DirEntry → Option RecordingSummary
summary_of entry =
    if not entry.is_regular_file
    then none
    else if entry.extension == mp4_extension
    then some (mp4_summary entry)
    else if entry.extension == raw_extension
    then identified entry (parse_file_name entry.filename)
    else none

unfoldable pub summaries : List DirEntry → List RecordingSummary
unfolding summary_of
summaries [] = []
summaries (entry ∷ entries) = elim (summary_of entry) [
  | none ↦ summaries entries
  | some summary ↦ summary ∷ summaries entries
]

unfoldable pub enumerate : Option (List DirEntry) → List RecordingSummary
unfolding summaries
enumerate none = []
enumerate (some entries) = summaries entries

abbrev pub is_recording : String → DirEntry → Bool
is_recording id entry =
    entry.is_regular_file
    && (entry.extension == mp4_extension || entry.extension == raw_extension)
    && entry.stem == id

unfoldable pub find_recording : String → List DirEntry → Option String
find_recording id [] = none
find_recording id (entry ∷ entries) =
    let rest = find_recording id entries in if is_recording id entry then some entry.path else rest

unfoldable pub resolve_recording_path : Option (List DirEntry) → String → Option String
unfolding find_recording
resolve_recording_path none id = none
resolve_recording_path (some entries) id = if id == "" then none else find_recording id entries

pub record TokenEntry : Type 0 where
  pub path : String
  pub expires_at_unix : ℕ

pub record DownloadToken : Type 0 where
  pub recording_id : String
  pub token : String
  pub expires_at_unix : ℕ

abbrev pub Tokens : Type 0
Tokens = Assoc String TokenEntry

abbrev pub expiry : ℕ → ℕ → ℕ
expiry now ttl_seconds = (now + ttl_seconds) % 2 ^ 64

-- `secret` is what `MakeSecureToken` returns, `now` the clock's reading.
unfoldable pub mint_token :
    Option (List DirEntry) → String → ℕ → String → ℕ → Tokens → Tokens × Option DownloadToken
unfolding resolve_recording_path
mint_token files id ttl_seconds secret now tokens = elim (resolve_recording_path files id) [
  | none ↦ (tokens, none)
  | some path ↦ (
    insert secret (record { path = path; expires_at_unix = expiry now ttl_seconds }) tokens,
    some (record { recording_id = id; token = secret; expires_at_unix = expiry now ttl_seconds }),
  )
]

unfoldable pub validate_token : String → ℕ → Tokens → Tokens × Option String
validate_token token now tokens = elim (lookup token tokens) [
  | none ↦ (tokens, none)
  | some entry ↦
      if leb entry.expires_at_unix now
      then (erase token tokens, none)
      else (tokens, some entry.path)
]
