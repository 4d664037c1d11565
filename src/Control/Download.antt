-- ===== src/Control/Download.antt =====
-- src/app/control/services/handlers/download.handler.cpp: the list of recordings and the minting of
-- download tokens. `files` is the listing that the file system gives at the call.
pub mod Granted
use strixcam.Prelude.{ℕ, Bool, true, Option, none, some, String, List, map, ◌++◌, if◌then◌else◌}
use Prim.Native.String.{◌++◌ as append}
use strixcam.Prelude.Bytes.{Bytes, codes, to_string}
use strixcam.Control.Message.{CommandResponse, done_with, failed}
use strixcam.Network.{DirEntry, RecordingSummary, Tokens, DownloadToken, enumerate, mint_token}

-- RecordingMetadata, without the fields that the catalogue leaves at their defaults. The three last
-- are `optional`.
pub record RecordingMetadata : Type 0 where
  pub id : String
  pub size_bytes : ℕ
  pub started_at : ℕ
  pub thumbnail_id : String
  pub is_raw : Option Bool
  pub camera_index : Option ℕ
  pub capture_group_id : Option Bytes

-- A DownloadTokenResponse.
pub record TokenMessage : Type 0 where
  pub recording_id : String
  pub http_url : Bytes
  pub auth_token : String
  pub expires_at : ℕ

pub data DownloadBody : Type 0 where
  recording_list : List RecordingMetadata → DownloadBody
  download_token : TokenMessage → DownloadBody

pub record DownloadHandler : Type 0 where
  pub group_owner_ip : String
  pub download_port : ℕ
  pub token_ttl_seconds : ℕ

pub data DownloadCommand : Type 0 where
  list_recordings : DownloadCommand
  download_request : String → DownloadCommand

abbrev final_metadata : RecordingSummary → RecordingMetadata
final_metadata rec = record {
  id = rec.recording_id;
  size_bytes = rec.size_bytes;
  started_at = rec.started_at_unix;
  thumbnail_id = rec.thumbnail_id;
  is_raw = none;
  camera_index = none;
  capture_group_id = none;
}

-- The three fields of a raw file are set together.
abbrev pub metadata_of : RecordingSummary → RecordingMetadata
metadata_of rec =
    if rec.is_raw
    then record (final_metadata rec) {
      is_raw = some true;
      camera_index = some rec.camera_index;
      capture_group_id = some rec.capture_group_id;
    }
    else final_metadata rec

unfoldable pub handle_list : Option (List DirEntry) → CommandResponse DownloadBody
handle_list files = done_with (recording_list (map metadata_of (enumerate files)))

abbrev pub token_message : DownloadHandler → DownloadToken → TokenMessage
token_message h token = record {
  recording_id = token.recording_id;
  http_url =
      codes "http://"
      ++ codes h.group_owner_ip
      ++ codes ":"
      ++ to_string h.download_port
      ++ codes "/recordings/"
      ++ codes token.recording_id;
  auth_token = token.token;
  expires_at = token.expires_at_unix;
}

abbrev token_response :
    DownloadHandler → String → Option DownloadToken → CommandResponse DownloadBody
token_response h id none = failed (append "recording not found: " id)
token_response h id (some token) = done_with (download_token (token_message h token))

unfoldable pub handle_download_request :
    DownloadHandler
    → Option (List DirEntry)
    → String
    → String
    → ℕ
    → Tokens
    → Tokens × CommandResponse DownloadBody
handle_download_request h files id secret now tokens =
    let (next, token) = mint_token files id h.token_ttl_seconds secret now tokens in
    (next, token_response h id token)

unfoldable pub handle :
    DownloadHandler
    → DownloadCommand
    → Option (List DirEntry)
    → String
    → ℕ
    → Tokens
    → Tokens × CommandResponse DownloadBody
unfolding handle_list handle_download_request
handle h list_recordings files secret now tokens = (tokens, handle_list files)
handle h (download_request id) files secret now tokens =
    handle_download_request h files id secret now tokens
