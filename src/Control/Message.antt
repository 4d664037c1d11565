-- ===== src/Control/Message.antt =====
-- sst_cam::Command and sst_cam::CommandResponse.
use strixcam.Prelude.{ℕ, String, Bool, true, false, Option, none, some}

pub data ResponseStatus : Type 0 where
  ok error unsupported : ResponseStatus

-- A command with a payload of `C`; case 0 is PAYLOAD_NOT_SET.
pub record Command {ℓ} (C : Type ℓ) : Type ℓ where
  pub correlation_id : String
  pub payload_case : ℕ
  pub payload : C

-- A response with a payload of `P`. A new message has an empty id and no payload.
pub record CommandResponse {ℓ} (P : Type ℓ) : Type ℓ where
  pub correlation_id : String
  pub status : ResponseStatus
  pub error_message : String
  pub payload : Option P

module _ {ℓ} {P : Type ℓ} where
  abbrev pub done : CommandResponse P
  done = record { correlation_id = ""; status = ok; error_message = ""; payload = none }

  abbrev pub done_with : P → CommandResponse P
  done_with p = record { correlation_id = ""; status = ok; error_message = ""; payload = some p }

  abbrev pub failed : String → CommandResponse P
  failed why = record { correlation_id = ""; status = error; error_message = why; payload = none }

  abbrev pub refused : String → CommandResponse P
  refused why = record {
    correlation_id = "";
    status = unsupported;
    error_message = why;
    payload = none;
  }

pub data MatchStatus : Type 0 where
  not_started active paused half_time finished : MatchStatus

-- sst_cam::MatchState. Ids that are not set are empty.
pub record MatchStateBody : Type 0 where
  pub status : MatchStatus
  pub current_period : ℕ
  pub time_remaining_s : ℕ
  pub score_a : ℕ
  pub score_b : ℕ
  pub team_a_id : String
  pub team_b_id : String
  pub updated_at : ℕ

-- sst_cam::WifiDirectGroup.
pub record WifiDirectGroup : Type 0 where
  pub ssid : String
  pub psk : String
  pub group_owner_ip : String
  pub preview_port : ℕ
  pub download_port : ℕ
  pub role : String

-- The payloads that the modelled handlers set.
pub data ResponseBody : Type 0 where
  match_state : MatchStateBody → ResponseBody
  wifi_direct_group : WifiDirectGroup → ResponseBody

abbrev pub Response : Type 0
Response = CommandResponse ResponseBody

-- The response of an operation that succeeds or has one way to fail.
abbrev pub ok_or : String → Bool → Response
ok_or why true = done
ok_or why false = failed why

-- RecordingAction: the actions that the handlers name, and any other value.
pub data RecordingAction : Type 0 where
  start_action stop_action pause_action resume_action other_action : RecordingAction
