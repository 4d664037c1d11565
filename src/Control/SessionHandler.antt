-- ===== src/Control/SessionHandler.antt =====
-- src/app/control/services/handlers/session.handler.cpp: the command that configures the session.
use strixcam.Prelude.{Bool, Option, none, some, String}
use strixcam.Prelude.Int.{ℤ}
use strixcam.Prelude.Bytes.{Bytes}
use strixcam.Control.Message.{Response, ok_or}
use strixcam.Session.{SessionState, SessionConfig, apply_session_config}
use strixcam.Session.Paths.{FilePath}

-- PushSessionConfigCommand; an `optional` field is `none` when absent.
pub record SessionConfigMessage : Type 0 where
  pub match_uuid : String
  pub user_uuid : String
  pub sport : String
  pub num_periods : ℤ
  pub period_length_seconds : ℤ
  pub rtmp_url : Option String
  pub stream_key : Option String
  pub video_output_path : FilePath
  pub thumbnail_output_path : FilePath
  pub team_a_id : String
  pub team_b_id : String
  pub team_a_name : Bytes
  pub team_b_name : Bytes
  pub team_a_color_hex : String
  pub team_b_color_hex : String

abbrev or_empty : Option String → String
or_empty none = ""
or_empty (some s) = s

unfoldable pub config_of : SessionConfigMessage → SessionConfig
config_of msg = record {
  match_uuid = msg.match_uuid;
  user_uuid = msg.user_uuid;
  sport = msg.sport;
  num_periods = msg.num_periods;
  period_length_seconds = msg.period_length_seconds;
  rtmp_url = or_empty msg.rtmp_url;
  stream_key = or_empty msg.stream_key;
  video_output_path = msg.video_output_path;
  thumbnail_output_path = msg.thumbnail_output_path;
  team_a_id = msg.team_a_id;
  team_b_id = msg.team_b_id;
  team_a_name = msg.team_a_name;
  team_b_name = msg.team_b_name;
  team_a_color_hex = msg.team_a_color_hex;
  team_b_color_hex = msg.team_b_color_hex;
}

unfoldable pub handle :
    (FilePath → Bool) → SessionConfigMessage → SessionState → SessionState × Response
unfolding config_of
handle mkdir msg s =
    let (next, applied) = apply_session_config mkdir (config_of msg) s in
    (
      next,
      ok_or "session config rejected: WiFi Direct group must be up first (out of order)" applied,
    )
