-- ===== src/Session.antt =====
-- src/domain/session/models and src/app/session/services/session_manager: the session of one
-- connected phone. Each method runs under the manager's mutex, so it is one atomic step, but for
-- `OnDisconnect`, whose clean-up runs between two locked parts. Logging is left out.
pub mod Paths
pub mod Phases
pub mod Invariant
pub mod Disconnect
use strixcam.Prelude.{
  ℕ, Bool, true, false, ◌||◌, ◌&&◌, Option, none, some, String, List, [], ltb, nat_eq,
  if◌then◌else◌,
}
use strixcam.Prelude.Int.{ℤ}
use strixcam.Prelude.Bytes.{Bytes}
use Paths.{FilePath, prepare_output_dirs}

pub data SessionPhase : Type 0 where
  idle connected wifi_ready configured ready recording : SessionPhase

-- The value of the enumerator, by which phases are compared.
abbrev pub rank : SessionPhase → ℕ
rank idle = 0
rank connected = 1
rank wifi_ready = 2
rank configured = 3
rank ready = 4
rank recording = 5

pub record SessionConfig : Type 0 where
  pub match_uuid : String
  pub user_uuid : String
  pub sport : String
  pub num_periods : ℤ
  pub period_length_seconds : ℤ
  pub rtmp_url : String
  pub stream_key : String
  pub video_output_path : FilePath
  pub thumbnail_output_path : FilePath
  pub team_a_id : String
  pub team_b_id : String
  pub team_a_name : Bytes
  pub team_b_name : Bytes
  pub team_a_color_hex : String
  pub team_b_color_hex : String

pub data MatchSegment : Type 0 where
  in_play half_time full_time : MatchSegment

pub record LiveMatch : Type 0 where
  pub score_a : ℕ
  pub score_b : ℕ
  pub period : ℕ
  pub clock_seconds : ℕ
  pub clock_running : Bool
  pub segment : MatchSegment

abbrev pub no_match : LiveMatch
no_match = record {
  score_a = 0;
  score_b = 0;
  period = 0;
  clock_seconds = 0;
  clock_running = false;
  segment = in_play;
}

pub record SessionState : Type 0 where
  pub phase : SessionPhase
  pub config : Option SessionConfig
  pub live_match : LiveMatch

-- A value-initialised state: idle, and nothing remembered.
abbrev pub cleared : SessionState
cleared = record { phase = idle; config = none; live_match = no_match }

-- `a < b` and `a == b` on phases.
abbrev pub before : SessionPhase → SessionPhase → Bool
before a b = ltb (rank a) (rank b)

abbrev pub same_phase : SessionPhase → SessionPhase → Bool
same_phase a b = nat_eq (rank a) (rank b)

unfoldable pub on_connect : SessionState → SessionState × Bool
on_connect s =
    if same_phase s.phase idle then (record s { phase = connected }, true) else (s, false)

unfoldable pub on_wifi_ready : SessionState → SessionState × Bool
on_wifi_ready s =
    if before s.phase connected
    then (s, false)
    else if same_phase s.phase connected
    then (record s { phase = wifi_ready }, true)
    else (s, true)

unfoldable pub on_wifi_stopped : SessionState → SessionState × Bool
on_wifi_stopped s =
    if same_phase s.phase idle
    then (s, false)
    else (record { phase = connected; config = none; live_match = no_match }, true)

-- `mkdir` is `create_directories`: whether it met no error.
unfoldable pub apply_session_config :
    (FilePath → Bool) → SessionConfig → SessionState → SessionState × Bool
unfolding prepare_output_dirs
apply_session_config mkdir config s =
    if before s.phase wifi_ready || same_phase s.phase recording
    then (s, false)
    else if prepare_output_dirs mkdir config.video_output_path config.thumbnail_output_path
    then (
      record s {
        phase = if same_phase s.phase wifi_ready then configured else s.phase;
        config = some config;
      },
      true,
    )
    else (s, false)

unfoldable pub on_overlay_configured : SessionState → SessionState × Bool
on_overlay_configured s =
    if before s.phase configured
    then (s, false)
    else if same_phase s.phase configured
    then (record s { phase = ready }, true)
    else (s, true)

unfoldable pub on_recording_start : SessionState → SessionState × Bool
on_recording_start s =
    if same_phase s.phase ready then (record s { phase = recording }, true) else (s, false)

unfoldable pub on_recording_stop : SessionState → SessionState × Bool
on_recording_stop s =
    if same_phase s.phase recording then (record s { phase = ready }, true) else (s, false)

-- An empty `std::function` is `none`.
unfoldable pub apply_match_update :
    Option (LiveMatch → LiveMatch) → SessionState → SessionState × Bool
apply_match_update none s = (s, false)
apply_match_update (some mutate) s =
    if before s.phase configured
    then (s, false)
    else (record s { live_match = mutate s.live_match }, true)

-- The three steps of ISessionCleanup, over what they act on. A step returns whether it threw.
pub record SessionCleanup {ℓ} (W : Type ℓ) : Type ℓ where
  pub finalize_recording : W → W × Bool
  pub stop_streaming : W → W × Bool
  pub teardown_wifi_direct : W → W × Bool

-- The `safe` wrapper: what a step throws is dropped.
abbrev pub safe {ℓ} : {W : Type ℓ} → (W → W × Bool) → W → W
safe action w = (action w).0

unfoldable pub fan_out {ℓ} : {W : Type ℓ} → SessionCleanup W → W → W
fan_out cleanup w =
    safe cleanup.teardown_wifi_direct
      (safe cleanup.stop_streaming (safe cleanup.finalize_recording w))

-- `OnDisconnect` without calls of other threads between its two locked parts.
unfoldable pub on_disconnect {ℓ} :
    {W : Type ℓ} → SessionCleanup W → SessionState → W → SessionState × W
unfolding fan_out
on_disconnect cleanup s w = if same_phase s.phase idle then (s, w) else (cleared, fan_out cleanup w)
