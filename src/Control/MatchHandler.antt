-- ===== src/Control/MatchHandler.antt =====
-- src/app/control/services/handlers/match.handler.cpp: the commands on the
-- live match, and the clock. The overlay controller is a port: operations on a
-- value of `K`. The handler has a clock, as `main.cpp` gives it one; `now` is its reading.
pub mod Score
use strixcam.Prelude.{
  ℕ, ◌+◌, ◌-◌, ◌%◌, ◌^◌, Bool, true, false, ◌||◌, ◌&&◌, not, Option, none, some, String, List, ltb,
  if◌then◌else◌, ◌==◌, text_keys, suc,
}
use strixcam.Prelude.Int.{ℤ, pos, negsuc}
use strixcam.Prelude.Assoc.{Assoc}
use strixcam.Prelude.Bytes.{Bytes}
use strixcam.Overlay.Binding.{build_binding_data, OverlayPorts}
use strixcam.Control.Message.{Response, done, failed}
use strixcam.Session.{
  SessionState, SessionConfig, LiveMatch, MatchSegment, in_play, half_time, full_time,
  apply_match_update,
}

-- The actions of MatchControlCommand that the handler names, and any other value.
pub data MatchAction : Type 0 where
  kickoff period_start period_end final_whistle clock_pause clock_resume other_action : MatchAction

pub record ScoreUpdate : Type 0 where
  pub team_id : String
  pub delta : ℤ

pub record BannerEvent : Type 0 where
  pub template_id : String
  pub params : Assoc Bytes Bytes
  pub duration_s : ℕ

-- The commands that the handler is registered for, and any other.
pub data MatchCommand : Type 0 where
  score_update : ScoreUpdate → MatchCommand
  match_control : MatchAction → ℕ → MatchCommand
  banner_event : BannerEvent → MatchCommand
  other_command : MatchCommand

pub record MatchWorld (K : Type 0) : Type 0 where
  pub session : SessionState
  pub controller : K

-- A score is a `uint32_t` and a delta an `int32_t`. The code negates a negative delta, which has no
-- defined value for the least one.
unfoldable pub scored : ℕ → ℤ → ℕ
scored score (pos d) = (score + d) % 2 ^ 32
scored score (negsuc d) = if ltb score (suc d) then 0 else (score - suc d) % 2 ^ 32

abbrev add_score : Bool → ℤ → LiveMatch → LiveMatch
add_score is_home delta m =
    if is_home
    then record m { score_a = scored m.score_a delta }
    else record m { score_b = scored m.score_b delta }

abbrev or_period : ℕ → ℕ → ℕ
or_period period other = if ltb 0 period then period else other

unfoldable pub control : MatchAction → ℕ → LiveMatch → LiveMatch
control kickoff period m = record m {
  period = or_period period 1;
  clock_seconds = 0;
  clock_running = true;
  segment = in_play;
}
control period_start period m = record m {
  period = or_period period m.period;
  clock_running = true;
  segment = in_play;
}
control period_end period m = record m { clock_running = false; segment = half_time }
control final_whistle period m = record m { clock_running = false; segment = full_time }
control clock_pause period m = record m { clock_running = false }
control clock_resume period m = record m { clock_running = true }
control other_action period m = m

unfoldable pub tick : LiveMatch → LiveMatch
tick m = if m.clock_running then record m { clock_seconds = (m.clock_seconds + 1) % 2 ^ 32 } else m

module _ {K : Type 0} (overlay : OverlayPorts K) (now : ℕ) where
  abbrev sync_overlay : MatchWorld K → MatchWorld K
  sync_overlay w = record w {
    controller =
        overlay.refresh now (overlay.set_binding_data (build_binding_data w.session) w.controller);
  }

  -- The end that an update of the live match has.
  abbrev finish : String → SessionState × Bool → K → MatchWorld K × Response
  finish why (session, true) k = (sync_overlay (record { session = session; controller = k }), done)
  finish why (session, false) k = (record { session = session; controller = k }, failed why)

  unfoldable pub handle_score_update : ScoreUpdate → MatchWorld K → MatchWorld K × Response
  handle_score_update cmd w = elim w.session.config [
    | none ↦ (w, failed "score update with no active session")
    | some config ↦
        let is_home = cmd.team_id == config.team_a_id in
        let is_away = cmd.team_id == config.team_b_id in
        if not is_home && not is_away
        then (w, failed "score update: unknown team_id")
        else finish "score update rejected: no active session"
            (apply_match_update (some (add_score is_home cmd.delta)) w.session) w.controller
  ]

  unfoldable pub handle_match_control : MatchAction → ℕ → MatchWorld K → MatchWorld K × Response
  handle_match_control action period w =
      finish "match control rejected: no active session"
        (apply_match_update (some (control action period)) w.session) w.controller

  unfoldable pub handle_banner_event : BannerEvent → MatchWorld K → MatchWorld K × Response
  handle_banner_event cmd w =
      let shown =
        overlay.activate_banner cmd.template_id cmd.params cmd.duration_s now w.controller in
      (record w { controller = overlay.refresh now shown }, done)

  unfoldable pub handle : MatchCommand → MatchWorld K → MatchWorld K × Response
  unfolding handle_score_update handle_match_control handle_banner_event
  handle (score_update cmd) w = handle_score_update cmd w
  handle (match_control action period) w = handle_match_control action period w
  handle (banner_event cmd) w = handle_banner_event cmd w
  handle other_command w = (w, failed "match handler: unexpected command")

  unfoldable pub tick_clock : MatchWorld K → MatchWorld K
  tick_clock w =
      let (session, advanced) = apply_match_update (some tick) w.session in
      if advanced
      then sync_overlay (record w { session = session })
      else record w { session = session }
