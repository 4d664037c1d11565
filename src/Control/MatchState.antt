-- ===== src/Control/MatchState.antt =====
-- src/app/control/services/handlers/match-state.handler.cpp: the reported state of the match. The
-- handler has a clock, as `main.cpp` gives it one; `now` is its reading.
pub mod Report
use strixcam.Prelude.{
  ℕ, ◌-◌, Bool, true, false, Option, none, some, String, nat_eq, leb, if◌then◌else◌,
}
use strixcam.Prelude.Int.{ℤ, pos, leb_ℤ, pos_part}
use strixcam.Control.Message.{
  Response, MatchStatus, not_started, active, paused, half_time, finished, MatchStateBody,
  match_state, done_with,
}
use strixcam.Session.{SessionState, SessionConfig, LiveMatch, MatchSegment, in_play, full_time}
use strixcam.Session.{half_time as at_half_time}

abbrev status_in_play : LiveMatch → MatchStatus
status_in_play m =
    if nat_eq m.period 0 then not_started else if m.clock_running then active else paused

-- The status of a session with a config.
abbrev match_status : LiveMatch → MatchStatus
match_status m = elim m.segment [
  | at_half_time ↦ half_time
  | full_time ↦ finished
  | in_play ↦ status_in_play m
]

unfoldable pub derive_status : SessionState → MatchStatus
derive_status s = elim s.config [ none ↦ not_started | some _ ↦ match_status s.live_match ]

-- The length is positive where it is cast to `uint32_t`, and an `int32_t` fits.
abbrev remaining : ℤ → ℕ → ℕ
remaining period_length elapsed =
    if leb_ℤ period_length (pos 0)
    then 0
    else if leb (pos_part period_length) elapsed
    then 0
    else pos_part period_length - elapsed

unfoldable pub derive_time_remaining : SessionState → ℕ
derive_time_remaining s = elim s.config [
  | none ↦ 0
  | some config ↦ remaining config.period_length_seconds s.live_match.clock_seconds
]

abbrev team_ids : Option SessionConfig → String × String
team_ids none = ("", "")
team_ids (some config) = (config.team_a_id, config.team_b_id)

-- `Handle`, which only reads the session.
unfoldable pub handle : ℕ → SessionState → Response
unfolding derive_status derive_time_remaining
handle now s =
    let (a, b) = team_ids s.config in
    done_with (
      match_state (record {
        status = derive_status s;
        current_period = s.live_match.period;
        time_remaining_s = derive_time_remaining s;
        score_a = s.live_match.score_a;
        score_b = s.live_match.score_b;
        team_a_id = a;
        team_b_id = b;
        updated_at = now;
      }))
