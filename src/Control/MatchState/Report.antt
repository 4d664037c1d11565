-- ===== src/Control/MatchState/Report.antt =====
-- What the app reads of the match, beside what it commanded.
use strixcam.Prelude.{ℕ, ◌+◌, ◌-◌, ◌^◌, ◌<◌, zero, suc, Bool, true, false, some, ltb, ◌≡◌, arith}
use strixcam.Control.Message.{MatchStatus, not_started, active, paused, half_time, finished}
use strixcam.Session.{SessionState, SessionConfig, apply_match_update, before, configured}
use strixcam.Overlay.Binding.{OverlayPorts}
use strixcam.Control.MatchHandler.{
  MatchAction, kickoff, period_start, period_end, final_whistle, clock_pause, clock_resume, control,
  tick, MatchWorld, match_control, handle, handle_match_control, tick_clock,
}
use strixcam.Control.MatchState.{derive_status, derive_time_remaining}

-- The status as a state machine of its own, over whether a period was ever named.
abbrev pub next : MatchAction → Bool → MatchStatus → MatchStatus
next kickoff named s = active
next period_start true s = active
next period_start false s = not_started
next period_end named s = half_time
next final_whistle named s = finished
next clock_pause named active = paused
next clock_resume named paused = active
next action named s = s

module _ {K : Type 0} (overlay : OverlayPorts K) (now : ℕ) where
  -- In a session with a config and a phase from `configured` on, each match command moves the
  -- reported status as the state machine `next` says: a period start needs a period number, from
  -- the command or from before; a pause and a resumption act between active and paused only.
  pub derive_status-handle :
      (w : MatchWorld K) (config : SessionConfig) (action : MatchAction) (period : ℕ)
      → w.session.config ≡ some config
      → before w.session.phase configured ≡ false
      → derive_status (handle overlay now (match_control action period) w).0.session
        ≡ next action (ltb 0 (period + w.session.live_match.period)) (derive_status w.session)
  unfolding derive_status handle handle_match_control apply_match_update control
  derive_status-handle w config action period h p = ground arith

  unfoldable pub ticks : ℕ → MatchWorld K → MatchWorld K
  ticks zero w = w
  ticks (suc n) w = ticks n (tick_clock overlay now w)

  -- One tick of a running clock.
  record Ticked (before_tick after_tick : SessionState) : Type 0 where
    runs : after_tick.live_match.clock_running ≡ true
    phase : before after_tick.phase configured ≡ false
    seconds : after_tick.live_match.clock_seconds ≡ before_tick.live_match.clock_seconds + 1
    remains : derive_time_remaining after_tick ≡ derive_time_remaining before_tick - 1

  tick_clock-Ticked :
      (w : MatchWorld K)
      → w.session.live_match.clock_running ≡ true
      → before w.session.phase configured ≡ false
      → w.session.live_match.clock_seconds + 1 < 2 ^ 32
      → Ticked w.session (tick_clock overlay now w).session
  unfolding tick_clock tick apply_match_update derive_time_remaining
  tick_clock-Ticked w r p b = record {
    runs = ground arith;
    phase = ground arith;
    seconds = ground arith;
    remains = ground arith;
  }

  -- While the clock runs in a configured session, each tick takes a second from the remaining
  -- time until none is left.
  pub derive_time_remaining-ticks :
      (n : ℕ) (w : MatchWorld K)
      → w.session.live_match.clock_running ≡ true
      → before w.session.phase configured ≡ false
      → w.session.live_match.clock_seconds + n < 2 ^ 32
      → derive_time_remaining (ticks n w).session ≡ derive_time_remaining w.session - n
  unfolding ticks
  derive_time_remaining-ticks zero w r p b = omega arith
  derive_time_remaining-ticks (suc n) w r p b =
      let t = tick_clock-Ticked w r p (omega arith) in
      let rest =
        derive_time_remaining-ticks n (tick_clock overlay now w) t.runs t.phase
          (omega (arith, t.seconds)) in
      omega (arith, rest, t.remains)
