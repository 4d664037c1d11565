-- ===== src/Session/Invariant.antt =====
-- SessionManager: what a session remembers, by its phase.
use strixcam.Prelude.{Bool, true, false, not, Option, none, some, List, [], ◌∷◌, ◌≡◌, refl, arith}
use strixcam.Session.Phases.{SessionCall, configures, updates, step, run}
use strixcam.Session.{
  configured, SessionConfig, SessionState, no_match, cleared, on_connect, on_wifi_ready,
  on_wifi_stopped, before, apply_session_config, on_overlay_configured, on_recording_start,
  on_recording_stop, apply_match_update,
}

abbrev pub has_config : Option SessionConfig → Bool
has_config none = false
has_config (some c) = true

-- There is a session config exactly from `configured` on, and before it no match data.
pub record IsCoherent (s : SessionState) : Type 0 where
  pub config : has_config s.config ≡ not (before s.phase configured)
  pub fresh : before s.phase configured ≡ true → s.live_match ≡ no_match

pub step-IsCoherent : (s : SessionState) (c : SessionCall) → IsCoherent s → IsCoherent (step s c).0
unfolding step on_connect on_wifi_ready on_wifi_stopped on_overlay_configured on_recording_start
    on_recording_stop apply_match_update apply_session_config
step-IsCoherent s (updates none) v = v
step-IsCoherent s (configures mkdir c) v = record { config = ground arith; fresh = ground arith }
step-IsCoherent s c v = record { config = ground arith; fresh = ground arith }

-- After any calls on a new manager there is a session config exactly from the configured phase on,
-- and no score or clock before it.
pub run-IsCoherent : (cs : List SessionCall) → IsCoherent (run cleared cs)
unfolding run
run-IsCoherent cs = from cleared cs (record { config = refl; fresh = λ h. refl })
  where
    from : (s : SessionState) (ds : List SessionCall) → IsCoherent s → IsCoherent (run s ds)
    from s [] v = v
    from s (d ∷ ds) v = from (step s d).0 ds (step-IsCoherent s d v)

-- A call that returns false leaves the session as it was.
pub step-rejected : (s : SessionState) (c : SessionCall) → (step s c).1 ≡ false → (step s c).0 ≡ s
unfolding step on_connect on_wifi_ready on_wifi_stopped on_overlay_configured on_recording_start
    on_recording_stop apply_match_update apply_session_config
step-rejected s (updates none) h = refl
step-rejected s (configures mkdir c) h = ground arith
step-rejected s c h = ground arith
