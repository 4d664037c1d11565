-- ===== src/Control/MatchHandler/Score.antt =====
-- The score updates of MatchHandler.
use strixcam.Prelude.{
  ℕ, ◌+◌, ◌-◌, ◌^◌, ◌<◌, Bool, true, false, ◌||◌, ◌&&◌, not, some, String, if◌then◌else◌, ◌==◌,
  text_keys, ◌≡◌, arith,
}
use strixcam.Prelude.Int.{ℤ, pos, negsuc, pos_part, neg_part}
use strixcam.Control.Message.{ok, error}
use strixcam.Session.{
  SessionState, SessionConfig, LiveMatch, apply_match_update, before, configured,
}
use strixcam.Control.MatchHandler.{
  MatchWorld, ScoreUpdate, score_update, scored, handle, handle_score_update,
}
use strixcam.Overlay.Binding.{OverlayPorts, build_binding_data}

-- The sum, stopped at zero below, as long as it fits the score's 32 bits.
scored_lem :
    (score : ℕ) (delta : ℤ)
    → score + pos_part delta < 2 ^ 32
    → scored score delta ≡ (score + pos_part delta) - neg_part delta
unfolding scored
scored_lem score (pos d) h = omega arith
scored_lem score (negsuc d) h = ground arith

-- The sum of a score and a delta, stopped at zero.
abbrev pub award : Bool → ℤ → LiveMatch → LiveMatch
award true delta m = record m { score_a = (m.score_a + pos_part delta) - neg_part delta }
award false delta m = record m { score_b = (m.score_b + pos_part delta) - neg_part delta }

-- The session is configured and the team is one of its two.
abbrev pub is_allowed : SessionConfig → String → SessionState → Bool
is_allowed config team s =
    (team == config.team_a_id || team == config.team_b_id) && not (before s.phase configured)

module _ {K : Type 0} (overlay : OverlayPorts K) (now : ℕ) where
  -- In a session with a config, a score update is answered OK exactly when the phase has reached
  -- `configured` and the team is one of the two. Then the named team's score (the first team's, if
  -- both have this id) becomes the sum stopped at zero, the rest of the session stays, and the
  -- overlay gets the data of the new session and is refreshed. Otherwise nothing changes. This
  -- holds while both sums fit 32 bits, and for a delta above the least of an `int32_t`.
  pub score_update_lem :
      (w : MatchWorld K) (config : SessionConfig) (cmd : ScoreUpdate)
      → w.session.config ≡ some config
      → neg_part cmd.delta < 2 ^ 31
      → w.session.live_match.score_a + pos_part cmd.delta < 2 ^ 32
      → w.session.live_match.score_b + pos_part cmd.delta < 2 ^ 32
      → let result = handle overlay now (score_update cmd) w in
        let session = record w.session {
          live_match = award (cmd.team_id == config.team_a_id) cmd.delta w.session.live_match;
        } in
        let shown =
          overlay.refresh now
            (overlay.set_binding_data (build_binding_data session) w.controller) in
        if is_allowed config cmd.team_id w.session
        then (result.0 ≡ record { session = session; controller = shown }) × (result.1.status ≡ ok)
        else (result.0 ≡ w) × (result.1.status ≡ error)
  unfolding handle handle_score_update apply_match_update
  score_update_lem w config cmd h small a b = ground (
    arith,
    scored_lem w.session.live_match.score_a cmd.delta a,
    scored_lem w.session.live_match.score_b cmd.delta b,
  )
