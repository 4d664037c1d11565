-- ===== src/Overlay/Binding.antt =====
-- src/app/overlay/binding-sync.hpp: what the texts of an overlay show of a session, and the
-- controller as an interface for the handlers.
use strixcam.Prelude.{ℕ, Option, none, some, String, []}
use strixcam.Prelude.Assoc.{Assoc}
use strixcam.Prelude.Bytes.{Bytes}
use strixcam.Session.{SessionState, SessionConfig, MatchSegment}

-- `period_state` is a PeriodLabelState, which has the constructors of MatchSegment.
pub record BindingData : Type 0 where
  pub team_a_name : Bytes
  pub team_b_name : Bytes
  pub score_a : ℕ
  pub score_b : ℕ
  pub period : ℕ
  pub clock_seconds : ℕ
  pub period_state : MatchSegment

abbrev team_names : Option SessionConfig → Bytes × Bytes
team_names none = ([], [])
team_names (some config) = (config.team_a_name, config.team_b_name)

abbrev pub build_binding_data : SessionState → BindingData
build_binding_data s =
    let (a, b) = team_names s.config in
    record {
      team_a_name = a;
      team_b_name = b;
      score_a = s.live_match.score_a;
      score_b = s.live_match.score_b;
      period = s.live_match.period;
      clock_seconds = s.live_match.clock_seconds;
      period_state = s.live_match.segment;
    }

pub record OverlayPorts {ℓ} (K : Type ℓ) : Type ℓ where
  pub set_binding_data : BindingData → K → K
  pub activate_banner : String → Assoc Bytes Bytes → ℕ → ℕ → K → K
  pub refresh : ℕ → K → K
