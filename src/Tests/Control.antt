-- ===== src/Tests/Control.antt =====
-- Runs of the dispatcher and the handlers.
use strixcam.Prelude.{
  String, none, ℕ, ◌+◌, ◌-◌, Bool, true, false, some, List, [], ◌∷◌, ◌≡◌, refl, arith, ltb,
  if◌then◌else◌, ◌==◌, text_keys, nat_keys,
}
use strixcam.Prelude.Bytes.{codes}
use strixcam.Prelude.Int.{negsuc}
use strixcam.Session.{on_recording_start, in_play, cleared}
use strixcam.Session.Paths.{FilePath}
use strixcam.Recording.{idle_service, start_recording}
use strixcam.Control.Message.{ok, error, start_action, stop_action, pause_action, done}
use strixcam.Control.Dispatcher.{CommandHandler, Handlers, returned}
use strixcam.Control.RecordingHandler.{RecordingWorld}
use strixcam.Control.RecordingHandler
use strixcam.Control.RecordingHandler.Pairing.{
  Event, commands, connects, wifi_comes, configures, overlays, leaves, IsPaired, happen_all,
  happen_all-IsPaired,
}
use strixcam.Control.WifiDirect.{WifiWorld, handle_start}
use strixcam.Control.WifiDirect.Rollback.{IsWhole, is_formed, handle_start-IsWhole}
use strixcam.Control.WifiDirect.Adapters.{Adapters}
use strixcam.Network.Wifi.{no_state}
use strixcam.Overlay.Binding.{OverlayPorts, build_binding_data}
use strixcam.Control.MatchHandler.{
  MatchWorld, ScoreUpdate, score_update, match_control, clock_pause,
}
use strixcam.Control.MatchHandler
use strixcam.Control.MatchHandler.Score.{award, is_allowed, score_update_lem}
use strixcam.Control.MatchState.{derive_status, derive_time_remaining}
use strixcam.Control.MatchState.Report.{
  next, derive_status-handle, ticks, derive_time_remaining-ticks,
}
use strixcam.Control.StreamingHandler.{StreamingHandler, streaming_start, control, destination_of}
use strixcam.Control.StreamingHandler
use strixcam.Control.StreamingHandler.Egress.{
  active, succeeds, active_after, status_of, handle_control-active,
}
use strixcam.Control.UnitName.{make_advertised_name}
use strixcam.Tests.Session.{config, ready_state, net, net_laws, up, streams, live, recorder}

abbrev making : FilePath → Bool
making p = true

abbrev events : List (Event ℕ)
events =
    connects
    ∷ wifi_comes
    ∷ configures making config
    ∷ overlays
    ∷ commands start_action
    ∷ commands pause_action
    ∷ commands stop_action
    ∷ leaves
    ∷ []

abbrev new_world : RecordingWorld ℕ ℕ
new_world = record { session = cleared; recording = idle_service; outside = 0 }

happen_all-IsPaired_example : IsPaired recorder (happen_all recorder new_world events)
happen_all-IsPaired_example = happen_all-IsPaired recorder idle_service 0 events

abbrev ready_world : RecordingWorld ℕ ℕ
ready_world = record { session = ready_state; recording = idle_service; outside = 0 }

starts_well : (RecordingHandler.handle recorder start_action ready_world).1.status ≡ ok
unfolding RecordingHandler.handle RecordingHandler.handle_start start_recording on_recording_start
starts_well = refl

-- No group yet; wpa_supplicant will answer with one.
abbrev down : Adapters
down = record {
  manager = record up.manager {
    sock = false;
    local_path = false;
    group_interface = [];
    state = no_state;
    inbox =
        some (codes "OK")
        ∷ some (codes "OK")
        ∷ some (codes "P2P-GROUP-STARTED p2p-0 GO ssid=\"D\" passphrase=\"s\"")
        ∷ [];
  };
  dhcp = record { child = none; killed = 0 };
}

abbrev wifi_world : WifiWorld Adapters Bool Bool
wifi_world = record { session = cleared; network = down; streaming = live }

handle_start-IsWhole_example :
    IsWhole net streams net_laws 8554 8080
      (is_formed (net.start_p2p_group_owner down).1)
      cleared
      (handle_start net streams 8554 8080 wifi_world)
handle_start-IsWhole_example = handle_start-IsWhole net streams net_laws 8554 8080 wifi_world refl

-- A controller is how often it was refreshed.
abbrev overlay : OverlayPorts ℕ
overlay = record {
  set_binding_data = λ d k. k;
  activate_banner = λ t p d n k. k;
  refresh = λ n k. k + 1;
}

abbrev playing : MatchWorld ℕ
playing = record {
  session = record ready_state {
    live_match = record {
      score_a = 1;
      score_b = 2;
      period = 1;
      clock_seconds = 100;
      clock_running = true;
      segment = in_play;
    };
  };
  controller = 0;
}

abbrev correction : ScoreUpdate
correction = record { team_id = "a"; delta = negsuc 4 }

score_update_lem_example :
    let result = MatchHandler.handle overlay 9 (score_update correction) playing in
    let session = record playing.session {
      live_match =
          award
            (correction.team_id == config.team_a_id)
            correction.delta
            playing.session.live_match;
    } in
    let shown =
      overlay.refresh 9
        (overlay.set_binding_data (build_binding_data session) playing.controller) in
    if is_allowed config correction.team_id playing.session
    then (result.0 ≡ record { session = session; controller = shown }) × (result.1.status ≡ ok)
    else (result.0 ≡ playing) × (result.1.status ≡ error)
score_update_lem_example =
    score_update_lem overlay 9 playing config correction refl (omega arith) (omega arith)
      (omega arith)

derive_status-handle_example :
    derive_status (MatchHandler.handle overlay 9 (match_control clock_pause 0) playing).0.session
    ≡ next clock_pause
        (ltb 0 (0 + playing.session.live_match.period))
        (derive_status playing.session)
derive_status-handle_example = derive_status-handle overlay 9 playing config clock_pause 0 refl refl

derive_time_remaining-ticks_example :
    derive_time_remaining (ticks overlay 9 5 playing).session
    ≡ derive_time_remaining playing.session - 5
derive_time_remaining-ticks_example =
    derive_time_remaining-ticks overlay 9 5 playing refl refl (omega arith)

abbrev egress_off : StreamingHandler Bool Bool
egress_off = record {
  streaming = record live { platform_streams = []; active_names = [] };
  configured_rtmp_url = "rtmp://x";
}

-- No destination of its own.
abbrev no_url : String
no_url = ""

handle_control-active_example :
    let good =
      succeeds streams streaming_start
        (if no_url == "" then egress_off.configured_rtmp_url else no_url)
        (some false)
        egress_off in
    let result =
      StreamingHandler.handle streams (control streaming_start no_url) (some false) egress_off in
    (result.1.status ≡ status_of good)
    × (active result.0 ≡ active_after streams streaming_start good egress_off)
    × (result.0.configured_rtmp_url ≡ egress_off.configured_rtmp_url)
handle_control-active_example =
    handle_control-active streams streaming_start no_url (some false) egress_off

abbrev handler : List ℕ → CommandHandler ℕ ℕ ℕ
handler cases = record { handled_cases = cases; handle = λ cmd w. (w + 1, returned done) }

abbrev routes : Handlers ℕ ℕ ℕ
routes = (7, handler (7 ∷ [])) ∷ []

abbrev noise : List ℕ
noise = b'S' ∷ b'N' ∷ b'-' ∷ []

same_name : make_advertised_name 7 ≡ make_advertised_name 10007
unfolding make_advertised_name
same_name = refl
