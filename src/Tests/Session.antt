-- ===== src/Tests/Session.antt =====
-- Runs of the session manager and of its clean-up.
use strixcam.Prelude.{String, ℕ, ◌+◌, Bool, true, false, some, List, [], ◌∷◌, map, ◌≡◌, refl}
use strixcam.Prelude.Int.{pos, int_keys}
use strixcam.Prelude.Assoc.{contains}
use mathlib.Core.List.{Sublist}
use strixcam.Session.{
  on_connect, SessionConfig, SessionState, ready, recording, cleared, no_match, on_disconnect,
}
use strixcam.Session.Paths.{FilePath}
use strixcam.Session.Phases.{
  SessionCall, connects, wifi_comes, overlays, starts, configures, kind, step, run, milestones,
  run_cleared-milestones, Moves, step-Moves,
}
use strixcam.Session.Invariant.{IsCoherent, run-IsCoherent}
use strixcam.Session.Disconnect.{Devices, session_cleanup, on_disconnect_lem}
use strixcam.Recording.{RecordingService, RecordingPorts, is_idle}
use strixcam.Recording.{recording as rolling}
use strixcam.Streaming.{StreamPorts, StreamingService, is_app_stream_running}
use strixcam.Streaming.Mirror.{IsMirrored}
use strixcam.Control.WifiDirect.{NetworkPorts}
use strixcam.Control.WifiDirect.Rollback.{NetworkLaws}
use strixcam.Control.WifiDirect.Adapters.{Adapters, adapters, adapters_laws, has_child}
use strixcam.Network.Wifi.{p2p_group_owner}
use strixcam.Network.Wifi.Events.{all_succeed}
use strixcam.Prelude.Bytes.{Bytes, codes}

abbrev pub config : SessionConfig
config = record {
  match_uuid = "m";
  user_uuid = "u";
  sport = "football";
  num_periods = pos 2;
  period_length_seconds = pos 2700;
  rtmp_url = "";
  stream_key = "";
  video_output_path = b'v' ∷ [];
  thumbnail_output_path = b't' ∷ [];
  team_a_id = "a";
  team_b_id = "b";
  team_a_name = b'A' ∷ [];
  team_b_name = b'B' ∷ [];
  team_a_color_hex = "";
  team_b_color_hex = "";
}

abbrev making : FilePath → Bool
making p = true

abbrev to_recording : List SessionCall
to_recording = connects ∷ wifi_comes ∷ configures making config ∷ overlays ∷ starts ∷ []

run_cleared-milestones_example :
    Sublist (milestones (run cleared to_recording).phase) (map kind to_recording)
run_cleared-milestones_example = run_cleared-milestones to_recording

abbrev pub ready_state : SessionState
ready_state = record { phase = ready; config = some config; live_match = no_match }

step-Moves_example : Moves ready (kind starts) (step ready_state starts).0.phase
step-Moves_example = step-Moves ready_state starts

run-IsCoherent_example : IsCoherent (run cleared to_recording)
run-IsCoherent_example = run-IsCoherent to_recording

connect_again : (step ready_state connects).1 ≡ false
unfolding step on_connect
connect_again = refl

-- Every call on the socket and the start of the child succeed.
abbrev pub text_of : Bytes → String
text_of bytes = "text"

abbrev pub net : NetworkPorts Adapters
net = adapters text_of all_succeed true true

abbrev pub net_laws : NetworkLaws net
net_laws = adapters_laws text_of all_succeed true true

-- A network on which a group and its DHCP server are up.
abbrev pub up : Adapters
up = record {
  manager = record {
    sock = true;
    local_path = true;
    group_interface = codes "p2p-0";
    state = record {
      mode = p2p_group_owner;
      connected = true;
      ssid = codes "D";
      ip_address = codes "192.168.49.1";
    };
    sent = [];
    inbox = [];
  };
  dhcp = record { child = some []; killed = 0 };
}

-- A server is whether it runs, and so is a streamer; frames are numbers.
abbrev pub streams : StreamPorts ℕ Bool Bool
streams = record {
  app_start = λ c a. (true, true);
  app_stop = λ a. false;
  app_running = λ a. a;
  app_push = λ f a. a;
  start = λ c s. (true, true);
  stop = λ s. false;
  running = λ s. s;
  push = λ f s. s;
}

-- A recorder that has always room; its world counts the frames.
abbrev pub recorder : RecordingPorts ℕ ℕ
recorder = record {
  has_enough_free_space = λ w. true;
  start = λ p w. (w, true);
  pause = λ w. w;
  resume = λ w. w;
  stop = λ w. (w, true);
  push = λ f w. w + 1;
  write = λ f p w. (w, true);
}

abbrev pub live : StreamingService Bool Bool
live = record {
  app_stream_server = true;
  platform_streams = (pos 1, true) ∷ [];
  active_names = (pos 1, "egress") ∷ [];
}

pub live-IsMirrored : IsMirrored live
unfolding contains
live-IsMirrored = record { same_ids = refl; distinct = (refl, tt); positive = (refl, tt) }

abbrev pub busy : RecordingService ℕ
busy = record {
  state = rolling;
  video_path = b'v' ∷ [];
  thumbnail_path = b't' ∷ [];
  last_frame = some 3;
}

abbrev devices : Devices ℕ ℕ Bool Bool Adapters
devices = record { recording = busy; outside = 0; streaming = live; network = up }

abbrev session : SessionState
session = record { phase = recording; config = some config; live_match = no_match }

on_disconnect_lem_example :
    let result = on_disconnect (session_cleanup recorder streams net) session devices in
    (result.0 ≡ cleared)
    × (is_idle result.1.recording.state ≡ true)
    × (is_app_stream_running streams result.1.streaming ≡ false)
    × (result.1.streaming.platform_streams ≡ [])
    × (result.1.network.manager.state.connected ≡ false)
    × (has_child result.1.network.dhcp ≡ false)
on_disconnect_lem_example =
    on_disconnect_lem recorder streams net net_laws.stops (λ a. refl) session devices refl
      live-IsMirrored
