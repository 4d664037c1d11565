-- ===== src/Session/Phases.antt =====
-- The phases of SessionManager: the transitions that a call can make, as a relation, and the
-- calls that lead to a phase.
use mathlib.Core.List.{Sublist, append_assoc, sublist-append_left}
use mathlib.Core.List.Sublist
use strixcam.Prelude.{
  Bool, true, false, ◌||◌, Option, some, List, [], ◌∷◌, ◌++◌, ◌≢◌, ◌≡◌, refl, if◌then◌else◌, map,
}
use strixcam.Session.Paths.{FilePath, prepare_output_dirs}
use strixcam.Session.{
  SessionPhase, idle, connected, wifi_ready, configured, ready, recording, SessionConfig,
  SessionState, LiveMatch, cleared, on_connect, on_wifi_ready, on_wifi_stopped,
  apply_session_config, on_overlay_configured, on_recording_start, on_recording_stop,
  apply_match_update, same_phase, before,
}

-- One call on the session manager.
pub data SessionCall : Type 0 where
  connects wifi_comes wifi_goes overlays starts stops disconnects : SessionCall
  configures : (FilePath → Bool) → SessionConfig → SessionCall
  updates : Option (LiveMatch → LiveMatch) → SessionCall

-- What `OnDisconnect` does to the session.
abbrev pub disconnected : SessionState → SessionState
disconnected s = if same_phase s.phase idle then s else cleared

unfoldable pub step : SessionState → SessionCall → SessionState × Bool
step s connects = on_connect s
step s wifi_comes = on_wifi_ready s
step s wifi_goes = on_wifi_stopped s
step s overlays = on_overlay_configured s
step s starts = on_recording_start s
step s stops = on_recording_stop s
step s disconnects = (disconnected s, true)
step s (configures mkdir config) = apply_session_config mkdir config s
step s (updates mutate) = apply_match_update mutate s

pub data CallKind : Type 0 where
  connect wifi_up wifi_down configure overlay start stop disconnect update : CallKind

abbrev pub kind : SessionCall → CallKind
kind connects = connect
kind wifi_comes = wifi_up
kind wifi_goes = wifi_down
kind overlays = overlay
kind starts = start
kind stops = stop
kind disconnects = disconnect
kind (configures _ _) = configure
kind (updates _) = update

-- The calls that always move a phase on: elsewhere a call may leave the phase. `configure` may fail.
abbrev pub leaves : CallKind → SessionPhase → Bool
leaves connect p = same_phase p idle
leaves wifi_up p = same_phase p connected
leaves wifi_down p = if same_phase p idle then false else true
leaves overlay p = same_phase p configured
leaves start p = same_phase p ready
leaves stop p = same_phase p recording
leaves disconnect p = true
leaves configure p = false
leaves update p = false

-- The transitions: each step of a session's way forward, and the ways back.
pub data Moves : SessionPhase → CallKind → SessionPhase → Type 0 where
  stays : (p : SessionPhase) (k : CallKind) → leaves k p ≡ false → Moves p k p
  connecting : Moves idle connect connected
  wifi_coming : Moves connected wifi_up wifi_ready
  configuring : Moves wifi_ready configure configured
  overlaying : Moves configured overlay ready
  starting : Moves ready start recording
  stopping : Moves recording stop ready
  wifi_going : (p : SessionPhase) → p ≢ idle → Moves p wifi_down connected
  disconnecting : (p : SessionPhase) → Moves p disconnect idle

abbrev at_phase : SessionPhase → Option SessionConfig → LiveMatch → SessionState
at_phase p config m = record { phase = p; config = config; live_match = m }

-- `ApplySessionConfig`, by whether the directories were made.
abbrev outcome : Bool → SessionConfig → SessionState → SessionState × Bool
outcome made c s =
    if before s.phase wifi_ready || same_phase s.phase recording
    then (s, false)
    else if made
    then (
      record s {
        phase = if same_phase s.phase wifi_ready then configured else s.phase;
        config = some c;
      },
      true,
    )
    else (s, false)

outcome-Moves :
    (made : Bool) (p : SessionPhase) (config : Option SessionConfig) (m : LiveMatch)
    (c : SessionConfig)
    → Moves p configure (outcome made c (at_phase p config m)).0.phase
outcome-Moves true wifi_ready config m c = configuring
outcome-Moves true p config m c = stays p configure refl
outcome-Moves false idle config m c = stays idle configure refl
outcome-Moves false p config m c = stays p configure refl

configure-Moves :
    (p : SessionPhase) (config : Option SessionConfig) (m : LiveMatch) (mkdir : FilePath → Bool)
    (c : SessionConfig)
    → Moves p configure (apply_session_config mkdir c (at_phase p config m)).0.phase
unfolding apply_session_config
configure-Moves p config m mkdir c =
    outcome-Moves (prepare_output_dirs mkdir c.video_output_path c.thumbnail_output_path) p config m
      c

step_at-Moves :
    (p : SessionPhase) (config : Option SessionConfig) (m : LiveMatch) (c : SessionCall)
    → Moves p (kind c) (step (at_phase p config m) c).0.phase
unfolding step on_connect on_wifi_ready on_wifi_stopped on_overlay_configured on_recording_start
    on_recording_stop apply_match_update
step_at-Moves p config m (configures mkdir c) = configure-Moves p config m mkdir c
step_at-Moves idle config m connects = connecting
step_at-Moves connected config m wifi_comes = wifi_coming
step_at-Moves configured config m overlays = overlaying
step_at-Moves ready config m starts = starting
step_at-Moves recording config m stops = stopping
step_at-Moves idle config m wifi_goes = stays idle wifi_down refl
step_at-Moves p config m wifi_goes = wifi_going p (λ e. cc)
step_at-Moves idle config m disconnects = disconnecting idle
step_at-Moves p config m disconnects = disconnecting p
step_at-Moves idle config m (updates (some f)) = stays idle update refl
step_at-Moves p config m (updates (some f)) = stays p update refl
step_at-Moves p config m c = stays p (kind c) refl

-- Each call moves the phase along one of these transitions: a connect, a WiFi start, an overlay and
-- a recording start take an idle, connected, configured or ready session one phase on, as a
-- configuration can take one with WiFi; a WiFi stop takes every session but an idle one back to
-- connected, a recording stop takes a recording one back to ready, and a disconnect takes every
-- one to idle. In every other phase the call leaves the phase, and a match update leaves it always.
pub step-Moves : (s : SessionState) (c : SessionCall) → Moves s.phase (kind c) (step s c).0.phase
step-Moves s c = step_at-Moves s.phase s.config s.live_match c

unfoldable pub run : SessionState → List SessionCall → SessionState
run s [] = s
run s (c ∷ cs) = run (step s c).0 cs

-- The calls that lead to a phase.
abbrev pub milestones : SessionPhase → List CallKind
milestones idle = []
milestones connected = connect ∷ []
milestones wifi_ready = connect ∷ wifi_up ∷ []
milestones configured = connect ∷ wifi_up ∷ configure ∷ []
milestones ready = connect ∷ wifi_up ∷ configure ∷ overlay ∷ []
milestones recording = connect ∷ wifi_up ∷ configure ∷ overlay ∷ start ∷ []

connect-milestones : (p : SessionPhase) → p ≢ idle → Sublist (connect ∷ []) (milestones p)
connect-milestones idle h = absurd (h refl)
connect-milestones connected h = Sublist.refl _
connect-milestones wifi_ready h = sublist-append_left (connect ∷ []) (wifi_up ∷ [])
connect-milestones configured h = sublist-append_left (connect ∷ []) (wifi_up ∷ configure ∷ [])
connect-milestones ready h = sublist-append_left (connect ∷ []) (wifi_up ∷ configure ∷ overlay ∷ [])
connect-milestones recording h =
    sublist-append_left (connect ∷ []) (wifi_up ∷ configure ∷ overlay ∷ start ∷ [])

sublist_of_nil : (l : List CallKind) → Sublist [] l
sublist_of_nil l = sublist-append_left [] l

Moves-milestones :
    {p q : SessionPhase} {k : CallKind}
    → Moves p k q
    → Sublist (milestones q) (milestones p ++ k ∷ [])
Moves-milestones (stays p k h) = sublist-append_left (milestones p) (k ∷ [])
Moves-milestones connecting = Sublist.refl _
Moves-milestones wifi_coming = Sublist.refl _
Moves-milestones configuring = Sublist.refl _
Moves-milestones overlaying = Sublist.refl _
Moves-milestones starting = Sublist.refl _
Moves-milestones stopping = sublist-append_left (milestones ready) (start ∷ stop ∷ [])
Moves-milestones (wifi_going p h) =
    Sublist.trans (connect-milestones p h) (sublist-append_left (milestones p) (wifi_down ∷ []))
Moves-milestones (disconnecting p) = sublist_of_nil (milestones p ++ disconnect ∷ [])

run-milestones :
    (s : SessionState) (cs : List SessionCall)
    → Sublist (milestones (run s cs).phase) (milestones s.phase ++ map kind cs)
unfolding run
run-milestones s [] = sublist-append_left (milestones s.phase) []
run-milestones s (c ∷ cs) =
    let now = Sublist.append (Moves-milestones (step-Moves s c)) (Sublist.refl (map kind cs)) in
    Sublist.trans (run-milestones (step s c).0 cs)
      (rw (← append_assoc (milestones s.phase) (kind c ∷ []) (map kind cs)) now)

-- From the cleared state, the calls that lead to the phase reached are among the calls made, in
-- their order: a recording session was connected, got WiFi, was configured, got an overlay and was
-- started, in this order.
pub run_cleared-milestones :
    (cs : List SessionCall) → Sublist (milestones (run cleared cs).phase) (map kind cs)
run_cleared-milestones cs = run-milestones cleared cs
