-- ===== src/Network/Wifi.antt =====
-- src/adapters/control/wifi/wpa_supplicant: wpa-wifi-manager.cpp over the control socket of
-- wpa_supplicant, and wpa-p2p-parse.hpp. Texts are bytes. What arrives on the socket is a list of
-- readings: `none` is an error or a timeout, as is the end of the list; what is sent is a list.
pub mod Events
pub mod Fields
use strixcam.Prelude.{
  ℕ, zero, suc, ◌+◌, Bool, true, false, not, ◌&&◌, ◌||◌, Option, none, some, List, [], ◌∷◌, ◌++◌,
  length, take, drop, nat_eq, if◌then◌else◌,
}
use strixcam.Prelude.Bytes.{Bytes, codes, find, starts_with}
use strixcam.Session.Paths.{is_empty}

-- Up to the first byte of a kind, and from there on.
abbrev consed : ℕ → Option Bytes → Option Bytes
consed c none = none
consed c (some cs) = some (c ∷ cs)

unfoldable pub until : ℕ → Bytes → Option Bytes
until stop [] = none
until stop (c ∷ cs) = let rest = until stop cs in if nat_eq c stop then some [] else consed c rest

abbrev pub quote : ℕ
quote = 34

abbrev pub needle : Bytes → Bytes
needle key = key ++ b'=' ∷ quote ∷ []

unfoldable pub parse_quoted_field : Bytes → Bytes → Option Bytes
unfolding until
parse_quoted_field text key = elim (find (needle key) text) [
  | none ↦ none
  | some pos ↦ until quote (drop (pos + length (needle key)) text)
]

unfoldable pub skip_spaces : Bytes → Bytes
skip_spaces [] = []
skip_spaces (c ∷ cs) = let rest = skip_spaces cs in if nat_eq c b' ' then rest else c ∷ cs

unfoldable pub first_word : Bytes → Bytes
first_word [] = []
first_word (c ∷ cs) = let rest = first_word cs in if nat_eq c b' ' then [] else c ∷ rest

abbrev pub group_started : Bytes
group_started = codes "P2P-GROUP-STARTED"

abbrev pub not_empty : Bytes → Option Bytes
not_empty [] = none
not_empty (c ∷ cs) = some (c ∷ cs)

unfoldable pub parse_group_interface : Bytes → Option Bytes
unfolding skip_spaces first_word
parse_group_interface event = elim (find group_started event) [
  | none ↦ none
  | some pos ↦ not_empty (first_word (skip_spaces (drop (pos + length group_started) event)))
]

pub record ParsedGroup : Type 0 where
  pub group_interface : Bytes
  pub ssid : Bytes
  pub passphrase : Bytes

abbrev pub parsed_group : Option Bytes → Option Bytes → Option Bytes → Option ParsedGroup
parsed_group (some i) (some s) (some p) =
    some (record { group_interface = i; ssid = s; passphrase = p })
parsed_group _ _ _ = none

unfoldable pub parse_group_started : Bytes → Option ParsedGroup
unfolding parse_group_interface parse_quoted_field
parse_group_started event =
    parsed_group (parse_group_interface event) (parse_quoted_field event (codes "ssid"))
      (parse_quoted_field event (codes "passphrase"))

pub data WifiMode : Type 0 where
  disconnected p2p_group_owner : WifiMode

pub record WifiState : Type 0 where
  pub mode : WifiMode
  pub connected : Bool
  pub ssid : Bytes
  pub ip_address : Bytes

abbrev pub no_state : WifiState
no_state = record { mode = disconnected; connected = false; ssid = []; ip_address = [] }

abbrev pub go_ip_address : Bytes
go_ip_address = codes "192.168.49.1"

abbrev pub max_event_reads : ℕ
max_event_reads = 20

pub record WpaWifiManager : Type 0 where
  pub sock : Bool
  pub local_path : Bool
  pub group_interface : Bytes
  pub state : WifiState
  pub sent : List Bytes
  pub inbox : List (Option Bytes)

-- Whether the calls on the socket succeed.
pub record SocketOutcome : Type 0 where
  pub socket : Bool
  pub bind : Bool
  pub connect : Bool
  pub send : Bool

unfoldable pub close_ctrl_socket : WpaWifiManager → WpaWifiManager
close_ctrl_socket m = record m { sock = false; local_path = false }

unfoldable pub open_ctrl_socket : SocketOutcome → WpaWifiManager → WpaWifiManager × Bool
unfolding close_ctrl_socket
open_ctrl_socket o m =
    if m.sock
    then (m, true)
    else if not o.socket
    then (m, false)
    else let opened = record m { sock = true; local_path = true } in
      if not o.bind || not o.connect then (close_ctrl_socket opened, false) else (opened, true)

abbrev pub received : WpaWifiManager → WpaWifiManager × Option Bytes
received m = elim m.inbox [ [] ↦ (m, none) | reading ∷ rest ↦ (record m { inbox = rest }, reading) ]

unfoldable pub send_command : SocketOutcome → Bytes → WpaWifiManager → WpaWifiManager × Option Bytes
unfolding open_ctrl_socket
send_command o cmd m =
    let (opened, there) = open_ctrl_socket o m in
    if not there || not o.send
    then (opened, none)
    else received (record opened { sent = opened.sent ++ cmd ∷ [] })

-- At most so many readings; an empty one is a closed socket.
unfoldable pub read_until : ℕ → Bytes → List (Option Bytes) → List (Option Bytes) × Option Bytes
read_until zero marker inbox = (inbox, none)
read_until (suc reads) marker [] = ([], none)
read_until (suc reads) marker (none ∷ inbox) = (inbox, none)
read_until (suc reads) marker (some [] ∷ inbox) = (inbox, none)
read_until (suc reads) marker (some (c ∷ cs) ∷ inbox) =
    let later = read_until reads marker inbox in
    elim (find marker (c ∷ cs)) [ none ↦ later | some pos ↦ (inbox, some (c ∷ cs)) ]

-- network::WifiDirectGroup.
pub record FormedGroup : Type 0 where
  pub ssid : Bytes
  pub psk : Bytes
  pub group_interface : Bytes
  pub group_owner_ip : Bytes
  pub role : Bytes

abbrev pub formed : ParsedGroup → FormedGroup
formed p = record {
  ssid = p.ssid;
  psk = p.passphrase;
  group_interface = p.group_interface;
  group_owner_ip = go_ip_address;
  role = codes "GO";
}

-- The end of a start, on the event.
abbrev pub on_event : Option ParsedGroup → WpaWifiManager → WpaWifiManager × Option FormedGroup
on_event none m = (m, none)
on_event (some p) m = (
  record m {
    group_interface = p.group_interface;
    state = record {
      mode = p2p_group_owner;
      connected = true;
      ssid = p.ssid;
      ip_address = go_ip_address;
    };
  },
  some (formed p),
)

abbrev pub event_of : Option Bytes → Option ParsedGroup
event_of none = none
event_of (some event) = parse_group_started event

-- The end of a start, on the reply to P2P_GROUP_ADD.
abbrev pub on_reply : Option Bytes → WpaWifiManager → WpaWifiManager × Option FormedGroup
on_reply none m = (m, none)
on_reply (some reply) m =
    let (inbox, event) = read_until max_event_reads group_started m.inbox in
    if starts_with (codes "OK") reply
    then on_event (event_of event) (record m { inbox = inbox })
    else (m, none)

unfoldable pub start_p2p_group_owner :
    SocketOutcome → WpaWifiManager → WpaWifiManager × Option FormedGroup
unfolding open_ctrl_socket send_command
start_p2p_group_owner o m =
    let (opened, there) = open_ctrl_socket o m in
    let (attached, _) = send_command o (codes "ATTACH") opened in
    let (added, reply) = send_command o (codes "P2P_GROUP_ADD") attached in
    if not there then (opened, none) else on_reply reply added

abbrev pub removal : Bytes → Bytes
removal [] = codes "P2P_GROUP_REMOVE *"
removal (c ∷ cs) = codes "P2P_GROUP_REMOVE " ++ c ∷ cs

unfoldable pub stop : SocketOutcome → WpaWifiManager → WpaWifiManager
unfolding send_command close_ctrl_socket
stop o m =
    let told = if m.sock then (send_command o (removal m.group_interface) m).0 else m in
    close_ctrl_socket (record told { group_interface = []; state = no_state })
