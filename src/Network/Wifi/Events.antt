-- ===== src/Network/Wifi/Events.antt =====
-- The group that a start forms, and its removal.
use strixcam.Prelude.{
  refl, Option-cases, inl, inr, drop, ◌+◌, ℕ, zero, suc, ◌<◌, true, false, Option, none, some, List,
  [], ◌∷◌, ◌++◌, length, map, if◌then◌else◌, All, ◌≡◌, ap, ◌∙◌, arith,
}
use strixcam.Prelude.Bytes.{Bytes, codes, find, starts_with}
use strixcam.Session.Paths.{is_empty}
use strixcam.Network.Wifi.{
  WpaWifiManager, SocketOutcome, ParsedGroup, open_ctrl_socket, close_ctrl_socket, send_command,
  read_until, start_p2p_group_owner, stop, on_event, on_reply, event_of, removal, not_empty,
  parse_group_interface, parse_quoted_field, first_word, skip_spaces, p2p_group_owner,
  max_event_reads, group_started, parse_group_started, received, no_state,
}

-- A message that is not empty and has not the marker.
abbrev pub IsOther : Bytes → Bytes → Type 0
IsOther marker msg = (is_empty msg ≡ false) × (find marker msg ≡ none)

read_until-other :
    (reads : ℕ) (marker msg : Bytes) (inbox : List (Option Bytes))
    → IsOther marker msg
    → read_until (suc reads) marker (some msg ∷ inbox) ≡ read_until reads marker inbox
unfolding read_until
read_until-other reads marker [] inbox (full, absent) = absurd (ground arith)
read_until-other reads marker (c ∷ cs) inbox (full, absent) = ground (arith, absent)

read_until-this :
    (reads pos : ℕ) (marker msg : Bytes) (inbox : List (Option Bytes))
    → is_empty msg ≡ false
    → find marker msg ≡ some pos
    → read_until (suc reads) marker (some msg ∷ inbox) ≡ (inbox, some msg)
unfolding read_until
read_until-this reads pos marker [] inbox full found = absurd (ground arith)
read_until-this reads pos marker (c ∷ cs) inbox full found = ground (arith, found)

-- The first message with the marker is returned, if fewer others come before it than are read.
pub read_until-first :
    (reads pos : ℕ) (marker msg : Bytes) (others : List Bytes) (inbox : List (Option Bytes))
    → All (IsOther marker) others
    → length others < reads
    → is_empty msg ≡ false
    → find marker msg ≡ some pos
    → read_until reads marker (map some others ++ some msg ∷ inbox) ≡ (inbox, some msg)
read_until-first zero pos marker msg others inbox h l full found = absurd (omega arith)
read_until-first (suc reads) pos marker msg [] inbox h l full found =
    read_until-this reads pos marker msg inbox full found
read_until-first (suc reads) pos marker msg (other ∷ others) inbox (h, hs) l full found =
    read_until-other reads marker other (map some others ++ some msg ∷ inbox) h
    ∙ read_until-first reads pos marker msg others inbox hs (omega arith) full found

-- All calls on the socket succeed.
abbrev pub all_succeed : SocketOutcome
all_succeed = record { socket = true; bind = true; connect = true; send = true }

abbrev opened : WpaWifiManager → WpaWifiManager
opened m = if m.sock then m else record m { sock = true; local_path = true }

start-replied :
    (m : WpaWifiManager) (attached : Option Bytes) (reply : Option Bytes)
    (inbox : List (Option Bytes))
    → m.inbox ≡ attached ∷ reply ∷ inbox
    → start_p2p_group_owner all_succeed m
      ≡ on_reply reply (record (opened m) {
        sent = m.sent ++ codes "ATTACH" ∷ [] ++ codes "P2P_GROUP_ADD" ∷ [];
        inbox = inbox;
      })
unfolding start_p2p_group_owner send_command open_ctrl_socket
start-replied m attached reply inbox e = ground (arith, e)

reply-formed :
    (m : WpaWifiManager) (reply event : Bytes) (p : ParsedGroup) (inbox : List (Option Bytes))
    → starts_with (codes "OK") reply ≡ true
    → read_until max_event_reads group_started m.inbox ≡ (inbox, some event)
    → parse_group_started event ≡ some p
    → on_reply (some reply) m ≡ on_event (some p) (record m { inbox = inbox })
reply-formed m reply event p inbox ok read parses =
    ap
      (λ r.
        if starts_with (codes "OK") reply
        then on_event (event_of r.1) (record m { inbox = r.0 })
        else (m, none))
      read
    ∙ ap
        (λ q.
          if starts_with (codes "OK") reply
          then on_event q (record m { inbox = inbox })
          else (m, none))
        parses
    ∙ ap (λ b. if b then on_event (some p) (record m { inbox = inbox }) else (m, none)) ok

stop-sends :
    (m : WpaWifiManager)
    → m.sock ≡ true
    → stop all_succeed m ≡ record m {
      sock = false;
      local_path = false;
      group_interface = [];
      state = no_state;
      sent = m.sent ++ removal m.group_interface ∷ [];
      inbox = (received m).0.inbox;
    }
unfolding stop send_command open_ctrl_socket close_ctrl_socket
stop-sends m h = ground (arith, h)

not_empty-full : (w i : Bytes) → not_empty w ≡ some i → is_empty i ≡ false
not_empty-full [] i h = absurd (ground arith)
not_empty-full (c ∷ cs) [] h = absurd (cc)
not_empty-full (c ∷ cs) (d ∷ ds) h = refl

interface-full : (event i : Bytes) → parse_group_interface event ≡ some i → is_empty i ≡ false
unfolding parse_group_interface
interface-full event i h = elim (Option-cases (find group_started event)) [
  | inl missing ↦ absurd (ground (arith, h, missing))
  | inr (pos, found) ↦
      not_empty-full (first_word (skip_spaces (drop (pos + length group_started) event))) i
        (ground (arith, h, found))
]

removal-named : (i : Bytes) → is_empty i ≡ false → removal i ≡ codes "P2P_GROUP_REMOVE " ++ i
removal-named [] h = absurd (ground arith)
removal-named (c ∷ cs) h = refl

fields-parsed :
    (event i ssid psk : Bytes)
    → parse_group_interface event ≡ some i
    → parse_quoted_field event (codes "ssid") ≡ some ssid
    → parse_quoted_field event (codes "passphrase") ≡ some psk
    → parse_group_started event
      ≡ some (record { group_interface = i; ssid = ssid; passphrase = psk })
unfolding parse_group_started
fields-parsed event i ssid psk hi hs hp = rw (hi, hs, hp) refl

-- What a manager has after a start that formed a group and what a stop then does.
pub record FormsAndRemoves (m : WpaWifiManager) (i ssid psk : Bytes) (inbox : List (Option Bytes))
    : Type 0 where
  pub group :
      (start_p2p_group_owner all_succeed m).1
      ≡ some (record {
        ssid = ssid;
        psk = psk;
        group_interface = i;
        group_owner_ip = codes "192.168.49.1";
        role = codes "GO";
      })
  pub state : (start_p2p_group_owner all_succeed m).0.state ≡ record {
    mode = p2p_group_owner;
    connected = true;
    ssid = ssid;
    ip_address = codes "192.168.49.1";
  }
  pub left : (start_p2p_group_owner all_succeed m).0.inbox ≡ inbox
  pub commands :
      (stop all_succeed (start_p2p_group_owner all_succeed m).0).sent
      ≡ m.sent
        ++ codes "ATTACH" ∷ []
        ++ codes "P2P_GROUP_ADD" ∷ []
        ++ (codes "P2P_GROUP_REMOVE " ++ i) ∷ []
  pub closed : (stop all_succeed (start_p2p_group_owner all_succeed m).0).sock ≡ false

-- Where every call on the socket succeeds, the second reading is an OK, and fewer than twenty other
-- messages come before an event with an interface, an SSID and a passphrase: a start forms a group
-- of just these, whose owner is 192.168.49.1, reports it as connected, and reads no further; and a
-- stop after it asks for the removal of this interface's group and closes the socket.
pub start-FormsAndRemoves :
    (m : WpaWifiManager) (attached : Option Bytes) (reply event i ssid psk : Bytes)
    (others : List Bytes) (pos : ℕ) (inbox : List (Option Bytes))
    → m.inbox ≡ attached ∷ some reply ∷ (map some others ++ some event ∷ inbox)
    → starts_with (codes "OK") reply ≡ true
    → All (IsOther group_started) others
    → length others < max_event_reads
    → is_empty event ≡ false
    → find group_started event ≡ some pos
    → parse_group_interface event ≡ some i
    → parse_quoted_field event (codes "ssid") ≡ some ssid
    → parse_quoted_field event (codes "passphrase") ≡ some psk
    → FormsAndRemoves m i ssid psk inbox
start-FormsAndRemoves m attached reply event i ssid psk others pos inbox e ok quiet few full found
      has_interface has_ssid has_psk =
    let p : ParsedGroup = record { group_interface = i; ssid = ssid; passphrase = psk } in
    let parses = fields-parsed event i ssid psk has_interface has_ssid has_psk in
    let sent = m.sent ++ codes "ATTACH" ∷ [] ++ codes "P2P_GROUP_ADD" ∷ [] in
    let waiting = map some others ++ some event ∷ inbox in
    let asked : WpaWifiManager = record (opened m) { sent = sent; inbox = waiting } in
    let began : start_p2p_group_owner all_succeed m
        ≡ on_event (some p) (record asked { inbox = inbox }) =
      start-replied m attached (some reply) waiting e
      ∙ reply-formed asked reply event p inbox ok
          (read_until-first max_event_reads pos group_started event others inbox quiet few full
            found)
          parses in
    let after = (on_event (some p) (record asked { inbox = inbox })).0 in
    let stops = stop-sends after (ground arith) in
    record {
      group = ap (λ r. r.1) began;
      state = ap (λ r. r.0.state) began;
      left = ap (λ r. r.0.inbox) began;
      commands =
          ap (λ r. (stop all_succeed r.0).sent) began
          ∙ ap (λ v. v.sent) stops
          ∙ ap (λ r. m.sent ++ codes "ATTACH" ∷ [] ++ codes "P2P_GROUP_ADD" ∷ [] ++ r ∷ [])
              (removal-named i (interface-full event i has_interface));
      closed = ap (λ r. (stop all_succeed r.0).sock) began ∙ ap (λ v. v.sock) stops;
    }
