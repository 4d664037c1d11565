-- ===== src/Control/WifiDirect/Rollback.antt =====
-- The start of the WiFi Direct group and its roll-backs.
use strixcam.Prelude.{
  Bool, true, false, Option, none, some, String, if◌then◌else◌, ◌≡◌, refl, arith, ℕ, ap, ◌∙◌,
  Option-cases, inl, inr,
}
use strixcam.Control.Message.{Response, ResponseStatus, ok}
use strixcam.Session.{SessionState, on_wifi_ready, before, wifi_ready}
use strixcam.Streaming.{StreamPorts}
use strixcam.Control.WifiDirect.{
  NetworkPorts, FormedGroup, WifiWorld, start_on, handle_start, handle_start,
}

abbrev pub is_ok : ResponseStatus → Bool
is_ok ok = true
is_ok _ = false

abbrev pub is_formed : Option FormedGroup → Bool
is_formed none = false
is_formed (some group) = true

-- What the WiFi manager and the DHCP server report of a network: whether they have a group and a
-- server up. A stop ends what it is to stop, and leaves the other.
pub record StopLaws {N : Type 0} (net : NetworkPorts N) : Type 0 where
  pub wifi_up : N → Bool
  pub dhcp_up : N → Bool
  pub wifi_stops : (n : N) → wifi_up (net.wifi_stop n) ≡ false
  pub wifi_stop_keeps : (n : N) → dhcp_up (net.wifi_stop n) ≡ dhcp_up n
  pub dhcp_stops : (n : N) → dhcp_up (net.dhcp_stop n) ≡ false

-- A start that returns a group has it up, the start of the server tells whether it is up, and the two
-- do not touch each other.
pub record NetworkLaws {N : Type 0} (net : NetworkPorts N) : Type 0 where
  pub stops : StopLaws net
  pub wifi_starts :
      (n : N)
      → is_formed (net.start_p2p_group_owner n).1 ≡ true
      → stops.wifi_up (net.start_p2p_group_owner n).0 ≡ true
  pub wifi_start_keeps : (n : N) → stops.dhcp_up (net.start_p2p_group_owner n).0 ≡ stops.dhcp_up n
  pub dhcp_starts :
      (n : N) (interface ip : String)
      → stops.dhcp_up n ≡ false
      → stops.dhcp_up (net.dhcp_start interface ip n).0 ≡ (net.dhcp_start interface ip n).1
  pub dhcp_start_keeps :
      (n : N) (interface ip : String)
      → stops.wifi_up (net.dhcp_start interface ip n).0 ≡ stops.wifi_up n

module _ {N F A S : Type 0} (net : NetworkPorts N) (streams : StreamPorts F A S)
    (laws : NetworkLaws net) (preview_port download_port : ℕ) where
  -- A response of OK, and only this, comes with the group up, if one was formed, and with its DHCP
  -- server up and the session moved as by `on_wifi_ready`, past `connected`; otherwise both are down
  -- and the session is as it was. There is no OK without a group.
  abbrev pub IsWhole : Bool → SessionState → WifiWorld N A S × Response → Type 0
  IsWhole formed s result =
      let done = is_ok result.1.status in
      ((if formed then laws.stops.wifi_up result.0.network else false) ≡ done)
      × (laws.stops.dhcp_up result.0.network ≡ done)
      × (result.0.session ≡ (if done then (on_wifi_ready s).0 else s))
      × ((if done then before result.0.session.phase wifi_ready else false) ≡ false)

  start_on-IsWhole :
      (group : FormedGroup) (n : N) (w : WifiWorld N A S)
      → laws.stops.wifi_up n ≡ true
      → laws.stops.dhcp_up n ≡ false
      → IsWhole true w.session (start_on net streams preview_port download_port group n w)
  unfolding on_wifi_ready
  start_on-IsWhole group n w wifi dhcp =
      let n1 = (net.dhcp_start group.group_interface group.group_owner_ip n).0 in
      ground (
        arith,
        laws.dhcp_starts n group.group_interface group.group_owner_ip dhcp,
        laws.dhcp_start_keeps n group.group_interface group.group_owner_ip,
        laws.stops.wifi_stops n1,
        laws.stops.wifi_stop_keeps n1,
        laws.stops.dhcp_stops n1,
        laws.stops.wifi_stops (net.dhcp_stop n1),
        laws.stops.wifi_stop_keeps (net.dhcp_stop n1),
      )

  -- Where the DHCP server is down and the manager and the server keep the laws above: a start that is
  -- answered OK has formed a group and leaves it and its DHCP server up, and the session moved as by
  -- `on_wifi_ready`, which is then past `connected`; any other answer leaves the DHCP server down, a
  -- group that was formed down again, and the session as it was.
  pub handle_start-IsWhole :
      (w : WifiWorld N A S)
      → laws.stops.dhcp_up w.network ≡ false
      → IsWhole
          (is_formed (net.start_p2p_group_owner w.network).1)
          w.session
          (handle_start net streams preview_port download_port w)
  unfolding handle_start
  handle_start-IsWhole w dhcp =
      let down = laws.wifi_start_keeps w.network ∙ dhcp in
      elim (Option-cases (net.start_p2p_group_owner w.network).1) [
        | inl missing ↦ rw missing (refl, down, refl, refl)
        | inr (group, found) ↦ rw found (
            start_on-IsWhole group (net.start_p2p_group_owner w.network).0 w
              (laws.wifi_starts w.network (ap is_formed found)) down)
      ]
