-- ===== src/Control/WifiDirect/Adapters.antt =====
-- The WiFi Direct handler's network, as the WiFi manager of wpa_supplicant and dnsmasq make it. Whether
-- the calls on the socket and the start of the child succeed is given; the manager's texts are bytes.
use strixcam.Prelude.{Bool, true, false, Option, none, some, String, ◌≡◌, refl, arith}
use strixcam.Prelude.Bytes.{Bytes, codes}
use strixcam.Network.Wifi.{
  WpaWifiManager, SocketOutcome, start_p2p_group_owner, stop, on_reply, on_event, send_command,
  close_ctrl_socket, open_ctrl_socket,
}
use strixcam.Network.Wifi
use strixcam.Network.Dhcp.{DhcpServer}
use strixcam.Network.Dhcp
use strixcam.Control.WifiDirect.{NetworkPorts, FormedGroup}
use strixcam.Control.WifiDirect.Rollback.{NetworkLaws, is_formed}

pub record Adapters : Type 0 where
  pub manager : WpaWifiManager
  pub dhcp : DhcpServer

abbrev pub has_child : DhcpServer → Bool
has_child s = elim s.child [ none ↦ false | some _ ↦ true ]

module _ (text_of : Bytes → String) (socket : SocketOutcome) (forks remains : Bool) where
  abbrev in_texts : Option Wifi.FormedGroup → Option FormedGroup
  in_texts none = none
  in_texts (some g) = some (record {
    ssid = text_of g.ssid;
    psk = text_of g.psk;
    group_interface = text_of g.group_interface;
    group_owner_ip = text_of g.group_owner_ip;
    role = text_of g.role;
  })

  abbrev pub adapters : NetworkPorts Adapters
  adapters = record {
    start_p2p_group_owner = λ n.
        let (manager, group) = start_p2p_group_owner socket n.manager in
        (record n { manager = manager }, in_texts group);
    wifi_stop = λ n. record n { manager = stop socket n.manager };
    dhcp_start = λ interface ip n.
        let (dhcp, started) = Dhcp.start forks remains (codes interface) (codes ip) n.dhcp in
        (record n { dhcp = dhcp }, started);
    dhcp_stop = λ n. record n { dhcp = Dhcp.stop n.dhcp };
  }

  pub stop-connected : (m : WpaWifiManager) → (stop socket m).state.connected ≡ false
  unfolding stop close_ctrl_socket
  stop-connected m = ground arith

  pub start-connected :
      (m : WpaWifiManager)
      → is_formed (in_texts (start_p2p_group_owner socket m).1) ≡ true
      → (start_p2p_group_owner socket m).0.state.connected ≡ true
  unfolding start_p2p_group_owner
  start-connected m h = ground (arith, h)

  pub start-has_child :
      (i ip : Bytes) (s : DhcpServer)
      → has_child s ≡ false
      → has_child (Dhcp.start forks remains i ip s).0 ≡ (Dhcp.start forks remains i ip s).1
  unfolding Dhcp.start
  start-has_child i ip s h = ground (arith, h)

  pub stop-has_child : (s : DhcpServer) → has_child (Dhcp.stop s) ≡ false
  unfolding Dhcp.stop
  stop-has_child s = ground arith

  -- A group is up as the manager's state has it, and a DHCP server while there is a child.
  abbrev pub adapters_laws : NetworkLaws adapters
  adapters_laws = record {
    stops = record {
      wifi_up = λ n. n.manager.state.connected;
      dhcp_up = λ n. has_child n.dhcp;
      wifi_stops = λ n. stop-connected n.manager;
      wifi_stop_keeps = λ n. refl;
      dhcp_stops = λ n. stop-has_child n.dhcp;
    };
    wifi_starts = λ n h. start-connected n.manager h;
    wifi_start_keeps = λ n. refl;
    dhcp_starts = λ n interface ip h. start-has_child (codes interface) (codes ip) n.dhcp h;
    dhcp_start_keeps = λ n interface ip. refl;
  }
