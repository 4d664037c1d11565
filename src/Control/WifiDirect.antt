-- ===== src/Control/WifiDirect.antt =====
-- src/app/control/services/handlers/wifi-direct.handler.cpp: the commands that start and stop the
-- WiFi Direct group. The WiFi manager and the DHCP server are ports on a network `N`.
pub mod Rollback
pub mod Adapters
use strixcam.Prelude.{
  ℕ, ◌%◌, ◌^◌, Bool, true, false, Option, none, some, String, not, if◌then◌else◌,
}
use strixcam.Control.Message.{Response, WifiDirectGroup, wifi_direct_group, done, done_with, failed}
use strixcam.Session.{SessionState, on_wifi_ready, on_wifi_stopped}
use strixcam.Streaming.{
  StreamPorts, StreamingService, AppStreamConfig, default_app, start_app_stream,
}

-- sst::network::WifiDirectGroup.
pub record FormedGroup : Type 0 where
  pub ssid : String
  pub psk : String
  pub group_interface : String
  pub group_owner_ip : String
  pub role : String

-- IWifiManager and IDhcpServer.
pub record NetworkPorts (N : Type 0) : Type 0 where
  pub start_p2p_group_owner : N → N × Option FormedGroup
  pub wifi_stop : N → N
  pub dhcp_start : String → String → N → N × Bool
  pub dhcp_stop : N → N

pub record WifiWorld (N A S : Type 0) : Type 0 where
  pub session : SessionState
  pub network : N
  pub streaming : StreamingService A S

module _ {N F A S : Type 0} (net : NetworkPorts N) (streams : StreamPorts F A S)
    (preview_port download_port : ℕ) where
  abbrev preview : FormedGroup → AppStreamConfig
  preview group = record default_app {
    address = group.group_owner_ip;
    port = preview_port % 2 ^ 16;
  }

  -- The end of a start whose group has been formed on the network `n`.
  abbrev start_on : FormedGroup → N → WifiWorld N A S → WifiWorld N A S × Response
  start_on group n w =
      let (n1, leased) = net.dhcp_start group.group_interface group.group_owner_ip n in
      if not leased
      then (
        record w { network = net.wifi_stop n1 },
        failed "failed to start DHCP on the WiFi Direct group",
      )
      else let (session, accepted) = on_wifi_ready w.session in
        if not accepted
        then (
          record w { session = session; network = net.wifi_stop (net.dhcp_stop n1) },
          failed "WiFi Direct group up but session not ready to accept it",
        )
        else (
          record {
            session = session;
            network = n1;
            streaming = (start_app_stream streams (preview group) w.streaming).0;
          },
          done_with (
              wifi_direct_group (record {
                ssid = group.ssid;
                psk = group.psk;
                group_owner_ip = group.group_owner_ip;
                preview_port = preview_port;
                download_port = download_port;
                role = group.role;
              })),
        )

  abbrev formed : N × Option FormedGroup → WifiWorld N A S → WifiWorld N A S × Response
  formed (n, none) w = (record w { network = n }, failed "failed to form WiFi Direct group owner")
  formed (n, some group) w = start_on group n w

  unfoldable pub handle_start : WifiWorld N A S → WifiWorld N A S × Response
  handle_start w = formed (net.start_p2p_group_owner w.network) w

  unfoldable pub handle_stop : WifiWorld N A S → WifiWorld N A S × Response
  handle_stop w = (
    record w {
      session = (on_wifi_stopped w.session).0;
      network = net.wifi_stop (net.dhcp_stop w.network);
    },
    done,
  )
