-- ===== src/Network/Dhcp.antt =====
-- src/adapters/control/wifi/wpa_supplicant/dnsmasq-dhcp-server.cpp: the DHCP server as a child
-- process. What `fork` and the check on the child return is given to the operations; the arguments
-- of the child are bytes.
use strixcam.Prelude.{
  ℕ, ◌+◌, ◌||◌, Bool, true, false, not, Option, none, some, List, [], ◌∷◌, ◌++◌, if◌then◌else◌,
}
use strixcam.Prelude.Bytes.{Bytes, codes}
use strixcam.Session.Paths.{is_empty}

-- The child that runs, with its arguments; `none` is a pid of -1.
pub record DhcpServer : Type 0 where
  pub child : Option (List Bytes)
  pub killed : ℕ

abbrev dhcp_range : Bytes
dhcp_range = codes "192.168.49.10,192.168.49.50,1h"

abbrev pub arguments : Bytes → Bytes → List Bytes
arguments group_interface go_ip =
    codes "dnsmasq"
    ∷ codes "--keep-in-foreground"
    ∷ codes "--bind-interfaces"
    ∷ (codes "--interface=" ++ group_interface)
    ∷ codes "--except-interface=lo"
    ∷ (codes "--dhcp-range=" ++ dhcp_range)
    ∷ (codes "--dhcp-option=3," ++ go_ip)
    ∷ codes "--no-resolv"
    ∷ []

-- `forks` is whether the child is there, `stays` whether it has not ended at once.
unfoldable pub start : Bool → Bool → Bytes → Bytes → DhcpServer → DhcpServer × Bool
start forks stays group_interface go_ip s = elim s.child [
  | some _ ↦ (s, false)
  | none ↦
      if is_empty group_interface || not forks || not stays
      then (s, false)
      else (record s { child = some (arguments group_interface go_ip) }, true)
]

unfoldable pub stop : DhcpServer → DhcpServer
stop s = elim s.child [ none ↦ s | some _ ↦ record { child = none; killed = s.killed + 1 } ]
