-- ===== src/Net/Stack/State.antt =====
-- NetworkStack. The network device is seen by what it is handed: the frames passed to `net_send`,
-- whose result the stack ignores, oldest first.
use wasm_os.Base.{ℕ, List, [], Option, none, replicate}
use wasm_os.Net.Arp.{ArpCache, new_cache}
use wasm_os.Net.Dhcp.{DhcpClient}
use wasm_os.Net.Dhcp
use wasm_os.Net.Tcp.{TcpSocket}
use wasm_os.Net.Udp.{UdpSocket}

abbrev pub max_sockets : ℕ
max_sockets = 8

pub record NetworkStack : Type 0 where
  pub sent : List (List ℕ)
  pub mac : List ℕ
  pub ip : List ℕ
  pub dhcp : DhcpClient
  pub arp : ArpCache
  pub tcp_sockets : List (Option TcpSocket)
  pub udp_sockets : List (Option UdpSocket)

-- The stack before `dhcp_start`.
unfoldable pub initial : List ℕ → NetworkStack
unfolding Dhcp.new
initial mac = record {
  sent = [];
  mac = mac;
  ip = replicate 4 0;
  dhcp = Dhcp.new mac;
  arp = new_cache;
  tcp_sockets = replicate max_sockets none;
  udp_sockets = replicate max_sockets none;
}
