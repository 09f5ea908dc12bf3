-- ===== src/Tests/Names.antt =====
-- What the endpoints say of themselves, at concrete inputs.
use endpoint.Base.{arith, ◌≡◌, refl, true, false, none, some, [], ◌∷◌, Text, to_string}
use endpoint.Client as Client
use endpoint.Client.Names as Base
use endpoint.Connection
use endpoint.ServerEndpoint as Server
use endpoint.TcpClient as Tcp
use endpoint.TcpClient.Names as TcpNames
use endpoint.UdpClient as Udp
use endpoint.UdpClient.Names as UdpNames
use endpoint.Names.{read_port, read_port-get_remote_information}
use endpoint.Tests.Worlds.{world, impl, there}

abbrev tcp : Tcp.TcpClient world
tcp =
    let s : Tcp.TcpClient world = Tcp.tcp_client impl false there false in
    record s { client = record s.client { socket = true } }

abbrev udp : Udp.UdpClient world
udp = Udp.udp_client impl false there

abbrev accepted : Connection.Connection world
accepted = Connection.set_remote_info there (Connection.create true 0xffffffff 1000)

-- "2:13400" and "1:49152".
abbrev far : Text
far = b'2' ∷ b':' ∷ b'1' ∷ b'3' ∷ b'4' ∷ b'0' ∷ b'0' ∷ []

abbrev near : Text
near = b'1' ∷ b':' ∷ b'4' ∷ b'9' ∷ b'1' ∷ b'5' ∷ b'2' ∷ []

base_names :
    (Base.is_client tcp.client ≡ true)
    × (Base.get_remote_address tcp.client ≡ none)
    × (Base.get_remote_port tcp.client ≡ 0)
    × (Base.get_local_port tcp.client ≡ 0)
    × (Server.is_client (Server.server_endpoint impl) ≡ false)
unfolding Tcp.tcp_client Client.client Base.is_client Base.get_remote_address Base.get_remote_port
    Base.get_local_port Server.is_client Server.server_endpoint
base_names = (refl, refl, refl, refl, refl)

tcp_names :
    (TcpNames.get_remote_address tcp ≡ some 2)
    × (TcpNames.get_remote_port tcp ≡ 13400)
    × (TcpNames.is_reliable tcp ≡ true)
    × (TcpNames.is_local tcp ≡ false)
    × (TcpNames.get_address_port_remote tcp ≡ far)
    × (TcpNames.get_address_port_local tcp ≡ near)
    × (TcpNames.get_remote_information tcp ≡ far)
    × (TcpNames.get_max_allowed_reconnects tcp ≡ 10)
unfolding Tcp.tcp_client Client.client TcpNames.get_remote_address TcpNames.get_remote_port
    TcpNames.is_reliable TcpNames.is_local TcpNames.get_address_port_remote
    TcpNames.get_address_port_local TcpNames.get_remote_information
    TcpNames.get_max_allowed_reconnects to_string
tcp_names = (refl, refl, refl, refl, refl, refl, refl, refl)

udp_names :
    (UdpNames.get_remote_address udp ≡ some 2)
    × (UdpNames.get_remote_port udp ≡ 13400)
    × (UdpNames.is_reliable udp ≡ false)
    × (UdpNames.is_local udp ≡ false)
    × (UdpNames.get_address_port_remote udp ≡ far)
    × (UdpNames.get_address_port_local udp ≡ [])
    × (UdpNames.get_remote_information udp ≡ far)
unfolding Udp.udp_client Client.client UdpNames.get_remote_address UdpNames.get_remote_port
    UdpNames.is_reliable UdpNames.is_local UdpNames.get_address_port_remote
    UdpNames.get_address_port_local UdpNames.get_remote_information to_string
udp_names = (refl, refl, refl, refl, refl, refl, refl)

connection_names :
    (Connection.get_address_port_remote accepted ≡ far)
    × (Connection.get_address_port_local accepted ≡ [])
unfolding Connection.create Connection.connection Connection.set_remote_info
    Connection.get_address_port_remote Connection.get_address_port_local to_string
connection_names = (refl, refl)

ports :
    (tcp.remote.port ≡ 13400)
    × (tcp.remote_port ≡ 13400)
    × (udp.remote.port ≡ 13400)
    × (udp.remote_port ≡ 13400)
    × (accepted.remote_port ≡ 13400)
unfolding Tcp.tcp_client Udp.udp_client Client.client Connection.set_remote_info
ports = (refl, refl, refl, refl, refl)

read_port-get_remote_information_example :
    (read_port 0 (TcpNames.get_remote_information tcp) ≡ tcp.remote.port)
    × (read_port 0 (TcpNames.get_address_port_remote tcp) ≡ tcp.remote_port)
    × (read_port 0 (UdpNames.get_remote_information udp) ≡ udp.remote.port)
    × (read_port 0 (UdpNames.get_address_port_remote udp) ≡ udp.remote_port)
    × (read_port 0 (Connection.get_address_port_remote accepted) ≡ accepted.remote_port)
read_port-get_remote_information_example =
    read_port-get_remote_information tcp udp accepted (omega (arith, ports.0))
      (omega (arith, ports.1)) (omega (arith, ports.2)) (omega (arith, ports.3))
      (omega (arith, ports.4))
