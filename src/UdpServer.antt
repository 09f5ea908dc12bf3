-- ===== src/UdpServer.antt =====
-- udp_server_endpoint_impl.h and udp_server_endpoint_impl.cpp. The multicast socket is a pointer that
-- nothing sets; the bytes of the receive buffer are left out, since only its size is read. The locks
-- are left out.
pub mod Laws
pub mod Run
use endpoint.Base.{
  ℕ, Bool, true, false, not, List, [], ◌∷◌, ◌++◌, Option, none, some, Text, if◌then◌else◌,
  get_elem?, erase_idx,
}
use endpoint.Asio.{
  Asio, Endpoint, ErrorCode, reuse_address, outbound_interface, broadcast, receive_buffer_size,
  is_error, is_operation_aborted, Outcome, made, threw, ◌>>=◌, checked,
}
use endpoint.EndpointImpl.{EndpointImpl}
use endpoint.ServerEndpoint as Base
use endpoint.ServerEndpoint.{ServerEndpoint, server_endpoint}
use endpoint.Buffer.{MessageBuffer}
use endpoint.Dump.{dump_up}
use endpoint.Connection.{close_socket}

-- What the server has asked of the io_service and not yet heard of.
pub data Op (Address : Type 0) : Type 0 where
  receive_op : ℕ → Op Address
  send_op : List ℕ → Endpoint Address → Op Address

pub record UdpServer (asio : Asio) : Type 0 where
  pub server : ServerEndpoint asio
  pub open server use *
  pub unicast_socket : asio.Socket
  pub unicast_remote : Endpoint asio.Address
  pub multicast_socket : Option asio.Socket
  pub buffer_size : ℕ
  pub local_port : ℕ
  pub pending : List (Op asio.Address)

-- FT_DOIP_MAX_UDP_MESSAGE_SIZE and UDP_RECV_BUFFER_SIZE.
abbrev pub max_udp_message_size : ℕ
max_udp_message_size = 0xffffffff

abbrev pub udp_recv_buffer_size : ℕ
udp_recv_buffer_size = 0x10000

-- The interface for outgoing multicast messages is set for an IPv4 and for an IPv6 address.
unfoldable pub set_interface :
    (asio : Asio) → Endpoint asio.Address → asio.Socket → Outcome asio.Socket
set_interface asio local k =
    if asio.is_v4 local.address
    then checked (asio.set_option outbound_interface k)
    else (if asio.is_v6 local.address
        then checked (asio.set_option outbound_interface k)
        else made k)

module _ {asio : Asio} where
  open asio use {is_open, new_socket, open_socket, set_option, bind, no_endpoint}

  -- The constructor. Its socket is opened as it is made; an error of the last option is only reported.
  unfoldable pub udp_server :
      EndpointImpl asio → asio.Socket → Endpoint asio.Address → Outcome (UdpServer asio)
  udp_server impl socket local = do
    opened ← checked (open_socket (new_socket socket))
    reusing ← checked (set_option reuse_address opened)
    bound ← checked (bind local reusing)
    outbound ← set_interface asio impl.local bound
    casting ← checked (set_option broadcast outbound)
    made (record {
      server = server_endpoint impl;
      unicast_socket = (set_option (receive_buffer_size udp_recv_buffer_size) casting).1;
      unicast_remote = no_endpoint;
      multicast_socket = none;
      buffer_size = max_udp_message_size;
      local_port = local.port;
      pending = [];
    })

  abbrev pub enqueue : Op asio.Address → UdpServer asio → UdpServer asio
  enqueue op s = record s { pending = s.pending ++ op ∷ [] }

  unfoldable pub receive_unicast : UdpServer asio → UdpServer asio
  receive_unicast s = if is_open s.unicast_socket then enqueue (receive_op 0xffffffff) s else s

  unfoldable pub receive : UdpServer asio → UdpServer asio
  receive s = receive_unicast s

  unfoldable pub start : UdpServer asio → UdpServer asio
  start s = receive s

  -- server_endpoint_impl has no stop of its own, so its call has nothing to do here.
  unfoldable pub stop : UdpServer asio → UdpServer asio
  stop s = record s {
    unicast_socket = close_socket asio s.unicast_socket;
    multicast_socket = elim s.multicast_socket [
      | none ↦ none
      | some k ↦ some (close_socket asio k)
    ];
  }

  unfoldable pub send_data : List ℕ → Endpoint asio.Address → UdpServer asio → UdpServer asio
  send_data message remote s = enqueue (send_op message remote) s

  -- on_message_received writes a dump and changes nothing; see message_dump.
  unfoldable pub on_unicast_received : ErrorCode → UdpServer asio → UdpServer asio
  on_unicast_received error s = if not (is_operation_aborted error) then receive_unicast s else s

  -- The handler that an operation is bound to. A receive has put the sender into unicast_remote_.
  unfoldable pub handle :
      Op asio.Address → ErrorCode → Endpoint asio.Address → UdpServer asio → UdpServer asio
  handle (receive_op amount) error sender s =
      on_unicast_received error (if is_error error then s else record s { unicast_remote = sender })
  handle (send_op message remote) error sender s = record s {
    server = Base.send_cbk error s.server;
  }

  unfoldable pub complete : ℕ → ErrorCode → Endpoint asio.Address → UdpServer asio → UdpServer asio
  complete i error sender s = elim (get_elem? s.pending i) [
    | none ↦ s
    | some op ↦ handle op error sender (record s { pending = erase_idx s.pending i })
  ]

-- on_message_received: `none` where it reads outside the buffer.
unfoldable pub on_message_received : ℕ → MessageBuffer → Option Text
on_message_received bytes buffer = dump_up buffer 0 bytes
