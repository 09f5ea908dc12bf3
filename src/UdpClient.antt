-- ===== src/UdpClient.antt =====
-- udp_client_endpoint_impl.h and udp_client_endpoint_impl.cpp. A receive is given a buffer of its own,
-- and the member remote_ to put the sender in; the locks are left out.
pub mod Laws
pub mod Names
pub mod Run
use endpoint.Base.{
  ℕ, Bool, true, false, not, ◌&&◌, ◌||◌, List, Option, none, some, Text, if◌then◌else◌, get_elem?,
  erase_idx, refl, [],
}
use endpoint.Asio.{
  Asio, Endpoint, ErrorCode, SocketOption, reuse_address, receive_buffer_size, is_error,
  is_already_open, is_operation_aborted, is_connection_refused,
}
use endpoint.EndpointImpl.{EndpointImpl}
use endpoint.Buffer.{MessageBuffer}
use endpoint.Dump.{dump_up}
use endpoint.Client.{
  Client, client, Op, connect_op, post_connect, receive_op, send_op, wait_connect_op, wait_sent_op,
  connecting, enqueue, shutdown_and_close_socket,
}
use endpoint.Client.Callbacks as Base
use endpoint.Client.Callbacks.{ClientClass}

pub record UdpClient (asio : Asio) : Type 0 where
  pub client : Client asio
  pub open client use *
  pub remote_address : asio.Address
  pub remote_port : ℕ

-- udp_receive_buffer_size_, and the size of the buffer of a receive.
abbrev pub udp_receive_buffer_size : ℕ
udp_receive_buffer_size = 1000

abbrev pub receive_size : ℕ
receive_size = 1000

-- The two options that connect sets; their errors, and what get_option says, are only reported.
unfoldable pub connect_options : (asio : Asio) → asio.Socket → asio.Socket
connect_options asio k =
    let k1 = (asio.set_option reuse_address k).1 in
    (asio.set_option (receive_buffer_size udp_receive_buffer_size) k1).1

-- What receive_cbk writes of the message: `none` where it reads outside the buffer.
unfoldable pub receive_dump : ErrorCode → ℕ → MessageBuffer → Option Text
receive_dump error bytes buffer =
    if is_operation_aborted error then some [] else dump_up buffer 0 bytes

module _ {asio : Asio} where
  open asio use {is_open, open_socket, bind, local_endpoint}

  abbrev pub on_client : (Client asio → Client asio) → UdpClient asio → UdpClient asio
  on_client f s = record s { client = f s.client }

  unfoldable pub udp_client :
      EndpointImpl asio → asio.Socket → Endpoint asio.Address → UdpClient asio
  udp_client impl socket remote = record {
    client = client impl socket remote;
    remote_address = remote.address;
    remote_port = remote.port;
  }

  unfoldable pub connect : UdpClient asio → UdpClient asio
  connect s =
      let (open_error, k) = open_socket s.socket in
      let (bind_error, bound) = bind s.local (connect_options asio k) in
      if not (is_error open_error) || is_already_open open_error
      then (if is_error bind_error
          then on_client (λ c. enqueue (post_connect bind_error) (record c { socket = bound })) s
          else on_client (λ c. enqueue connect_op (record c { socket = bound; state = connecting }))
              s)
      else on_client (λ c. enqueue (post_connect open_error) (record c { socket = k })) s

  unfoldable pub start : UdpClient asio → UdpClient asio
  start s = connect s

  -- No test whether the socket is open.
  unfoldable pub send_data : List ℕ → UdpClient asio → UdpClient asio
  send_data message s = on_client (enqueue (send_op message)) s

  unfoldable pub receive : UdpClient asio → UdpClient asio
  receive s =
      if not (is_open s.socket) then s else on_client (enqueue (receive_op 0 receive_size)) s

  unfoldable pub set_local_port : UdpClient asio → UdpClient asio
  set_local_port s =
      let (error, here) = local_endpoint s.socket in
      if is_open s.socket && not (is_error error)
      then on_client (λ c. record c { local_port = here.port }) s
      else s

  unfoldable pub receive_cbk : ErrorCode → UdpClient asio → UdpClient asio
  receive_cbk error s =
      if is_operation_aborted error
      then s
      else (if not (is_error error)
          then receive s
          else (if is_connection_refused error
              then on_client (shutdown_and_close_socket false) s
              else receive s))

  unfoldable pub udp_class : ClientClass asio (UdpClient asio)
  udp_class = record {
    base = λ s. s.client;
    set_base = λ c s. record s { client = c };
    connect = connect;
    receive = receive;
    set_local_port = set_local_port;
    base-set_base = λ c s. refl;
  }

  -- async_receive_from has put the sender of a datagram into remote_ when its handler runs.
  abbrev pub put_sender : ErrorCode → Endpoint asio.Address → UdpClient asio → UdpClient asio
  put_sender error sender s =
      if is_error error then s else on_client (λ c. record c { remote = sender }) s

  -- The handler that an operation is bound to. No wait_until_sent exists here.
  unfoldable pub handle : Op → ErrorCode → Endpoint asio.Address → UdpClient asio → UdpClient asio
  handle connect_op error sender s = Base.connect_cbk udp_class error s
  handle (post_connect e) error sender s = Base.connect_cbk udp_class e s
  handle (receive_op filled amount) error sender s = receive_cbk error (put_sender error sender s)
  handle (send_op message) error sender s = Base.send_cbk udp_class error s
  handle (wait_connect_op ms) error sender s = Base.wait_connect_cbk udp_class error s
  handle (wait_sent_op ms) error sender s = s

  unfoldable pub complete : ℕ → ErrorCode → Endpoint asio.Address → UdpClient asio → UdpClient asio
  complete i error sender s = elim (get_elem? s.pending i) [
    | none ↦ s
    | some op ↦
        handle op error sender (on_client (λ c. record c { pending = erase_idx c.pending i }) s)
  ]
