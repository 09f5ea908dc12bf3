-- ===== src/TcpClient.antt =====
-- tcp_client_endpoint_impl.h and tcp_client_endpoint_impl.cpp. recv_buffer_ is set once, so the buffer
-- that a handler is bound to is that field. connect_timepoint_, send_timeout_ and
-- tcp_connect_time_max_ are written and never read; they are left out, and so are the locks.
pub mod Callbacks
pub mod Connect
pub mod Names
pub mod Run
pub mod Sent
pub mod Writes
use endpoint.Base.{
  ℕ, ◌+◌, ◌-◌, ◌/◌, ◌%◌, ◌^◌, Bool, true, false, not, ◌&&◌, ◌||◌, List, if◌then◌else◌, ltb, ◌==◌,
  Option, none, some, replicate, length,
}
use endpoint.Asio.{
  Asio, Endpoint, ErrorCode, SocketOption, no_delay, keep_alive, reuse_address, linger, is_error,
  is_already_open,
}
use endpoint.EndpointImpl.{EndpointImpl}
use endpoint.Buffer.{Memory, MessageBuffer, Sizes, Room, ready, too_large, thrown, make_room, clear}
use endpoint.Client.{
  Client, client, Op, connect_op, post_connect, receive_op, send_op, wait_sent_op, connecting,
  enqueue,
}

pub record TcpClient (asio : Asio) : Type 0 where
  pub client : Client asio
  pub open client use *
  pub recv_buffer : MessageBuffer
  pub shrink_count : ℕ
  pub is_sending : Bool
  pub sent_timer : Bool
  pub remote_address : asio.Address
  pub remote_port : ℕ

-- recv_buffer_size_initial_ and buffer_shrink_threshold_.
abbrev pub sizes : Sizes
sizes = record { initial = 4; shrink_threshold = 1000 }

-- The four options that connect sets; their errors are only reported.
unfoldable pub connect_options : (asio : Asio) → asio.Socket → asio.Socket
connect_options asio k =
    let k1 = (asio.set_option no_delay k).1 in
    let k2 = (asio.set_option keep_alive k1).1 in
    let k3 = (asio.set_option reuse_address k2).1 in (asio.set_option linger k3).1

module _ {asio : Asio} where
  open asio use {is_open, open_socket, bind, local_endpoint, shutdown, close}

  abbrev pub on_client : (Client asio → Client asio) → TcpClient asio → TcpClient asio
  on_client f s = record s { client = f s.client }

  -- is_sending_ is not initialised: the argument `sending` is what the memory holds.
  unfoldable pub tcp_client :
      EndpointImpl asio → asio.Socket → Endpoint asio.Address → Bool → TcpClient asio
  tcp_client impl socket remote sending = record {
    client = client impl socket remote;
    recv_buffer = record { bytes = replicate 4 0; capacity = 4 };
    shrink_count = 0;
    is_sending = sending;
    sent_timer = false;
    remote_address = remote.address;
    remote_port = remote.port;
  }

  unfoldable pub connect : TcpClient asio → TcpClient asio
  connect s =
      let (open_error, k) = open_socket s.socket in
      let (bind_error, bound) = bind s.local (connect_options asio k) in
      if not (is_error open_error) || is_already_open open_error
      then (if is_error bind_error
          then on_client (λ c. enqueue (post_connect bind_error) (record c { socket = bound })) s
          else on_client (λ c. enqueue connect_op (record c { socket = bound; state = connecting }))
              s)
      else on_client (λ c. enqueue (post_connect open_error) (record c { socket = k })) s

  unfoldable pub start : TcpClient asio → TcpClient asio
  start s = connect s

  -- What handle_recv_buffer_exception does beside its dump (Dump.exception_start, exception_last).
  unfoldable pub handle_recv_buffer_exception : TcpClient asio → TcpClient asio
  handle_recv_buffer_exception s =
      let socket' = if is_open s.socket then (close (shutdown s.socket).1).1 else s.socket in
      record s {
        client = record s.client { connect_timer = false; socket = socket' };
        recv_buffer = clear s.recv_buffer;
      }

  unfoldable pub receive_from : Memory → ℕ → ℕ → TcpClient asio → TcpClient asio
  receive_from memory filled missing s =
      if is_open s.socket
      then elim (make_room memory sizes s.recv_buffer filled missing s.shrink_count) [
        | ready v amount shrinks ↦ record s {
          client = enqueue (receive_op filled amount) s.client;
          recv_buffer = v;
          shrink_count = shrinks;
        }
        | too_large ↦ s
        | thrown v ↦ handle_recv_buffer_exception (record s { recv_buffer = v })
      ]
      else s

  unfoldable pub receive : Memory → TcpClient asio → TcpClient asio
  receive memory s = receive_from memory 0 0 s

  unfoldable pub send_data : List ℕ → TcpClient asio → TcpClient asio
  send_data message s =
      if is_open s.socket
      then record s { client = enqueue (send_op message) s.client; is_sending = true }
      else s

  -- client_endpoint_impl<Protocol>::send.
  unfoldable pub send : List ℕ → TcpClient asio → TcpClient asio
  unfolding send_data
  send message s = send_data message s

  unfoldable pub set_local_port : TcpClient asio → TcpClient asio
  set_local_port s =
      let (error, here) = local_endpoint s.socket in
      if is_open s.socket && not (is_error error)
      then on_client (λ c. record c { local_port = here.port }) s
      else s

  unfoldable pub calculate_shrink_count : ℕ → TcpClient asio → TcpClient asio
  calculate_shrink_count filled s =
      if ltb 0 sizes.shrink_threshold && not (s.recv_buffer.capacity == sizes.initial)
      then record s {
        shrink_count =
            if ltb filled (s.recv_buffer.capacity / 2) then (s.shrink_count + 1) % 2 ^ 32 else 0;
      }
      else s
