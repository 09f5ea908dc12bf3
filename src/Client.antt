-- ===== src/Client.antt =====
-- client_endpoint_impl.h and client_endpoint_impl.cpp: the state machine that the TCP and the UDP
-- client share. What the class leaves to its heirs (connect, receive, set_local_port) is the
-- interface `ClientClass`; a callback is a function from one object to the next.
pub mod Callbacks
pub mod Names
pub mod States
use endpoint.Base.{ℕ, Bool, true, false, not, ◌||◌, List, [], ◌∷◌, ◌++◌, if◌then◌else◌}
use endpoint.Asio.{Asio, Endpoint, ErrorCode}
use endpoint.EndpointImpl.{EndpointImpl}

pub data CeiState : Type 0 where
  closed connecting connected established : CeiState

abbrev pub is_established_state : CeiState → Bool
is_established_state established = true
is_established_state _ = false

abbrev pub is_connected_state : CeiState → Bool
is_connected_state connected = true
is_connected_state _ = false

abbrev pub is_connecting_state : CeiState → Bool
is_connecting_state connecting = true
is_connecting_state _ = false

-- What a client has asked of the io_service and not yet heard of.
pub data Op : Type 0 where
  connect_op : Op
  post_connect : ErrorCode → Op
  receive_op : ℕ → ℕ → Op
  send_op : List ℕ → Op
  wait_connect_op : ℕ → Op
  wait_sent_op : ℕ → Op

abbrev pub default_connect_timeout : ℕ
default_connect_timeout = 1000

pub record Client (asio : Asio) : Type 0 where
  pub impl : EndpointImpl asio
  pub open impl use *
  pub socket : asio.Socket
  pub remote : Endpoint asio.Address
  pub connect_timer : Bool
  pub connect_timeout : ℕ
  pub state : CeiState
  pub reconnect_counter : ℕ
  pub was_not_connected : Bool
  pub local_port : ℕ
  pub pending : List Op

abbrev pub enqueue : {asio : Asio} → Op → Client asio → Client asio
enqueue op c = record c { pending = c.pending ++ op ∷ [] }

module _ {asio : Asio} where
  open asio use {is_open, shutdown, close, new_socket}

  unfoldable pub client : EndpointImpl asio → asio.Socket → Endpoint asio.Address → Client asio
  client impl socket remote = record {
    impl = impl;
    socket = new_socket socket;
    remote = remote;
    connect_timer = false;
    connect_timeout = default_connect_timeout;
    state = closed;
    reconnect_counter = 0;
    was_not_connected = false;
    local_port = 0;
    pending = [];
  }

  unfoldable pub is_established : Client asio → Bool
  is_established c = is_established_state c.state

  unfoldable pub is_established_or_connected : Client asio → Bool
  is_established_or_connected c = is_established_state c.state || is_connected_state c.state

  unfoldable pub set_established : Bool → Client asio → Client asio
  set_established on c =
      if on
      then (if not (is_connecting_state c.state)
          then record c { state = if is_open c.socket then established else closed }
          else c)
      else record c { state = closed }

  unfoldable pub set_connected : Bool → Client asio → Client asio
  set_connected on c =
      if on
      then record c { state = if is_open c.socket then connected else closed }
      else record c { state = closed }

  unfoldable pub shutdown_and_close_socket_unlocked : Bool → Client asio → Client asio
  shutdown_and_close_socket_unlocked recreate c =
      let socket' = if is_open c.socket then (close (shutdown c.socket).1).1 else c.socket in
      record c { local_port = 0; socket = if recreate then new_socket socket' else socket' }

  unfoldable pub shutdown_and_close_socket : Bool → Client asio → Client asio
  unfolding shutdown_and_close_socket_unlocked
  shutdown_and_close_socket recreate c = shutdown_and_close_socket_unlocked recreate c

  unfoldable pub stop : Client asio → Client asio
  stop c =
      shutdown_and_close_socket false
        (record c { connect_timer = false; connect_timeout = default_connect_timeout })

  unfoldable pub start_connect_timer : Client asio → Client asio
  start_connect_timer c =
      enqueue (wait_connect_op c.connect_timeout) (record c { connect_timer = true })
