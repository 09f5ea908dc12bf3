-- ===== src/TcpServer.antt =====
-- tcp_server_endpoint_impl.h and tcp_server_endpoint_impl.cpp. The connections are objects behind
-- shared pointers: `heap` holds them by number, in the order of their making, and connections_ maps a
-- remote endpoint to such a number. `alive` is whether the server still exists, which a connection asks
-- by server_.lock(). The locks are left out.
pub mod Callbacks
pub mod Accept
pub mod Stop
pub mod Reads
pub mod Writes
pub mod Run
use endpoint.Base.{
  ℕ, Bool, true, false, List, [], ◌∷◌, ◌++◌, Option, none, some, if◌then◌else◌, ◌==◌, get_elem?,
  modify, length,
}
use endpoint.Asio.{Asio, Endpoint, ErrorCode, reuse_address, Outcome, made, threw, ◌>>=◌, checked}
use endpoint.EndpointImpl.{EndpointImpl}
use endpoint.ServerEndpoint.{ServerEndpoint, server_endpoint}
use endpoint.Buffer.{Memory, Room, ready, too_large, thrown, make_room}
use endpoint.Connection
use endpoint.Connection.{Connection, create, sizes, drop_buffer}

-- What the server has asked of the io_service and not yet heard of, by the connection's number.
pub data Op : Type 0 where
  accept_op : ℕ → Op
  retry_op : ℕ → Op
  receive_op : ℕ → ℕ → ℕ → Op
  write_op : ℕ → List ℕ → Op

pub record TcpServer (asio : Asio) : Type 0 where
  pub server : ServerEndpoint asio
  pub open server use *
  pub acceptor : asio.Socket
  pub connections : List (Endpoint asio.Address × ℕ)
  pub heap : List (Connection asio)
  pub alive : Bool
  pub pending : List Op

abbrev pub buffer_shrink_threshold : ℕ
buffer_shrink_threshold = 1000

abbrev pub enqueue : {asio : Asio} → Op → TcpServer asio → TcpServer asio
enqueue op s = record s { pending = s.pending ++ op ∷ [] }

-- The entry of a connection is the first with its number.
unfoldable pub remove_first : {A : Type 0} → ℕ → List (A × ℕ) → List (A × ℕ)
remove_first id [] = []
remove_first id ((a, j) ∷ m) = if j == id then m else (a, j) ∷ remove_first id m

module _ {asio : Asio} where
  open asio use {is_open, new_socket, open_socket, set_option, bind, listen}

  -- The constructor.
  unfoldable pub tcp_server :
      EndpointImpl asio → asio.Socket → Endpoint asio.Address → Outcome (TcpServer asio)
  tcp_server impl socket local = do
    opened ← checked (open_socket (new_socket socket))
    reusing ← checked (set_option reuse_address opened)
    bound ← checked (bind local reusing)
    listening ← checked (listen bound)
    made (record {
      server = server_endpoint impl;
      acceptor = listening;
      connections = [];
      heap = [];
      alive = true;
      pending = [];
    })

  abbrev pub on_connection :
      (Connection asio → Connection asio) → ℕ → TcpServer asio → TcpServer asio
  on_connection f id s = record s { heap = modify f id s.heap }

  unfoldable pub start : TcpServer asio → TcpServer asio
  start s =
      if is_open s.acceptor
      then enqueue (accept_op (length s.heap))
          (record s { heap = s.heap ++ create s.acceptor 0xffffffff buffer_shrink_threshold ∷ [] })
      else s

  -- The connections are stopped in the order of the map, and then forgotten.
  unfoldable pub stop_all :
      List (Endpoint asio.Address × ℕ) → List (Connection asio) → List (Connection asio)
  stop_all [] heap = heap
  stop_all ((remote, id) ∷ m) heap = stop_all m (modify Connection.stop id heap)

  -- server_endpoint_impl has no stop of its own, so its call has nothing to do here.
  unfoldable pub stop : TcpServer asio → TcpServer asio
  stop s = record s {
    acceptor = if is_open s.acceptor then (asio.close s.acceptor).1 else s.acceptor;
    heap = stop_all s.connections s.heap;
    connections = [];
  }

  unfoldable pub remove_connection : ℕ → TcpServer asio → TcpServer asio
  remove_connection id s = record s { connections = remove_first id s.connections }

  -- connection::handle_recv_buffer_exception, beside its dump.
  unfoldable pub handle_recv_buffer_exception : ℕ → TcpServer asio → TcpServer asio
  handle_recv_buffer_exception id s =
      let s' = on_connection drop_buffer id s in if s.alive then remove_connection id s' else s'

  -- connection::receive, of the connection `c` that stands at `id`.
  unfoldable pub receive_on : Memory → ℕ → Connection asio → TcpServer asio → TcpServer asio
  receive_on memory id c s =
      if is_open c.socket
      then elim (make_room memory (sizes c) c.recv_buffer c.recv_buffer_size c.missing_capacity
          c.shrink_count) [
            | ready v amount shrinks ↦ enqueue (receive_op id c.recv_buffer_size amount) (
                on_connection
                  (λ d. record d { recv_buffer = v; shrink_count = shrinks; missing_capacity = 0 })
                  id s)
            | too_large ↦ s
            | thrown v ↦
                handle_recv_buffer_exception id
                  (on_connection (λ d. record d { recv_buffer = v }) id s)
          ]
      else s

  -- connection::start and connection::receive.
  unfoldable pub receive : Memory → ℕ → TcpServer asio → TcpServer asio
  receive memory id s = elim (get_elem? s.heap id) [ none ↦ s | some c ↦ receive_on memory id c s ]

  -- connection::send_data.
  unfoldable pub send_data : ℕ → List ℕ → TcpServer asio → TcpServer asio
  send_data id message s =
      if s.alive
      then enqueue (write_op id message)
          (record s { server = record s.server { is_sending = true } })
      else s

  -- connection::stop_and_remove_connection.
  unfoldable pub stop_and_remove_connection : ℕ → TcpServer asio → TcpServer asio
  stop_and_remove_connection id s =
      if s.alive then remove_connection id (on_connection Connection.stop id s) else s
