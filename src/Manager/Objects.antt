-- ===== src/Manager/Objects.antt =====
-- The endpoints that the manager of endpoint_manager_impl.cpp makes: the objects of the three classes
-- as modelled, in the order of their making, and what the virtual functions of endpoint.h do with them.
pub mod Made
pub mod Serving
pub mod Uses
pub mod Connecting
pub mod Life
use endpoint.Base.{
  ℕ, Bool, true, List, [], ◌∷◌, ◌++◌, Option, none, some, if◌then◌else◌, get_elem?, modify, length,
}
use endpoint.Asio.{Asio, Endpoint, Outcome, made, threw}
use endpoint.EndpointImpl.{EndpointImpl, increment_use_count, decrement_use_count, get_use_count}
use endpoint.Client.{Client}
use endpoint.TcpClient as TcpClient
use endpoint.TcpClient.{TcpClient, tcp_client}
use endpoint.TcpServer as TcpServer
use endpoint.TcpServer.{TcpServer, tcp_server}
use endpoint.UdpServer as UdpServer
use endpoint.UdpServer.{UdpServer, udp_server}
use endpoint.Manager.{Endpoints}

pub data Object (asio : Asio) : Type 0 where
  tcp_server_object : TcpServer asio → Object asio
  udp_server_object : UdpServer asio → Object asio
  tcp_client_object : TcpClient asio → Object asio

-- What is not the program's when the object of a number is made: what the system knows of its socket,
-- and what the memory of its members holds that no constructor sets (use_count_, sending_blocked_ and
-- a client's is_sending_).
pub record Surroundings (asio : Asio) : Type 0 where
  pub socket : ℕ → asio.Socket
  pub use_count : ℕ → ℕ
  pub sending_blocked : ℕ → Bool
  pub is_sending : ℕ → Bool

module _ {asio : Asio} where
  unfoldable pub start_object : Object asio → Object asio
  start_object (tcp_server_object s) = tcp_server_object (TcpServer.start s)
  start_object (udp_server_object s) = udp_server_object (UdpServer.start s)
  start_object (tcp_client_object s) = tcp_client_object (TcpClient.start s)

  abbrev pub impl_of : Object asio → EndpointImpl asio
  impl_of (tcp_server_object s) = s.server.impl
  impl_of (udp_server_object s) = s.server.impl
  impl_of (tcp_client_object s) = s.client.impl

  abbrev pub set_impl : EndpointImpl asio → Object asio → Object asio
  set_impl impl (tcp_server_object s) =
      tcp_server_object (record s { server = record s.server { impl = impl } })
  set_impl impl (udp_server_object s) =
      udp_server_object (record s { server = record s.server { impl = impl } })
  set_impl impl (tcp_client_object s) =
      tcp_client_object (record s { client = record s.client { impl = impl } })

  -- increment_use_count and decrement_use_count through a pointer.
  unfoldable pub increment_at : ℕ → List (Object asio) → List (Object asio)
  increment_at ptr store = modify (λ o. set_impl (increment_use_count (impl_of o)) o) ptr store

  unfoldable pub decrement_at : ℕ → List (Object asio) → List (Object asio)
  decrement_at ptr store = modify (λ o. set_impl (decrement_use_count (impl_of o)) o) ptr store

  -- make_shared: a constructor that throws leaves no object.
  unfoldable pub make : Outcome (Object asio) → List (Object asio) → Option ℕ × List (Object asio)
  make (made o) store = (some (length store), store ++ o ∷ [])
  make (threw e) store = (none, store)

  abbrev pub as_object : {A : Type 0} → (A → Object asio) → Outcome A → Outcome (Object asio)
  as_object wrap (made a) = made (wrap a)
  as_object wrap (threw e) = threw e

  module _ (around : Surroundings asio) where
    unfoldable pub new_impl : ℕ → Endpoint asio.Address → EndpointImpl asio
    new_impl n local = record {
      use_count = around.use_count n;
      local = local;
      sending_blocked = around.sending_blocked n;
    }

    -- The constructors, by the number that the object will have.
    unfoldable pub construct_server : Bool → Endpoint asio.Address → ℕ → Outcome (Object asio)
    construct_server reliable local n =
        if reliable
        then as_object tcp_server_object (tcp_server (new_impl n local) (around.socket n) local)
        else as_object udp_server_object (udp_server (new_impl n local) (around.socket n) local)

    unfoldable pub construct_client :
        Endpoint asio.Address → Endpoint asio.Address → ℕ → Object asio
    construct_client local remote n =
        tcp_client_object
          (tcp_client (new_impl n local) (around.socket n) remote (around.is_sending n))

    unfoldable pub count_at : ℕ → List (Object asio) → ℕ
    count_at ptr store = elim (get_elem? store ptr) [
      | none ↦ 0
      | some o ↦ get_use_count (impl_of o)
    ]

    -- None of the starts throws.
    abbrev pub objects : Endpoints
    objects = record {
      Store = List (Object asio);
      Ptr = ℕ;
      Address = asio.Address;
      from_string = asio.from_string;
      make_server = λ reliable address port store.
          make
            (construct_server reliable (record { address = address; port = port }) (length store))
            store;
      make_tcp_client = λ address port remote remote_port store.
          make
            (made (
              construct_client (record { address = address; port = port })
                (record { address = remote; port = remote_port }) (length store)))
            store;
      start = λ ptr store. (true, modify start_object ptr store);
      use_count = count_at;
    }
