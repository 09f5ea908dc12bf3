-- ===== src/Connection.antt =====
-- tcp_server_endpoint_impl::connection: one accepted connection, as far as it is its own object. What
-- it does to its server is in TcpServer.
use endpoint.Base.{ℕ, Text, if◌then◌else◌, replicate, not, ◌&&◌, ◌++◌, [], ◌∷◌, to_string}
use endpoint.Asio.{Asio, Endpoint, is_error}
use endpoint.Buffer.{MessageBuffer, Sizes, clear}

pub record Connection (asio : Asio) : Type 0 where
  pub socket : asio.Socket
  pub max_message_size : ℕ
  pub recv_buffer_size_initial : ℕ
  pub recv_buffer : MessageBuffer
  pub recv_buffer_size : ℕ
  pub missing_capacity : ℕ
  pub shrink_count : ℕ
  pub buffer_shrink_threshold : ℕ
  pub remote : Endpoint asio.Address
  pub remote_address : asio.Address
  pub remote_port : ℕ

-- FTDOIP_HEADER_SIZE, the initial size of a connection's buffer.
abbrev pub header_size : ℕ
header_size = 4

abbrev pub close_socket : (asio : Asio) → asio.Socket → asio.Socket
close_socket asio k = if asio.is_open k then (asio.close (asio.shutdown k).1).1 else k

module _ {asio : Asio} where
  open asio use {new_socket, is_open, address_text, local_endpoint, no_endpoint}

  abbrev pub sizes : Connection asio → Sizes
  sizes c = record {
    initial = c.recv_buffer_size_initial;
    shrink_threshold = c.buffer_shrink_threshold;
  }

  unfoldable pub connection : asio.Socket → ℕ → ℕ → ℕ → Connection asio
  connection socket max_size initial threshold = record {
    socket = new_socket socket;
    max_message_size = max_size;
    recv_buffer_size_initial = initial;
    recv_buffer = record { bytes = replicate initial 0; capacity = initial };
    recv_buffer_size = 0;
    missing_capacity = 0;
    shrink_count = 0;
    buffer_shrink_threshold = threshold;
    remote = no_endpoint;
    remote_address = no_endpoint.address;
    remote_port = 0;
  }

  unfoldable pub create : asio.Socket → ℕ → ℕ → Connection asio
  create socket max_size threshold = connection socket max_size header_size threshold

  unfoldable pub set_remote_info : Endpoint asio.Address → Connection asio → Connection asio
  set_remote_info remote c = record c {
    remote = remote;
    remote_address = remote.address;
    remote_port = remote.port;
  }

  unfoldable pub get_address_port_remote : Connection asio → Text
  get_address_port_remote c = address_text c.remote_address ++ b':' ∷ to_string c.remote_port

  unfoldable pub get_address_port_local : Connection asio → Text
  get_address_port_local c =
      let (error, here) = local_endpoint c.socket in
      if is_open c.socket && not (is_error error)
      then address_text here.address ++ b':' ∷ to_string here.port
      else []

  unfoldable pub stop : Connection asio → Connection asio
  stop c = record c { socket = close_socket asio c.socket }

  -- handle_recv_buffer_exception, up to the removal of the connection from its server.
  unfoldable pub drop_buffer : Connection asio → Connection asio
  drop_buffer c = record c {
    recv_buffer = clear c.recv_buffer;
    socket = close_socket asio c.socket;
  }
