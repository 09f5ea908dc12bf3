-- ===== src/Asio.antt =====
-- What the endpoints use of Boost.Asio, which is not part of this repository: error codes, socket
-- options, and the synchronous socket operations as the parameter `Asio` with their documented
-- behaviour as its laws. A `Socket` stands for the object with all that the system knows of it, so
-- the outcome of an operation is a function of it.
use endpoint.Base.{ℕ_discrete, if◌then◌else◌, ℕ, ◌≡◌, Bool, true, false, Option, Text}

-- The values of boost::system::error_code that the sources compare with; `other` is the rest.
pub data ErrorCode : Type 0 where
  success operation_aborted broken_pipe not_connected bad_descriptor no_permission : ErrorCode
  destination_address_required already_open connection_refused connection_reset : ErrorCode
  eof timed_out no_descriptors : ErrorCode
  other : ℕ → ErrorCode

-- `if (error)`.
abbrev pub is_error : ErrorCode → Bool
is_error success = false
is_error _ = true

abbrev pub is_operation_aborted : ErrorCode → Bool
is_operation_aborted operation_aborted = true
is_operation_aborted _ = false

abbrev pub is_already_open : ErrorCode → Bool
is_already_open already_open = true
is_already_open _ = false

abbrev pub is_no_descriptors : ErrorCode → Bool
is_no_descriptors no_descriptors = true
is_no_descriptors _ = false

abbrev pub is_bad_descriptor : ErrorCode → Bool
is_bad_descriptor bad_descriptor = true
is_bad_descriptor _ = false

abbrev pub is_connection_refused : ErrorCode → Bool
is_connection_refused connection_refused = true
is_connection_refused _ = false

pub data SocketOption : Type 0 where
  no_delay keep_alive reuse_address linger broadcast outbound_interface : SocketOption
  receive_buffer_size : ℕ → SocketOption

-- ip::tcp::endpoint and ip::udp::endpoint.
pub record Endpoint (Address : Type 0) : Type 0 where
  pub address : Address
  pub port : ℕ

pub record Asio : Type 1 where
  pub Address : Type 0
  pub Socket : Type 0
  pub address_discrete : Discrete Address
  -- A default-constructed endpoint.
  pub no_endpoint : Endpoint Address
  pub is_unspecified : Address → Bool
  pub is_v4 : Address → Bool
  pub is_v6 : Address → Bool
  pub address_text : Address → Text
  pub from_string : Text → Option Address
  -- `new socket_type(io)`: the argument hands on what the system knows.
  pub new_socket : Socket → Socket
  pub is_open : Socket → Bool
  pub open_socket : Socket → ErrorCode × Socket
  pub set_option : SocketOption → Socket → ErrorCode × Socket
  pub get_option : SocketOption → Socket → ErrorCode
  pub bind : Endpoint Address → Socket → ErrorCode × Socket
  pub listen : Socket → ErrorCode × Socket
  -- The socket of a connection that the acceptor has accepted.
  pub accept : Socket → Socket
  pub local_endpoint : Socket → ErrorCode × Endpoint Address
  pub remote_endpoint : Socket → ErrorCode × Endpoint Address
  pub shutdown : Socket → ErrorCode × Socket
  pub close : Socket → ErrorCode × Socket
  -- A new socket is not open.
  pub new_socket_closed : (s : Socket) → is_open (new_socket s) ≡ false
  -- Opening succeeds, or the socket is open already, or it stays as it was.
  pub open_success : (s : Socket) → (open_socket s).0 ≡ success → is_open (open_socket s).1 ≡ true
  pub open_already :
      (s : Socket) → (open_socket s).0 ≡ already_open → is_open (open_socket s).1 ≡ true
  -- Options, binding and shutting down do not close a socket.
  pub set_option_keeps : (o : SocketOption) (s : Socket) → is_open (set_option o s).1 ≡ is_open s
  pub bind_keeps : (p : Endpoint Address) (s : Socket) → is_open (bind p s).1 ≡ is_open s
  pub shutdown_keeps : (s : Socket) → is_open (shutdown s).1 ≡ is_open s
  pub listen_keeps : (s : Socket) → is_open (listen s).1 ≡ is_open s
  pub accept_opens : (s : Socket) → is_open (accept s) ≡ true
  -- Closing closes the descriptor even where it reports an error.
  pub close_closes : (s : Socket) → is_open (close s).1 ≡ false

unfoldable pub endpoint_discrete : (asio : Asio) → Discrete (Endpoint asio.Address)
endpoint_discrete asio = hlevel (asio.address_discrete, ℕ_discrete)

-- What a constructor or a chain of calls with throw_error yields: a value, or the error that is thrown.
pub data Outcome (A : Type 0) : Type 0 where
  made : A → Outcome A
  threw : ErrorCode → Outcome A

infixl 5 ◌>>=◌
abbrev pub ◌>>=◌ : {A B : Type 0} → Outcome A → (A → Outcome B) → Outcome B
made a >>= f = f a
threw e >>= f = threw e

-- throw_error(ec): the result of a call, or an exception.
abbrev pub checked : {A : Type 0} → ErrorCode × A → Outcome A
checked (e, a) = if is_error e then threw e else made a
