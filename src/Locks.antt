-- ===== src/Locks.antt =====
-- The mutexes of all classes, and the order in which each function takes them: std::lock_guard and
-- std::unique_lock, with the calls made while one is held. A function's locking is the list of what it
-- acquires and releases on one branch, and of the members that it reads or writes there, once for each
-- stretch between two mutexes; the branch is an argument.
pub mod Threads
pub mod Clients
pub mod Servers
pub mod Deadlock
pub mod Races
use endpoint.Base.{ℕ, ℕ_discrete, List, [], ◌∷◌, ◌++◌}

-- A mutex by the object that it belongs to, and by the connection for a connection's own.
pub data Mutex : Type 0 where
  endpoint_mutex : Mutex
  mutex acceptor_mutex connections_mutex : ℕ → Mutex
  socket_mutex connect_timer_mutex sent_mutex : ℕ → Mutex
  unicast_mutex multicast_mutex : ℕ → Mutex
  connection_mutex : ℕ → ℕ → Mutex

unfoldable pub mutex_discrete : Discrete Mutex
mutex_discrete = hlevel ℕ_discrete

-- Members that several threads use, each with one mutex that is meant to guard it: the manager's two
-- maps; a TCP server's acceptor_ and connections_, and the socket_ of a connection; the socket_ of a
-- client and its connect_timer_; is_sending_ and sent_timer_; the two sockets of a UDP server. Buffers,
-- shrink counts and the texts of Names, which are made without a mutex, are left out.
pub data Member : Type 0 where
  endpoints : Member
  acceptor connections : ℕ → Member
  connection_socket : ℕ → ℕ → Member
  socket connect_timer sending : ℕ → Member
  unicast_socket multicast_socket : ℕ → Member

-- The mutex that is meant to guard a member.
abbrev pub guardian : Member → Mutex
guardian endpoints = endpoint_mutex
guardian (acceptor n) = acceptor_mutex n
guardian (connections n) = connections_mutex n
guardian (connection_socket n id) = connection_mutex n id
guardian (socket n) = socket_mutex n
guardian (connect_timer n) = connect_timer_mutex n
guardian (sending n) = sent_mutex n
guardian (unicast_socket n) = unicast_mutex n
guardian (multicast_socket n) = multicast_mutex n

pub data Action : Type 0 where
  acquire release : Mutex → Action
  touch : Member → Action

-- A lock_guard on `m` whose scope does `inside`.
unfoldable pub guarded : Mutex → List Action → List Action
guarded m inside = acquire m ∷ inside ++ release m ∷ []
