-- ===== src/Lib.antt =====
-- DoIP endpoints: TCP and UDP clients and servers over Boost.Asio, and a manager that keeps them by
-- address, port and reliability.
--
-- The program's parts, with the files that model them (paths from the repository's root):
-- * doipendpoint/include/endpoint_impl.h, doipendpoint/src/endpoint_impl.cpp: EndpointImpl, the use
--   count that every endpoint has; EndpointImpl/Counts.
-- * doipendpoint/include/client_endpoint_impl.h, doipendpoint/src/client_endpoint_impl.cpp: Client, the
--   state machine of a client (CLOSED, CONNECTING, CONNECTED, ESTABLISHED); Client/Callbacks, its
--   callbacks over the interface ClientClass, which stands for the virtual functions; Client/Names, its
--   accessors; Client/States, what the callbacks do to the state.
-- * doipendpoint/include/tcp_client_endpoint_impl.h, doipendpoint/src/tcp_client_endpoint_impl.cpp:
--   TcpClient, with Callbacks, Names, Connect, Sent and Writes; TcpClient/Run, its life as a list of
--   events.
-- * doipendpoint/include/udp_client_endpoint_impl.h, doipendpoint/src/udp_client_endpoint_impl.cpp:
--   UdpClient, with Names and Laws; UdpClient/Run, its life as a list of events.
-- * doipendpoint/include/server_endpoint_impl.h, doipendpoint/src/server_endpoint_impl.cpp:
--   ServerEndpoint, what the two servers share.
-- * doipendpoint/include/tcp_server_endpoint_impl.h, doipendpoint/src/tcp_server_endpoint_impl.cpp:
--   Connection, the class connection as far as it is its own object; TcpServer, the server with a heap of
--   connections, with Callbacks, Accept, Reads, Stop and Writes; TcpServer/Run, its life as a list
--   of events, with Keyed, what its map of connections holds. The map is a list of entries in the
--   order of their making, where std::map sorts them by their keys.
-- * doipendpoint/include/udp_server_endpoint_impl.h, doipendpoint/src/udp_server_endpoint_impl.cpp:
--   UdpServer, with Laws; UdpServer/Run, its life as a list of events.
-- * doipendpoint/include/endpoint_manager_impl.h, doipendpoint/src/endpoint_manager_impl.cpp: Registry,
--   a map of maps of maps; Manager, with the endpoints behind the interface Endpoints; Manager/Run, a
--   sequence of its calls, Manager/Refine, the two tables that it stands for, Manager/Tidy, the inner maps
--   over such a sequence, and Manager/Observe, what its callers can tell; Manager/Objects, the interface filled with the models of the endpoints.
-- * The "address:port" texts of the clients and of the connections, read back: Names.
-- * The rounds of the async_write of the TCP classes: Writes.
-- * The mutexes of all these classes: Locks, with Clients and Servers, what each function acquires and
--   releases and which members it uses; Locks/Threads, threads that run such lists side by side;
--   Locks/Deadlock, whether they wait for one another; Locks/Races, whether two use a member at once.
-- * doipendpoint/include/buffer.h, and the parts of the two TCP receive functions that make room: Buffer.
-- * The loops that write bytes to the console: Dump.
--
-- A function of the model takes an object and gives the next one; a callback and a virtual function are
-- functions too. What a method has asked of the io_service and not yet heard of stands in the list
-- `pending` of its object, in the order of the calls; `complete` ends the operation at a place of that
-- list with an outcome, puts received bytes into the buffer, and calls the handler that was bound. So
-- completions come in any order and with any outcome. A constructor that throws yields an Outcome.
--
-- Boost.Asio is not part of the program: Asio is a parameter of the model, with its documented behaviour
-- as laws (an option does not close a socket, close closes it also where it reports an error). The
-- allocator of the standard library is the parameter Memory: it may refuse any allocation of the receive
-- functions, and yields less than 2 ^ 63 bytes; that of a constructor's buffer is taken to succeed.
-- connection::wait_until_sent is declared and nowhere defined, so it is a parameter of TcpServer/Callbacks,
-- and of Locks, there as the list of what it acquires, releases and uses. What the memory of an object holds where no constructor sets it, as
-- use_count_, is the parameter Surroundings of Manager/Objects. Tests/Worlds and Tests/Objects have an
-- instance of each.
--
-- Bounds: a size_t is a number below 2 ^ 64 and a uint32_t one below 2 ^ 32, with the wrap-around
-- written out. The only recursion on a counter is that of the dump loops, which count their rounds, and
-- of the decimal text of a number, whose ten digits are enough for an int. An async_write is a list of
-- rounds.
--
-- Two views of the concurrency are kept apart. In the models of the endpoints every handler runs from
-- its first line to its last. In Locks the threads interleave at every acquiring and releasing of a mutex,
-- and at every use of a member that one guards, and nothing else of the handlers is kept; a branch that
-- a list depends on is its argument. A round of an async_write, which asio goes on with by itself, is a
-- call there. The manager's recursive mutex stands there as one that is taken once, as no function
-- takes it twice.
--
-- Not modelled: races on members that no mutex guards; the passing of time, a timer being an operation
-- that ends; console output but the dumps; the copies of Boost.Asio's headers under
-- doipendpoint/include/helper; what is compiled out, as most of connection::receive_cbk. The send_data that
-- server_endpoint_impl::send calls is one that the class lacks, and so an argument of ServerEndpoint.send.
pub mod Base
pub mod Locks
pub mod Names
pub mod Writes
pub mod Asio
pub mod EndpointImpl
pub mod Buffer
pub mod Client
pub mod Dump
pub mod TcpClient
pub mod Registry
pub mod Manager
pub mod UdpClient
pub mod ServerEndpoint
pub mod Connection
pub mod TcpServer
pub mod UdpServer
mod Tests
