-- ===== src/TcpServer/Run/Keyed/Failed.antt =====
-- What is left of a connection of the TCP server when a write has failed.
use endpoint.Base.{ℕ, ◌≡◌, true, if◌then◌else◌, ◌==◌, arith}
use endpoint.Asio.{Asio, ErrorCode, is_error}
use endpoint.TcpServer.{TcpServer}
use endpoint.TcpServer.Callbacks.{write_completion_condition}
use endpoint.TcpServer.Stop.{entries, IsClosedAt, write_completion_condition-error}
use endpoint.TcpServer.Run.Keyed.{IsKeyed}

module _ (asio : Asio) where
  -- Where no connection has two entries in the map, as in every history, an error of a write, while the
  -- server lives, writes nothing more, closes the socket of its connection and leaves no entry of it in
  -- the map; the entries of the other connections stay.
  pub write_completion_condition-forgets :
      (s : TcpServer asio) (id j transferred to_send : ℕ) (error : ErrorCode)
      → IsKeyed asio s
      → is_error error ≡ true
      → s.alive ≡ true
      → let (rest, s') = write_completion_condition id error transferred to_send s in
        (rest ≡ 0)
        × IsClosedAt asio id s'.heap
        × (entries j s'.connections ≡ (if j == id then 0 else entries j s.connections))
  write_completion_condition-forgets s id j transferred to_send error h e a =
      let (rest, closed, left) =
        write_completion_condition-error asio s id j transferred to_send error e a in
      (rest, closed, ground (arith, left, h.once j))
