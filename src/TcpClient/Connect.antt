-- ===== src/TcpClient/Connect.antt =====
-- What a call of the TCP client's connect leads to: one handler to come, whatever the system answers.
use endpoint.Base.{◌≡◌, true, not, ◌||◌, if◌then◌else◌, arith, [], ◌∷◌, ◌++◌}
use endpoint.Asio.{Asio, is_error, is_already_open}
use endpoint.Client.{Op, connect_op, post_connect, connecting}
use endpoint.TcpClient.{TcpClient, connect, connect_options}

-- Handlers of connect_cbk: of a connect that has started, or of an error that stopped it.
abbrev pub IsConnect : Op → Type 0
IsConnect connect_op = Unit {0}
IsConnect (post_connect e) = is_error e ≡ true
IsConnect op = ⊥

connect_options-is_open :
    (asio : Asio) (k : asio.Socket) → asio.is_open (connect_options asio k) ≡ asio.is_open k
unfolding connect_options
connect_options-is_open asio k = simp asio.set_option_keeps

opened-is_open :
    (asio : Asio) (k : asio.Socket)
    → (not (is_error (asio.open_socket k).0) || is_already_open (asio.open_socket k).0) ≡ true
    → asio.is_open (asio.open_socket k).1 ≡ true
opened-is_open asio k h = ground (arith, asio.open_success k, asio.open_already k)

module _ {asio : Asio} where
  open asio use {open_socket, bind, is_open}

  abbrev pub connect_outcome : TcpClient asio → Op
  connect_outcome s =
      let (open_error, k) = open_socket s.socket in
      let (bind_error, bound) = bind s.local (connect_options asio k) in
      if not (is_error open_error) || is_already_open open_error
      then (if is_error bind_error then post_connect bind_error else connect_op)
      else post_connect open_error

  pub connect_outcome-IsConnect : (s : TcpClient asio) → IsConnect (connect_outcome s)
  connect_outcome-IsConnect s = ground arith

  -- Each call of connect leaves exactly one more handler of connect_cbk to come, after those that were
  -- there: the end of the connect, or the error of open or bind, which is one.
  pub connect-asks :
      (s : TcpClient asio)
      → ((connect s).pending ≡ s.pending ++ connect_outcome s ∷ []) × IsConnect (connect_outcome s)
  unfolding connect
  connect-asks s = (ground arith, connect_outcome-IsConnect s)

  pub connect-keeps :
      (s : TcpClient asio)
      → ((connect s).recv_buffer ≡ s.recv_buffer)
        × ((connect s).shrink_count ≡ s.shrink_count)
        × ((connect s).is_sending ≡ s.is_sending)
  unfolding connect
  connect-keeps s = ground arith

  pub connect-was_not_connected :
      (s : TcpClient asio) → (connect s).was_not_connected ≡ s.was_not_connected
  unfolding connect
  connect-was_not_connected s = ground arith

  -- Where a connect has started, the state is CONNECTING and the socket is open.
  connect-connecting :
      (s : TcpClient asio)
      → connect_outcome s ≡ connect_op
      → ((connect s).state ≡ connecting) × (is_open (connect s).socket ≡ true)
  unfolding connect
  connect-connecting s e =
      let k = (open_socket s.socket).1 in
      ground (
        arith,
        opened-is_open asio s.socket,
        connect_options-is_open asio k,
        asio.bind_keeps s.local (connect_options asio k),
      )
