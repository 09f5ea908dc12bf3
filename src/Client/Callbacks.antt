-- ===== src/Client/Callbacks.antt =====
-- The callbacks of client_endpoint_impl.cpp, over any class that derives from it. `_bytes` is read by
-- none of them. What is written to std::cout is left out.
use endpoint.Base.{◌≡◌, true, false, not, ◌&&◌, ◌||◌, if◌then◌else◌}
use endpoint.Asio.{
  Asio, ErrorCode, broken_pipe, not_connected, bad_descriptor, no_permission, operation_aborted,
  destination_address_required, is_error, is_operation_aborted,
}
use endpoint.Client.{Client, closed, default_connect_timeout, shutdown_and_close_socket}

-- A derived class: the part that is a `Client`, and the virtual functions.
pub record ClientClass (asio : Asio) (Self : Type 0) : Type 0 where
  pub base : Self → Client asio
  pub set_base : Client asio → Self → Self
  pub connect : Self → Self
  pub receive : Self → Self
  pub set_local_port : Self → Self
  pub base-set_base : (c : Client asio) (s : Self) → base (set_base c s) ≡ c

abbrev pub connected_anew : {asio : Asio} → Client asio → Client asio
connected_anew c = record c {
  connect_timer = false;
  connect_timeout = default_connect_timeout;
  reconnect_counter = 0;
}

abbrev pub clear_not_connected : {asio : Asio} → Client asio → Client asio
clear_not_connected c = if c.was_not_connected then record c { was_not_connected = false } else c

abbrev pub lose_connection : {asio : Asio} → Client asio → Client asio
lose_connection c =
    shutdown_and_close_socket true (record c { state = closed; was_not_connected = true })

abbrev pub block_sending : {asio : Asio} → Client asio → Client asio
block_sending c =
    shutdown_and_close_socket false (record c { impl = record c.impl { sending_blocked = true } })

abbrev pub mark_not_connected : {asio : Asio} → Client asio → Client asio
mark_not_connected c = record c { was_not_connected = true }

module _ {asio : Asio} {Self : Type 0} (cls : ClientClass asio Self) where
  open cls use {base, set_base, connect, receive, set_local_port}

  -- A function of the base class, on an object of the derived class.
  abbrev pub on_base : (Client asio → Client asio) → Self → Self
  on_base f s = set_base (f (base s)) s

  unfoldable pub connect_cbk : ErrorCode → Self → Self
  connect_cbk error s =
      if is_operation_aborted error || (base s).sending_blocked
      then on_base (shutdown_and_close_socket false) s
      else receive (on_base clear_not_connected (set_local_port (on_base connected_anew s)))

  unfoldable pub wait_connect_cbk : ErrorCode → Self → Self
  wait_connect_cbk error s =
      if not (is_error error) && not (base s).sending_blocked then connect s else s

  unfoldable pub send_cbk : ErrorCode → Self → Self
  send_cbk broken_pipe s = connect (on_base lose_connection s)
  send_cbk not_connected s = connect (on_base lose_connection s)
  send_cbk bad_descriptor s = connect (on_base lose_connection s)
  send_cbk no_permission s = connect (on_base lose_connection s)
  send_cbk operation_aborted s = on_base block_sending s
  send_cbk destination_address_required s = on_base mark_not_connected s
  send_cbk _ s = s
