-- ===== src/Client/States.antt =====
-- The states of a client: who changes them, and what stop leaves behind.
use endpoint.Base.{◌≡◌, Bool, false, arith, Bool-cases, ◌||◌, inl, inr}
use endpoint.Asio.{
  broken_pipe, not_connected, bad_descriptor, no_permission, operation_aborted,
  destination_address_required, Asio, ErrorCode, is_operation_aborted,
}
use endpoint.Client.{Client, is_established_or_connected, shutdown_and_close_socket, stop}
use endpoint.Client.Callbacks.{
  ClientClass, on_base, connect_cbk, wait_connect_cbk, send_cbk, clear_not_connected,
  lose_connection, connected_anew, block_sending, mark_not_connected,
}

-- The client is reported neither established nor connected.
abbrev pub IsDown : {asio : Asio} → Client asio → Type 0
IsDown c = is_established_or_connected c ≡ false

-- What the base class relies on in a derived class: its virtual functions keep the client down.
pub record KeepsDown {asio : Asio} {Self : Type 0} (cls : ClientClass asio Self) : Type 0 where
  pub connect-IsDown : (s : Self) → IsDown (cls.base s) → IsDown (cls.base (cls.connect s))
  pub receive-IsDown : (s : Self) → IsDown (cls.base s) → IsDown (cls.base (cls.receive s))
  pub set_local_port-IsDown :
      (s : Self) → IsDown (cls.base s) → IsDown (cls.base (cls.set_local_port s))

module _ {asio : Asio} where
  shutdown_and_close-state :
      (recreate : Bool) (c : Client asio) → (shutdown_and_close_socket recreate c).state ≡ c.state
  unfolding shutdown_and_close_socket
  shutdown_and_close-state recreate c = ground arith

  shutdown_and_close-IsDown :
      (recreate : Bool) (c : Client asio) → IsDown c → IsDown (shutdown_and_close_socket recreate c)
  unfolding is_established_or_connected
  shutdown_and_close-IsDown recreate c h = ground (arith, shutdown_and_close-state recreate c)

  -- stop leaves the socket closed.
  pub stop-is_open : (c : Client asio) → asio.is_open (stop c).socket ≡ false
  unfolding stop shutdown_and_close_socket
  stop-is_open c = ground (arith, asio.close_closes (asio.shutdown c.socket).1)

clear_not_connected-IsDown :
    {asio : Asio} (c : Client asio) → IsDown c → IsDown (clear_not_connected c)
unfolding is_established_or_connected
clear_not_connected-IsDown c h = ground arith

lose_connection-IsDown : {asio : Asio} (c : Client asio) → IsDown (lose_connection c)
unfolding is_established_or_connected shutdown_and_close_socket
lose_connection-IsDown c = ground arith

block_sending-IsDown : {asio : Asio} (c : Client asio) → IsDown c → IsDown (block_sending c)
unfolding is_established_or_connected shutdown_and_close_socket
block_sending-IsDown c h = ground arith

module _ {asio : Asio} {Self : Type 0} (cls : ClientClass asio Self) (keeps : KeepsDown cls) where
  open cls use {base, set_base, base-set_base}

  on_base-IsDown :
      (f : Client asio → Client asio) (s : Self)
      → IsDown (f (base s))
      → IsDown (base (on_base cls f s))
  on_base-IsDown f s h = rw (base-set_base (f (base s)) s) h

  pub connect_cbk-IsDown :
      (error : ErrorCode) (s : Self) → IsDown (base s) → IsDown (base (connect_cbk cls error s))
  unfolding connect_cbk is_established_or_connected
  connect_cbk-IsDown error s h =
      elim (Bool-cases (is_operation_aborted error || (base s).sending_blocked)) [
        | inl stopped ↦
            rw (connect_cbk, stopped)
              (on_base-IsDown (shutdown_and_close_socket false) s
                (shutdown_and_close-IsDown false (base s) h))
        | inr goes_on ↦
            rw (connect_cbk, goes_on)
              (keeps.receive-IsDown _ (
                on_base-IsDown clear_not_connected _ (
                  clear_not_connected-IsDown _
                    (keeps.set_local_port-IsDown _ (on_base-IsDown connected_anew s h)))))
      ]

  pub wait_connect_cbk-IsDown :
      (error : ErrorCode) (s : Self)
      → IsDown (base s)
      → IsDown (base (wait_connect_cbk cls error s))
  unfolding wait_connect_cbk
  wait_connect_cbk-IsDown error s h = ground (arith, keeps.connect-IsDown s h)

  lost-IsDown : (s : Self) → IsDown (base (cls.connect (on_base cls lose_connection s)))
  unfolding is_established_or_connected
  lost-IsDown s =
      keeps.connect-IsDown _ (on_base-IsDown lose_connection s (lose_connection-IsDown (base s)))

  pub send_cbk-IsDown :
      (error : ErrorCode) (s : Self) → IsDown (base s) → IsDown (base (send_cbk cls error s))
  unfolding send_cbk is_established_or_connected
  send_cbk-IsDown broken_pipe s h = lost-IsDown s
  send_cbk-IsDown not_connected s h = lost-IsDown s
  send_cbk-IsDown bad_descriptor s h = lost-IsDown s
  send_cbk-IsDown no_permission s h = lost-IsDown s
  send_cbk-IsDown operation_aborted s h =
      on_base-IsDown block_sending s (block_sending-IsDown (base s) h)
  send_cbk-IsDown destination_address_required s h = on_base-IsDown mark_not_connected s h
  send_cbk-IsDown _ s h = h
