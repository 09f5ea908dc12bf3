-- ===== src/UdpClient/Run/Receives/Steps.antt =====
-- The functions of the UDP client, and how many receives they leave.
use endpoint.Base.{
  ◌≡◌, true, false, ◌||◌, [], ◌∷◌, All, All-append, arith, Bool-cases, inl, inr, ap,
}
use endpoint.Asio.{
  Asio, is_error, is_operation_aborted, reuse_address, receive_buffer_size, ErrorCode, broken_pipe,
  not_connected, bad_descriptor, no_permission, operation_aborted, destination_address_required,
}
use endpoint.Client.{connect_op, post_connect, receive_op, shutdown_and_close_socket}
use endpoint.Client.Callbacks as Base
use endpoint.UdpClient.{UdpClient, connect, connect_options, receive, udp_class, set_local_port}
use endpoint.Client.Callbacks.{on_base, lose_connection}
use endpoint.UdpClient.Run.Receives.{Opens, IsUnaborted, IsReceiving, Gains, chains, chains-append}

module _ {asio : Asio} where
  pub receive-Gains : (s : UdpClient asio) → IsReceiving s → Gains 1 s (receive s)
  unfolding receive
  receive-Gains s h =
      rw (receive, h.opened)
        (record {
          receiving = record {
            opened = h.opened;
            unblocked = h.unblocked;
            unaborted = All-append IsUnaborted s.pending _ h.unaborted (tt, tt);
          };
          gains = omega (arith, chains-append s.pending (receive_op 0 1000 ∷ []));
        })

  -- The part of connect_cbk before the receive changes none of what counts here.
  readied-IsReceiving :
      (s : UdpClient asio)
      → IsReceiving s
      → let s' =
          on_base udp_class Base.clear_not_connected
            (set_local_port (on_base udp_class Base.connected_anew s)) in
        IsReceiving s' × (s'.pending ≡ s.pending)
  unfolding udp_class set_local_port
  readied-IsReceiving s h =
      let s' =
        on_base udp_class Base.clear_not_connected
          (set_local_port (on_base udp_class Base.connected_anew s)) in
      let same : s'.pending ≡ s.pending = ground arith in
      (
        record {
          opened = ground (arith, h.opened);
          unblocked = ground (arith, h.unblocked);
          unaborted = rw same h.unaborted;
        },
        same,
      )

  pub connect_cbk-Gains :
      (error : ErrorCode) (s : UdpClient asio)
      → is_operation_aborted error ≡ false
      → IsReceiving s
      → Gains 1 s (Base.connect_cbk udp_class error s)
  unfolding Base.connect_cbk udp_class
  connect_cbk-Gains error s fine h =
      let goes_on : is_operation_aborted error || s.sending_blocked ≡ false =
        ground (arith, h.unblocked) in
      let (h', same) = readied-IsReceiving s h in
      let more = receive-Gains _ h' in
      rw (Base.connect_cbk, goes_on)
        (record { receiving = more.receiving; gains = omega (arith, more.gains, ap chains same) })

module _ {asio : Asio} (o : Opens asio) where
  pub connect-Gains :
      (s : UdpClient asio)
      → s.sending_blocked ≡ false
      → All IsUnaborted s.pending
      → Gains 1 s (connect s)
  unfolding connect connect_options
  connect-Gains s blocked un =
      let (open_error, k) = asio.open_socket s.socket in
      let bound = asio.bind s.local (connect_options asio k) in
      let open_now : asio.is_open bound.1 ≡ true = ground (
        arith,
        asio.open_success s.socket,
        asio.open_already s.socket,
        o.opens s.socket,
        asio.set_option_keeps reuse_address k,
        asio.bind_keeps s.local (connect_options asio k),
        asio.set_option_keeps (receive_buffer_size 1000) (asio.set_option reuse_address k).1,
      ) in
      elim (Bool-cases (is_error bound.0)) [
        | inl failed ↦
            rw (connect, o.opens s.socket, failed)
              (record {
                receiving = record {
                  opened = open_now;
                  unblocked = blocked;
                  unaborted = All-append IsUnaborted s.pending _ un (o.binds s.local _, tt);
                };
                gains = omega (arith, chains-append s.pending (post_connect bound.0 ∷ []));
              })
        | inr fine ↦
            rw (connect, o.opens s.socket, fine)
              (record {
                receiving = record {
                  opened = open_now;
                  unblocked = blocked;
                  unaborted = All-append IsUnaborted s.pending _ un (tt, tt);
                };
                gains = omega (arith, chains-append s.pending (connect_op ∷ []));
              })
      ]

  reconnected-Gains :
      (s : UdpClient asio)
      → IsReceiving s
      → Gains 0 s (connect (on_base udp_class lose_connection s))
  unfolding udp_class shutdown_and_close_socket
  reconnected-Gains s h =
      let more = connect-Gains (on_base udp_class lose_connection s) h.unblocked h.unaborted in
      record { receiving = more.receiving; gains = omega (arith, more.gains) }

  pub send_cbk-Gains :
      (error : ErrorCode) (s : UdpClient asio)
      → is_operation_aborted error ≡ false
      → IsReceiving s
      → Gains 0 s (Base.send_cbk udp_class error s)
  unfolding Base.send_cbk udp_class
  send_cbk-Gains broken_pipe s fine h = reconnected-Gains s h
  send_cbk-Gains not_connected s fine h = reconnected-Gains s h
  send_cbk-Gains bad_descriptor s fine h = reconnected-Gains s h
  send_cbk-Gains no_permission s fine h = reconnected-Gains s h
  send_cbk-Gains operation_aborted s fine h = absurd (ground arith)
  send_cbk-Gains destination_address_required s fine h = record {
    receiving = record { opened = h.opened; unblocked = h.unblocked; unaborted = h.unaborted };
    gains = omega arith;
  }
  send_cbk-Gains _ s fine h = record { receiving = h; gains = omega arith }
