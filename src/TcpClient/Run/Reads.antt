-- ===== src/TcpClient/Run/Reads.antt =====
-- What the TCP client reads.
use endpoint.Base.{
  length-write_at, take, ap, ℕ, ◌≡◌, refl, List, [], ◌∷◌, ◌++◌, get_elem?, arith, Option-cases, inl,
  inr, All, All-append, ◌∙◌, Bool-cases, not, ◌||◌, All-erase_idx,
}
use endpoint.Asio.{
  Asio, ErrorCode, is_operation_aborted, is_error, broken_pipe, not_connected, bad_descriptor,
  no_permission, operation_aborted, destination_address_required,
}
use endpoint.Buffer.{size, Memory}
use endpoint.Buffer.Bounds.{make_room-ready}
use endpoint.Client.{
  Op, connect_op, post_connect, receive_op, send_op, wait_connect_op, wait_sent_op,
  shutdown_and_close_socket, stop, set_established, set_connected,
}
use endpoint.Client.Callbacks as Base
use endpoint.TcpClient.{
  TcpClient, on_client, sizes, connect, receive, receive_from, set_local_port, start, send,
  send_data,
}
use endpoint.TcpClient.Callbacks.{
  put_received, tcp_class, handle, complete, receive_cbk, wait_until_sent,
}
use endpoint.TcpClient.Connect.{IsConnect, connect-asks, connect-keeps, connect_outcome}
use endpoint.TcpClient.Run.{
  Event, start_call, stop_call, send_call, set_established_call, set_connected_call, completion,
  step, run,
}

-- Every read that is under way is one of four bytes, to the start of the buffer.
abbrev pub ReadsFour : Op → Type 0
ReadsFour (receive_op filled amount) = (filled ≡ 0) × (amount ≡ 4)
ReadsFour op = Unit {0}

pub record ReadsStart (asio : Asio) (s : TcpClient asio) : Type 0 where
  pub length_four : size s.recv_buffer ≡ 4
  pub capacity_four : s.recv_buffer.capacity ≡ 4
  pub shrinks : s.shrink_count ≡ 0
  pub reads : All ReadsFour s.pending

pub IsConnect-ReadsFour : (op : Op) → IsConnect op → ReadsFour op
IsConnect-ReadsFour connect_op h = tt
IsConnect-ReadsFour (receive_op filled amount) h = absurd h
IsConnect-ReadsFour _ h = tt

module _ {asio : Asio} (memory : Memory) where
  -- The parts that the invariant speaks of, with one more operation under way.
  more-ReadsStart :
      (s t : TcpClient asio) (op : Op)
      → t.pending ≡ s.pending ++ op ∷ []
      → (t.recv_buffer ≡ s.recv_buffer) × (t.shrink_count ≡ s.shrink_count)
      → ReadsFour op
      → ReadsStart asio s
      → ReadsStart asio t
  more-ReadsStart s t op e k four h = record {
    length_four = ap size k.0 ∙ h.length_four;
    capacity_four = ap (λ v. v.capacity) k.0 ∙ h.capacity_four;
    shrinks = k.1 ∙ h.shrinks;
    reads = rw e (All-append ReadsFour s.pending (op ∷ []) h.reads (four, tt));
  }

  connect-ReadsStart : (s : TcpClient asio) → ReadsStart asio s → ReadsStart asio (connect s)
  connect-ReadsStart s h =
      let (asks, is_connect) = connect-asks s in
      let keeps = connect-keeps s in
      more-ReadsStart s (connect s) (connect_outcome s) asks (keeps.0, keeps.1)
        (IsConnect-ReadsFour (connect_outcome s) is_connect) h

  receive-ReadsStart : (s : TcpClient asio) → ReadsStart asio s → ReadsStart asio (receive memory s)
  unfolding receive receive_from
  receive-ReadsStart s h = elim (Bool-cases (asio.is_open s.socket)) [
    | inr shut ↦ ground arith
    | inl opened ↦
        let whole = make_room-ready memory sizes s.recv_buffer 0 s.shrink_count (omega arith) in
        rw (receive, receive_from, opened, whole)
          (more-ReadsStart s _ (receive_op 0 _) refl (refl, refl) (ground arith) h)
  ]

  same-ReadsStart :
      (s t : TcpClient asio)
      → t.pending ≡ s.pending
      → (t.recv_buffer ≡ s.recv_buffer) × (t.shrink_count ≡ s.shrink_count)
      → ReadsStart asio s
      → ReadsStart asio t
  same-ReadsStart s t e k h = record {
    length_four = ap size k.0 ∙ h.length_four;
    capacity_four = ap (λ v. v.capacity) k.0 ∙ h.capacity_four;
    shrinks = k.1 ∙ h.shrinks;
    reads = rw e h.reads;
  }

  connect_cbk-ReadsStart :
      (error : ErrorCode) (s : TcpClient asio)
      → ReadsStart asio s
      → ReadsStart asio (Base.connect_cbk (tcp_class memory) error s)
  unfolding Base.connect_cbk tcp_class set_local_port shutdown_and_close_socket
  connect_cbk-ReadsStart error s h =
      elim (Bool-cases (is_operation_aborted error || s.sending_blocked)) [
        | inl stopped ↦ rw (Base.connect_cbk, stopped) (same-ReadsStart s _ refl (refl, refl) h)
        | inr goes_on ↦
            rw (Base.connect_cbk, goes_on)
              (receive-ReadsStart _
                (same-ReadsStart s _ (ground arith) (ground arith, ground arith) h))
      ]

  lost-ReadsStart :
      (s : TcpClient asio)
      → ReadsStart asio s
      → ReadsStart asio (connect (on_client Base.lose_connection s))
  unfolding shutdown_and_close_socket
  lost-ReadsStart s h = connect-ReadsStart _ (same-ReadsStart s _ refl (refl, refl) h)

  send_cbk-ReadsStart :
      (error : ErrorCode) (s : TcpClient asio)
      → ReadsStart asio s
      → ReadsStart asio (Base.send_cbk (tcp_class memory) error s)
  unfolding Base.send_cbk tcp_class shutdown_and_close_socket
  send_cbk-ReadsStart broken_pipe s h = lost-ReadsStart s h
  send_cbk-ReadsStart not_connected s h = lost-ReadsStart s h
  send_cbk-ReadsStart bad_descriptor s h = lost-ReadsStart s h
  send_cbk-ReadsStart no_permission s h = lost-ReadsStart s h
  send_cbk-ReadsStart operation_aborted s h = same-ReadsStart s _ refl (refl, refl) h
  send_cbk-ReadsStart destination_address_required s h = same-ReadsStart s _ refl (refl, refl) h
  send_cbk-ReadsStart _ s h = h

  put_received-ReadsStart :
      (filled amount : ℕ) (received : List ℕ) (s : TcpClient asio)
      → ReadsStart asio s
      → ReadsStart asio (put_received filled amount received s)
  put_received-ReadsStart filled amount received s h = record {
    length_four = length-write_at filled (take amount received) s.recv_buffer.bytes ∙ h.length_four;
    capacity_four = h.capacity_four;
    shrinks = h.shrinks;
    reads = h.reads;
  }

  handle-ReadsStart :
      (op : Op) (error : ErrorCode) (received : List ℕ) (s : TcpClient asio)
      → ReadsStart asio s
      → ReadsStart asio (handle memory op error received s)
  unfolding handle receive_cbk wait_until_sent Base.wait_connect_cbk tcp_class
  handle-ReadsStart connect_op error received s h = connect_cbk-ReadsStart error s h
  handle-ReadsStart (post_connect e) error received s h = connect_cbk-ReadsStart e s h
  handle-ReadsStart (receive_op filled amount) error received s h =
      elim (Bool-cases (is_operation_aborted error)) [
        | inl stopped ↦
            rw (handle, receive_cbk, stopped) (put_received-ReadsStart filled amount received s h)
        | inr goes_on ↦
            rw (handle, receive_cbk, goes_on) (put_received-ReadsStart filled amount received s h)
      ]
  handle-ReadsStart (send_op message) error received s h = send_cbk-ReadsStart error s h
  handle-ReadsStart (wait_connect_op ms) error received s h = ground (arith, connect-ReadsStart s h)
  handle-ReadsStart (wait_sent_op ms) error received s h =
      elim (Bool-cases (not s.is_sending || not (is_error error))) [
        | inl over ↦ rw (wait_until_sent, over) h
        | inr waits ↦
            rw (wait_until_sent, waits)
              (more-ReadsStart s _ (wait_sent_op 1000) refl (refl, refl) tt h)
      ]

  step-ReadsStart :
      (e : Event) (s : TcpClient asio) → ReadsStart asio s → ReadsStart asio (step memory e s)
  unfolding step start send send_data stop shutdown_and_close_socket complete set_established
      set_connected
  step-ReadsStart start_call s h = connect-ReadsStart s h
  step-ReadsStart stop_call s h = same-ReadsStart s _ refl (refl, refl) h
  step-ReadsStart (send_call message) s h = elim (Bool-cases (asio.is_open s.socket)) [
    | inr shut ↦ rw (send, shut) h
    | inl opened ↦ rw (send, opened) (more-ReadsStart s _ (send_op message) refl (refl, refl) tt h)
  ]
  step-ReadsStart (set_established_call on) s h = same-ReadsStart s _ (ground arith) (refl, refl) h
  step-ReadsStart (set_connected_call on) s h = same-ReadsStart s _ (ground arith) (refl, refl) h
  step-ReadsStart (completion i error received) s h = elim (Option-cases (get_elem? s.pending i)) [
    | inl e ↦ rw (e, complete) h
    | inr (op, e) ↦
        rw (e, complete)
          (handle-ReadsStart op error received _ (record {
            length_four = h.length_four;
            capacity_four = h.capacity_four;
            shrinks = h.shrinks;
            reads = All-erase_idx ReadsFour s.pending i h.reads;
          }))
  ]

  -- In every history of the TCP client the receive buffer keeps the size that it was made with, and
  -- each read that is under way asks for four bytes at its start: the growing and shrinking of the
  -- buffer is never reached.
  pub run-ReadsStart :
      (es : List Event) (s : TcpClient asio) → ReadsStart asio s → ReadsStart asio (run memory es s)
  unfolding run
  run-ReadsStart [] s h = h
  run-ReadsStart (e ∷ es) s h = run-ReadsStart es (step memory e s) (step-ReadsStart e s h)
