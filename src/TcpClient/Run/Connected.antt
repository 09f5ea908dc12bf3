-- ===== src/TcpClient/Run/Connected.antt =====
-- What the end of a connect leads to.
use endpoint.Base.{
  ℕ, ◌≡◌, ap, ◌∙◌, true, false, some, List, [], ◌∷◌, ◌++◌, get_elem?, erase_idx, arith,
}
use endpoint.Asio.{Asio, ErrorCode, is_operation_aborted}
use endpoint.Buffer.{Memory}
use endpoint.Buffer.Bounds.{make_room-ready}
use endpoint.Client.{connect_op, receive_op}
use endpoint.Client.Callbacks as Base
use endpoint.TcpClient.{TcpClient, sizes, receive, receive_from, set_local_port}
use endpoint.TcpClient.Callbacks.{tcp_class, handle, complete}
use endpoint.TcpClient.Run.Reads.{ReadsStart}

module _ {asio : Asio} (memory : Memory) where
  receive-asks :
      (s : TcpClient asio)
      → asio.is_open s.socket ≡ true
      → s.recv_buffer.capacity ≡ 4
      → s.shrink_count ≡ 0
      → (receive memory s).pending ≡ s.pending ++ receive_op 0 4 ∷ []
  unfolding receive receive_from
  receive-asks s opened four zero_shrinks =
      let whole = make_room-ready memory sizes s.recv_buffer 0 s.shrink_count (omega arith) in
      rw (receive, receive_from, opened, whole) (ground arith)

  -- Where a connect has ended with any outcome but operation_aborted, a connect error included, the
  -- socket is open, sending is not blocked, and the buffer and the reads are as a client starts with
  -- them, exactly one read of four bytes is started in its place.
  pub complete-connect_op :
      (i : ℕ) (error : ErrorCode) (received : List ℕ) (s : TcpClient asio)
      → get_elem? s.pending i ≡ some connect_op
      → is_operation_aborted error ≡ false
      → s.sending_blocked ≡ false
      → asio.is_open s.socket ≡ true
      → ReadsStart asio s
      → (complete memory i error received s).pending ≡ erase_idx s.pending i ++ receive_op 0 4 ∷ []
  unfolding complete handle Base.connect_cbk tcp_class set_local_port
  complete-connect_op i error received s e goes_on unblocked opened h =
      rw (complete, e, handle, Base.connect_cbk, goes_on, unblocked)
        (receive-asks _ (ground arith) (ground arith) (ground arith)
          ∙ ap (λ ops. ops ++ receive_op 0 4 ∷ []) (ground arith))
