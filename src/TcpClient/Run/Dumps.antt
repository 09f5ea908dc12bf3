-- ===== src/TcpClient/Run/Dumps.antt =====
-- What the TCP client writes of the messages that it receives.
use endpoint.Base.{
  ap, ◌∙◌, ℕ, ◌≤◌, ◌≡◌, false, some, List, length, take-all, take-write_at, arith, length-write_at,
  ◌+◌,
}
use endpoint.Asio.{Asio, ErrorCode, is_operation_aborted}
use endpoint.Buffer.{Memory}
use endpoint.Dump.{dump}
use endpoint.Dump.RoundTrip.{dump_up-drop}
use endpoint.TcpClient.{TcpClient}
use endpoint.TcpClient.Callbacks.{receive_cbk, put_received}
use endpoint.TcpClient.Run.{Event, run}
use endpoint.TcpClient.Run.Reads.{ReadsStart, run-ReadsStart}

module _ {asio : Asio} (memory : Memory) where
  receive_cbk-dump_at :
      (error : ErrorCode) (received : List ℕ) (s : TcpClient asio)
      → is_operation_aborted error ≡ false
      → length received ≤ 4
      → ReadsStart asio s
      → (receive_cbk error (length received) 0 (put_received 0 4 received s)).1
        ≡ some (dump received)
  unfolding receive_cbk
  receive_cbk-dump_at error received s goes_on short h =
      let t = put_received 0 4 received s in
      let all = take-all 4 received short in
      let whole = length-write_at 0 received s.recv_buffer.bytes in
      let shown =
        dump_up-drop t.recv_buffer 0 (length received)
          (rw all (omega (arith, whole, h.length_four))) in
      let kept = take-write_at received s.recv_buffer.bytes (omega (arith, h.length_four)) in
      let shut : length received + 0 ≡ length received = omega arith in
      rw (receive_cbk, goes_on, shut) (shown ∙ ap (λ xs. some (dump xs)) (rw all kept))

  -- In every history of a client whose reads ask for four bytes at the start of a buffer of four, the
  -- dump that is written at the end of a read shows the bytes that it has brought, in order and none
  -- else, if they are at most four and the read has not ended with operation_aborted.
  pub receive_cbk-dump :
      (es : List Event) (error : ErrorCode) (received : List ℕ) (s : TcpClient asio)
      → is_operation_aborted error ≡ false
      → length received ≤ 4
      → ReadsStart asio s
      → let t = put_received 0 4 received (run memory es s) in
        (receive_cbk error (length received) 0 t).1 ≡ some (dump received)
  receive_cbk-dump es error received s goes_on short h =
      receive_cbk-dump_at error received (run memory es s) goes_on short
        (run-ReadsStart memory es s h)
