-- ===== src/TcpServer/Run/History.antt =====
-- The reads of the connections in every history of the server.
use endpoint.Base.{
  ℕ, not, ◌||◌, List, [], ◌∷◌, get_elem?, All-append, All-erase_idx, Bool-cases, Option-cases, inl,
  inr, ◌≡◌, some, All-get_elem?,
}
use endpoint.Asio.{operation_aborted, Asio, ErrorCode, is_error, is_operation_aborted}
use endpoint.Buffer.{Memory, make_room, ready}
use endpoint.Connection.{Connection, sizes}
use endpoint.TcpServer.{TcpServer, Op, accept_op, retry_op, receive_op, write_op, stop, send_data}
use endpoint.TcpServer.Callbacks.{
  retry_cbk, receive_cbk, ends_connection, write_completion_condition, handle, complete,
  put_received,
}
use endpoint.TcpServer.Run.{
  Event, start_call, stop_call, send_call, write_round, completion, step, run,
}
use endpoint.TcpServer.Run.Reads.{
  ReadsStart, ReadsFour, start-ReadsStart, stop_all-HasFour, stop_and_remove-ReadsStart,
  accept_cbk-ReadsStart, put_received-ReadsStart, put_accepted-ReadsStart, room-ready, HasFour,
}

-- What the parameter `wait` must keep.
abbrev pub KeepsReads : {asio : Asio} → (ErrorCode → ℕ → TcpServer asio → TcpServer asio) → Type 0
KeepsReads {asio} wait =
    (error : ErrorCode) (id : ℕ) (s : TcpServer asio)
    → ReadsStart asio s
    → ReadsStart asio (wait error id s)

module _ {asio : Asio} (wait : ErrorCode → ℕ → TcpServer asio → TcpServer asio)
    (waits : KeepsReads wait) (memory : Memory) where
  receive_cbk-ReadsStart :
      (error : ErrorCode) (bytes id : ℕ) (c : Connection asio) (s : TcpServer asio)
      → ReadsStart asio s
      → ReadsStart asio (receive_cbk wait error bytes id c s).0
  unfolding receive_cbk
  receive_cbk-ReadsStart error bytes id c s h =
      elim (Bool-cases (is_operation_aborted error || not s.alive)) [
        | inl over ↦ rw (receive_cbk, over) h
        | inr goes_on ↦ elim (Bool-cases (ends_connection error)) [
          | inl ends ↦ rw (receive_cbk, goes_on, ends) (waits operation_aborted id s h)
          | inr stays ↦ rw (receive_cbk, goes_on, stays) h
        ]
      ]

  handle-ReadsStart :
      (op : Op) (error : ErrorCode) (received : List ℕ) (s : TcpServer asio)
      → ReadsStart asio s
      → ReadsStart asio (handle wait memory op error received s)
  unfolding handle retry_cbk
  handle-ReadsStart (accept_op id) error received s h =
      accept_cbk-ReadsStart memory id error _ (put_accepted-ReadsStart id error s h)
  handle-ReadsStart (retry_op ms) error received s h = elim (Bool-cases (not (is_error error))) [
    | inl fine ↦ rw (retry_cbk, fine) (start-ReadsStart s h)
    | inr failed ↦ rw (retry_cbk, failed) h
  ]
  handle-ReadsStart (receive_op id filled amount) error received s h =
      let s' = put_received id filled amount received s in
      let h' = put_received-ReadsStart id filled amount received s h in
      elim (Option-cases (get_elem? s'.heap id)) [
        | inl e ↦ rw (handle, e) h'
        | inr (c, e) ↦ rw (handle, e) (receive_cbk-ReadsStart error _ id c s' h')
      ]
  handle-ReadsStart (write_op id message) error received s h = record {
    buffers = h.buffers;
    reads = h.reads;
  }

  complete-ReadsStart :
      (i : ℕ) (error : ErrorCode) (received : List ℕ) (s : TcpServer asio)
      → ReadsStart asio s
      → ReadsStart asio (complete wait memory i error received s)
  unfolding complete
  complete-ReadsStart i error received s h = elim (Option-cases (get_elem? s.pending i)) [
    | inl e ↦ rw (complete, e) h
    | inr (op, e) ↦
        rw (complete, e)
          (handle-ReadsStart op error received _
            (record { buffers = h.buffers; reads = All-erase_idx ReadsFour s.pending i h.reads }))
  ]

  step-ReadsStart :
      (e : Event) (s : TcpServer asio) → ReadsStart asio s → ReadsStart asio (step wait memory e s)
  unfolding step stop send_data write_completion_condition
  step-ReadsStart start_call s h = start-ReadsStart s h
  step-ReadsStart stop_call s h = record {
    buffers = stop_all-HasFour s.connections s.heap h.buffers;
    reads = h.reads;
  }
  step-ReadsStart (send_call id message) s h = elim (Bool-cases s.alive) [
    | inr gone ↦ rw (send_data, gone) (record { buffers = h.buffers; reads = h.reads })
    | inl here ↦
        rw (send_data, here)
          (record {
            buffers = h.buffers;
            reads = All-append ReadsFour s.pending _ h.reads (tt, tt);
          })
  ]
  step-ReadsStart (write_round id error transferred to_send) s h =
      elim (Bool-cases (is_error error)) [
        | inl failed ↦
            rw (step, write_completion_condition, failed) (stop_and_remove-ReadsStart id s h)
        | inr fine ↦ rw (step, write_completion_condition, fine) h
      ]
  step-ReadsStart (completion i error received) s h = complete-ReadsStart i error received s h

  -- In every history of the TCP server whose buffers are four bytes long, with nothing filled and
  -- nothing missing, and whose reads are of four bytes at the start of a buffer, that stays so, if
  -- wait_until_sent keeps it so: the growing and shrinking of a connection's buffer is never reached.
  pub run_server-ReadsStart :
      (es : List Event) (s : TcpServer asio)
      → ReadsStart asio s
      → ReadsStart asio (run wait memory es s)
  unfolding run
  run_server-ReadsStart [] s h = h
  run_server-ReadsStart (e ∷ es) s h =
      run_server-ReadsStart es (step wait memory e s) (step-ReadsStart e s h)

  -- In every history of the TCP server whose buffers are four bytes long, with nothing filled and
  -- nothing missing, and whose reads are of four bytes at the start of a buffer, if wait_until_sent keeps
  -- it so: a receive of any connection that was made needs no allocation, which could throw; it reads
  -- four bytes at the start of the buffer as it is.
  pub run_server-ready :
      (es : List Event) (s : TcpServer asio) (id : ℕ) (c : Connection asio)
      → ReadsStart asio s
      → get_elem? (run wait memory es s).heap id ≡ some c
      → make_room memory
          (sizes c)
          c.recv_buffer
          c.recv_buffer_size
          c.missing_capacity
          c.shrink_count
        ≡ ready c.recv_buffer 4 0
  run_server-ready es s id c h found =
      let after = run_server-ReadsStart es s h in
      room-ready memory c (All-get_elem? HasFour (run wait memory es s).heap id after.buffers found)
