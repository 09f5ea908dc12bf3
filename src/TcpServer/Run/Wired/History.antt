-- ===== src/TcpServer/Run/Wired/History.antt =====
-- The numbers of connections in every history of the TCP server.
use endpoint.Base.{
  ℕ, ◌<◌, true, not, ◌||◌, ◌&&◌, List, [], ◌∷◌, All-erase_idx, get_elem?, get_elem?-lt, erase_idx,
  length, length-modify, Option-cases, Bool-cases, inl, inr, if◌then◌else◌,
}
use endpoint.Base.Maps.{All-assign, assign}
use endpoint.Asio.{
  Asio, ErrorCode, operation_aborted, is_error, is_operation_aborted, is_no_descriptors,
  is_bad_descriptor, no_delay, keep_alive, endpoint_discrete,
}
use endpoint.Buffer.{Memory, put}
use endpoint.Connection
use endpoint.Connection.{Connection, set_remote_info}
use endpoint.TcpServer.{
  TcpServer, Op, accept_op, retry_op, receive_op, write_op, start, stop, send_data,
  stop_and_remove_connection, on_connection,
}
use endpoint.TcpServer.Callbacks.{
  accepted, accepted_at, accept_cbk, retry_cbk, receive_cbk, ends_connection,
  write_completion_condition, handle, complete, put_received, put_accepted,
}
use endpoint.TcpServer.Run.{
  Event, start_call, stop_call, send_call, write_round, completion, step, run,
}
use endpoint.TcpServer.Run.Wired.{
  IsOf, IsWired, if-IsWired, changed-IsWired, enqueued-IsWired, start-IsWired, stop-IsWired,
  remove_connection-IsWired, receive-IsWired,
}

module _ {asio : Asio} where
  accepted-IsWired :
      (memory : Memory) (id : ℕ) (c : Connection asio) (s : TcpServer asio)
      → id < length s.heap
      → IsWired asio s
      → IsWired asio (accepted memory id c s)
  unfolding accepted
  accepted-IsWired memory id c s made_one h =
      let remote = (asio.remote_endpoint c.socket).1 in
      let k1 = (asio.set_option no_delay c.socket).1 in
      let (error, k2) = asio.set_option keep_alive k1 in
      let known : Connection asio → Connection asio =
        λ d. record (set_remote_info remote d) { socket = k2 } in
      let s' = on_connection known id s in
      let h' = changed-IsWired known id s h in
      let entered = assign (endpoint_discrete asio) remote id s.connections in
      if-IsWired (not (is_error error))
        (receive-IsWired memory id (record s' { connections = entered })
          (record {
            mapped =
                All-assign (endpoint_discrete asio) (λ j. j < length s'.heap) remote id
                  s.connections (rw (length-modify known id s.heap) made_one) h'.mapped;
            bound = h'.bound;
          }))
        h'

  accepted_at-IsWired :
      (memory : Memory) (id : ℕ) (s : TcpServer asio)
      → IsWired asio s
      → IsWired asio (accepted_at memory id s)
  accepted_at-IsWired memory id s h = elim (Option-cases (get_elem? s.heap id)) [
    | inl e ↦ rw (accepted_at, e) h
    | inr (c, e) ↦ rw (accepted_at, e) (accepted-IsWired memory id c s (get_elem?-lt s.heap id e) h)
  ]

  accept_cbk-IsWired :
      (memory : Memory) (id : ℕ) (error : ErrorCode) (s : TcpServer asio)
      → IsWired asio s
      → IsWired asio (accept_cbk memory id error s)
  unfolding accept_cbk
  accept_cbk-IsWired memory id error s h =
      let s' = if not (is_error error) then accepted_at memory id s else s in
      let h' : IsWired asio s' =
        if-IsWired (not (is_error error)) (accepted_at-IsWired memory id s h) h in
      if-IsWired
        (not (is_bad_descriptor error)
          && not (is_operation_aborted error)
          && not (is_no_descriptors error))
        (start-IsWired s' h')
        (if-IsWired (is_no_descriptors error) (enqueued-IsWired (retry_op 1000) s' tt h') h')

  write_round-IsWired :
      (id transferred to_send : ℕ) (error : ErrorCode) (s : TcpServer asio)
      → IsWired asio s
      → IsWired asio (write_completion_condition id error transferred to_send s).1
  unfolding write_completion_condition stop_and_remove_connection
  write_round-IsWired id transferred to_send error s h =
      let closed =
        if-IsWired s.alive
          (remove_connection-IsWired id (on_connection Connection.stop id s)
            (changed-IsWired Connection.stop id s h))
          h in
      elim (Bool-cases (is_error error)) [
        | inl failed ↦ rw (write_completion_condition, failed) closed
        | inr fine ↦ rw (write_completion_condition, fine) h
      ]

  put_accepted-IsWired :
      (id : ℕ) (error : ErrorCode) (s : TcpServer asio)
      → IsWired asio s
      → IsWired asio (put_accepted id error s)
  put_accepted-IsWired id error s h =
      if-IsWired (is_error error) h
        (changed-IsWired (λ c. record c { socket = asio.accept s.acceptor }) id s h)

  send_data-IsWired :
      (id : ℕ) (message : List ℕ) (s : TcpServer asio)
      → id < length s.heap
      → IsWired asio s
      → IsWired asio (send_data id message s)
  unfolding send_data
  send_data-IsWired id message s made_one h =
      let sending = record s { server = record s.server { is_sending = true } } in
      if-IsWired s.alive
        (enqueued-IsWired (write_op id message) sending made_one
          (record { mapped = h.mapped; bound = h.bound }))
        h

module _ {asio : Asio} (wait : ErrorCode → ℕ → TcpServer asio → TcpServer asio)
    (memory : Memory) where
  -- Messages are sent on connections that have been made.
  abbrev pub SendsOnMade : List Event → TcpServer asio → Type 0
  SendsOnMade [] s = Unit {0}
  SendsOnMade (send_call id message ∷ es) s =
      (id < length s.heap) × SendsOnMade es (step wait memory (send_call id message) s)
  SendsOnMade (e ∷ es) s = SendsOnMade es (step wait memory e s)

-- What the parameter `wait` must keep.
abbrev pub KeepsWired : {asio : Asio} → (ErrorCode → ℕ → TcpServer asio → TcpServer asio) → Type 0
KeepsWired {asio} wait =
    (error : ErrorCode) (id : ℕ) (s : TcpServer asio)
    → IsWired asio s
    → IsWired asio (wait error id s)

module _ {asio : Asio} (wait : ErrorCode → ℕ → TcpServer asio → TcpServer asio)
    (waits : KeepsWired wait) (memory : Memory) where
  receive_cbk-IsWired :
      (error : ErrorCode) (bytes id : ℕ) (c : Connection asio) (s : TcpServer asio)
      → IsWired asio s
      → IsWired asio (receive_cbk wait error bytes id c s).0
  unfolding receive_cbk
  receive_cbk-IsWired error bytes id c s h =
      elim (Bool-cases (is_operation_aborted error || not s.alive)) [
        | inl over ↦ rw (receive_cbk, over) h
        | inr goes_on ↦
            rw (receive_cbk, goes_on)
              (if-IsWired (ends_connection error) (waits operation_aborted id s h) h)
      ]

  handle-IsWired :
      (op : Op) (error : ErrorCode) (received : List ℕ) (s : TcpServer asio)
      → IsWired asio s
      → IsWired asio (handle wait memory op error received s)
  unfolding handle retry_cbk
  handle-IsWired (accept_op id) error received s h =
      accept_cbk-IsWired memory id error (put_accepted id error s)
        (put_accepted-IsWired id error s h)
  handle-IsWired (retry_op ms) error received s h =
      if-IsWired (not (is_error error)) (start-IsWired s h) h
  handle-IsWired (receive_op id filled amount) error received s h =
      let s' = put_received id filled amount received s in
      let h' =
        changed-IsWired (λ c. record c { recv_buffer = put filled amount received c.recv_buffer })
          id s h in
      elim (Option-cases (get_elem? s'.heap id)) [
        | inl e ↦ rw (handle, e) h'
        | inr (c, e) ↦ rw (handle, e) (receive_cbk-IsWired error (length received) id c s' h')
      ]
  handle-IsWired (write_op id message) error received s h = record {
    mapped = h.mapped;
    bound = h.bound;
  }

  complete-IsWired :
      (i : ℕ) (error : ErrorCode) (received : List ℕ) (s : TcpServer asio)
      → IsWired asio s
      → IsWired asio (complete wait memory i error received s)
  unfolding complete
  complete-IsWired i error received s h = elim (Option-cases (get_elem? s.pending i)) [
    | inl e ↦ rw (complete, e) h
    | inr (op, e) ↦
        rw (complete, e)
          (handle-IsWired op error received (record s { pending = erase_idx s.pending i })
            (record {
              mapped = h.mapped;
              bound = All-erase_idx (IsOf (length s.heap)) s.pending i h.bound;
            }))
  ]

  -- In every history of the TCP server that sends only on connections that have been made, and whose
  -- wait_until_sent keeps it so: where the map of connections and the operations under way name only
  -- connections that have been made, that stays so.
  pub run_server-IsWired :
      (es : List Event) (s : TcpServer asio)
      → SendsOnMade wait memory es s
      → IsWired asio s
      → IsWired asio (run wait memory es s)
  unfolding run step
  run_server-IsWired [] s made_all h = h
  run_server-IsWired (start_call ∷ es) s made_all h =
      run_server-IsWired es (start s) made_all (start-IsWired s h)
  run_server-IsWired (stop_call ∷ es) s made_all h =
      run_server-IsWired es (stop s) made_all (stop-IsWired s h)
  run_server-IsWired (send_call id message ∷ es) s made_all h =
      run_server-IsWired es (send_data id message s) made_all.1
        (send_data-IsWired id message s made_all.0 h)
  run_server-IsWired (write_round id error transferred to_send ∷ es) s made_all h =
      run_server-IsWired es _ made_all (write_round-IsWired id transferred to_send error s h)
  run_server-IsWired (completion i error received ∷ es) s made_all h =
      run_server-IsWired es (complete wait memory i error received s) made_all
        (complete-IsWired i error received s h)
