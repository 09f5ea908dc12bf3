-- ===== src/TcpServer/Run/Keyed/History.antt =====
-- The map of connections in every history of the TCP server.
use endpoint.Base.{
  ℕ, zero, suc, some, ◌+◌, ◌≡◌, refl, true, not, ◌||◌, List, [], ◌∷◌, get_elem?, erase_idx, length,
  Option-cases, Bool-cases, inl, inr, arith,
}
use endpoint.Asio.{Asio, ErrorCode, operation_aborted, is_error, is_operation_aborted}
use endpoint.Buffer.{Memory, put}
use endpoint.Connection
use endpoint.Connection.{Connection, set_remote_info, close_socket}
use endpoint.TcpServer.{
  TcpServer, Op, accept_op, retry_op, receive_op, write_op, send_data, stop_and_remove_connection,
  on_connection,
}
use endpoint.TcpServer.Callbacks.{
  retry_cbk, receive_cbk, ends_connection, write_completion_condition, handle, complete,
  put_received, put_accepted,
}
use endpoint.TcpServer.Run.{
  Event, start_call, stop_call, send_call, write_round, completion, step, run,
}
use endpoint.TcpServer.Run.Keyed.{IsKeyed, awaited, awaited-append}
use endpoint.TcpServer.Run.Keyed.Accepted.{IsUnknown, accept_cbk-IsKeyed}
use endpoint.TcpServer.Run.Keyed.Steps.{
  if-IsKeyed, changed-IsKeyed, enqueued-IsKeyed, start-IsKeyed, stop-IsKeyed,
  remove_connection-IsKeyed,
}

-- The operation that has ended is no longer under way.
pub awaited-erase_idx :
    (id : ℕ) (ops : List Op) (i : ℕ) {op : Op}
    → get_elem? ops i ≡ some op
    → awaited id ops ≡ awaited id (erase_idx ops i) + awaited id (op ∷ [])
awaited-erase_idx id [] i e = absurd (ground arith)
awaited-erase_idx id (x ∷ ops) zero {op} e =
    let same : op ≡ x = ground arith in rw same (omega (arith, awaited-append id (x ∷ []) ops))
awaited-erase_idx id (x ∷ ops) (suc i) e = omega (
  arith,
  awaited-append id (x ∷ []) ops,
  awaited-append id (x ∷ []) (erase_idx ops i),
  awaited-erase_idx id ops i e,
)

module _ {asio : Asio} where
  write_round-IsKeyed :
      (id transferred to_send : ℕ) (error : ErrorCode) (s : TcpServer asio)
      → IsKeyed asio s
      → IsKeyed asio (write_completion_condition id error transferred to_send s).1
  unfolding write_completion_condition stop_and_remove_connection Connection.stop
  write_round-IsKeyed id transferred to_send error s h =
      let closed =
        if-IsKeyed s.alive
          (remove_connection-IsKeyed id (on_connection Connection.stop id s)
            (changed-IsKeyed Connection.stop (λ c. refl) id s h))
          h in
      elim (Bool-cases (is_error error)) [
        | inl failed ↦ rw (write_completion_condition, failed) closed
        | inr fine ↦ rw (write_completion_condition, fine) h
      ]

  send_data-IsKeyed :
      (id : ℕ) (message : List ℕ) (s : TcpServer asio)
      → IsKeyed asio s
      → IsKeyed asio (send_data id message s)
  unfolding send_data
  send_data-IsKeyed id message s h =
      let sending = record s { server = record s.server { is_sending = true } } in
      if-IsKeyed s.alive
        (enqueued-IsKeyed (write_op id message) (λ j. refl) sending
          (record { remotes = h.remotes; alone = h.alone; once = h.once; fresh = h.fresh }))
        h

  pub put_received-IsKeyed :
      (id filled amount : ℕ) (received : List ℕ) (s : TcpServer asio)
      → IsKeyed asio s
      → IsKeyed asio (put_received id filled amount received s)
  put_received-IsKeyed id filled amount received s h =
      changed-IsKeyed (λ c. record c { recv_buffer = put filled amount received c.recv_buffer })
        (λ c. refl) id s h

  pub put_accepted-IsKeyed :
      (id : ℕ) (error : ErrorCode) (s : TcpServer asio)
      → IsKeyed asio s
      → IsKeyed asio (put_accepted id error s)
  put_accepted-IsKeyed id error s h =
      if-IsKeyed (is_error error) h
        (changed-IsKeyed (λ c. record c { socket = asio.accept s.acceptor }) (λ c. refl) id s h)

  pub put_accepted-IsUnknown :
      (id : ℕ) (error : ErrorCode) (s : TcpServer asio)
      → IsUnknown id s
      → IsUnknown id (put_accepted id error s)
  put_accepted-IsUnknown id error s none = elim (Bool-cases (is_error error)) [
    | inl failed ↦ rw (put_accepted, failed) none
    | inr fine ↦ rw (put_accepted, fine) none
  ]

  -- The operation that has ended is forgotten. Where it was an accept, its connection is unknown.
  pub ended-IsKeyed :
      (i : ℕ) (s : TcpServer asio) {op : Op}
      → get_elem? s.pending i ≡ some op
      → IsKeyed asio s
      → IsKeyed asio (record s { pending = erase_idx s.pending i })
  ended-IsKeyed i s e h = record {
    remotes = h.remotes;
    alone = h.alone;
    once = λ id. omega (arith, h.once id, awaited-erase_idx id s.pending i e);
    fresh = λ id beyond. omega (arith, h.fresh id beyond, awaited-erase_idx id s.pending i e);
  }

  pub ended-IsUnknown :
      (i id : ℕ) (s : TcpServer asio)
      → get_elem? s.pending i ≡ some (accept_op id)
      → IsKeyed asio s
      → IsUnknown id (record s { pending = erase_idx s.pending i })
  ended-IsUnknown i id s e h =
      let one : awaited id (accept_op id ∷ []) ≡ 1 = ground arith in
      omega (arith, h.once id, awaited-erase_idx id s.pending i e, one)

-- What the parameter `wait` must keep.
abbrev pub KeepsKeyed : {asio : Asio} → (ErrorCode → ℕ → TcpServer asio → TcpServer asio) → Type 0
KeepsKeyed {asio} wait =
    (error : ErrorCode) (id : ℕ) (s : TcpServer asio)
    → IsKeyed asio s
    → IsKeyed asio (wait error id s)

module _ {asio : Asio} (wait : ErrorCode → ℕ → TcpServer asio → TcpServer asio)
    (waits : KeepsKeyed wait) (memory : Memory) where
  receive_cbk-IsKeyed :
      (error : ErrorCode) (bytes id : ℕ) (c : Connection asio) (s : TcpServer asio)
      → IsKeyed asio s
      → IsKeyed asio (receive_cbk wait error bytes id c s).0
  unfolding receive_cbk
  receive_cbk-IsKeyed error bytes id c s h =
      elim (Bool-cases (is_operation_aborted error || not s.alive)) [
        | inl over ↦ rw (receive_cbk, over) h
        | inr goes_on ↦
            rw (receive_cbk, goes_on)
              (if-IsKeyed (ends_connection error) (waits operation_aborted id s h) h)
      ]

  handle-IsKeyed :
      (op : Op) (error : ErrorCode) (received : List ℕ) (s : TcpServer asio)
      → ((id : ℕ) → op ≡ accept_op id → IsUnknown id s)
      → IsKeyed asio s
      → IsKeyed asio (handle wait memory op error received s)
  unfolding handle retry_cbk
  handle-IsKeyed (accept_op id) error received s none h =
      accept_cbk-IsKeyed memory id error (put_accepted id error s)
        (put_accepted-IsUnknown id error s (none id refl)) (put_accepted-IsKeyed id error s h)
  handle-IsKeyed (retry_op ms) error received s none h =
      if-IsKeyed (not (is_error error)) (start-IsKeyed s h) h
  handle-IsKeyed (receive_op id filled amount) error received s none h =
      let s' = put_received id filled amount received s in
      let h' = put_received-IsKeyed id filled amount received s h in
      elim (Option-cases (get_elem? s'.heap id)) [
        | inl e ↦ rw (handle, e) h'
        | inr (c, e) ↦ rw (handle, e) (receive_cbk-IsKeyed error (length received) id c s' h')
      ]
  handle-IsKeyed (write_op id message) error received s none h = record {
    remotes = h.remotes;
    alone = h.alone;
    once = h.once;
    fresh = h.fresh;
  }

  complete-IsKeyed :
      (i : ℕ) (error : ErrorCode) (received : List ℕ) (s : TcpServer asio)
      → IsKeyed asio s
      → IsKeyed asio (complete wait memory i error received s)
  unfolding complete
  complete-IsKeyed i error received s h = elim (Option-cases (get_elem? s.pending i)) [
    | inl e ↦ rw (complete, e) h
    | inr (op, e) ↦
        rw (complete, e)
          (handle-IsKeyed op error received (record s { pending = erase_idx s.pending i })
            (λ id same. ended-IsUnknown i id s (ground arith) h) (ended-IsKeyed i s e h))
  ]

  pub step-IsKeyed :
      (e : Event) (s : TcpServer asio) → IsKeyed asio s → IsKeyed asio (step wait memory e s)
  unfolding step
  step-IsKeyed start_call s h = start-IsKeyed s h
  step-IsKeyed stop_call s h = stop-IsKeyed s h
  step-IsKeyed (send_call id message) s h = send_data-IsKeyed id message s h
  step-IsKeyed (write_round id error transferred to_send) s h =
      write_round-IsKeyed id transferred to_send error s h
  step-IsKeyed (completion i error received) s h = complete-IsKeyed i error received s h

  -- In every history of the TCP server whose wait_until_sent keeps it so: where each entry of the map of
  -- connections stands under the remote endpoint of its connection, with one entry at most under each,
  -- and no connection has two entries or an entry beside an accept that is to fill it, that stays so.
  pub run_server-IsKeyed :
      (es : List Event) (s : TcpServer asio) → IsKeyed asio s → IsKeyed asio (run wait memory es s)
  unfolding run step
  run_server-IsKeyed [] s h = h
  run_server-IsKeyed (e ∷ es) s h =
      run_server-IsKeyed es (step wait memory e s) (step-IsKeyed e s h)
