-- ===== src/TcpServer/Run/Accepting.antt =====
-- The accepts of the TCP server in every history.
use endpoint.Base.{
  ℕ, zero, suc, ◌+◌, ◌≡◌, refl, true, false, ◌||◌, some, List, [], ◌∷◌, get_elem?, erase_idx, arith,
  Option-cases, inl, inr, ◌∙◌, Option, ap,
}
use endpoint.Asio.{
  Asio, ErrorCode, is_operation_aborted, is_bad_descriptor, is_error, operation_aborted,
}
use endpoint.Buffer.{Memory}
use endpoint.Connection.{Connection}
use endpoint.TcpServer.{
  TcpServer, Op, accept_op, retry_op, receive_op, write_op, start, send_data,
  stop_and_remove_connection, remove_connection,
}
use endpoint.TcpServer.Callbacks.{
  retry_cbk, receive_cbk, write_completion_condition, handle, complete, put_received, put_accepted,
}
use endpoint.TcpServer.Accept.{accepts, accepts-append, accept_cbk-accepts, accept_cbk-acceptor}
use endpoint.TcpServer.Run.{
  Event, start_call, stop_call, send_call, write_round, completion, step, run,
}

-- An accept ends with no error that ends the accepting, and the wait for another try without any.
abbrev pub EndsWell : Option Op → ErrorCode → Type 0
EndsWell (some (accept_op id)) error =
    (is_bad_descriptor error || is_operation_aborted error) ≡ false
EndsWell (some (retry_op ms)) error = is_error error ≡ false
EndsWell op error = Unit {0}

abbrev pub starts : List Event → ℕ
starts [] = 0
starts (start_call ∷ es) = suc (starts es)
starts (_ ∷ es) = starts es

accepts-erase_idx :
    (ops : List Op) (i : ℕ) (op : Op)
    → get_elem? ops i ≡ some op
    → accepts (erase_idx ops i) + accepts (op ∷ []) ≡ accepts ops
accepts-erase_idx [] i op e = absurd (ground arith)
accepts-erase_idx (o ∷ ops) zero op e =
    let same : o ≡ op = ground arith in
    omega (arith, accepts-append (o ∷ []) ops, ap (λ p. accepts (p ∷ [])) same)
accepts-erase_idx (accept_op id ∷ ops) (suc i) op e = omega (arith, accepts-erase_idx ops i op e)
accepts-erase_idx (retry_op ms ∷ ops) (suc i) op e = omega (arith, accepts-erase_idx ops i op e)
accepts-erase_idx (_ ∷ ops) (suc i) op e = accepts-erase_idx ops i op e

module _ {asio : Asio} where
  -- Nothing changes for the accepting: the acceptor, and the accepts under way.
  abbrev pub KeepsAccepting : TcpServer asio → TcpServer asio → Type 0
  KeepsAccepting s t = (t.acceptor ≡ s.acceptor) × (accepts t.pending ≡ accepts s.pending)

  start-accepts :
      (s : TcpServer asio)
      → asio.is_open s.acceptor ≡ true
      → ((start s).acceptor ≡ s.acceptor) × (accepts (start s).pending ≡ suc (accepts s.pending))
  unfolding start
  start-accepts s opened = grind (arith, accepts-append)

  send_data-KeepsAccepting :
      (id : ℕ) (message : List ℕ) (s : TcpServer asio) → KeepsAccepting s (send_data id message s)
  unfolding send_data
  send_data-KeepsAccepting id message s = grind (arith, accepts-append)

  write_round-KeepsAccepting :
      (id transferred to_send : ℕ) (error : ErrorCode) (s : TcpServer asio)
      → KeepsAccepting s (write_completion_condition id error transferred to_send s).1
  unfolding write_completion_condition stop_and_remove_connection remove_connection
  write_round-KeepsAccepting id transferred to_send error s = ground arith

module _ {asio : Asio} (wait : ErrorCode → ℕ → TcpServer asio → TcpServer asio)
    (memory : Memory) where
  -- No stop, and every accept and every wait ends well.
  abbrev pub GoesOn : List Event → TcpServer asio → Type 0
  GoesOn [] s = Unit {0}
  GoesOn (stop_call ∷ es) s = ⊥
  GoesOn (completion i error received ∷ es) s =
      EndsWell (get_elem? s.pending i) error
      × GoesOn es (step wait memory (completion i error received) s)
  GoesOn (e ∷ es) s = GoesOn es (step wait memory e s)

module _ {asio : Asio} (wait : ErrorCode → ℕ → TcpServer asio → TcpServer asio)
    (waits : (error : ErrorCode) (id : ℕ) (s : TcpServer asio) → KeepsAccepting s (wait error id s))
    (memory : Memory) where
  receive_cbk-KeepsAccepting :
      (error : ErrorCode) (bytes id : ℕ) (c : Connection asio) (s : TcpServer asio)
      → KeepsAccepting s (receive_cbk wait error bytes id c s).0
  unfolding receive_cbk
  receive_cbk-KeepsAccepting error bytes id c s = ground (arith, waits operation_aborted id s)

  put_accepted-KeepsAccepting :
      (id : ℕ) (error : ErrorCode) (s : TcpServer asio) → KeepsAccepting s (put_accepted id error s)
  put_accepted-KeepsAccepting id error s = ground arith

  -- What a completion leaves of the operations under way, and then its handler.
  complete-accepts :
      (i : ℕ) (error : ErrorCode) (received : List ℕ) (s : TcpServer asio)
      → EndsWell (get_elem? s.pending i) error
      → asio.is_open s.acceptor ≡ true
      → KeepsAccepting s (complete wait memory i error received s)
  unfolding complete handle retry_cbk
  complete-accepts i error received s well opened = elim (Option-cases (get_elem? s.pending i)) [
    | inl e ↦ ground arith
    | inr (accept_op id, e) ↦
        let taken = record s { pending = erase_idx s.pending i } in
        let t = put_accepted id error taken in
        let (still, same) = put_accepted-KeepsAccepting id error taken in
        let more = accept_cbk-accepts memory id error t (rw still opened) in
        let goes_on : (is_bad_descriptor error || is_operation_aborted error) ≡ false =
          rw e at well in
        rw (complete, e)
          (
            accept_cbk-acceptor memory id error t ∙ still,
            omega (arith, rw goes_on at more, same, accepts-erase_idx s.pending i (accept_op id) e),
          )
    | inr (retry_op ms, e) ↦
        let taken = record s { pending = erase_idx s.pending i } in
        let (still, more) = start-accepts taken opened in
        let fine : is_error error ≡ false = rw e at well in
        rw (complete, e, fine)
          (still, omega (arith, more, accepts-erase_idx s.pending i (retry_op ms) e))
    | inr (receive_op id filled amount, e) ↦
        let taken =
          put_received id filled amount received (record s { pending = erase_idx s.pending i }) in
        let one_fewer = accepts-erase_idx s.pending i (receive_op id filled amount) e in
        elim (Option-cases (get_elem? taken.heap id)) [
          | inl gone ↦ rw (complete, e, handle, gone) (refl, omega (arith, one_fewer))
          | inr (c, found) ↦
              let (still, same) = receive_cbk-KeepsAccepting error _ id c taken in
              rw (complete, e, handle, found) (still, omega (arith, same, one_fewer))
        ]
    | inr (write_op id message, e) ↦
        rw (complete, e)
          (refl, omega (arith, accepts-erase_idx s.pending i (write_op id message) e))
  ]

  -- The counts of a history, from before an event that keeps the accepting.
  go_on :
      (es : List Event) (s t : TcpServer asio)
      → KeepsAccepting s t
      → (accepts (run wait memory es t).pending ≡ accepts t.pending + starts es)
        × (asio.is_open (run wait memory es t).acceptor ≡ true)
      → (accepts (run wait memory es t).pending ≡ accepts s.pending + starts es)
        × (asio.is_open (run wait memory es t).acceptor ≡ true)
  go_on es s t keeps rest = (omega (arith, rest.0, keeps.1), rest.1)

  -- In every history of a TCP server that listens, without a stop, where each accept ends with none
  -- of bad_descriptor and operation_aborted and each wait after no_descriptors without an error, and
  -- where wait_until_sent keeps the acceptor and the accepts, no accept is lost, whatever the
  -- connections do and however they fail: as many accepts and waits are under way as at the beginning
  -- and one more for each start, and the acceptor stays open.
  pub run_server-accepts :
      (es : List Event) (s : TcpServer asio)
      → GoesOn wait memory es s
      → asio.is_open s.acceptor ≡ true
      → (accepts (run wait memory es s).pending ≡ accepts s.pending + starts es)
        × (asio.is_open (run wait memory es s).acceptor ≡ true)
  unfolding run step
  run_server-accepts [] s on opened = (omega arith, opened)
  run_server-accepts (start_call ∷ es) s on opened =
      let (still, more) = start-accepts s opened in
      let (all, open_after) = run_server-accepts es (start s) on (rw still opened) in
      (omega (arith, all, more), open_after)
  run_server-accepts (stop_call ∷ es) s on opened = absurd on
  run_server-accepts (send_call id message ∷ es) s on opened =
      let keeps = send_data-KeepsAccepting id message s in
      go_on es s (send_data id message s) keeps
        (run_server-accepts es (send_data id message s) on (rw keeps.0 opened))
  run_server-accepts (write_round id error transferred to_send ∷ es) s on opened =
      let keeps = write_round-KeepsAccepting id transferred to_send error s in
      let t = (write_completion_condition id error transferred to_send s).1 in
      go_on es s t keeps (run_server-accepts es t on (rw keeps.0 opened))
  run_server-accepts (completion i error received ∷ es) s on opened =
      let keeps = complete-accepts i error received s on.0 opened in
      let t = complete wait memory i error received s in
      go_on es s t keeps (run_server-accepts es t on.1 (rw keeps.0 opened))
