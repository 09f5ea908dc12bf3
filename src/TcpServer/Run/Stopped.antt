-- ===== src/TcpServer/Run/Stopped.antt =====
-- The TCP server after stop.
use endpoint.Base.{ℕ, ◌≡◌, false, List, [], ◌∷◌, get_elem?, Option-cases, inl, inr, arith}
use endpoint.Asio.{Asio, ErrorCode, operation_aborted}
use endpoint.Buffer.{Memory}
use endpoint.TcpServer.{TcpServer, Op, accept_op, retry_op, receive_op, write_op, stop}
use endpoint.TcpServer.Callbacks.{
  accept_cbk, retry_cbk, receive_cbk, handle, complete, put_received,
}
use endpoint.TcpServer.Run.{Event, stop_call, completion, step, run}

abbrev pub AllAborted : List Event → Type 0
AllAborted [] = Unit {0}
AllAborted (completion i operation_aborted received ∷ es) = AllAborted es
AllAborted (e ∷ es) = ⊥

module _ {asio : Asio} (wait : ErrorCode → ℕ → TcpServer asio → TcpServer asio)
    (memory : Memory) where
  -- Nothing is accepted, and no connection is in the map.
  abbrev IsShut : TcpServer asio → Type 0
  IsShut s = (asio.is_open s.acceptor ≡ false) × (s.connections ≡ [])

  stop-IsShut : (s : TcpServer asio) → IsShut (stop s)
  unfolding stop
  stop-IsShut s = ground (arith, asio.close_closes s.acceptor)

  handle-IsShut :
      (op : Op) (received : List ℕ) (s : TcpServer asio)
      → IsShut s
      → IsShut (handle wait memory op operation_aborted received s)
  unfolding handle accept_cbk retry_cbk receive_cbk
  handle-IsShut (accept_op id) received s h = h
  handle-IsShut (retry_op ms) received s h = h
  handle-IsShut (receive_op id filled amount) received s h =
      elim (Option-cases (get_elem? (put_received id filled amount received s).heap id)) [
        | inl e ↦ rw (handle, e) h
        | inr (c, e) ↦ rw (handle, e) h
      ]
  handle-IsShut (write_op id message) received s h = h

  complete-IsShut :
      (i : ℕ) (received : List ℕ) (s : TcpServer asio)
      → IsShut s
      → IsShut (complete wait memory i operation_aborted received s)
  unfolding complete
  complete-IsShut i received s h = elim (Option-cases (get_elem? s.pending i)) [
    | inl e ↦ rw (complete, e) h
    | inr (op, e) ↦ rw (complete, e) (handle-IsShut op received _ h)
  ]

  run-IsShut :
      (es : List Event) (s : TcpServer asio)
      → AllAborted es
      → IsShut s
      → IsShut (run wait memory es s)
  unfolding run step
  run-IsShut [] s a h = h
  run-IsShut (completion i operation_aborted received ∷ es) s a h =
      run-IsShut es _ a (complete-IsShut i received s h)
  run-IsShut (_ ∷ es) s a h = absurd a

  -- After stop the acceptor is closed and the map of connections is empty, and that stays so while the
  -- operations that were under way end with operation_aborted, in whatever order and number.
  pub run_server-stop :
      (es : List Event) (s : TcpServer asio)
      → AllAborted es
      → (asio.is_open (run wait memory (stop_call ∷ es) s).acceptor ≡ false)
        × ((run wait memory (stop_call ∷ es) s).connections ≡ [])
  unfolding run step
  run_server-stop es s a = run-IsShut es (stop s) a (stop-IsShut s)
