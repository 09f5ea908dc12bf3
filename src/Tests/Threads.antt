-- ===== src/Tests/Threads.antt =====
-- Threads that use a server at concrete inputs.
use endpoint.Base.{
  ℕ, ◌≡◌, refl, true, false, List, [], ◌∷◌, ◌⊎◌, map, All, none, some, get_elem?, arith, inl,
}
use endpoint.Asio.{not_connected, timed_out, success}
use endpoint.Locks.{
  socket, guarded, connection_mutex, touch, connection_socket, release, Action, sent_mutex, sending,
}
use endpoint.Locks.Servers.{
  connection_receive_call, write_round_call, stop, connection_receive, server_locks,
  connection_receive_cbk_call, connection_stop_call,
}
use endpoint.Locks.Threads.{Thread, begin_all, move, Reach, start, later, IsDone, begin}
use endpoint.Locks.Threads.Progress.{CanMove}
use endpoint.Locks.Threads.Covering.{Touches, Covers, covering}
use endpoint.Locks.Clients.{tcp_write_round_call, send_cbk_call}
use endpoint.Locks.Races.{CanRace, program-Touches, write_round-Touches}
use endpoint.Locks.Threads.Order.{IsNested, nesting}
use endpoint.Locks.Deadlock.{
  client_call, Call, server_call, call_locks, program, program-CanMove, stop-deadlock,
}

-- wait_until_sent of a small world: it uses is_sending_ with its mutex.
abbrev wait : ℕ → ℕ → List Action
wait n id = guarded (sent_mutex n) (touch (sending n) ∷ [])

wait-IsNested : (n id : ℕ) → IsNested 0 (wait n id)
wait-IsNested n id = search (nesting, arith)

wait-Covers : (n id : ℕ) → Covers (connection_socket 0 3) [] (wait n id)
wait-Covers n id = search (covering) depth 12

-- One thread reads from connection 3, a read of which ends then; the other loses a write of it.
abbrev two_threads : List (List Call)
two_threads =
    (server_call 0 (connection_receive_call 3 false)
      ∷ server_call 0 (connection_receive_cbk_call 3 timed_out true)
      ∷ [])
    ∷ (server_call 0 (write_round_call 3 timed_out true true) ∷ [])
    ∷ []

-- The first has begun.
abbrev under_way : List Thread
unfolding call_locks server_locks connection_receive guarded move
under_way = elim (move 0 (begin_all (map (program wait) two_threads))) [ none ↦ [] | some ts ↦ ts ]

under_way-Reach : Reach (begin_all (map (program wait) two_threads)) under_way
unfolding call_locks server_locks connection_receive guarded move
under_way-Reach = later 0 start refl

program-CanMove_example : All IsDone under_way ⊎ CanMove under_way
program-CanMove_example =
    program-CanMove wait wait-IsNested two_threads under_way ((refl, (tt, tt)), ((tt, tt), tt))
      under_way-Reach

stop-deadlock_example :
    (ts : List Thread) × Reach (begin_all (stop 0 (3 ∷ []) ∷ connection_receive 0 3 true ∷ [])) ts
    × ((i : ℕ) → move i ts ≡ none)
    × ¬ (All IsDone ts)
stop-deadlock_example = stop-deadlock 0 3 []

abbrev reader : Thread
reader = record {
  held = connection_mutex 0 3 ∷ [];
  todo =
      touch (connection_socket 0 3)
      ∷ touch (connection_socket 0 3)
      ∷ release (connection_mutex 0 3)
      ∷ program wait (server_call 0 (connection_receive_cbk_call 3 timed_out true) ∷ []);
}

abbrev writer : Thread
writer = begin (program wait (server_call 0 (write_round_call 3 timed_out true true) ∷ []))

under_way-threads : (get_elem? under_way 0 ≡ some reader) × (get_elem? under_way 1 ≡ some writer)
unfolding call_locks server_locks connection_receive guarded move
under_way-threads = (refl, refl)

-- While the first thread uses the socket of the connection, the second does not.
program-Touches_example :
    ¬ (Touches (connection_socket 0 3) reader × Touches (connection_socket 0 3) writer)
program-Touches_example =
    program-Touches (connection_socket 0 3) wait wait-Covers two_threads under_way 0 1
      ((tt, (tt, tt)), ((inl refl, tt), tt)) under_way-Reach under_way-threads.0 under_way-threads.1
      (λ e. ground arith)

write_round-Touches_example :
    CanRace wait
      (connection_socket 0 3)
      (server_call 0 (write_round_call 3 success true true))
      (server_call 0 (connection_stop_call 3))
    × CanRace wait
        (socket 0)
        (client_call 0 (tcp_write_round_call success true))
        (client_call 0 (send_cbk_call not_connected))
write_round-Touches_example = write_round-Touches wait 0 3 true
