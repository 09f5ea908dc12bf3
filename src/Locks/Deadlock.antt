-- ===== src/Locks/Deadlock.antt =====
-- Whether the threads of a program that uses the endpoints can come to wait for one another.

use endpoint.Base.{ℕ, zero, suc, ◌≡◌, refl, true, none, some, List, [], ◌∷◌, ◌++◌, map, All, ◌⊎◌}
use endpoint.Locks.{
  mutex_discrete, Action, acquire, release, touch, connections, guarded, acceptor_mutex,
  connections_mutex, connection_mutex,
}
use endpoint.Locks.Clients.{ClientCall, client_locks, client_locks-IsNested}
use endpoint.Locks.Servers.{
  ServerCall, server_locks, stop, connection_receive, stop_all, ThrowsNothing,
}
use endpoint.Locks.Servers.Nested.{server_locks-IsNested}
use endpoint.Locks.Threads.{Thread, begin, begin_all, move, Reach, start, later, IsDone}
use endpoint.Locks.Threads.Order.{
  IsNested, nil-IsNested, append-IsNested, IsNested-IsOrderly, IsOrderly,
}
use endpoint.Locks.Threads.Progress.{CanMove, Reach-CanMove, same_self}

pub data Call : Type 0 where
  client_call : ℕ → ClientCall → Call
  server_call : ℕ → ServerCall → Call

-- `wait` is connection::wait_until_sent of a TCP server and a connection.
unfoldable pub call_locks : (ℕ → ℕ → List Action) → Call → List Action
call_locks wait (client_call n call) = client_locks n call
call_locks wait (server_call n call) = server_locks wait n call

-- A thread makes one call after the other.
abbrev pub program : (ℕ → ℕ → List Action) → List Call → List Action
program wait [] = []
program wait (call ∷ calls) = call_locks wait call ++ program wait calls

abbrev pub CallThrowsNothing : Call → Type 0
CallThrowsNothing (client_call n call) = Unit {0}
CallThrowsNothing (server_call n call) = ThrowsNothing call

module _ (wait : ℕ → ℕ → List Action) (waits : (n id : ℕ) → IsNested 0 (wait n id)) where
  program-IsNested :
      (calls : List Call) → All CallThrowsNothing calls → IsNested 0 (program wait calls)
  unfolding call_locks
  program-IsNested [] h = nil-IsNested 0
  program-IsNested (client_call n call ∷ calls) h =
      append-IsNested (client_locks-IsNested n call) (program-IsNested calls h.1)
  program-IsNested (server_call n call ∷ calls) h =
      append-IsNested (server_locks-IsNested wait waits n call h.0) (program-IsNested calls h.1)

  programs-IsOrderly :
      (threads : List (List Call))
      → All (λ calls. All CallThrowsNothing calls) threads
      → All (IsOrderly []) (map (program wait) threads)
  programs-IsOrderly [] h = tt
  programs-IsOrderly (calls ∷ threads) h = (
    IsNested-IsOrderly (program wait calls) (program-IsNested calls h.0),
    programs-IsOrderly threads h.1,
  )

  -- Any number of threads make any calls of the clients, the servers and the manager, on any objects,
  -- no allocation of a connection's receive throws, and wait_until_sent takes its mutexes in the
  -- program's order: at every point that they can come to, all have finished, or one of them can go
  -- on.
  pub program-CanMove :
      (threads : List (List Call)) (ts : List Thread)
      → All (λ calls. All CallThrowsNothing calls) threads
      → Reach (begin_all (map (program wait) threads)) ts
      → All IsDone ts ⊎ CanMove ts
  program-CanMove threads ts h r =
      Reach-CanMove (map (program wait) threads) ts (programs-IsOrderly threads h) r

module _ (n id : ℕ) (ids : List ℕ) where
  -- What is left of stop when it has let go of the acceptor.
  abbrev stopping : List Action
  unfolding stop_all guarded
  stopping =
      (stop_all n (id ∷ ids) ++ touch (connections n) ∷ []) ++ release (connections_mutex n) ∷ []

  abbrev reader : Thread
  reader = begin (connection_receive n id true)

  abbrev accepting_stopped : Thread
  accepting_stopped = begin (acquire (connections_mutex n) ∷ touch (connections n) ∷ stopping)

  abbrev stopper : Thread
  stopper = record { held = connections_mutex n ∷ []; todo = stopping }

  abbrev failing : Thread
  failing = record {
    held = connection_mutex n id ∷ [];
    todo =
        acquire (connections_mutex n)
        ∷ touch (connections n)
        ∷ release (connections_mutex n)
        ∷ release (connection_mutex n id)
        ∷ [];
  }

  stopper-waits : (i : ℕ) → move i (stopper ∷ failing ∷ []) ≡ none
  unfolding move stop_all guarded mutex_discrete
  stopper-waits zero = rw (same_self (connection_mutex n id))
  stopper-waits (suc zero) = rw (same_self (connections_mutex n))
  stopper-waits (suc (suc i)) = refl

  -- A thread that stops a TCP server and one in a receive of a connection in its map, where an
  -- allocation throws, can come to a point where neither has finished and no thread can go on.
  pub stop-deadlock :
      (ts : List Thread) × Reach
        (begin_all (stop n (id ∷ ids) ∷ connection_receive n id true ∷ []))
        ts
      × ((i : ℕ) → move i ts ≡ none)
      × ¬ (All IsDone ts)
  unfolding stop connection_receive guarded move mutex_discrete
  stop-deadlock =
      let released : move 0 (
            record {
              held = acceptor_mutex n ∷ [];
              todo =
                  release (acceptor_mutex n)
                  ∷ acquire (connections_mutex n)
                  ∷ touch (connections n)
                  ∷ stopping;
            }
            ∷ reader
            ∷ [])
          ≡ some (accepting_stopped ∷ reader ∷ []) =
        rw (same_self (acceptor_mutex n)) in
      (
        stopper ∷ failing ∷ [],
        later 1
            (later 1
              (later 1
                (later 0 (later 0 (later 0 (later 0 (later 0 start refl) refl) released) refl) refl)
                refl)
              refl)
            refl,
        stopper-waits,
        λ done. cc,
      )
