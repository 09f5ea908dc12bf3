-- ===== src/Locks/Races.antt =====
-- Whether two threads can use a member at the same time.
use endpoint.Base.{length, ℕ, refl, ◌≡◌, some, List, [], ◌∷◌, map, All, get_elem?, ◌≢◌, Bool, true}
use endpoint.Locks.{
  socket, socket_mutex, Member, Action, guarded, mutex_discrete, connection_socket, touch,
  connection_mutex, release,
}
use endpoint.Locks.Clients.Covered.{client_locks-Covers, IsGuardedClient}
use endpoint.Locks.Servers.Covered.{server_locks-Covers, IsGuardedServer}
use endpoint.Locks.Clients.{
  client_locks, tcp_write_round, send_cbk, reconnect, shutdown_and_close_socket, connect,
  tcp_write_round_call, send_cbk_call,
}
use endpoint.Locks.Threads.{Thread, begin_all, Reach, move, begin, later, start}
use endpoint.Locks.Threads.Covering.{
  Covers, nil-Covers, append-Covers, IsCovered, Covers-IsCovered, Touches, Reach-Touches,
}
use endpoint.Locks.Servers.{
  write_round, write_completion_condition, connection_stop, server_locks, connection_stop_call,
  write_round_call,
}
use endpoint.Asio.{success, not_connected}
use endpoint.Locks.Deadlock.{Call, client_call, server_call, call_locks, program}

-- No round of an async_write goes on with the member `d` in this call.
abbrev pub IsGuarded : Member → Call → Type 0
IsGuarded d (client_call n call) = IsGuardedClient d n call
IsGuarded d (server_call n call) = IsGuardedServer d n call

module _ (d : Member) (wait : ℕ → ℕ → List Action)
    (waits : (n id : ℕ) → Covers d [] (wait n id)) where
  program-Covers : (calls : List Call) → All (IsGuarded d) calls → Covers d [] (program wait calls)
  unfolding call_locks
  program-Covers [] h = nil-Covers d []
  program-Covers (client_call n call ∷ calls) h =
      append-Covers (client_locks-Covers d n call h.0) (program-Covers calls h.1)
  program-Covers (server_call n call ∷ calls) h =
      append-Covers (server_locks-Covers d wait waits n call h.0) (program-Covers calls h.1)

  programs-IsCovered :
      (threads : List (List Call))
      → All (λ calls. All (IsGuarded d) calls) threads
      → All (IsCovered d []) (map (program wait) threads)
  programs-IsCovered [] h = tt
  programs-IsCovered (calls ∷ threads) h = (
    Covers-IsCovered d (program wait calls) (program-Covers calls h.0),
    programs-IsCovered threads h.1,
  )

  -- Any number of threads make any calls of the clients, the servers and the manager, on any objects,
  -- and wait_until_sent uses the member `d` only with its mutex held: at no point that they can come
  -- to are two of them about to use `d`, one of the members that a mutex is meant to guard. Where `d`
  -- is the socket of a connection or of a TCP client, no round of an async_write goes on with it in
  -- these calls.
  pub program-Touches :
      (threads : List (List Call)) (ts : List Thread) (i j : ℕ) {t u : Thread}
      → All (λ calls. All (IsGuarded d) calls) threads
      → Reach (begin_all (map (program wait) threads)) ts
      → get_elem? ts i ≡ some t
      → get_elem? ts j ≡ some u
      → i ≢ j
      → ¬ (Touches d t × Touches d u)
  program-Touches threads ts i j h r there there' differ (mine, yours) = differ (
      Reach-Touches (map (program wait) threads) ts d i j (programs-IsCovered threads h) r there
        there' mine yours)

-- Two threads, with a call each, can come to a point where both are about to use the member `d`.
abbrev pub CanRace : (ℕ → ℕ → List Action) → Member → Call → Call → Type 0
CanRace wait d one other =
    (ts : List Thread) × Reach (begin_all (map (program wait) ((one ∷ []) ∷ (other ∷ []) ∷ []))) ts
    × (All (Touches d) ts × (length ts ≡ 2))

-- A round of an async_write goes on with the socket while bytes remain, without its mutex. So a thread
-- that runs such a round of a connection and one that stops the connection can come to a point where
-- both are about to use its socket; and so can a thread that runs such a round of a TCP client and one
-- that closes the client's socket and connects anew at the end of another message.
pub write_round-Touches :
    (wait : ℕ → ℕ → List Action) (n id : ℕ) (alive : Bool)
    → CanRace wait
        (connection_socket n id)
        (server_call n (write_round_call id success alive true))
        (server_call n (connection_stop_call id))
      × CanRace wait
          (socket n)
          (client_call n (tcp_write_round_call success true))
          (client_call n (send_cbk_call not_connected))
unfolding call_locks server_locks client_locks write_round write_completion_condition
    connection_stop tcp_write_round send_cbk reconnect shutdown_and_close_socket connect guarded
    move mutex_discrete
write_round-Touches wait n id alive = (
  (
    begin (touch (connection_socket n id) ∷ [])
        ∷ record {
          held = connection_mutex n id ∷ [];
          todo = touch (connection_socket n id) ∷ release (connection_mutex n id) ∷ [];
        }
        ∷ [],
    later 1 start refl,
    ((([], refl), ((release (connection_mutex n id) ∷ [], refl), tt)), refl),
  ),
  (
    begin (touch (socket n) ∷ [])
        ∷ record {
          held = socket_mutex n ∷ [];
          todo = touch (socket n) ∷ release (socket_mutex n) ∷ connect n;
        }
        ∷ [],
    later 1 start refl,
    ((([], refl), ((release (socket_mutex n) ∷ connect n, refl), tt)), refl),
  ),
)
