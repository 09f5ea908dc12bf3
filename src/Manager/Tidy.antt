-- ===== src/Manager/Tidy.antt =====
-- The registries of endpoint_manager_impl.cpp keep no empty inner map over any sequence of calls.
use endpoint.Base.{ℕ, Bool, true, false, List, [], ◌∷◌, Text, Option-cases, inl, inr}
use endpoint.Registry.Laws.{IsTidy, register-IsTidy, remove_endpoint-IsTidy}
use endpoint.Manager.{
  Endpoints, Manager, create_server_endpoint, create_client_endpoint, remove_server_endpoint,
  remove_client_endpoint, is_unused,
}
use endpoint.Manager.Run.{
  Call, create_server, create_client, find_server, find_client, remove_server, remove_client,
  elsewhere, step, run,
}

module _ {e : Endpoints} where
  abbrev pub HasTidyRegistries : Manager e → Type 0
  HasTidyRegistries m = IsTidy m.server_endpoints × IsTidy m.client_endpoints

  create_server_endpoint-IsTidy :
      (ip : Text) (port : ℕ) (reliable : Bool) (m : Manager e)
      → HasTidyRegistries m
      → HasTidyRegistries (create_server_endpoint ip port reliable m).1
  unfolding create_server_endpoint
  create_server_endpoint-IsTidy ip port reliable m h = elim (Option-cases (e.from_string ip)) [
    | inl p ↦ rw (create_server_endpoint, p) h
    | inr (a, p) ↦ elim (Option-cases (e.make_server reliable a port m.store).0) [
      | inl q ↦ rw (create_server_endpoint, p, q) h
      | inr (ptr, q) ↦
          rw (create_server_endpoint, p, q)
            (register-IsTidy ip port reliable ptr m.server_endpoints h.0, h.1)
    ]
  ]

  create_client_endpoint-IsTidy :
      (ip remote_ip : Text) (port remote_port : ℕ) (reliable : Bool) (m : Manager e)
      → HasTidyRegistries m
      → HasTidyRegistries (create_client_endpoint ip port remote_ip remote_port reliable m).1
  unfolding create_client_endpoint
  create_client_endpoint-IsTidy ip remote_ip port remote_port false m h =
      elim (Option-cases (e.from_string ip)) [
        | inl p ↦ rw (create_client_endpoint, p) h
        | inr (a, p) ↦ elim (Option-cases (e.from_string remote_ip)) [
          | inl q ↦ rw (create_client_endpoint, p, q) h
          | inr (b, q) ↦ rw (create_client_endpoint, p, q) h
        ]
      ]
  create_client_endpoint-IsTidy ip remote_ip port remote_port true m h =
      elim (Option-cases (e.from_string ip)) [
        | inl p ↦ rw (create_client_endpoint, p) h
        | inr (a, p) ↦ elim (Option-cases (e.from_string remote_ip)) [
          | inl q ↦ rw (create_client_endpoint, p, q) h
          | inr (b, q) ↦ elim (Option-cases (e.make_tcp_client a port b remote_port m.store).0) [
            | inl r ↦ rw (create_client_endpoint, p, q, r) h
            | inr (ptr, r) ↦
                rw (create_client_endpoint, p, q, r)
                  (h.0, register-IsTidy ip port true ptr m.client_endpoints h.1)
          ]
        ]
      ]

  step-IsTidy :
      (call : Call e.Store) (m : Manager e)
      → HasTidyRegistries m
      → HasTidyRegistries (step call m).1
  unfolding step remove_server_endpoint remove_client_endpoint
  step-IsTidy (create_server ip port reliable) m h =
      create_server_endpoint-IsTidy ip port reliable m h
  step-IsTidy (create_client ip port remote_ip remote_port reliable) m h =
      create_client_endpoint-IsTidy ip remote_ip port remote_port reliable m h
  step-IsTidy (find_server ip port reliable) m h = h
  step-IsTidy (find_client ip port reliable) m h = h
  step-IsTidy (remove_server ip port reliable) m h =
      (remove_endpoint-IsTidy (is_unused m) ip port reliable m.server_endpoints h.0, h.1)
  step-IsTidy (remove_client ip port reliable) m h =
      (h.0, remove_endpoint-IsTidy (is_unused m) ip port reliable m.client_endpoints h.1)
  step-IsTidy (elsewhere f) m h = h

  -- No sequence of calls of the manager leaves an empty map inside its registries, if there was none.
  pub run-IsTidy :
      (calls : List (Call e.Store)) (m : Manager e)
      → HasTidyRegistries m
      → HasTidyRegistries (run calls m).1
  unfolding run
  run-IsTidy [] m h = h
  run-IsTidy (call ∷ calls) m h = run-IsTidy calls (step call m).1 (step-IsTidy call m h)
