-- ===== src/Manager.antt =====
-- endpoint_manager_impl.h and endpoint_manager_impl.cpp: the registry of endpoints by address, port
-- and reliability, one for servers and one for clients. The endpoints are reached through the
-- interface `Endpoints`; a constructor or a start that throws is caught in the create functions.
-- The recursive mutex is held from the first line to the last of each function, so calls do not
-- interleave.

pub mod Laws
pub mod Run
pub mod Refine
pub mod Tidy
pub mod Observe
pub mod Objects
use endpoint.Base.{ℕ, Bool, Option, none, some, Text, if◌then◌else◌, ◌==◌}
use endpoint.Registry.{Registry, register, find_endpoint, remove_endpoint}

-- The objects behind std::shared_ptr<endpoint>, in a store: what make_shared, start and
-- get_use_count do there. `none` and `false` stand for an exception.
pub record Endpoints : Type 1 where
  pub Store : Type 0
  pub Ptr : Type 0
  pub Address : Type 0
  pub from_string : Text → Option Address
  pub make_server : Bool → Address → ℕ → Store → Option Ptr × Store
  pub make_tcp_client : Address → ℕ → Address → ℕ → Store → Option Ptr × Store
  pub start : Ptr → Store → Bool × Store
  pub use_count : Ptr → Store → ℕ

pub record Manager (e : Endpoints) : Type 0 where
  pub store : e.Store
  pub server_endpoints : Registry e.Ptr
  pub client_endpoints : Registry e.Ptr

module _ {e : Endpoints} where
  open e use {from_string, make_server, make_tcp_client, start, use_count}

  -- The exception of start comes after the entry is made: the endpoint is registered and returned.
  unfoldable pub create_server_endpoint : Text → ℕ → Bool → Manager e → Option e.Ptr × Manager e
  create_server_endpoint ip port reliable m = elim (from_string ip) [
    | none ↦ (none, m)
    | some address ↦
        let (made, store') = make_server reliable address port m.store in
        elim made [
          | none ↦ (none, record m { store = store' })
          | some ptr ↦ (
            some ptr,
            record m {
              store = (start ptr store').1;
              server_endpoints = register ip port reliable ptr m.server_endpoints;
            },
          )
        ]
  ]

  -- An unreliable client is not made: its constructor call is compiled out.
  unfoldable pub create_client_endpoint :
      Text → ℕ → Text → ℕ → Bool → Manager e → Option e.Ptr × Manager e
  create_client_endpoint ip port remote_ip remote_port reliable m = elim (from_string ip) [
    | none ↦ (none, m)
    | some address ↦ elim (from_string remote_ip) [
      | none ↦ (none, m)
      | some remote ↦
          if reliable
          then (let (made, store') = make_tcp_client address port remote remote_port m.store in
              elim made [
                | none ↦ (none, record m { store = store' })
                | some ptr ↦ (
                  some ptr,
                  record m {
                    store = (start ptr store').1;
                    client_endpoints = register ip port reliable ptr m.client_endpoints;
                  },
                )
              ])
          else (none, m)
    ]
  ]

  unfoldable pub find_server_endpoint : Text → ℕ → Bool → Manager e → Option e.Ptr
  find_server_endpoint ip port reliable m = find_endpoint ip port reliable m.server_endpoints

  unfoldable pub find_client_endpoint : Text → ℕ → Bool → Manager e → Option e.Ptr
  find_client_endpoint ip port reliable m = find_endpoint ip port reliable m.client_endpoints

  abbrev pub is_unused : Manager e → e.Ptr → Bool
  is_unused m ptr = use_count ptr m.store == 0

  unfoldable pub remove_server_endpoint : Text → ℕ → Bool → Manager e → Bool × Manager e
  remove_server_endpoint ip port reliable m =
      let (done, r) = remove_endpoint (is_unused m) ip port reliable m.server_endpoints in
      (done, record m { server_endpoints = r })

  unfoldable pub remove_client_endpoint : Text → ℕ → Bool → Manager e → Bool × Manager e
  remove_client_endpoint ip port reliable m =
      let (done, r) = remove_endpoint (is_unused m) ip port reliable m.client_endpoints in
      (done, record m { client_endpoints = r })
