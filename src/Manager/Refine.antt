-- ===== src/Manager/Refine.antt =====
-- The manager of endpoint_manager_impl.cpp against what it promises: two functions from address, port
-- and reliability to an endpoint, without the nested maps.
use mathlib.Core.Path.{fun_ext}
use endpoint.Base.{
  ℕ, ◌≡◌, refl, Bool, Option, none, some, List, [], ◌∷◌, Text, if◌then◌else◌, ◌==◌, arith,
  Option-cases, inl, inr,
}
use endpoint.Registry.{Registry, find_endpoint, register, remove_endpoint}
use endpoint.Registry.Laws.{
  at_key, find_endpoint-register, find_endpoint-remove_endpoint, is_removable,
}
use endpoint.Manager.{
  Endpoints, Manager, create_server_endpoint, create_client_endpoint, find_server_endpoint,
  find_client_endpoint, remove_server_endpoint, remove_client_endpoint, is_unused,
}
use endpoint.Manager.Run.{
  Call, create_server, create_client, find_server, find_client, remove_server, remove_client,
  elsewhere, Reply, endpoint_is, removed, no_reply, step, run,
}

abbrev pub Table : Type 0 → Type 0
Table Ptr = Text → ℕ → Bool → Option Ptr

module _ {Ptr : Type 0} where
  -- The table with `x` at one key.
  unfoldable pub put : Text → ℕ → Bool → Option Ptr → Table Ptr → Table Ptr
  put ip port reliable x t ip' port' reliable' =
      at_key ip port reliable ip' port' reliable' x (t ip' port' reliable')

  -- What is made is put, and where nothing is made the table stays.
  unfoldable pub put_made : Text → ℕ → Bool → Option Ptr → Table Ptr → Table Ptr
  put_made ip port reliable none t = t
  put_made ip port reliable (some ptr) t = put ip port reliable (some ptr) t

  unfoldable pub table : Registry Ptr → Table Ptr
  table r ip port reliable = find_endpoint ip port reliable r

  table-register :
      (ip : Text) (port : ℕ) (reliable : Bool) (ptr : Ptr) (r : Registry Ptr)
      → table (register ip port reliable ptr r) ≡ put ip port reliable (some ptr) (table r)
  unfolding put table
  table-register ip port reliable ptr r i ip' port' reliable' =
      find_endpoint-register ip ip' port port' reliable reliable' ptr r i

  table-remove_endpoint :
      (unused : Ptr → Bool) (ip : Text) (port : ℕ) (reliable : Bool) (r : Registry Ptr)
      → let (said, r') = remove_endpoint unused ip port reliable r in
        let done = is_removable unused (table r ip port reliable) in
        (said ≡ done) × (table r' ≡ (if done then put ip port reliable none (table r) else table r))
  unfolding put table
  table-remove_endpoint unused ip port reliable r = (
    (find_endpoint-remove_endpoint unused ip ip port port reliable reliable r).0,
    fun_ext (λ ip'. fun_ext (λ port'. fun_ext (λ reliable'.
        let law = (find_endpoint-remove_endpoint unused ip ip' port port' reliable reliable' r).1 in
        ground (arith, law)))),
  )

pub record Spec (e : Endpoints) : Type 0 where
  pub store : e.Store
  pub servers : Table e.Ptr
  pub clients : Table e.Ptr

module _ (e : Endpoints) where
  -- What is made is started, whether that throws or not.
  unfoldable pub started : Option e.Ptr × e.Store → e.Store
  started (none, store) = store
  started (some ptr, store) = (e.start ptr store).1

  -- What the objects do in a create: `none` where an address is none.
  abbrev pub made_server : Text → ℕ → Bool → e.Store → Option e.Ptr × e.Store
  made_server ip port reliable store = elim (e.from_string ip) [
    | none ↦ (none, store)
    | some address ↦ e.make_server reliable address port store
  ]

  abbrev pub made_client : Text → ℕ → Text → ℕ → Bool → e.Store → Option e.Ptr × e.Store
  made_client ip port remote_ip remote_port reliable store = elim (e.from_string ip) [
    | none ↦ (none, store)
    | some address ↦ elim (e.from_string remote_ip) [
      | none ↦ (none, store)
      | some remote ↦
          if reliable
          then e.make_tcp_client address port remote remote_port store
          else (none, store)
    ]
  ]

  -- Whether a remove takes the endpoint away: there is one, and it has no users.
  abbrev pub is_free : e.Store → Option e.Ptr → Bool
  is_free store found = is_removable (λ ptr. e.use_count ptr store == 0) found

module _ {e : Endpoints} where
  unfoldable pub spec_step : Call e.Store → Spec e → Reply e.Ptr × Spec e
  spec_step (create_server ip port reliable) s =
      let made = made_server e ip port reliable s.store in
      (
        endpoint_is made.0,
        record s { store = started e made; servers = put_made ip port reliable made.0 s.servers },
      )
  spec_step (create_client ip port remote_ip remote_port reliable) s =
      let made = made_client e ip port remote_ip remote_port reliable s.store in
      (
        endpoint_is made.0,
        record s { store = started e made; clients = put_made ip port reliable made.0 s.clients },
      )
  spec_step (find_server ip port reliable) s = (endpoint_is (s.servers ip port reliable), s)
  spec_step (find_client ip port reliable) s = (endpoint_is (s.clients ip port reliable), s)
  spec_step (remove_server ip port reliable) s =
      let done = is_free e s.store (s.servers ip port reliable) in
      (removed done, if done then record s { servers = put ip port reliable none s.servers } else s)
  spec_step (remove_client ip port reliable) s =
      let done = is_free e s.store (s.clients ip port reliable) in
      (removed done, if done then record s { clients = put ip port reliable none s.clients } else s)
  spec_step (elsewhere f) s = (no_reply, record s { store = f s.store })

  unfoldable pub spec_run : List (Call e.Store) → Spec e → List (Reply e.Ptr) × Spec e
  spec_run [] s = ([], s)
  spec_run (call ∷ calls) s =
      let (reply, s') = spec_step call s in
      let (replies, s'') = spec_run calls s' in (reply ∷ replies, s'')

  unfoldable pub view : Manager e → Spec e
  view m = record {
    store = m.store;
    servers = table m.server_endpoints;
    clients = table m.client_endpoints;
  }

  abbrev Refines : Call e.Store → Manager e → Type 0
  Refines call m = spec_step call (view m) ≡ ((step call m).0, view (step call m).1)

  create_server-Refines :
      (ip : Text) (port : ℕ) (reliable : Bool) (m : Manager e)
      → Refines (create_server ip port reliable) m
  unfolding spec_step step create_server_endpoint view started put_made
  create_server-Refines ip port reliable m = elim (Option-cases (e.from_string ip)) [
    | inl p ↦ ground arith
    | inr (a, p) ↦ elim (Option-cases (e.make_server reliable a port m.store).0) [
      | inl q ↦ ground arith
      | inr (ptr, q) ↦ ground (arith, table-register ip port reliable ptr m.server_endpoints)
    ]
  ]

  create_client-Refines :
      (ip remote_ip : Text) (port remote_port : ℕ) (reliable : Bool) (m : Manager e)
      → Refines (create_client ip port remote_ip remote_port reliable) m
  unfolding spec_step step create_client_endpoint view started put_made
  create_client-Refines ip remote_ip port remote_port reliable m =
      elim (Option-cases (e.from_string ip)) [
        | inl p ↦ ground arith
        | inr (a, p) ↦ elim (Option-cases (e.from_string remote_ip)) [
          | inl q ↦ ground arith
          | inr (b, q) ↦ elim (Option-cases (e.make_tcp_client a port b remote_port m.store).0) [
            | inl r ↦ ground arith
            | inr (ptr, r) ↦ ground (arith, table-register ip port reliable ptr m.client_endpoints)
          ]
        ]
      ]

  remove_server-Refines :
      (ip : Text) (port : ℕ) (reliable : Bool) (m : Manager e)
      → Refines (remove_server ip port reliable) m
  unfolding spec_step step remove_server_endpoint view
  remove_server-Refines ip port reliable m =
      ground (arith, table-remove_endpoint (is_unused m) ip port reliable m.server_endpoints)

  remove_client-Refines :
      (ip : Text) (port : ℕ) (reliable : Bool) (m : Manager e)
      → Refines (remove_client ip port reliable) m
  unfolding spec_step step remove_client_endpoint view
  remove_client-Refines ip port reliable m =
      ground (arith, table-remove_endpoint (is_unused m) ip port reliable m.client_endpoints)

  step-Refines : (call : Call e.Store) (m : Manager e) → Refines call m
  unfolding spec_step step find_server_endpoint find_client_endpoint table view
  step-Refines (create_server ip port reliable) m = create_server-Refines ip port reliable m
  step-Refines (create_client ip port remote_ip remote_port reliable) m =
      create_client-Refines ip remote_ip port remote_port reliable m
  step-Refines (find_server ip port reliable) m = refl
  step-Refines (find_client ip port reliable) m = refl
  step-Refines (remove_server ip port reliable) m = remove_server-Refines ip port reliable m
  step-Refines (remove_client ip port reliable) m = remove_client-Refines ip port reliable m
  step-Refines (elsewhere f) m = refl

  -- Any sequence of calls of the manager returns what the two tables return for it, whatever happens to
  -- the endpoints between the calls, and leaves registries that show the tables it leaves.
  pub run_refines :
      (calls : List (Call e.Store)) (m : Manager e)
      → spec_run calls (view m) ≡ ((run calls m).0, view (run calls m).1)
  unfolding spec_run run
  run_refines [] m = refl
  run_refines (call ∷ calls) m = rw (step-Refines call m, run_refines calls (step call m).1) refl
