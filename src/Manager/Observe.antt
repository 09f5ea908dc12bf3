-- ===== src/Manager/Observe.antt =====
-- What the callers of endpoint_manager_impl.cpp can tell of the registries: the two tables, and no more.
use mathlib.Core.Path.{fun_ext}
use endpoint.Base.{◌≡◌, ap, sym, ◌∙◌, ◌↔◌, Option, List, [], ◌∷◌}
use endpoint.Manager.{Endpoints, Manager, find_server_endpoint, find_client_endpoint}
use endpoint.Manager.Run.{Call, find_server, find_client, Reply, endpoint_is, step, run}
use endpoint.Manager.Refine.{spec_run, view, table, run_refines}

-- The endpoint that the first reply is.
found : {Ptr : Type 0} → List (Reply Ptr) → Option Ptr → Option Ptr
found (endpoint_is ptr ∷ replies) other = ptr
found _ other = other

module _ {e : Endpoints} where
  -- The same replies to every sequence of calls.
  abbrev pub RepliesAs : Manager e → Manager e → Type 0
  RepliesAs m n = (calls : List (Call e.Store)) → (run calls m).0 ≡ (run calls n).0

  view-RepliesAs : (m n : Manager e) → view m ≡ view n → RepliesAs m n
  view-RepliesAs m n same calls =
      ap (λ r. r.0) (sym (run_refines calls m))
      ∙ ap (λ s. (spec_run calls s).0) same
      ∙ ap (λ r. r.0) (run_refines calls n)

  RepliesAs-view : (m n : Manager e) → m.store ≡ n.store → RepliesAs m n → view m ≡ view n
  unfolding view table run step find_server_endpoint find_client_endpoint found
  RepliesAs-view m n same_store same =
      let servers : table m.server_endpoints ≡ table n.server_endpoints = fun_ext (λ ip.
        fun_ext (λ port. fun_ext (λ reliable.
          ap (λ replies. found replies (find_server_endpoint ip port reliable m))
            (same (find_server ip port reliable ∷ []))))) in
      let clients : table m.client_endpoints ≡ table n.client_endpoints = fun_ext (λ ip.
        fun_ext (λ port. fun_ext (λ reliable.
          ap (λ replies. found replies (find_client_endpoint ip port reliable m))
            (same (find_client ip port reliable ∷ []))))) in
      λ i. record { store = same_store i; servers = servers i; clients = clients i }

  -- Two managers over the same endpoints reply the same to every sequence of calls exactly where their
  -- registries show the same two tables, whatever the nested maps look like.
  pub RepliesAs-iff_view : (m n : Manager e) → m.store ≡ n.store → RepliesAs m n ↔ (view m ≡ view n)
  RepliesAs-iff_view m n same_store = (RepliesAs-view m n same_store, view-RepliesAs m n)
