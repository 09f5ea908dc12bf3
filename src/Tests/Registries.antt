-- ===== src/Tests/Registries.antt =====
-- The registries and the manager at concrete inputs.
use endpoint.Base.{ℕ, ◌+◌, List, ◌≡◌, true, false, [], ◌∷◌, Text}
use endpoint.Registry.{Registry, register}
use endpoint.Registry.Laws.{IsTidy, register-IsTidy}
use endpoint.Manager.{Manager, create_server_endpoint}
use endpoint.Manager.Run.{
  Call, create_server, create_client, find_server, remove_server, remove_client, elsewhere, run,
}
use endpoint.Manager.Refine.{spec_run, view, run_refines}
use endpoint.Manager.Tidy.{HasTidyRegistries, run-IsTidy}
use endpoint.Tests.Worlds.{endpoints, manager}

abbrev pub here : Text
here = b'1' ∷ []

abbrev pub there : Text
there = b'2' ∷ []

-- A reliable endpoint 3 and an unreliable one 4 at one port.
abbrev two : Registry ℕ
two = register here 13400 false 4 (register here 13400 true 3 [])

two-IsTidy : IsTidy two
two-IsTidy =
    register-IsTidy here 13400 false 4 (register here 13400 true 3 [])
      (register-IsTidy here 13400 true 3 [] tt)

-- A manager with one server.
abbrev with_server : Manager endpoints
with_server = (create_server_endpoint here 13400 true manager).1

-- The two endpoints among its clients as well.
abbrev crowded : Manager endpoints
crowded = record with_server { client_endpoints = two }

abbrev calls : List (Call ℕ)
calls =
    create_server there 13400 true
    ∷ create_client here 13402 there 13400 true
    ∷ find_server there 13400 true
    ∷ remove_server here 13400 true
    ∷ elsewhere (λ n. n + 1)
    ∷ find_server here 13400 true
    ∷ remove_client here 13400 false
    ∷ []

run_refines_example :
    spec_run calls (view crowded) ≡ ((run calls crowded).0, view (run calls crowded).1)
run_refines_example = run_refines calls crowded

crowded-HasTidyRegistries : HasTidyRegistries crowded
unfolding create_server_endpoint
crowded-HasTidyRegistries = (register-IsTidy here 13400 true 7 [] tt, two-IsTidy)

run-IsTidy_example : HasTidyRegistries (run calls crowded).1
run-IsTidy_example = run-IsTidy calls crowded crowded-HasTidyRegistries
