-- ===== src/Tests/RpcClient.antt =====
-- The theorem on class Rpc_Client, run on a few calls.
use open_workload_scheduler.Base.{true, List, [], ◌∷◌, ◌≡◌}
use open_workload_scheduler.Base.Int.{pos}
use open_workload_scheduler.RpcClient.{new_rpc_client, destroy, ClientCall, opened, closed, run}
use open_workload_scheduler.RpcClient.Handlers.{run_leaks}

abbrev calls : List ClientCall
calls =
    opened "n1" (pos 80)
    ∷ opened "n2" (pos 80)
    ∷ closed
    ∷ opened "n3" (pos 80)
    ∷ opened "n4" (pos 80)
    ∷ []

run_leaks_example : (destroy (run (λ hostname port. true) calls new_rpc_client)).allocated ≡ 2
run_leaks_example = run_leaks (λ hostname port. true) calls
