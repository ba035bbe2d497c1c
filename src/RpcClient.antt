-- ===== src/RpcClient.antt =====
-- src/rpc_client.cpp, class `Rpc_Client`: the Thrift client objects that it allocates and deletes.
pub mod Handlers
use open_workload_scheduler.Base.{ℕ, suc, ◌-◌, String, Bool, true, false, List, [], ◌∷◌}
use open_workload_scheduler.Base.Int.{ℤ}
use open_workload_scheduler.Effect.{M, ◌>>=◌, ◌>>◌, pure, gets, modify}

-- Whether the pointer `handler` is set, and how many client objects are allocated.
pub record RpcClient : Type 0 where
  pub has_handler : Bool
  pub allocated : ℕ

-- `Rpc_Client::Rpc_Client`
abbrev pub new_rpc_client : RpcClient
new_rpc_client = record { has_handler = false; allocated = 0 }

abbrev pub delete_handler : RpcClient → RpcClient
delete_handler r = record { has_handler = false; allocated = r.allocated - 1 }

-- `open`, where `connects` says whether the transport to the host and the port opens: the pointer to
-- a new object replaces the one that was there.
unfoldable pub open_handler : (String → ℤ → Bool) → String → ℤ → M RpcClient Bool
open_handler connects hostname port = do
  modify (λ r. record { has_handler = true; allocated = suc r.allocated })
  pure (connects hostname port)

abbrev pub drop_handler : Bool → RpcClient → RpcClient
drop_handler true r = delete_handler r
drop_handler false r = r

unfoldable pub close : M RpcClient Bool
close = do modify (λ r. record (drop_handler r.has_handler r) { has_handler = false }); pure true

-- `Rpc_Client::~Rpc_Client`
unfoldable pub destroy : RpcClient → RpcClient
destroy r = drop_handler r.has_handler r

-- The calls that the program makes of such an object.
pub data ClientCall : Type 0 where
  opened : String → ℤ → ClientCall
  closed : ClientCall

module _ (connects : String → ℤ → Bool) where
  unfoldable pub run : List ClientCall → RpcClient → RpcClient
  unfolding open_handler close
  run [] r = r
  run (opened hostname port ∷ calls) r = run calls (open_handler connects hostname port r).1
  run (closed ∷ calls) r = run calls (close r).1
