-- ===== src/RpcClient/Handlers.antt =====
-- src/rpc_client.cpp: which client objects are never deleted.
use open_workload_scheduler.Base.{ℕ, suc, ◌+◌, String, Bool, true, false, List, [], ◌∷◌, ◌≡◌, arith}
use open_workload_scheduler.Base.Int.{ℤ}
use native.Mathlib.Numerals.{unary_clauses}
use open_workload_scheduler.RpcClient.{
  new_rpc_client, open_handler, close, destroy, ClientCall, opened, closed, run,
}

-- The calls of `open` with an `open` before them and no `close` in between.
abbrev pub reopened : Bool → List ClientCall → ℕ
reopened held [] = 0
reopened true (opened hostname port ∷ calls) = suc (reopened true calls)
reopened false (opened hostname port ∷ calls) = reopened true calls
reopened held (closed ∷ calls) = reopened false calls

abbrev holds : Bool → ℕ
holds true = 1
holds false = 0

module _ (connects : String → ℤ → Bool) where
  run_lost :
      (calls : List ClientCall) (held : Bool) (lost : ℕ)
      → (destroy (
          run connects calls
            (record { has_handler = held; allocated = lost + holds held }))).allocated
        ≡ lost + reopened held calls
  unfolding run open_handler close destroy
  run_lost [] true lost = omega arith
  run_lost [] false lost = omega arith
  run_lost (opened hostname port ∷ calls) true lost = grind (arith, run_lost calls true (suc lost))
  run_lost (opened hostname port ∷ calls) false lost = grind (arith, run_lost calls true lost)
  run_lost (closed ∷ calls) true lost = grind (arith, run_lost calls false lost)
  run_lost (closed ∷ calls) false lost = run_lost calls false lost

  -- After any series of calls of open and close on a new Rpc_Client and its destructor, the client
  -- objects that are still allocated are as many as the calls of open that followed another open
  -- without a close in between.
  pub run_leaks :
      (calls : List ClientCall)
      → (destroy (run connects calls new_rpc_client)).allocated ≡ reopened false calls
  run_leaks calls = let h = simp unary_clauses at (run_lost calls false 0) in omega (arith, h)
