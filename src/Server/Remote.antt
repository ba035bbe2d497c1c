-- ===== src/Server/Remote.antt =====
-- The service `ows_rpc` of src/model.thrift as the other nodes offer it: each call takes the host and
-- the port to which the client connects, and the arguments of the call.
use open_workload_scheduler.Base.{String, Bool, List}
use open_workload_scheduler.Base.Int.{ℤ}
use open_workload_scheduler.Effect.{Outcome}
use open_workload_scheduler.Model.{Job, Node, Planning, Hello, RoutingData}

pub record Remote : Type 0 where
  pub hello : String → ℤ → Node → Outcome Hello
  pub get_current_planning_name : String → ℤ → RoutingData → Outcome String
  pub get_available_planning_names : String → ℤ → RoutingData → Outcome (List String)
  pub get_planning : String → ℤ → RoutingData → Node → Outcome Planning
  pub add_node : String → ℤ → RoutingData → Node → Outcome Bool
  pub remove_node : String → ℤ → RoutingData → Node → Outcome Bool
  pub get_node : String → ℤ → RoutingData → Node → Outcome Node
  pub get_nodes : String → ℤ → RoutingData → Outcome (List Node)
  pub get_jobs : String → ℤ → RoutingData → Outcome (List Job)
  pub get_ready_jobs : String → ℤ → RoutingData → Outcome (List Job)
  pub get_job : String → ℤ → RoutingData → Job → Outcome Job
  pub add_job : String → ℤ → RoutingData → Job → Outcome Bool
  pub update_job : String → ℤ → RoutingData → Job → Outcome Bool
  pub remove_job : String → ℤ → RoutingData → Job → Outcome Bool
  pub update_job_state : String → ℤ → RoutingData → Job → Outcome Bool
  pub monitor_failed_jobs : String → ℤ → RoutingData → Outcome ℤ
  pub monitor_waiting_jobs : String → ℤ → RoutingData → Outcome ℤ
