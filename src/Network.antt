-- ===== src/Network.antt =====
-- src/rpc_server.cpp and src/router.cpp on several nodes: the handlers of each node answer the calls of
-- the others. A call travels through the nodes as they are when it is made.
pub mod Clauses
pub mod Throwing
pub mod Relay
pub mod Delivery
pub mod Questions
pub mod Discovery
use open_workload_scheduler.Base.{
  ℕ, zero, suc, String, Bool, true, false, Option, none, some, ◌≡◌, if◌then◌else◌,
}
use open_workload_scheduler.Base.Int.{ℤ, eqb_ℤ}
use open_workload_scheduler.Effect.{M, Exception, Outcome, thrown, blocked, std_exception}
use open_workload_scheduler.Platform.{Platform, u_int}
use open_workload_scheduler.Config.{Config, get_param}
use open_workload_scheduler.Network.Clauses.{
  sent_as, routing_clause, processing_clauses, node_clauses, job_clauses, job_and_node_clauses,
}
use open_workload_scheduler.Router.Peers.{Neighbours}
use open_workload_scheduler.Server.State.{Server}
use open_workload_scheduler.Server.Remote.{Remote}
use open_workload_scheduler.Server.Routing
use open_workload_scheduler.Server.Nodes
use open_workload_scheduler.Server.Jobs

-- A node with its surroundings, and the time at which it is asked.
pub record Member : Type 0 where
  pub platform : Platform
  pub config : Config
  pub server : Server
  pub now : ℤ

-- The node behind a host's name; no node runs on the other hosts.
abbrev pub Network : Type 0
Network = String → Option Member

abbrev same_port : Option ℤ → ℤ → Bool
same_port none port = false
same_port (some bound) port = eqb_ℤ bound port

abbrev bound_port : Member → Option String → Option ℤ
bound_port m none = none
bound_port m (some text) = m.platform.cast u_int text

-- `Rpc_Server::run`: the server of the node waits at its `bind_port`.
unfoldable pub listens : Member → ℤ → Bool
unfolding get_param
listens m port = same_port (bound_port m (get_param "bind_port" m.config)) port

-- The answer of a handler with these `throws` clauses, at the member's state.
abbrev pub asked :
    {A : Type 0} → (Exception → Bool) → Option Member → ℤ → (Member → M Server A) → Outcome A
asked declares none port handler = thrown std_exception
asked declares (some m) port handler =
    if listens m port then sent_as declares (handler m m.server).0 else thrown std_exception

module _ (network : Network) where
  -- One more node on the way of each call, the nodes behind it given.
  unfoldable pub one_hop : Remote → Remote
  one_hop net = record {
    hello = λ host port n.
        asked routing_clause (network host) port (λ m. Routing.hello m.platform m.config net n);
    get_current_planning_name = λ host port r.
        asked processing_clauses (network host) port
          (λ m. Routing.current_planning_name m.platform m.config net r);
    get_available_planning_names = λ host port r.
        asked processing_clauses (network host) port
          (λ m. Routing.available_planning_names m.platform m.config net r);
    get_planning = λ host port r n.
        asked processing_clauses (network host) port
          (λ m. Routing.planning m.platform m.config net r n);
    add_node = λ host port r n.
        asked node_clauses (network host) port (λ m. Nodes.add_node m.platform m.config net r n);
    remove_node = λ host port r n.
        asked node_clauses (network host) port (λ m. Nodes.remove_node m.platform m.config net r n);
    get_node = λ host port r n.
        asked node_clauses (network host) port (λ m. Nodes.get_node m.platform m.config net r n);
    get_nodes = λ host port r.
        asked node_clauses (network host) port (λ m. Nodes.get_nodes m.platform m.config net r);
    get_jobs = λ host port r.
        asked job_clauses (network host) port (λ m. Jobs.get_jobs m.platform m.config net r);
    get_ready_jobs = λ host port r.
        asked job_clauses (network host) port
          (λ m. Jobs.get_ready_jobs m.platform m.config net r m.now);
    get_job = λ host port r j.
        asked job_clauses (network host) port (λ m. Jobs.get_job m.platform m.config net r j);
    add_job = λ host port r j.
        asked job_and_node_clauses (network host) port
          (λ m. Jobs.add_job m.platform m.config net r j);
    update_job = λ host port r j.
        asked job_clauses (network host) port (λ m. Jobs.update_job m.platform m.config net r j);
    remove_job = λ host port r j.
        asked job_clauses (network host) port (λ m. Jobs.remove_job m.platform m.config net r j);
    update_job_state = λ host port r j.
        asked job_clauses (network host) port
          (λ m. Jobs.update_job_state m.platform m.config net r j);
    monitor_failed_jobs = λ host port r.
        asked processing_clauses (network host) port
          (λ m. Jobs.monitor_failed_jobs m.platform m.config net r);
    monitor_waiting_jobs = λ host port r.
        asked processing_clauses (network host) port
          (λ m. Jobs.monitor_waiting_jobs m.platform m.config net r);
  }

  -- The calls whose way crosses at most that many nodes: those that go further are without an answer.
  unfoldable pub within : ℕ → Remote
  within zero = record {
    hello = λ host port n. blocked;
    get_current_planning_name = λ host port r. blocked;
    get_available_planning_names = λ host port r. blocked;
    get_planning = λ host port r n. blocked;
    add_node = λ host port r n. blocked;
    remove_node = λ host port r n. blocked;
    get_node = λ host port r n. blocked;
    get_nodes = λ host port r. blocked;
    get_jobs = λ host port r. blocked;
    get_ready_jobs = λ host port r. blocked;
    get_job = λ host port r j. blocked;
    add_job = λ host port r j. blocked;
    update_job = λ host port r j. blocked;
    remove_job = λ host port r j. blocked;
    update_job_state = λ host port r j. blocked;
    monitor_failed_jobs = λ host port r. blocked;
    monitor_waiting_jobs = λ host port r. blocked;
  }
  within (suc nodes) = one_hop (within nodes)

  -- What a router hears from the other nodes.
  unfoldable pub neighbours : ℕ → Neighbours
  unfolding one_hop within
  neighbours nodes = record {
    hello = (within nodes).hello;
    reach_master = λ host port.
        asked routing_clause (network host) port
          (λ m. Routing.reach_master m.platform m.config (within nodes));
  }
