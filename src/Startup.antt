-- ===== src/Startup.antt =====
-- src/client.cpp and src/master.cpp, `main`: what happens from the configuration file to the first
-- round of the loop. `sleep` takes no part, and the thread that answers the calls is not modelled. Every
-- waiting loop runs over the list of its rounds, each with what the network answers at that time.
pub mod Peers
pub mod Master
pub mod Client
pub mod Rounds
pub mod Construction
pub mod LastMinute
pub mod Options
pub mod Daemon
use open_workload_scheduler.Base.{
  String, Bool, true, false, Option, none, some, List, [], ◌∷◌, not, ltb, if◌then◌else◌,
}
use open_workload_scheduler.Base.Int.{ℤ}
use open_workload_scheduler.Effect.{M, Outcome, ◌>>=◌, ◌>>◌, pure, lift, gets, deref, try_catch}
use open_workload_scheduler.Platform.{Platform}
use open_workload_scheduler.Model.{Job, Node, new_node}
use open_workload_scheduler.StringMap.{StringMap, in_key_order}
use open_workload_scheduler.Config.{
  Config, RunningMode, p2p, active, passive, get_param, parse_file,
}
use open_workload_scheduler.Router.Index.{Insert}
use open_workload_scheduler.Router.Table.{Router, get_reachable_peers_number}
use open_workload_scheduler.Router.Peers.{Neighbours, new_hello, update_peers_list, reach_master}
use open_workload_scheduler.Domain.State.{Domain}
use open_workload_scheduler.Domain.Insertions.{add_node}
use open_workload_scheduler.Domain.Reads.{contains_data}
use open_workload_scheduler.Domain.Planning.{construct}
use open_workload_scheduler.Domain.Ready.{Gathering}
use open_workload_scheduler.Master.{tick}

-- `Router::get_node` with the domain's name, the node that it fills and the gateway: router.cpp has it
-- in a comment only, so that what it answers is a parameter.
abbrev pub GetNode : Type 0
GetNode = String → Node → String → Outcome (Bool × Node)

-- The objects of `main`. The domain's attributes are arbitrary before its constructor.
pub record Process : Type 0 where
  pub config : Config
  pub router : Router
  pub domain : Domain

abbrev pub on_config : {A : Type 0} → M Config A → M Process A
on_config m s = let (r, c) = m s.config in (r, record s { config = c })

abbrev pub on_router : {A : Type 0} → M Router A → M Process A
on_router m s = let (r, t) = m s.router in (r, record s { router = t })

abbrev pub on_domain : {A : Type 0} → M Domain A → M Process A
on_domain m s = let (r, d) = m s.domain in (r, record s { domain = d })

-- How far the start of the client comes: it ends with `EXIT_SUCCESS` or `EXIT_FAILURE`, one of its
-- loops still waits after the given rounds, or it listens.
pub data Start : Type 0 where
  exit_success exit_failure waiting listening : Start

-- What the network answers while the client starts, and the time.
pub record World : Type 0 where
  pub first : Neighbours
  pub peer_rounds : List Neighbours
  pub master_rounds : List Neighbours
  pub node_rounds : List GetNode
  pub get_node : GetNode
  pub now : ℤ

module _ (p : Platform) (place : Insert) (c : Config) where
  -- A call of `update_peers_list`: its `hello_result` is new each time.
  unfoldable pub discover : Neighbours → M Router Bool
  unfolding update_peers_list
  discover net r =
      let (found, s) =
        update_peers_list p place net c (record { router = r; hello_result = new_hello }) in
      (found, s.router)

  -- The loop on `get_reachable_peers_number`: `false` if it still waits after the rounds.
  unfoldable pub wait_for_peers : List Neighbours → M Router Bool
  unfolding discover get_reachable_peers_number
  wait_for_peers [] = gets (λ r. not (ltb (get_reachable_peers_number r) 1))
  wait_for_peers (net ∷ nets) = do
    unreached ← gets (λ r. ltb (get_reachable_peers_number r) 1)
    if unreached then discover net >> wait_for_peers nets else pure true

  -- The peers' discovery: one call, then the loop.
  unfoldable pub find_peers : Neighbours → List Neighbours → M Router Bool
  unfolding wait_for_peers
  find_peers net nets = discover net >> wait_for_peers nets

  -- The loop on `reach_master`: `false` if it still waits after the rounds.
  unfoldable pub wait_for_master : List Neighbours → M Router Bool
  unfolding reach_master
  wait_for_master [] = pure false
  wait_for_master (net ∷ nets) = do
    reached ← reach_master p place net c
    if reached then pure true else wait_for_master nets

module _ (c : Config) where
  -- The loop of `P2P` over the direct peers, which passes the second part of each pair, the key. The
  -- node that the calls fill goes from one to the next.
  unfoldable pub ask_peers : GetNode → Node → StringMap String → M Process Node
  unfolding get_param
  ask_peers get_node node [] = pure node
  ask_peers get_node node ((host, key) ∷ hosts) = do
    domain_name ← deref (get_param "domain_name" c)
    answer ← lift (get_node domain_name node key)
    if answer.0 then pure answer.1 else ask_peers get_node answer.1 hosts

  -- The loop of `ACTIVE`: `none` if it still waits after the rounds.
  unfoldable pub wait_for_node : List GetNode → Node → M Process (Option Node)
  unfolding get_param
  wait_for_node [] node = pure none
  wait_for_node (get_node ∷ rounds) node = do
    domain_name ← deref (get_param "domain_name" c)
    master ← gets (λ s. s.router.master_node)
    answer ← lift (get_node domain_name node master)
    if answer.0 then pure (some answer.1) else wait_for_node rounds answer.1

module _ (p : Platform) where
  -- The node is added to the domain's template; else `EXIT_FAILURE`.
  unfoldable pub load_node : Config → Option Node → M Process Start
  unfolding add_node get_param
  load_node c none = pure waiting
  load_node c (some node) = do
    domain_name ← deref (get_param "domain_name" c)
    done ← on_domain (add_node p domain_name node)
    pure (if done then listening else exit_failure)

  -- The `switch` on the running mode.
  unfoldable pub load_planning : Config → World → RunningMode → M Process Start
  unfolding load_node ask_peers wait_for_node contains_data get_param
  load_planning c world p2p = do
    node_name ← deref (get_param "node_name" c)
    has_data ← on_domain (contains_data p (some node_name))
    peers ← gets (λ s. in_key_order s.router.hosts_keys)
    if has_data
        then pure listening
        else ask_peers c world.get_node (record new_node { name = node_name }) peers >>= λ node.
            load_node c (some node)
  load_planning c world active = wait_for_node c world.node_rounds new_node >>= load_node c
  load_planning c world passive = pure listening

  module _ (place : Insert) where
    -- The start of the client, behind its two loops.
    unfoldable pub create_domain : Config → World → M Process Start
    unfolding construct load_planning
    create_domain c world = do
      on_domain (construct p c world.now)
      mode ← deref c.running_mode
      load_planning c world mode

    -- The start of the client, with a configuration that could be read.
    unfoldable pub join_network : Config → World → M Process Start
    unfolding find_peers wait_for_master create_domain get_param
    join_network c world = do
      log ← deref (get_param "log4cpp_properties" c)
      found ← on_router (find_peers p place c world.first world.peer_rounds)
      reached ←
          if found then on_router (wait_for_master p place c world.master_rounds) else pure false
      if reached then create_domain c world else pure waiting

    -- `main` of the client up to its server's thread, with the configuration file of that name.
    unfoldable pub client_start : World → String → M Process Start
    unfolding parse_file join_network
    client_start world file = do
      parsed ← on_config (parse_file p (p.read_lines file))
      c ← gets (λ s. s.config)
      if parsed then join_network c world else pure exit_failure

-- One round's three times.
abbrev pub Times : Type 0
Times = ℤ × (ℤ × ℤ)

module _ (p : Platform) where
  -- The rounds of the master: the jobs that each starts.
  unfoldable pub master_rounds : Config → List Times → M Gathering (List (List Job))
  unfolding tick
  master_rounds c [] = pure []
  master_rounds c ((now, (time, time')) ∷ rounds) = do
    started ← tick p c now time time'
    later ← master_rounds c rounds
    pure (started ∷ later)

  -- The `try` of the master: `EXIT_FAILURE` on every exception, and after the rounds it still runs.
  unfoldable pub master_body : Config → ℤ → List Times → M Gathering Start
  unfolding master_rounds construct
  master_body c now rounds =
      try_catch
        ((λ g. let (r, d) = construct p c now g.domain in (r, record g { domain = d }))
          >> master_rounds c rounds
          >> pure listening)
        (λ e. pure exit_failure)

  -- The master with a configuration that could be read.
  unfoldable pub run_master : Config → ℤ → List Times → M Process Start
  unfolding master_body get_param
  run_master c now rounds = do
    log ← deref (get_param "log4cpp_properties" c)
    λ s.
        let (r, g) = master_body c now rounds (record { domain = s.domain; jobs = [] }) in
        (r, record s { domain = g.domain })

  -- `main` of the master, with the configuration file of that name.
  unfoldable pub master_start : ℤ → List Times → String → M Process Start
  unfolding parse_file run_master
  master_start now rounds file = do
    parsed ← on_config (parse_file p (p.read_lines file))
    c ← gets (λ s. s.config)
    if parsed then run_master c now rounds else pure exit_failure
