-- ===== src/Tests/Nodes.antt =====
-- The theorems on several nodes, run on three.
use open_workload_scheduler.Base.{
  String, Bool, true, false, none, some, List, [], ◌∷◌, ◌≡◌, refl, ap, arith, ◌==◌, if◌then◌else◌,
}
use open_workload_scheduler.Base.Int.{pos}
use open_workload_scheduler.Effect.{returned, blocked}
use open_workload_scheduler.Model.{RoutingData, new_node}
use open_workload_scheduler.StringMap.{StringMap}
use open_workload_scheduler.Config.{Config, active, new_config, get_param, split_at}
use open_workload_scheduler.Domain.Insertions
use open_workload_scheduler.Domain.Updates
use open_workload_scheduler.Router.Index.{WeightedGateway}
use open_workload_scheduler.Router.Table.{
  new_router, get_route, get_gateway, insert_route, set_master_node,
}
use open_workload_scheduler.Router.Peers.{
  update_peers_list, update_from_file, update_from_lines, add_peer, greet, new_hello,
  reach_master_through, read_port,
}
use open_workload_scheduler.Network.{Member, Network, listens, one_hop, within, neighbours}
use open_workload_scheduler.Network.Relay.{IsValid, IsRelay}
use open_workload_scheduler.Network.Delivery.{Leads, arrives, passes, delivers, circles_never_end}
use open_workload_scheduler.Network.Questions.{
  IsRouted, told, told_through, told_by, questions_answered,
}
use open_workload_scheduler.Network.Discovery.{
  here, next, joins, greets, put, with_router, discovery_weighs_nothing, gateway_becomes_master,
}
use open_workload_scheduler.Tests.Data.{platform, server, stray_job, routing}
use open_workload_scheduler.Tests.Network.{sorted, sorted-IsInsertion}

abbrev node_config : String → String → Config
node_config name is_master = record new_config {
  config_options =
      ("node_name", name)
      ∷ ("port", "8080")
      ∷ ("bind_port", "8080")
      ∷ ("is_master", is_master)
      ∷ [];
  running_mode = some active;
}

-- A route of the weight 0.
abbrev through : String → List WeightedGateway
through gateway = record { weight = 0; gateway = gateway } ∷ []

-- A node that takes "n9" for the master and has those routes.
abbrev node : String → String → StringMap (List WeightedGateway) → Member
node name is_master table = record {
  platform = platform;
  config = node_config name is_master;
  server = record server {
    router = record { hosts_keys = []; routing_table = table; master_node = "n9" };
  };
  now = pos 0;
}

-- "n1" reaches "n2" through "n3".
abbrev n1 : Member
n1 = node "n1" "no" (("n2", through "n3") ∷ ("n9", through "n3") ∷ [])

abbrev n3 : Member
n3 = node "n3" "no" (("n2", through "n2") ∷ ("n9", through "n9") ∷ [])

abbrev n2 : Member
n2 = node "n2" "no" []

abbrev line : Network
line host =
    if host == "n1"
    then some n1
    else if host == "n3"
    then some n3
    else if host == "n2"
    then some n2
    else none

stray-IsValid : IsValid routing stray_job
stray-IsValid = record {
  domain_given = refl;
  caller_given = refl;
  caller_domain_given = refl;
  name_given = refl;
  job_domain_given = refl;
  cmd_line_given = refl;
  node_name_given = refl;
  weighs = omega arith;
}

relays :
    (name g : String) (table : StringMap (List WeightedGateway))
    → (name == "n2") ≡ false
    → (name == "") ≡ false
    → get_gateway "n2" (node name "no" table).server.router ≡ returned (some g)
    → IsRelay platform (node_config name "no") "n2" g (pos 8080) (node name "no" table).server
unfolding get_param
relays name g table other no_master leads = record {
  name = name;
  port_text = "8080";
  is_active = refl;
  is_named = refl;
  is_other = other;
  is_no_master = no_master;
  has_gateway = leads;
  has_port = refl;
  reads_port = refl;
}

line-Leads : Leads line "n2" (pos 8080) "n1" 2 n2
unfolding listens get_param get_gateway
line-Leads = passes "n1" "n3" n1 n2 1 refl refl (relays "n1" "n3" _ refl refl refl) (
    passes "n3" "n2" n3 n2 0 refl refl (relays "n3" "n2" _ refl refl refl)
      (arrives "n2" n2 refl refl refl refl))

delivers_example :
    let net = within line 3 in
    let d = n2.server.domain in
    (net.add_job "n1" (pos 8080) routing stray_job
      ≡ (Insertions.add_job platform "prod" stray_job d).0)
    × (net.update_job "n1" (pos 8080) routing stray_job
        ≡ (Updates.update_job platform stray_job d).0)
    × (net.remove_job "n1" (pos 8080) routing stray_job
        ≡ (Updates.remove_job platform stray_job d).0)
    × (net.update_job_state "n1" (pos 8080) routing stray_job
        ≡ (Updates.update_state_of platform "prod" stray_job d).0)
delivers_example = delivers line (pos 8080) stray-IsValid "n1" 2 3 n2 line-Leads (omega arith)

-- A call for "n2" that asks for the node "backup".
abbrev to_n2 : RoutingData
to_n2 = record routing { target_node = record new_node { name = "n2"; domain_name = "prod" } }

to_n2-IsRouted : IsRouted to_n2
to_n2-IsRouted = record {
  domain_given = refl;
  target_given = refl;
  caller_given = refl;
  caller_domain_given = refl;
}

questions_answered_example :
    told (within line 3) "n1" (pos 8080) to_n2 (record new_node { name = "backup" })
    ≡ told_through (told_by n2 to_n2 (record new_node { name = "backup" }))
questions_answered_example =
    questions_answered line (pos 8080) to_n2-IsRouted (record new_node { name = "backup" }) "n1" 2 3
      n2 line-Leads (omega arith)

-- "n1" and "n3" are the gateways of one another.
abbrev m1 : Member
m1 = node "n1" "no" (("n2", through "n3") ∷ [])

abbrev m3 : Member
m3 = node "n3" "no" (("n2", through "n1") ∷ [])

abbrev pair : Network
pair host = if host == "n1" then some m1 else if host == "n3" then some m3 else none

abbrev InPair : String → Type 0
InPair host = (b : Bool) × (host ≡ (if b then "n1" else "n3"))

pair_turns :
    (host : String)
    → InPair host
    → (g : String) × (m : Member) × (pair host ≡ some m)
      × (listens m (pos 8080) ≡ true)
      × IsRelay m.platform m.config "n2" g (pos 8080) m.server
      × InPair g
unfolding listens get_param get_gateway
pair_turns host (true, e) =
    ("n3", m1, ap pair e, refl, relays "n1" "n3" _ refl refl refl, (false, refl))
pair_turns host (false, e) =
    ("n1", m3, ap pair e, refl, relays "n3" "n1" _ refl refl refl, (true, refl))

circles_never_end_example :
    let net = within pair 100 in
    (net.add_job "n1" (pos 8080) routing stray_job ≡ blocked)
    × (net.update_job "n1" (pos 8080) routing stray_job ≡ blocked)
    × (net.remove_job "n1" (pos 8080) routing stray_job ≡ blocked)
    × (net.update_job_state "n1" (pos 8080) routing stray_job ≡ blocked)
circles_never_end_example =
    circles_never_end pair (pos 8080) stray-IsValid InPair pair_turns "n1" 100 (true, refl)

-- A node with the key file "peers" joins, and reads it.
abbrev joined : Member
joined = record n1 {
  config = record new_config { config_options = ("port", "8080") ∷ ("peers_keys", "peers") ∷ [] };
  server = record server { router = new_router };
}

abbrev nobody : Network
nobody host = none

abbrev alone : Network
alone = put "n1" (some joined) nobody

abbrev informed : Member
informed =
    with_router joined
      (update_peers_list platform sorted (neighbours alone 1) joined.config
        (record { router = new_router; hello_result = new_hello })).1.router

abbrev entry : WeightedGateway
entry = record { weight = 0; gateway = "n3" }

discovery_weighs_nothing_example : entry.weight ≡ 0
unfolding get_route update_peers_list update_from_file update_from_lines add_peer greet read_port
    get_param split_at set_master_node insert_route sorted neighbours within one_hop
discovery_weighs_nothing_example =
    discovery_weighs_nothing sorted sorted-IsInsertion (put "n1" (some informed) alone)
      (next (next (here nobody) (joins "n1" joined nobody refl)) (greets "n1" joined 1 alone refl))
      "n1" "n3" informed entry refl refl

gateway_becomes_master_example :
    let (reached, r) =
      reach_master_through platform sorted
        (neighbours line 1)
        (node_config "n4" "no")
        "n1"
        new_router in
    (reached ≡ returned true) × (r.master_node ≡ "n3")
unfolding listens get_param get_route read_port
gateway_becomes_master_example =
    gateway_becomes_master line 1 "n1" "no" n1 entry platform sorted (node_config "n4" "no")
      (pos 8080) new_router refl refl refl refl refl refl refl refl refl
