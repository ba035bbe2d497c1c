-- ===== src/Tests/Startup.antt =====
-- The theorems on the start of the client and of the master, run on a small network.
use open_workload_scheduler.Startup.Construction.{master_body-IsPlanned}
use open_workload_scheduler.Convertions.{build_job_state_from_string}
use open_workload_scheduler.JobRun.{new_job_object}
use open_workload_scheduler.Domain.Ready.{get_ready_jobs, push_ready, ready_job_of}
use open_workload_scheduler.Startup.LastMinute.{tick_switch_starts_nothing}
use open_workload_scheduler.Master.{tick, fetch, switch_if_near, start_jobs, local_waiting}
use open_workload_scheduler.Startup.Rounds.{IsPlanned, in_seconds}
use open_workload_scheduler.Domain.Switching.{switch_planning_lem}
use open_workload_scheduler.Domain.Frame.{plan}
use open_workload_scheduler.Domain.State.{get_next_planning_start_time, get_current_planning_name}
use open_workload_scheduler.Database.{
  prepare, init_domain_structure, query_one_row, init, mysql_query, one_row_of, fetch_one_row,
  present_fields, end, query_full_result, full_result_of, fetch_full_result, full_row,
}
use open_workload_scheduler.Domain.Planning.{
  construct, read_duration, part_of_duration, times, read_start_time, first_planning,
  set_next_planning, prepare_schema, create_schema, fill_planning, planning_name, switch_planning,
  plus,
}
use open_workload_scheduler.StringMap.{in_key_order}
use open_workload_scheduler.Router.Index.{Insert}
use open_workload_scheduler.Base.{
  ◌⊎◌, ◌<◌, ◌≤◌, ◌≢◌, ℕ, String, true, false, Option, none, some, List, [], ◌∷◌, inr, ◌≡◌, refl,
  arith, ◌==◌, ◌&&◌, if◌then◌else◌,
}
use open_workload_scheduler.Base.Int.{pos, negsuc, rem, to_int16, ◌+ℤ◌, ◌-ℤ◌}
use open_workload_scheduler.Effect.{returned, thrown, std_exception, Exception}
use open_workload_scheduler.Platform.{Platform, result_set}
use open_workload_scheduler.Model.{Job}
use open_workload_scheduler.Config.{
  Config, new_config, passive, get_param, parse_file, parse_lines, read_line, split_at, read_entry,
  check_syntax, set_private_attributes, set_running_mode,
}
use open_workload_scheduler.Router.Table.{
  Router, new_router, set_master_node, insert_route, get_reachable_peers_number,
}
use open_workload_scheduler.Router.Peers.{
  Neighbours, update_peers_list, update_from_file, update_from_lines, add_peer, greet, read_port,
  reach_master, reach_through_any, reach_master_through,
}
use open_workload_scheduler.Startup.{
  World, Process, find_peers, wait_for_master, client_start, join_network, discover, wait_for_peers,
  create_domain, load_planning, master_body,
}
use open_workload_scheduler.Startup.Peers.{find_peers-ends, has_peer, HelloEnds}
use open_workload_scheduler.Startup.Master.{
  wait_for_master-ends, wait_for_master-throws, any_round, any_route,
}
use open_workload_scheduler.Startup.Options.{
  Options, with_options, client_main, client_main-IsJoined,
}
use open_workload_scheduler.Startup.Client.{IsJoined}
use open_workload_scheduler.Tests.Data.{platform, config_of, neighbours, router, domain, gathering}

-- In front of the others.
unfoldable in_front : Insert
in_front e l = e ∷ l

-- Nobody answers.
abbrev down : Neighbours
down = record {
  hello = λ host port n. thrown std_exception;
  reach_master = λ host port. thrown std_exception;
}

down-HelloEnds : HelloEnds down
down-HelloEnds host port n = inr (std_exception, refl)

abbrev config : Config
config = config_of (some passive)

find_peers-ends_example :
    (find_peers platform in_front config down (down ∷ []) new_router).0 ≡ returned true
unfolding get_param has_peer split_at
find_peers-ends_example =
    find_peers-ends platform in_front config down (down ∷ []) "8080" down-HelloEnds
      (down-HelloEnds, tt) refl

-- A route to the master.
abbrev away : Neighbours
away = record down {
  reach_master = λ host port. returned (record { destination_name = ""; hops = negsuc 0 });
}

abbrev near : Neighbours
near = record down {
  reach_master = λ host port. returned (record { destination_name = "n9"; hops = pos 2 });
}

abbrev stranger : Router
stranger = record router { master_node = "" }

wait_for_master-ends_example :
    (wait_for_master platform in_front config (away ∷ near ∷ []) stranger).0 ≡ returned true
unfolding any_round any_route in_key_order get_param
wait_for_master-ends_example =
    wait_for_master-ends platform in_front config (pos 8080) (away ∷ near ∷ []) stranger
      ("8080", refl, refl) refl
      (
        (λ host. (record { destination_name = ""; hops = negsuc 0 }, refl)),
        ((λ host. (record { destination_name = "n9"; hops = pos 2 }, refl)), tt),
      )

wait_for_master-throws_example :
    wait_for_master platform in_front config (away ∷ down ∷ near ∷ []) stranger
    ≡ (thrown std_exception, stranger)
unfolding any_round any_route in_key_order get_param
wait_for_master-throws_example =
    wait_for_master-throws platform in_front config (pos 8080) (away ∷ []) (near ∷ []) down stranger
      "n3" "k3" [] std_exception ("8080", refl, refl) refl
      ((λ host. (record { destination_name = ""; hops = negsuc 0 }, refl)), tt) refl refl refl

abbrev file_of : String → Option (List String)
file_of name =
    if name == "peers"
    then some ("n3\tk3" ∷ [])
    else if name == "ows.conf"
    then some (
        "running_mode=passive" ∷ "node_name=n1" ∷ "domain_name=prod" ∷ "port=8080"
        ∷ "peers_keys=peers" ∷ "log4cpp_properties=log" ∷ "day_duration=1h" ∷ "day_start_time=0"
        ∷ "db_skeleton=skeleton.sql" ∷ [])
    else none

-- A server that has the plannings already and one ready job, and a day of one hour.
abbrev ready_platform : Platform
ready_platform = record platform {
  read_lines = file_of;
  regex_search = λ pattern text.
      if pattern == "^([[:digit:]]+)h" && (text == "1h") then some ("1" ∷ []) else none;
  answers = λ calls text.
      result_set
        ((some "1" ∷ some "cp" ∷ some "n1" ∷ some "1" ∷ some "waiting" ∷ some "1" ∷ []) ∷ []);
}

abbrev world : World
world = record {
  first = neighbours;
  peer_rounds = [];
  master_rounds = near ∷ [];
  node_rounds = [];
  get_node = λ domain_name node gateway. returned (false, node);
  now = pos 7300;
}

abbrev process : Process
process = record { config = new_config; router = new_router; domain = domain }

-- `-f ows.conf -v`
abbrev options : Options
options = record {
  check = false;
  config = some "ows.conf";
  daemon = false;
  help = false;
  verbose = true;
}

client_main-IsJoined_example :
    (options.help ≡ false)
    × ((file : String) × (options.config ≡ some file))
    × IsJoined (client_main ready_platform in_front world options process).1
unfolding client_main with_options client_start parse_file parse_lines read_line split_at read_entry
    check_syntax set_private_attributes set_running_mode join_network find_peers discover
    update_peers_list update_from_file update_from_lines add_peer greet read_port set_master_node
    insert_route wait_for_peers get_reachable_peers_number wait_for_master reach_master
    create_domain construct read_duration part_of_duration times plus read_start_time prepare
    init_domain_structure query_one_row first_planning set_next_planning prepare_schema
    create_schema fill_planning planning_name get_next_planning_start_time load_planning get_param
    in_front init mysql_query one_row_of fetch_one_row present_fields end in_key_order
    reach_through_any reach_master_through rem ◌+ℤ◌ ◌-ℤ◌
client_main-IsJoined_example =
    client_main-IsJoined ready_platform in_front world options process refl

-- A domain whose planning of 100 seconds ends in 20.
abbrev config' : Config
config' = config_of (some passive)

switch_planning_lem_example :
    plan (switch_planning ready_platform config' (pos 90) domain).1
    ≡ record (plan domain) { planning_start_time = pos 110 }
unfolding switch_planning set_next_planning prepare_schema create_schema fill_planning planning_name
    query_one_row init mysql_query one_row_of fetch_one_row present_fields end
    get_next_planning_start_time rem to_int16 ◌+ℤ◌ ◌-ℤ◌
switch_planning_lem_example = switch_planning_lem ready_platform config' (pos 90) domain

domain-IsPlanned : IsPlanned 10 100 80 10 domain
domain-IsPlanned = record {
  positive = omega arith;
  length = refl;
  first = refl;
  starts = refl;
  whole = refl;
  begun = omega arith;
  soon = omega arith;
}

abbrev no_jobs : List Job
no_jobs = []

tick_switch_starts_nothing_example :
    let d' = (tick ready_platform config' (pos 90) (pos 90) (pos 91) gathering).1.domain in
    (d'.planning_start_time ≡ pos 10)
    ⊎ ((next : ℕ) × (d'.planning_start_time ≡ pos next) × (91 < next) × (no_jobs ≡ []))
unfolding get_param tick fetch get_ready_jobs query_full_result full_result_of fetch_full_result
    full_row push_ready ready_job_of new_job_object build_job_state_from_string
    get_current_planning_name switch_if_near start_jobs local_waiting switch_planning
    set_next_planning prepare_schema create_schema fill_planning planning_name query_one_row init
    mysql_query one_row_of fetch_one_row present_fields end get_next_planning_start_time rem
    to_int16 ◌+ℤ◌ ◌-ℤ◌
tick_switch_starts_nothing_example =
    tick_switch_starts_nothing ready_platform config' 10 100 80 90 90 91 10 gathering "n1" no_jobs
      refl (omega arith) (omega arith) (omega arith) (omega arith) domain-IsPlanned refl

abbrev master_config : Config
master_config = record new_config {
  config_options =
      ("day_duration", "1h")
      ∷ ("day_start_time", "0")
      ∷ ("domain_name", "prod")
      ∷ ("db_skeleton", "skeleton.sql")
      ∷ ("node_name", "n1")
      ∷ [];
  running_mode = some passive;
}

abbrev round_times : List (ℕ × (ℕ × ℕ))
round_times = (7310, (7310, 7311)) ∷ (10750, (10750, 10801)) ∷ []

master_body-IsPlanned_example :
    let d = (construct ready_platform master_config (pos 7300) gathering.domain).1 in
    let (r, g) =
      master_body ready_platform master_config (pos 7300) (in_seconds round_times) gathering in
    (start : ℕ) × (start' : ℕ) × (start ≤ start')
    × IsPlanned 0 3600 7300 start d
    × IsPlanned 0 3600 10801 start' g.domain
    × ((e : Exception) → r ≢ thrown e)
unfolding construct get_param read_duration part_of_duration times plus read_start_time prepare
    init_domain_structure query_one_row first_planning set_next_planning prepare_schema
    create_schema fill_planning planning_name get_next_planning_start_time init mysql_query
    one_row_of fetch_one_row present_fields end rem to_int16 ◌+ℤ◌ ◌-ℤ◌
master_body-IsPlanned_example =
    master_body-IsPlanned ready_platform master_config 7300 0 3600 round_times gathering refl refl
      refl (omega arith) (omega arith)
      (omega arith, omega arith, omega arith, (omega arith, omega arith, omega arith, tt))
