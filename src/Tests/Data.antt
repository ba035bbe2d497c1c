-- ===== src/Tests/Data.antt =====
-- A small server, a configuration, a domain and a job, on which the theorems are run.
use open_workload_scheduler.Base.{
  String, true, false, Option, none, some, List, [], ◌∷◌, ◌==◌, if◌then◌else◌,
}
use open_workload_scheduler.Base.Int.{ℤ, pos}
use open_workload_scheduler.Effect.{returned, thrown, std_exception}
use open_workload_scheduler.Platform.{Platform, Answer, failure, result_set, no_result}
use open_workload_scheduler.Model.{waiting, before, Job, RoutingData, new_job, new_node}
use open_workload_scheduler.Config.{Config, RunningMode, new_config}
use open_workload_scheduler.Domain.State.{Domain}
use open_workload_scheduler.Domain.Ready.{Gathering}
use open_workload_scheduler.Router.Table.{Router}
use open_workload_scheduler.Router.Peers.{Neighbours}
use open_workload_scheduler.Server.State.{Server}

-- A server that knows the node "n1" but not "n2", has one ready job, and refuses "BAD;".
abbrev answer_of : String → Answer
answer_of text =
    if text == "SELECT COUNT(*) FROM node WHERE node_name = 'n1';"
    then result_set ((some "1" ∷ []) ∷ [])
    else if text == "SELECT COUNT(*) FROM node WHERE node_name = 'n2';"
    then result_set ((some "0" ∷ []) ∷ [])
    else if text
        == "SELECT job_name,job_cmd_line,job_node_name,job_weight,job_state,job_rectype_id FROM get_ready_job WHERE job_node_name = 'n1';"
    then result_set
        ((some "backup" ∷ some "cp" ∷ some "n1" ∷ some "1" ∷ some "waiting" ∷ some "1" ∷ []) ∷ [])
    else if text == "BAD;"
    then failure "syntax error"
    else no_result

abbrev number_of : String → Option ℤ
number_of text =
    if text == "1"
    then some (pos 1)
    else if text == "0"
    then some (pos 0)
    else if text == "8080"
    then some (pos 8080)
    else none

abbrev lines_of : String → Option (List String)
lines_of name = if name == "peers" then some ("#name\tkey" ∷ "n3\tk3" ∷ "n4\tk4" ∷ []) else none

abbrev pub platform : Platform
platform = record {
  thread_safe = true;
  debug_build = false;
  connects = λ calls name. true;
  answers = λ calls text. answer_of text;
  insert_id = λ calls. 0;
  regex_match = λ pattern text. false;
  regex_search = λ pattern text. none;
  regex_replace = λ pattern text by. text;
  cast = λ type text. number_of text;
  to_string = λ number. "0";
  of_char = λ number. "c";
  read_lines = lines_of;
}

-- The configuration of the node "n1".
abbrev pub config_of : Option RunningMode → Config
config_of mode = record new_config {
  config_options =
      ("node_name", "n1")
      ∷ ("port", "8080")
      ∷ ("peers_keys", "peers")
      ∷ ("db_skeleton", "skeleton.sql")
      ∷ [];
  running_mode = mode;
}

-- A planning of 100 seconds, the first one at 10.
abbrev pub domain : Domain
domain = record {
  name = "prod";
  planning_start_time = pos 10;
  initial_planning_start_time = pos 10;
  planning_duration = pos 100;
  is_locked = false;
  calls = [];
}

abbrev pub job : Job
job = record new_job {
  state = waiting;
  name = "backup";
  node_name = "n1";
  domain = "prod";
  cmd_line = "cp";
  weight = pos 1;
  prv = "first" ∷ [];
  nxt = "second" ∷ "third" ∷ [];
  time_constraints = record { job_name = "backup"; kind = before; value = pos 90 } ∷ [];
}

-- A job of the node that the server does not know.
abbrev pub stray_job : Job
stray_job = record job { node_name = "n2" }

abbrev pub gathering : Gathering
gathering = record { domain = domain; jobs = job ∷ [] }

abbrev pub router : Router
router = record {
  hosts_keys = ("n3", "k3") ∷ [];
  routing_table = ("n5", record { weight = 2; gateway = "n3" } ∷ []) ∷ [];
  master_node = "n9";
}

-- "n3" answers, and is the master; no other node does.
abbrev pub neighbours : Neighbours
neighbours = record {
  hello = λ host port n.
      if host == "n3"
      then returned (record { domain = "prod"; name = "n3"; is_master = true })
      else thrown std_exception;
  reach_master = λ host port.
      if host == "n3"
      then returned (record { destination_name = "n9"; hops = pos 1 })
      else thrown std_exception;
}

abbrev pub server : Server
server = record { domain = domain; router = router; is_open = false }

-- A call of the router's master "n9" for the node "n1".
abbrev pub routing : RoutingData
routing = record {
  calling_node = record new_node { name = "n9"; domain_name = "prod" };
  target_node = record new_node { name = "n1"; domain_name = "prod" };
  ttl = pos 1;
}
