-- ===== src/Tests/Calls.antt =====
-- The theorems on src/rpc_server.cpp, src/cfg.cpp and src/convertions.cpp at concrete inputs.
use open_workload_scheduler.Base.{String, Bool, true, some, List, [], ◌∷◌, ◌≡◌, refl, arith, eq_iff}
use open_workload_scheduler.Base.Int.{pos}
use open_workload_scheduler.Effect.{Outcome, returned, thrown, undefined, ex_routing, std_exception}
use open_workload_scheduler.Config.{
  Config, active, passive, new_config, get_param, parse_file, parse_lines, read_line, read_entry,
  check_syntax, split_at, set_private_attributes, set_running_mode,
}
use open_workload_scheduler.Config.Parsing.{HasMode}
use open_workload_scheduler.Config.Entries.{IsRead, parse_file-IsRead}
use open_workload_scheduler.Domain.Insertions
use open_workload_scheduler.Domain.Updates
use open_workload_scheduler.Router.Table.{get_gateway}
use open_workload_scheduler.Server.State.{Server, on_domain, check_caller, check_job_arg}
use open_workload_scheduler.Server.Remote.{Remote}
use open_workload_scheduler.Server.Routing.{new_planning}
use open_workload_scheduler.Server.Jobs.{add_job, update_job, remove_job, update_job_state}
use open_workload_scheduler.Server.Forwarding.{passive_refuses, passive_performs, active_unknown}
use open_workload_scheduler.Tests.Data.{platform, config_of, job, stray_job, server, routing}

-- The other nodes answer every call.
abbrev net : Remote
net = record {
  hello = λ host port n. thrown std_exception;
  get_current_planning_name = λ host port r. returned "prod_10";
  get_available_planning_names = λ host port r. returned [];
  get_planning = λ host port r n. returned new_planning;
  add_node = λ host port r n. returned true;
  remove_node = λ host port r n. returned true;
  get_node = λ host port r n. returned n;
  get_nodes = λ host port r. returned [];
  get_jobs = λ host port r. returned [];
  get_ready_jobs = λ host port r. returned [];
  get_job = λ host port r j. returned j;
  add_job = λ host port r j. returned true;
  update_job = λ host port r j. returned true;
  remove_job = λ host port r j. returned true;
  update_job_state = λ host port r j. returned true;
  monitor_failed_jobs = λ host port r. returned (pos 0);
  monitor_waiting_jobs = λ host port r. returned (pos 0);
}

abbrev config : Config
config = config_of (some passive)

abbrev refused : Outcome Bool × Server
refused = (thrown (ex_routing "n9"), server)

passive_refuses_example :
    (add_job platform config net routing stray_job server ≡ refused)
    × (update_job platform config net routing stray_job server ≡ refused)
    × (remove_job platform config net routing stray_job server ≡ refused)
    × (update_job_state platform config net routing stray_job server ≡ refused)
unfolding get_param check_caller check_job_arg
passive_refuses_example =
    passive_refuses platform config net routing stray_job "n1" server refl refl refl refl
      (λ master same. ground (arith, eq_iff "n1" "n2"))

passive_performs_example :
    (add_job platform config net routing job server
      ≡ on_domain (Insertions.add_job platform "prod" job) server)
    × (update_job platform config net routing job server
        ≡ on_domain (Insertions.add_job platform "prod" job) server)
    × (remove_job platform config net routing job server
        ≡ on_domain (Updates.remove_job platform job) server)
    × (update_job_state platform config net routing job server
        ≡ on_domain (Updates.update_state_of platform "prod" job) server)
unfolding get_param check_caller check_job_arg
passive_performs_example =
    passive_performs platform config net routing job server refl refl refl refl refl

abbrev active_config : Config
active_config = config_of (some active)

abbrev unknown : Outcome Bool × Server
unknown = (thrown (ex_routing "The node is not in the routing table"), server)

active_unknown_example :
    (add_job platform active_config net routing stray_job server ≡ unknown)
    × (update_job platform active_config net routing stray_job server ≡ unknown)
    × (remove_job platform active_config net routing stray_job server ≡ (undefined, server))
    × (update_job_state platform active_config net routing stray_job server ≡ (undefined, server))
unfolding get_param check_caller check_job_arg get_gateway
active_unknown_example =
    active_unknown platform active_config net routing stray_job "n1" server refl refl refl refl refl
      refl refl

abbrev lines : List String
lines = "running_mode=active" ∷ "running_mode=passive" ∷ "master_node=n9" ∷ []

abbrev parsed : Config
parsed = (parse_file platform (some lines) new_config).1

parse_file-IsRead_example : IsRead platform new_config lines parsed × HasMode parsed
unfolding parse_file parse_lines read_line read_entry check_syntax split_at set_private_attributes
    set_running_mode get_param
parse_file-IsRead_example = parse_file-IsRead platform lines new_config refl
