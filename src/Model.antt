-- ===== src/Model.antt =====
-- The types of src/model.thrift: what the nodes exchange and what the scheduler computes with.
-- A value that Thrift default-constructs has empty texts, zeros and the first constant of an enum.
use open_workload_scheduler.Base.{String, Bool, List, []}
use open_workload_scheduler.Base.Int.{ℤ, pos}

-- e_job_state
pub data JobState : Type 0 where
  waiting running succeded failed : JobState

-- e_rectype_action
pub data RectypeAction : Type 0 where
  restart stop_schedule : RectypeAction

-- e_time_constraint_type
pub data TimeConstraintType : Type 0 where
  at before after : TimeConstraintType

-- t_resource
pub record Resource : Type 0 where
  pub name : String
  pub current_value : ℤ
  pub initial_value : ℤ

-- t_time_constraint
pub record TimeConstraint : Type 0 where
  pub job_name : String
  pub kind : TimeConstraintType
  pub value : ℤ

-- t_recovery_type
pub record RecoveryType : Type 0 where
  pub id : ℤ
  pub short_label : String
  pub label : String
  pub action : RectypeAction

-- t_job
pub record Job : Type 0 where
  pub start_time : ℤ
  pub stop_time : ℤ
  pub return_code : ℤ
  pub state : JobState
  pub name : String
  pub node_name : String
  pub domain : String
  pub cmd_line : String
  pub weight : ℤ
  pub prv : List String
  pub nxt : List String
  pub time_constraints : List TimeConstraint
  pub recovery_type : RecoveryType

-- t_node
pub record Node : Type 0 where
  pub name : String
  pub weight : ℤ
  pub domain_name : String
  pub resources : List Resource
  pub jobs : List Job

-- t_macro_job
pub record MacroJob : Type 0 where
  pub id : ℤ
  pub name : String
  pub jobs : List Job

-- t_day and t_planning
pub record Planning : Type 0 where
  pub begin_time : ℤ
  pub duration : ℤ
  pub nodes : List Node

-- t_hello
pub record Hello : Type 0 where
  pub domain : String
  pub name : String
  pub is_master : Bool

-- t_route, of whose destination node only the name is ever set
pub record Route : Type 0 where
  pub destination_name : String
  pub hops : ℤ

-- t_routing_data
pub record RoutingData : Type 0 where
  pub calling_node : Node
  pub target_node : Node
  pub ttl : ℤ

abbrev pub new_recovery_type : RecoveryType
new_recovery_type = record { id = pos 0; short_label = ""; label = ""; action = restart }

abbrev pub new_job : Job
new_job = record {
  start_time = pos 0;
  stop_time = pos 0;
  return_code = pos 0;
  state = waiting;
  name = "";
  node_name = "";
  domain = "";
  cmd_line = "";
  weight = pos 0;
  prv = [];
  nxt = [];
  time_constraints = [];
  recovery_type = new_recovery_type;
}

abbrev pub new_node : Node
new_node = record { name = ""; weight = pos 0; domain_name = ""; resources = []; jobs = [] }
