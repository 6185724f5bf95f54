-- ===== src/Task/Model.antt =====
-- The data of internal/task/task.go. An instant (`time.Time`) is its number of nanoseconds. A nil
-- slice or map and an empty one are the same list. The `Duration` text of a step is kept as the
-- difference of instants that it prints, `none` for "".
use redis_meter.Base.{String, ℕ, Bool, false, Option, none, List, []}
use redis_meter.Base.Int.{ℤ, pos}
use redis_meter.Base.Dict.{Dict}

-- The statuses are Go strings: `other` holds a text that no constant names.
pub data TaskStatus : Type 0 where
  pending running paused completed failed cancelled timed_out : TaskStatus
  other : String → TaskStatus

pub data StepStatus : Type 0 where
  pending running completed failed skipped retrying : StepStatus
  other : String → StepStatus

-- `StepType` and `ToolType` are Go strings too, and are compared and looked up as such.
abbrev pub StepType : Type 0
StepType = String

abbrev pub ToolType : Type 0
ToolType = String

-- A value of `interface{}` as JSON knows it; a number is kept as its text.
mutual
  pub data Json : Type 0 where
    null : Json
    bool : Bool → Json
    number : String → Json
    text : String → Json
    array : Items → Json
    object : Fields → Json

  pub data Items : Type 0 where
    nil : Items
    cons : Json → Items → Items

  pub data Fields : Type 0 where
    end : Fields
    field : String → Json → Fields → Fields

pub record Checkpoint : Type 0 where
  pub position : ℤ
  pub total : ℤ
  pub last_processed : String
  pub payload : Dict Json
  pub saved_at : ℕ

-- The text in `Step.Checkpoint`: "", what `json.Marshal` prints for a checkpoint, or a text that
-- is no JSON of a checkpoint, such as a deployment's ID.
pub data CheckpointText : Type 0 where
  empty : CheckpointText
  json : Checkpoint → CheckpointText
  plain : String → CheckpointText

pub record Step : Type 0 where
  pub type : StepType
  pub status : StepStatus
  pub started_at : Option ℕ
  pub completed_at : Option ℕ
  pub duration : Option ℤ
  pub progress : ℤ
  pub progress_msg : String
  pub error : String
  pub retry_count : ℤ
  pub checkpoint : CheckpointText
  pub checkpoint_data : Dict Json
  pub output : String

pub record Task : Type 0 where
  pub id : String
  pub name : String
  pub description : String
  pub tool : ToolType
  pub tool_config : String
  pub workload_id : String
  pub run_profile_id : String
  pub infra_profile_id : String
  pub target_url : String
  pub deploy_infra : Bool
  pub destroy_infra : Bool
  pub deployment_id : String
  pub cloud_provider : String
  pub status : TaskStatus
  pub current_step : StepType
  pub progress : ℤ
  pub steps : List Step
  pub created_at : ℕ
  pub started_at : Option ℕ
  pub completed_at : Option ℕ
  pub last_updated_at : ℕ
  pub timeout_seconds : ℤ
  pub error : String
  pub retry_count : ℤ
  pub max_retries : ℤ
  pub result_id : String
  pub tags : List String
  pub labels : Dict String

unfoldable pub new_task : String → String → ToolType → ℕ → Task
new_task id name tool now = record {
  id = id;
  name = name;
  description = "";
  tool = tool;
  tool_config = "";
  workload_id = "";
  run_profile_id = "";
  infra_profile_id = "";
  target_url = "";
  deploy_infra = false;
  destroy_infra = false;
  deployment_id = "";
  cloud_provider = "";
  status = TaskStatus.pending;
  current_step = "";
  progress = pos 0;
  steps = [];
  created_at = now;
  started_at = none;
  completed_at = none;
  last_updated_at = now;
  timeout_seconds = pos 0;
  error = "";
  retry_count = pos 0;
  max_retries = pos 3;
  result_id = "";
  tags = [];
  labels = [];
}

-- The step that `AddStep` appends.
unfoldable pub new_step : StepType → Step
new_step t = record {
  type = t;
  status = StepStatus.pending;
  started_at = none;
  completed_at = none;
  duration = none;
  progress = pos 0;
  progress_msg = "";
  error = "";
  retry_count = pos 0;
  checkpoint = CheckpointText.empty;
  checkpoint_data = [];
  output = "";
}

-- The texts of the status constants.
unfoldable pub status_text : TaskStatus → String
status_text TaskStatus.pending = "pending"
status_text TaskStatus.running = "running"
status_text TaskStatus.paused = "paused"
status_text TaskStatus.completed = "completed"
status_text TaskStatus.failed = "failed"
status_text TaskStatus.cancelled = "cancelled"
status_text TaskStatus.timed_out = "timed_out"
status_text (TaskStatus.other s) = s
