-- ===== src/Tools/Cycle/Data.antt =====
-- The inputs and outputs of internal/tools/cycle.go.
use copilot_review_mcp.Common.{ℕ, ℤ, Time, Bool, String, List, Option}
use copilot_review_mcp.Errors.{GoError, Result}
use copilot_review_mcp.Github.Checks.{CiStatus}
use copilot_review_mcp.Github.Review.{ReviewData}
use copilot_review_mcp.Github.Threads.{ReviewThread}

pub record CycleStatusInput : Type 0 where
  pub owner : String
  pub repo : String
  pub pr : ℤ
  pub last_comment_at : Option String
  pub cycles_done : ℤ
  pub max_cycles : ℤ
  pub fix_type : String

pub record MergeConditions : Type 0 where
  pub ci_ok : Bool
  pub unresolved_count : ℕ
  pub all_replied : Bool
  pub pending_checks : List String
  pub failed_checks : List String
  pub unreplied_threads : List String

pub data Action : Type 0 where
  wait reply_resolve request_rereview ready_to_merge escalate : Action

pub data CycleStatus : Type 0 where
  continue terminate : CycleStatus

-- The reasons that the note on an unmet termination lists.
pub data Reason : Type 0 where
  already_met rereview_needed ci_not_ok evaluating : Reason
  action_is : Action → Reason
  unresolved_left : ℕ → Reason

pub data Note : Type 0 where
  limit_reached : ℕ → Note
  pr_link : String → String → ℤ → Note
  human_needed : Note
  cycle_number : ℕ → ℕ → Note
  unresolved_threads : ℕ → Note
  fix_note : String → Bool → Note
  met_resolved : Note
  met_silent : ℕ → ℕ → Note
  unmet : List Reason → Note
  action_note : Action → Note

pub record CycleStatusOutput : Type 0 where
  pub cycle_status : CycleStatus
  pub recommended_action : Action
  pub rereview_required : Bool
  pub rereview_reason : Option String
  pub cycles_done : ℤ
  pub max_cycles : ℕ
  pub merge_conditions : MergeConditions
  pub notes : List Note

-- The answers of the client, whose calls only read.
pub record CycleClient : Type 0 where
  pub get_ci_status : Result CiStatus
  pub get_review_threads : Result (List ReviewThread)
  pub get_review_data : Result ReviewData

-- `max_setting` and `threshold_setting` are what os.Getenv and strconv.Atoi make of the two
-- variables; `error` renders the handler's own errors.
pub record CycleEnv : Type 0 where
  pub max_setting : Option ℕ
  pub threshold_setting : Option ℕ
  pub trim_space : String → String
  pub parse_time : String → Result Time
  pub format_int : ℤ → String
  pub rereview_reason : String → String
  pub error : String → GoError
  pub wrapped : String → GoError → GoError
