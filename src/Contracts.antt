-- ===== src/Contracts.antt =====
-- pkg/contracts/types.go and errors.go: the words of the API. The source's string types hold any
-- text, so each has a case for the words that it does not name; `of` and `text` are Go's conversions.
use langopen.Prelude.{String, Bool, true, false, ◌==◌, if◌then◌else◌, ◌≡◌, arith, eq_iff}

pub data RunStatus : Type 0 where
  pending running error success timeout interrupted : RunStatus
  other_status : String → RunStatus

unfoldable pub run_status : String → RunStatus
run_status s =
    if s == "pending"
    then pending
    else if s == "running"
    then running
    else if s == "error"
    then error
    else if s == "success"
    then success
    else if s == "timeout"
    then timeout
    else if s == "interrupted"
    then interrupted
    else other_status s

unfoldable pub run_status_text : RunStatus → String
run_status_text pending = "pending"
run_status_text running = "running"
run_status_text error = "error"
run_status_text success = "success"
run_status_text timeout = "timeout"
run_status_text interrupted = "interrupted"
run_status_text (other_status s) = s

pub data MultitaskStrategy : Type 0 where
  reject rollback interrupt enqueue : MultitaskStrategy
  other_strategy : String → MultitaskStrategy

unfoldable pub multitask_strategy : String → MultitaskStrategy
multitask_strategy s =
    if s == "reject"
    then reject
    else if s == "rollback"
    then rollback
    else if s == "interrupt"
    then interrupt
    else if s == "enqueue"
    then enqueue
    else other_strategy s

pub data ProjectRole : Type 0 where
  viewer developer operator admin : ProjectRole
  other_role : String → ProjectRole

unfoldable pub project_role : String → ProjectRole
project_role s =
    if s == "viewer"
    then viewer
    else if s == "developer"
    then developer
    else if s == "operator"
    then operator
    else if s == "admin"
    then admin
    else other_role s

unfoldable pub is_valid_project_role : ProjectRole → Bool
is_valid_project_role (other_role _) = false
is_valid_project_role _ = true

-- `isTerminalRunStatus` of the API server.
unfoldable pub is_terminal_run_status : RunStatus → Bool
is_terminal_run_status success = true
is_terminal_run_status error = true
is_terminal_run_status interrupted = true
is_terminal_run_status timeout = true
is_terminal_run_status _ = false

-- `isValidRunStatus` of the API server.
unfoldable pub is_valid_run_status : RunStatus → Bool
is_valid_run_status (other_status _) = false
is_valid_run_status _ = true

-- `isValidMultitaskStrategy` of the API server.
unfoldable pub is_valid_multitask_strategy : MultitaskStrategy → Bool
is_valid_multitask_strategy (other_strategy _) = false
is_valid_multitask_strategy _ = true

-- Reading a text as a status and writing the status gives the text back, whatever it is.
pub run_status_text-run_status : (s : String) → run_status_text (run_status s) ≡ s
unfolding run_status run_status_text
run_status_text-run_status s = ground (
  arith,
  eq_iff s "pending",
  eq_iff s "running",
  eq_iff s "error",
  eq_iff s "success",
  eq_iff s "timeout",
  eq_iff s "interrupted",
)
