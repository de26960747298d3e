-- ===== src/Db.antt =====
-- The Postgres tables of db/migrations that the run life cycle uses, as lists of rows, with the
-- constraints that its statements can violate. Columns that no modelled statement reads or writes
-- are left out. Times are numbers of nanoseconds.
pub mod Sql
pub mod Tables
pub mod Laws
use langopen.Prelude.{ℕ, String, Bool, Option, List}
use langopen.Contracts.{RunStatus, MultitaskStrategy}
use langopen.Json.{Json}

pub record RunRow : Type 0 where
  pub id : String
  pub thread_id : Option String
  pub assistant_id : String
  pub status : RunStatus
  pub strategy : MultitaskStrategy
  pub stream_resumable : Bool
  pub webhook_url : Option String
  pub input_json : Json
  pub output_json : Option Json
  pub error_json : Option Json
  pub metadata_json : Json
  pub checkpoint_id : Option String
  pub started_at : Option ℕ
  pub completed_at : Option ℕ
  pub created_at : ℕ
  pub updated_at : ℕ

pub record ThreadRow : Type 0 where
  pub id : String
  pub assistant_id : String
  pub updated_at : ℕ

pub record AssistantRow : Type 0 where
  pub id : String
  pub deployment_id : String
  pub graph_id : String

pub record DeploymentRow : Type 0 where
  pub id : String
  pub project_id : String
  pub repo_path : String
  pub repo_url : String
  pub git_ref : String

pub record CheckpointRow : Type 0 where
  pub id : String
  pub run_id : String

pub data DeliveryStatus : Type 0 where
  waiting retry delivered dead_letter : DeliveryStatus

-- `waiting` is the status 'pending', `delivered` is 'success'.
pub record DeliveryRow : Type 0 where
  pub id : String
  pub run_id : String
  pub url : String
  pub status : DeliveryStatus
  pub attempts : ℕ
  pub last_error : Option String
  pub created_at : ℕ
  pub updated_at : ℕ

pub record CronRow : Type 0 where
  pub id : String
  pub assistant_id : String
  pub schedule : String
  pub enabled : Bool

pub record CronExecutionRow : Type 0 where
  pub id : String
  pub cron_job_id : String
  pub run_id : Option String
  pub scheduled_for : ℕ
  pub status : String

pub record VariableRow : Type 0 where
  pub deployment_id : String
  pub key : String
  pub value_ciphertext : String

pub record Db : Type 0 where
  pub runs : List RunRow
  pub threads : List ThreadRow
  pub assistants : List AssistantRow
  pub deployments : List DeploymentRow
  pub checkpoints : List CheckpointRow
  pub deliveries : List DeliveryRow
  pub crons : List CronRow
  pub cron_executions : List CronExecutionRow
  pub variables : List VariableRow
