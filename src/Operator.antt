-- ===== src/Operator.antt =====
-- The operator: services/operator/internal/controllers/agentdeployment_controller.go and the types
-- of services/operator/internal/apis/v1alpha1. This file: the custom resource. Objects: what the
-- operator keeps in the cluster; Desired: what it wants of each; Client: the Kubernetes client;
-- Reconcile: the controller.
pub mod Objects
pub mod Desired
pub mod Client
pub mod Steps
pub mod Sync
pub mod Implements
pub mod Objectwise
pub mod Sandboxes
pub mod Refines
pub mod Done
pub mod Egress
pub mod Reconcile
use langopen.Prelude.{ℕ, String, Bool, Option, List}
use langopen.Prelude.Int.{ℤ}

-- `*int32` is an option; the numbers are within int32.
pub record AgentDeploymentSpec : Type 0 where
  pub image : String
  pub rollback_image : String
  pub replicas : Option ℤ
  pub runtime_class_name : String
  pub mode : String
  pub egress_allowlist : List String
  pub ingress_enabled : Bool
  pub ingress_host : String
  pub ingress_class_name : String
  pub ingress_tls_secret_ref : String
  pub sandbox_template : String
  pub warm_pool_replicas : Option ℤ

pub record AgentDeploymentStatus : Type 0 where
  pub observed_generation : ℤ
  pub ready : Bool
  pub message : String

-- The metadata that the controller reads stands beside the specification.
pub record AgentDeployment : Type 0 where
  pub namespace : String
  pub name : String
  pub uid : String
  pub generation : ℤ
  pub spec : AgentDeploymentSpec
  pub status : AgentDeploymentStatus
