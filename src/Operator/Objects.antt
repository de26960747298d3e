-- ===== src/Operator/Objects.antt =====
-- The Kubernetes objects that the operator reads and writes, by the fields that it sets: the
-- literals of services/operator/internal/controllers/agentdeployment_controller.go.
use langopen.Prelude.{
  ℕ, String, Bool, true, false, ◌&&◌, Option, List, ◌==◌, ◌≡◌, refl, eq_refl, eq_iff, arith,
}
use langopen.Prelude.Int.{ℤ}

pub data Kind : Type 0 where
  deployment_kind service_kind network_policy_kind ingress_kind : Kind
  sandbox_template_kind warm_pool_kind : Kind

pub record Key : Type 0 where
  pub kind : Kind
  pub namespace : String
  pub name : String

abbrev pub kind_eq : Kind → Kind → Bool
kind_eq deployment_kind deployment_kind = true
kind_eq service_kind service_kind = true
kind_eq network_policy_kind network_policy_kind = true
kind_eq ingress_kind ingress_kind = true
kind_eq sandbox_template_kind sandbox_template_kind = true
kind_eq warm_pool_kind warm_pool_kind = true
kind_eq _ _ = false

abbrev pub key_eq : Key → Key → Bool
key_eq a b = kind_eq a.kind b.kind && (a.namespace == b.namespace && a.name == b.name)

pub record EnvVar : Type 0 where
  pub name : String
  pub value : String

pub record PodSecurity : Type 0 where
  pub run_as_non_root : Bool
  pub run_as_user : ℕ
  pub run_as_group : ℕ

pub record ContainerSecurity : Type 0 where
  pub run_as_non_root : Bool
  pub allow_privilege_escalation : Bool
  pub read_only_root_filesystem : Bool
  pub drop : List String

pub record Container : Type 0 where
  pub name : String
  pub image : String
  pub image_pull_policy : String
  pub ports : List (String × ℕ)
  pub env : List EnvVar
  pub security : ContainerSecurity

-- `labels` is both the selector and the template's labels.
pub record DeploymentSpec : Type 0 where
  pub replicas : ℤ
  pub labels : List (String × String)
  pub runtime_class_name : String
  pub automount_service_account_token : Bool
  pub pod_security : PodSecurity
  pub containers : List Container

pub record ServiceSpec : Type 0 where
  pub selector : List (String × String)
  pub port_name : String
  pub port : ℕ
  pub target_port : ℕ
  pub cluster_ip : String

pub data Protocol : Type 0 where
  udp tcp : Protocol

-- An empty list is the field left out.
pub record EgressRule : Type 0 where
  pub ports : List (Protocol × ℕ)
  pub cidrs : List String

pub record NetworkPolicySpec : Type 0 where
  pub pod_selector : List (String × String)
  pub policy_types : List String
  pub egress : List EgressRule

pub record IngressSpec : Type 0 where
  pub class_name : Option String
  pub tls : List (List String × String)
  pub host : String
  pub path : String
  pub path_type : String
  pub service_name : String
  pub service_port : ℕ

pub record SandboxTemplateSpec : Type 0 where
  pub runtime_class_name : String
  pub automount_service_account_token : Bool
  pub container_name : String
  pub image : String
  pub command : List String
  pub run_as_non_root : Bool
  pub allow_privilege_escalation : Bool
  pub read_only_root_filesystem : Bool

pub record WarmPoolSpec : Type 0 where
  pub template_name : String
  pub replicas : ℤ

pub data Spec : Type 0 where
  deployment : DeploymentSpec → Spec
  service : ServiceSpec → Spec
  network_policy : NetworkPolicySpec → Spec
  ingress : IngressSpec → Spec
  sandbox_template : SandboxTemplateSpec → Spec
  warm_pool : WarmPoolSpec → Spec

-- `owner` is the controller reference, the counts are those of the status, an int64 each.
pub record Object : Type 0 where
  pub owner : Option String
  pub spec : Spec
  pub ready_replicas : Option ℤ
  pub available_replicas : Option ℤ

-- An object that is to be created or updated, under its key.
pub record Manifest : Type 0 where
  pub key : Key
  pub object : Object

-- A service's address is the cluster's to choose.
abbrev pub with_cluster_ip : String → Spec → Spec
with_cluster_ip ip (service s) = service (record s { cluster_ip = ip })
with_cluster_ip ip other = other

abbrev pub cluster_ip_of : Spec → String
cluster_ip_of (service s) = s.cluster_ip
cluster_ip_of other = ""

kind_eq_refl : (k : Kind) → kind_eq k k ≡ true
kind_eq_refl deployment_kind = refl
kind_eq_refl service_kind = refl
kind_eq_refl network_policy_kind = refl
kind_eq_refl ingress_kind = refl
kind_eq_refl sandbox_template_kind = refl
kind_eq_refl warm_pool_kind = refl

pub key_eq_refl : (k : Key) → key_eq k k ≡ true
key_eq_refl k = rw (kind_eq_refl k.kind, eq_refl k.namespace, eq_refl k.name) refl

kind_eq→≡ : (a b : Kind) → kind_eq a b ≡ true → a ≡ b
kind_eq→≡ deployment_kind deployment_kind h = refl
kind_eq→≡ service_kind service_kind h = refl
kind_eq→≡ network_policy_kind network_policy_kind h = refl
kind_eq→≡ ingress_kind ingress_kind h = refl
kind_eq→≡ sandbox_template_kind sandbox_template_kind h = refl
kind_eq→≡ warm_pool_kind warm_pool_kind h = refl
kind_eq→≡ a b h = cc h

pub key_eq→≡ : (a b : Key) → key_eq a b ≡ true → a ≡ b
key_eq→≡ a b h =
    ground (arith, h, kind_eq→≡ a.kind b.kind, eq_iff a.namespace b.namespace, eq_iff a.name b.name)
