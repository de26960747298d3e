-- ===== src/Operator/Desired.antt =====
-- What the operator wants in the cluster for one AgentDeployment: the defaults of `Reconcile` and
-- the `desired…` functions of agentdeployment_controller.go. `is_cidr` is `net.ParseCIDR` without
-- an error.
use Prim.Native.String.{◌++◌}
use langopen.Prelude.{
  String, Bool, true, false, Option, none, some, List, [], ◌∷◌, ◌==◌, if◌then◌else◌,
}
use langopen.Prelude.Int.{ℤ, pos}
use langopen.Prelude.Text.{trim_space}
use langopen.Operator.{AgentDeployment}
use langopen.Operator.Objects.{
  Kind, deployment_kind, service_kind, network_policy_kind, ingress_kind, sandbox_template_kind,
  warm_pool_kind, Key, EnvVar, PodSecurity, ContainerSecurity, udp, tcp, EgressRule, Spec,
  deployment, service, network_policy, ingress, sandbox_template, warm_pool, Manifest,
}

abbrev pub or_text : String → String → String
or_text default value = if value == "" then default else value

abbrev pub or_one : Option ℤ → ℤ
or_one none = pos 1
or_one (some n) = n

unfoldable pub replicas_of : AgentDeployment → ℤ
replicas_of dep = or_one dep.spec.replicas

unfoldable pub runtime_class_of : AgentDeployment → String
runtime_class_of dep = or_text "gvisor" dep.spec.runtime_class_name

unfoldable pub mode_of : AgentDeployment → String
mode_of dep = or_text "mode_a" (trim_space dep.spec.mode)

-- A rollback image goes before the image.
unfoldable pub image_of : AgentDeployment → String
image_of dep = or_text (trim_space dep.spec.image) (trim_space dep.spec.rollback_image)

unfoldable pub wants_ingress : AgentDeployment → Bool
wants_ingress dep =
    if dep.spec.ingress_enabled
    then if trim_space dep.spec.ingress_host == "" then false else true
    else false

unfoldable pub template_name : AgentDeployment → String
template_name dep = or_text (dep.name ++ "-sandbox-template") (trim_space dep.spec.sandbox_template)

unfoldable pub pod_security_context : PodSecurity
pod_security_context = record { run_as_non_root = true; run_as_user = 65532; run_as_group = 65532 }

unfoldable pub container_security_context : ContainerSecurity
container_security_context = record {
  run_as_non_root = true;
  allow_privilege_escalation = false;
  read_only_root_filesystem = true;
  drop = "ALL" ∷ [];
}

abbrev pub key_of : Kind → AgentDeployment → String → Key
key_of kind dep name = record { kind = kind; namespace = dep.namespace; name = name }

-- An object that has not been sent yet.
abbrev pub fresh : Key → Spec → Manifest
fresh key spec = record {
  key = key;
  object = record { owner = none; spec = spec; ready_replicas = none; available_replicas = none };
}

abbrev pub labels_of : AgentDeployment → String → List (String × String)
labels_of dep component = ("app", dep.name) ∷ ("component", component) ∷ []

unfoldable pub desired_api_deployment : AgentDeployment → String → String → ℤ → Manifest
unfolding pod_security_context container_security_context
desired_api_deployment dep image runtime_class replicas =
    fresh (key_of deployment_kind dep (dep.name ++ "-api")) (
      deployment (record {
        replicas = replicas;
        labels = labels_of dep "api";
        runtime_class_name = runtime_class;
        automount_service_account_token = false;
        pod_security = pod_security_context;
        containers =
            record {
              name = "api-server";
              image = image;
              image_pull_policy = "IfNotPresent";
              ports = ("http", 8080) ∷ [];
              env = [];
              security = container_security_context;
            }
            ∷ [];
      }))

unfoldable pub worker_env : AgentDeployment → String → List EnvVar
unfolding template_name
worker_env dep mode =
    record { name = "RUN_MODE"; value = mode }
    ∷ (if mode == "mode_b"
        then record { name = "SANDBOX_ENABLED"; value = "true" }
          ∷ record { name = "SANDBOX_TEMPLATE_NAME"; value = template_name dep }
          ∷ record { name = "SANDBOX_NAMESPACE"; value = dep.namespace }
          ∷ []
        else [])

unfoldable pub desired_worker_deployment : AgentDeployment → String → String → ℤ → String → Manifest
unfolding worker_env pod_security_context container_security_context
desired_worker_deployment dep image runtime_class replicas mode =
    fresh (key_of deployment_kind dep (dep.name ++ "-worker")) (
      deployment (record {
        replicas = replicas;
        labels = labels_of dep "worker";
        runtime_class_name = runtime_class;
        automount_service_account_token = false;
        pod_security = pod_security_context;
        containers =
            record {
              name = "worker";
              image = image;
              image_pull_policy = "IfNotPresent";
              ports = [];
              env = worker_env dep mode;
              security = container_security_context;
            }
            ∷ [];
      }))

unfoldable pub desired_api_service : AgentDeployment → Manifest
desired_api_service dep = fresh (key_of service_kind dep dep.name) (
    service (record {
      selector = labels_of dep "api";
      port_name = "http";
      port = 80;
      target_port = 8080;
      cluster_ip = "";
    }))

abbrev pub dns_rule : EgressRule
dns_rule = record { ports = (udp, 53) ∷ (tcp, 53) ∷ []; cidrs = [] }

abbrev pub cidr_rule : String → EgressRule
cidr_rule cidr = record { ports = []; cidrs = cidr ∷ [] }

module _ (is_cidr : String → Bool) where
  -- The loop over the allow list.
  unfoldable pub cidr_rules : List String → List EgressRule
  cidr_rules [] = []
  cidr_rules (cidr ∷ rest) =
      let rules = cidr_rules rest in
      if trim_space cidr == ""
      then rules
      else if is_cidr (trim_space cidr)
      then cidr_rule (trim_space cidr) ∷ rules
      else rules

  unfoldable pub desired_network_policy : AgentDeployment → Manifest
  unfolding cidr_rules
  desired_network_policy dep = fresh (key_of network_policy_kind dep (dep.name ++ "-egress")) (
      network_policy (record {
        pod_selector = ("app", dep.name) ∷ [];
        policy_types = "Egress" ∷ [];
        egress = dns_rule ∷ cidr_rules dep.spec.egress_allowlist;
      }))

abbrev pub if_text : String → Option String
if_text value = if value == "" then none else some value

abbrev pub tls_for : String → String → List (List String × String)
tls_for host secret = if secret == "" then [] else (host ∷ [], secret) ∷ []

unfoldable pub desired_ingress : AgentDeployment → Manifest
desired_ingress dep = fresh (key_of ingress_kind dep dep.name) (
    ingress (record {
      class_name = if_text (trim_space dep.spec.ingress_class_name);
      tls = tls_for dep.spec.ingress_host (trim_space dep.spec.ingress_tls_secret_ref);
      host = dep.spec.ingress_host;
      path = "/";
      path_type = "Prefix";
      service_name = dep.name;
      service_port = 80;
    }))

-- The two objects of `reconcileSandboxResources`.
unfoldable pub desired_sandbox_template : AgentDeployment → String → Manifest
unfolding template_name
desired_sandbox_template dep runtime_class =
    fresh (key_of sandbox_template_kind dep (template_name dep)) (
      sandbox_template (record {
        runtime_class_name = runtime_class;
        automount_service_account_token = false;
        container_name = "sandbox";
        image = dep.spec.image;
        command = "/bin/sh" ∷ "-c" ∷ "sleep infinity" ∷ [];
        run_as_non_root = true;
        allow_privilege_escalation = false;
        read_only_root_filesystem = true;
      }))

unfoldable pub warm_pool_replicas_of : AgentDeployment → ℤ
warm_pool_replicas_of dep = or_one dep.spec.warm_pool_replicas

unfoldable pub desired_warm_pool : AgentDeployment → Manifest
unfolding template_name warm_pool_replicas_of
desired_warm_pool dep =
    fresh (key_of warm_pool_kind dep (dep.name ++ "-warm-pool")) (
      warm_pool
        (record { template_name = template_name dep; replicas = warm_pool_replicas_of dep }))
