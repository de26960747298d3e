-- ===== src/Operator/Reconcile.antt =====
-- `Reconcile` of agentdeployment_controller.go and the functions that bring one object to what is
-- wanted of it. The client and `net.ParseCIDR` are parameters.
use Prim.Native.String.{◌++◌}
use langopen.Prelude.{
  ℕ, ◌-◌, ◌^◌, ◌%◌, String, Bool, true, false, Option, none, some, ◌==◌, ltb, if◌then◌else◌,
}
use langopen.Prelude.Int.{ℤ, pos, negsuc}
use langopen.Operator.{AgentDeployment}
use langopen.Operator.Objects.{Key, Object, Manifest, ingress_kind, cluster_ip_of, with_cluster_ip}
use langopen.Operator.Desired.{
  replicas_of, runtime_class_of, mode_of, image_of, wants_ingress, key_of, desired_api_deployment,
  desired_worker_deployment, desired_api_service, desired_network_policy, desired_ingress,
  desired_sandbox_template, desired_warm_pool, warm_pool_replicas_of,
}
use langopen.Operator.Client.{
  ApiError, not_found, no_match, other_error, Result, ok, failed, Client,
}
use langopen.Operator.Steps.{pure, fail, lift, attempt, ◌>>=◌, ◌>>◌}

-- `ctrl.Result`: done, or to be called again after so many seconds.
pub data Outcome : Type 0 where
  done : Outcome
  requeue_after : ℕ → Outcome

abbrev pub is_missing : ApiError → Bool
is_missing not_found = true
is_missing no_match = true
is_missing (other_error _) = false

-- Go's conversion of an int64 to int32.
unfoldable pub to_int32 : ℤ → ℤ
to_int32 (pos n) =
    let low = n % 2 ^ 32 in if ltb low (2 ^ 31) then pos low else negsuc (2 ^ 32 - 1 - low)
to_int32 (negsuc n) =
    let low = n % 2 ^ 32 in if ltb low (2 ^ 31) then negsuc low else pos (2 ^ 32 - 1 - low)

abbrev pub first_count : Option ℤ → Option ℤ → ℤ
first_count (some n) _ = to_int32 n
first_count none (some n) = to_int32 n
first_count none none = pos 0

-- The ready replicas of the warm pool's status.
unfoldable pub ready_of : Object → ℤ
unfolding to_int32
ready_of pool = first_count pool.ready_replicas pool.available_replicas

-- `client.IgnoreNotFound`.
abbrev pub ignore_not_found : ApiError → Result Outcome
ignore_not_found not_found = ok done
ignore_not_found no_match = failed no_match
ignore_not_found (other_error e) = failed (other_error e)

module _ (C : Client) where
  -- What follows the `Get` of a deployment, a network policy or an ingress.
  abbrev pub put_spec : Manifest → Result Object → C.Cluster → Result (Unit {0}) × C.Cluster
  put_spec m (ok current) = C.update m.key (record current { spec = m.object.spec })
  put_spec m (failed not_found) = C.create m.key m.object
  put_spec m (failed no_match) = fail no_match
  put_spec m (failed (other_error e)) = fail (other_error e)

  unfoldable pub reconcile_deployment : Manifest → C.Cluster → Result (Unit {0}) × C.Cluster
  reconcile_deployment m = attempt (C.get m.key) >>= put_spec m

  unfoldable pub reconcile_network_policy : Manifest → C.Cluster → Result (Unit {0}) × C.Cluster
  reconcile_network_policy m = attempt (C.get m.key) >>= put_spec m

  unfoldable pub reconcile_ingress : Manifest → C.Cluster → Result (Unit {0}) × C.Cluster
  reconcile_ingress m = attempt (C.get m.key) >>= put_spec m

  abbrev pub put_service : Manifest → Result Object → C.Cluster → Result (Unit {0}) × C.Cluster
  put_service m (ok current) =
      C.update m.key
        (record current { spec = with_cluster_ip (cluster_ip_of current.spec) m.object.spec })
  put_service m (failed not_found) = C.create m.key m.object
  put_service m (failed no_match) = fail no_match
  put_service m (failed (other_error e)) = fail (other_error e)

  unfoldable pub reconcile_service : Manifest → C.Cluster → Result (Unit {0}) × C.Cluster
  reconcile_service m = attempt (C.get m.key) >>= put_service m

  -- An object that was created is read back.
  abbrev pub put_unstructured : Manifest → Result Object → C.Cluster → Result (Unit {0}) × C.Cluster
  put_unstructured m (ok current) = C.update m.key (record current { spec = m.object.spec })
  put_unstructured m (failed not_found) = do C.create m.key m.object; _ ← C.get m.key; pure tt
  put_unstructured m (failed no_match) = fail no_match
  put_unstructured m (failed (other_error e)) = fail (other_error e)

  unfoldable pub reconcile_unstructured : Manifest → C.Cluster → Result (Unit {0}) × C.Cluster
  reconcile_unstructured m = attempt (C.get m.key) >>= put_unstructured m

  abbrev pub drop_ingress : Key → Result Object → C.Cluster → Result (Unit {0}) × C.Cluster
  drop_ingress key (ok _) = C.delete key
  drop_ingress key (failed not_found) = pure tt
  drop_ingress key (failed no_match) = fail no_match
  drop_ingress key (failed (other_error e)) = fail (other_error e)

  unfoldable pub delete_ingress_if_exists : Key → C.Cluster → Result (Unit {0}) × C.Cluster
  delete_ingress_if_exists key = attempt (C.get key) >>= drop_ingress key

  unfoldable pub reconcile_sandbox_resources :
      AgentDeployment → String → C.Cluster → Result (Unit {0}) × C.Cluster
  reconcile_sandbox_resources dep runtime_class = do
    reconcile_unstructured (desired_sandbox_template dep runtime_class)
    reconcile_unstructured (desired_warm_pool dep)
    pool ← C.get (desired_warm_pool dep).key
    λ w. (ok tt, C.set_gauges dep.namespace dep.name (warm_pool_replicas_of dep) (ready_of pool) w)

  -- `SetControllerReference`, and the function that reconciles an object of the kind.
  abbrev pub owned :
      AgentDeployment
      → Manifest
      → (Manifest → C.Cluster → Result (Unit {0}) × C.Cluster)
      → C.Cluster
      → Result (Unit {0}) × C.Cluster
  owned dep m put = do
    o ← lift (C.set_controller_reference dep m.object)
    put (record m { object = o })

  unfoldable pub ready_status : AgentDeployment → AgentDeployment
  ready_status dep = record dep {
    status = record {
      ready = true;
      observed_generation = dep.generation;
      message =
          "reconciled image="
          ++ (image_of dep
              ++ (" mode=" ++ (mode_of dep ++ (" runtimeClass=" ++ runtime_class_of dep))));
    };
  }

  unfoldable pub missing_status : AgentDeployment → AgentDeployment
  missing_status dep = record dep {
    status = record {
      ready = false;
      observed_generation = dep.generation;
      message = "sandbox CRDs missing; install Agent Sandbox CRDs for mode_b";
    };
  }

  -- The end of `Reconcile`.
  unfoldable pub mark_ready : AgentDeployment → C.Cluster → Result Outcome × C.Cluster
  mark_ready dep = do C.update_status (ready_status dep); pure done

  -- An error of the status update is dropped.
  unfoldable pub mark_missing : AgentDeployment → C.Cluster → Result Outcome × C.Cluster
  mark_missing dep = do _ ← attempt (C.update_status (missing_status dep)); pure (requeue_after 15)

  abbrev pub after_sandbox :
      AgentDeployment → Result (Unit {0}) → C.Cluster → Result Outcome × C.Cluster
  after_sandbox dep (ok _) = mark_ready dep
  after_sandbox dep (failed e) = if is_missing e then mark_missing dep else fail e

  unfoldable pub reconcile_mode : AgentDeployment → C.Cluster → Result Outcome × C.Cluster
  reconcile_mode dep =
      if mode_of dep == "mode_b"
      then attempt (reconcile_sandbox_resources dep (runtime_class_of dep)) >>= after_sandbox dep
      else do λ w. (ok tt, C.set_gauges dep.namespace dep.name (pos 0) (pos 0) w); mark_ready dep

  unfoldable pub reconcile_exposure : AgentDeployment → C.Cluster → Result (Unit {0}) × C.Cluster
  reconcile_exposure dep =
      if wants_ingress dep
      then owned dep (desired_ingress dep) reconcile_ingress
      else delete_ingress_if_exists (key_of ingress_kind dep dep.name)

  module _ (is_cidr : String → Bool) where
    unfoldable pub reconcile_agent : AgentDeployment → C.Cluster → Result Outcome × C.Cluster
    reconcile_agent dep = do
      let image = image_of dep
      let runtime_class = runtime_class_of dep
      owned dep (desired_api_deployment dep image runtime_class (replicas_of dep))
          reconcile_deployment
      owned dep (desired_worker_deployment dep image runtime_class (replicas_of dep) (mode_of dep))
          reconcile_deployment
      owned dep (desired_api_service dep) reconcile_service
      owned dep (desired_network_policy is_cidr dep) reconcile_network_policy
      reconcile_exposure dep
      reconcile_mode dep

    abbrev pub reconcile_found : Result AgentDeployment → C.Cluster → Result Outcome × C.Cluster
    reconcile_found (ok dep) = reconcile_agent dep
    reconcile_found (failed e) = lift (ignore_not_found e)

    unfoldable pub reconcile : String → String → C.Cluster → Result Outcome × C.Cluster
    reconcile namespace name = attempt (C.get_agent namespace name) >>= reconcile_found
