-- ===== src/Operator/Refines.antt =====
-- `Reconcile` of agentdeployment_controller.go against the wishes for an AgentDeployment.
use mathlib.Core.Path.{subst}
use mathlib.Core.List.{append_assoc}
use langopen.Prelude.{
  ◌≡◌, refl, ◌∙◌, String, Bool, none, List, [], ◌∷◌, ◌++◌, ◌==◌, if◌then◌else◌, Bool-cases, inl,
  inr,
}
use langopen.Prelude.Int.{pos}
use langopen.Operator.{AgentDeployment}
use langopen.Operator.Objects.{Key, ingress_kind}
use langopen.Operator.Desired.{
  replicas_of, runtime_class_of, mode_of, image_of, wants_ingress, key_of, desired_api_deployment,
  desired_worker_deployment, desired_api_service, desired_network_policy, desired_ingress,
  desired_sandbox_template, desired_warm_pool,
}
use langopen.Operator.Client.{Result, ok, failed, Client, IsLawful}
use langopen.Operator.Steps.{pure, attempt, ◌>>=◌}
use langopen.Operator.Sync.{Wish, wish, wish_for, Synced}
use langopen.Operator.Implements.{
  Implements, Any, bind-Implements, chain-Implements, attempt-Implements, idle-Implements,
  fail-Implements,
}
use langopen.Operator.Objectwise.{
  reconcile_deployment-Implements, reconcile_service-Implements,
  reconcile_network_policy-Implements, reconcile_ingress-Implements,
  delete_ingress_if_exists-Implements,
}
use langopen.Operator.Sandboxes.{owned-Implements, reconcile_sandbox_resources-Implements}
use langopen.Operator.Reconcile.{
  Outcome, done, requeue_after, is_missing, reconcile_ingress, after_sandbox, mark_ready,
  mark_missing, missing_status, ready_status, reconcile_mode, reconcile_exposure, reconcile_agent,
  reconcile_found, reconcile,
}

-- The later a wish is met, the earlier it stands. Without an ingress, that of the name is wished
-- away; the sandbox objects are wished for in mode_b, and never wished away.
unfoldable pub exposure_wish : AgentDeployment → Wish
exposure_wish dep =
    if wants_ingress dep
    then wish_for (desired_ingress dep)
    else (key_of ingress_kind dep dep.name, none)

unfoldable pub mode_wishes : AgentDeployment → List Wish
mode_wishes dep =
    if mode_of dep == "mode_b"
    then wish_for (desired_warm_pool dep)
      ∷ wish_for (desired_sandbox_template dep (runtime_class_of dep))
      ∷ []
    else []

unfoldable pub base_wishes : (String → Bool) → AgentDeployment → List Wish
base_wishes is_cidr dep =
    wish_for (desired_network_policy is_cidr dep)
    ∷ wish_for (desired_api_service dep)
    ∷ wish_for (
        desired_worker_deployment dep (image_of dep) (runtime_class_of dep) (replicas_of dep)
          (mode_of dep))
    ∷ wish_for (desired_api_deployment dep (image_of dep) (runtime_class_of dep) (replicas_of dep))
    ∷ []

abbrev pub wishes : (String → Bool) → AgentDeployment → List Wish
wishes is_cidr dep = mode_wishes dep ++ (exposure_wish dep ∷ base_wishes is_cidr dep)

abbrev pub IsDone : Outcome → Type 0
IsDone r = r ≡ done

module _ (C : Client) (L : IsLawful C) where
  mark_ready-Implements : (dep : AgentDeployment) → Implements C L IsDone (mark_ready C dep) []
  unfolding mark_ready
  mark_ready-Implements dep =
      bind-Implements C L (C.update_status (ready_status C dep)) _ [] []
        (idle-Implements C L (C.update_status _) (λ w k. L.status_kept _ w k))
        (λ _. idle-Implements C L (pure done) (λ w k. refl))

  mark_missing-Implements : (dep : AgentDeployment) → Implements C L IsDone (mark_missing C dep) []
  unfolding mark_missing
  mark_missing-Implements dep =
      bind-Implements C L (attempt (C.update_status (missing_status C dep))) _ [] []
        (idle-Implements C L (attempt (C.update_status _)) (λ w k. L.status_kept _ w k))
        (λ _. idle-Implements C L (pure (requeue_after 15)) (λ w k. refl))

  after_sandbox-Implements :
      (dep : AgentDeployment) (r : Result (Unit {0}))
      → Implements C L IsDone (after_sandbox C dep r) []
  after_sandbox-Implements dep (ok t) = mark_ready-Implements dep
  after_sandbox-Implements dep (failed e) = elim (Bool-cases (is_missing e)) [
    | inl m ↦ rw m (mark_missing-Implements dep)
    | inr m ↦ rw m (fail-Implements C L e [])
  ]

  after_sandbox-ok :
      (dep : AgentDeployment) (r : Result (Unit {0})) (w : C.Cluster) (b : Outcome)
      → (after_sandbox C dep r w).0 ≡ ok b
      → IsDone b
      → r ≡ ok tt
  unfolding mark_missing ◌>>=◌
  after_sandbox-ok dep (ok t) w b h g = refl
  after_sandbox-ok dep (failed e) w b h g = elim (Bool-cases (is_missing e)) [
    | inl m ↦ cc (rw m at h, g)
    | inr m ↦ cc (rw m at h)
  ]

  reconcile_mode-Implements :
      (dep : AgentDeployment) → Implements C L IsDone (reconcile_mode C dep) (mode_wishes dep)
  unfolding reconcile_mode mode_wishes
  reconcile_mode-Implements dep = elim (Bool-cases (mode_of dep == "mode_b")) [
    | inl m ↦ rw m (
        chain-Implements C L _ (after_sandbox C dep) _ [] (after_sandbox-ok dep)
          (attempt-Implements C L _ _
            (reconcile_sandbox_resources-Implements C L dep (runtime_class_of dep)))
          (after_sandbox-Implements dep))
    | inr m ↦ rw m (
        bind-Implements C L _ (λ _. mark_ready C dep) [] []
          (idle-Implements C L _ (λ w k. L.gauges_kept dep.namespace dep.name (pos 0) (pos 0) w k))
          (λ _. mark_ready-Implements dep))
  ]

  reconcile_exposure-Implements :
      (dep : AgentDeployment)
      → Implements C L (Any C L) (reconcile_exposure C dep) (exposure_wish dep ∷ [])
  unfolding reconcile_exposure exposure_wish
  reconcile_exposure-Implements dep = elim (Bool-cases (wants_ingress dep)) [
    | inl e ↦ rw e (
        owned-Implements C L dep (desired_ingress dep) (reconcile_ingress C)
          (reconcile_ingress-Implements C L))
    | inr e ↦ rw e (delete_ingress_if_exists-Implements C L (key_of ingress_kind dep dep.name))
  ]

  -- The next wish, met after those that are met already.
  next-Implements :
      {Good : Outcome → Type 0} (m : C.Cluster → Result (Unit {0}) × C.Cluster)
      (f : Unit {0} → C.Cluster → Result Outcome × C.Cluster) (x : Wish) (ys zs : List Wish)
      → Implements C L (Any C L) m (x ∷ [])
      → ((a : Unit {0}) → Implements C L Good (f a) (ys ++ zs))
      → Implements C L Good (m >>= f) (ys ++ (zs ++ x ∷ []))
  next-Implements {Good} m f x ys zs hm hf =
      subst (λ ws. Implements C L Good (m >>= f) ws) (append_assoc ys zs (x ∷ []))
        (bind-Implements C L m f (x ∷ []) (ys ++ zs) hm hf)

  pub reconcile_agent-Implements :
      (is_cidr : String → Bool) (dep : AgentDeployment)
      → Implements C L IsDone (reconcile_agent C is_cidr dep) (wishes is_cidr dep)
  unfolding reconcile_agent base_wishes
  reconcile_agent-Implements is_cidr dep =
      next-Implements _ _ _ modes (_ ∷ _ ∷ _ ∷ _ ∷ [])
        (owned-Implements C L dep _ _ (reconcile_deployment-Implements C L))
        (λ _.
          next-Implements _ _ _ modes (_ ∷ _ ∷ _ ∷ [])
            (owned-Implements C L dep _ _ (reconcile_deployment-Implements C L))
            (λ _.
              next-Implements _ _ _ modes (_ ∷ _ ∷ [])
                (owned-Implements C L dep _ _ (reconcile_service-Implements C L))
                (λ _.
                  next-Implements _ _ _ modes (_ ∷ [])
                    (owned-Implements C L dep _ _ (reconcile_network_policy-Implements C L))
                    (λ _.
                      bind-Implements C L _ _ (exposure_wish dep ∷ []) modes
                        (reconcile_exposure-Implements dep) (λ _. reconcile_mode-Implements dep)))))
    where
      modes : List Wish
      modes = mode_wishes dep

  -- A reconciliation that is done has made the cluster what the AgentDeployment asks for: every
  -- object that it wants has the specification it wants, an ingress of its name that it does not
  -- want is gone, and every other object is as it was.
  pub reconcile-Synced :
      (is_cidr : String → Bool) (namespace name : String) (dep : AgentDeployment) (w : C.Cluster)
      → (C.get_agent namespace name w).0 ≡ ok dep
      → (reconcile C is_cidr namespace name w).0 ≡ ok done
      → Synced
          (wishes is_cidr dep)
          (L.objects w)
          (L.objects (reconcile C is_cidr namespace name w).1)
  unfolding reconcile ◌>>=◌
  reconcile-Synced is_cidr namespace name dep w e h = rw e (record {
    granted = (reconcile_agent-Implements is_cidr dep).grants w' done (rw e at h) refl;
    untouched = λ k n.
        (reconcile_agent-Implements is_cidr dep).keeps w' k n ∙ L.agent_kept namespace name w k;
  })
    where
      w' : C.Cluster
      w' = (C.get_agent namespace name w).1

  found-Untouched :
      (is_cidr : String → Bool) (r : Result AgentDeployment) (w : C.Cluster) (k : Key)
      → ((dep : AgentDeployment) → r ≡ ok dep → wish (wishes is_cidr dep) k ≡ none)
      → L.objects (reconcile_found C is_cidr r w).1 k ≡ L.objects w k
  found-Untouched is_cidr (ok dep) w k h =
      (reconcile_agent-Implements is_cidr dep).keeps w k (h dep refl)
  found-Untouched is_cidr (failed e) w k h = refl

  -- Whatever call fails, and wherever, a reconciliation leaves every object alone that is not
  -- among those that the AgentDeployment it found wants, or wants away.
  pub reconcile-Untouched :
      (is_cidr : String → Bool) (namespace name : String) (w : C.Cluster) (k : Key)
      → ((dep : AgentDeployment)
          → (C.get_agent namespace name w).0 ≡ ok dep
          → wish (wishes is_cidr dep) k ≡ none)
      → L.objects (reconcile C is_cidr namespace name w).1 k ≡ L.objects w k
  unfolding reconcile ◌>>=◌
  reconcile-Untouched is_cidr namespace name w k h =
      found-Untouched is_cidr (C.get_agent namespace name w).0 (C.get_agent namespace name w).1 k h
      ∙ L.agent_kept namespace name w k
