-- ===== src/Operator/Sandboxes.antt =====
-- `owned`, `reconcileUnstructured` and `reconcileSandboxResources` of agentdeployment_controller.go
-- implement the wishes for their objects.
use mathlib.Core.Path.{subst}
use langopen.Prelude.{◌≡◌, refl, ap, String, some, [], ◌∷◌}
use langopen.Operator.{AgentDeployment}
use langopen.Operator.Objects.{Object, Manifest}
use langopen.Operator.Desired.{desired_sandbox_template, desired_warm_pool}
use langopen.Operator.Client.{
  not_found, no_match, other_error, Result, ok, failed, Client, IsLawful,
}
use langopen.Operator.Steps.{pure, lift, ◌>>=◌}
use langopen.Operator.Sync.{wish_for}
use langopen.Operator.Implements.{
  Implements, Any, bind-Implements, idle-Implements, fail-Implements,
}
use langopen.Operator.Objectwise.{
  create-Implements, get-Implements, same-Implements, looked-Implements,
}
use langopen.Operator.Reconcile.{
  put_unstructured, reconcile_unstructured, reconcile_sandbox_resources, owned,
}

module _ (C : Client) (L : IsLawful C) where
  put_unstructured-Implements :
      (m : Manifest) (r : Result Object)
      → Implements C L (Any C L) (put_unstructured C m r) (wish_for m ∷ [])
  put_unstructured-Implements m (ok o) = same-Implements C L m o
  put_unstructured-Implements m (failed not_found) =
      bind-Implements C L (C.create m.key m.object) _ (wish_for m ∷ []) [] (create-Implements C L m)
        (λ _.
          bind-Implements C L (C.get m.key) _ [] [] (get-Implements C L m.key)
            (λ _. idle-Implements C L (pure tt) (λ w k. refl)))
  put_unstructured-Implements m (failed no_match) = fail-Implements C L no_match _
  put_unstructured-Implements m (failed (other_error e)) = fail-Implements C L (other_error e) _

  pub reconcile_unstructured-Implements :
      (m : Manifest) → Implements C L (Any C L) (reconcile_unstructured C m) (wish_for m ∷ [])
  unfolding reconcile_unstructured
  reconcile_unstructured-Implements m =
      looked-Implements C L m (put_unstructured C m) (put_unstructured-Implements m)

  pub reconcile_sandbox_resources-Implements :
      (dep : AgentDeployment) (runtime_class : String)
      → Implements C L (Any C L) (reconcile_sandbox_resources C dep runtime_class) (
          wish_for (desired_warm_pool dep)
          ∷ wish_for (desired_sandbox_template dep runtime_class)
          ∷ [])
  unfolding reconcile_sandbox_resources
  reconcile_sandbox_resources-Implements dep runtime_class =
      bind-Implements C L _ _ (wish_for template ∷ []) (wish_for pool ∷ [])
        (reconcile_unstructured-Implements template)
        (λ _.
          bind-Implements C L _ _ (wish_for pool ∷ []) [] (reconcile_unstructured-Implements pool)
            (λ _.
              bind-Implements C L _ _ [] [] (get-Implements C L pool.key)
                (λ o. idle-Implements C L _ (λ w k. L.gauges_kept _ _ _ _ w k))))
    where
      template : Manifest
      template = desired_sandbox_template dep runtime_class

      pool : Manifest
      pool = desired_warm_pool dep

  owned-result :
      (m : Manifest) (put : Manifest → C.Cluster → Result (Unit {0}) × C.Cluster)
      (r : Result Object)
      → ((p : Object) → r ≡ ok p → p.spec ≡ m.object.spec)
      → ((n : Manifest) → Implements C L (Any C L) (put n) (wish_for n ∷ []))
      → Implements C L (Any C L) (lift r >>= λ o. put (record m { object = o })) (wish_for m ∷ [])
  unfolding ◌>>=◌
  owned-result m put (ok p) same h =
      subst (λ t. Implements C L (Any C L) (put (record m { object = p })) ((m.key, some t) ∷ []))
        (same p refl) (h (record m { object = p }))
  owned-result m put (failed e) same h = fail-Implements C L e _

  pub owned-Implements :
      (dep : AgentDeployment) (m : Manifest)
      (put : Manifest → C.Cluster → Result (Unit {0}) × C.Cluster)
      → ((n : Manifest) → Implements C L (Any C L) (put n) (wish_for n ∷ []))
      → Implements C L (Any C L) (owned C dep m put) (wish_for m ∷ [])
  owned-Implements dep m put h =
      owned-result m put (C.set_controller_reference dep m.object)
        (λ p e. ap (λ o. o.spec) (L.reference_set dep m.object e)) h
