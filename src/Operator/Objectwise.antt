-- ===== src/Operator/Objectwise.antt =====
-- The functions of agentdeployment_controller.go that reconcile one object implement the wish for
-- that object.
use mathlib.Core.Path.{subst}
use langopen.Prelude.{◌≡◌, refl, sym, ◌∙◌, String, false, Option, none, some, [], ◌∷◌}
use langopen.Operator.Objects.{
  Key, Spec, Object, Manifest, key_eq, with_cluster_ip, cluster_ip_of, deployment, service,
  network_policy, ingress, sandbox_template, warm_pool,
}
use langopen.Operator.Client.{
  not_found, no_match, other_error, Result, ok, failed, Client, IsLawful,
}
use langopen.Operator.Steps.{attempt, ◌>>=◌}
use langopen.Operator.Sync.{wish_for, Granted}
use langopen.Operator.Implements.{
  Implements, Any, bind-Implements, idle-Implements, fail-Implements, single-Implements,
}
use langopen.Operator.Reconcile.{
  put_spec, put_service, drop_ingress, reconcile_deployment, reconcile_network_policy,
  reconcile_ingress, reconcile_service, delete_ingress_if_exists,
}

-- A specification agrees with itself, whatever its kind.
own_ip : (s : Spec) → s ≡ with_cluster_ip (cluster_ip_of s) s
own_ip (deployment s) = refl
own_ip (service s) = refl
own_ip (network_policy s) = refl
own_ip (ingress s) = refl
own_ip (sandbox_template s) = refl
own_ip (warm_pool s) = refl

module _ (C : Client) (L : IsLawful C) where
  pub create-Implements :
      (m : Manifest) → Implements C L (Any C L) (C.create m.key m.object) (wish_for m ∷ [])
  create-Implements m =
      single-Implements C L (C.create m.key m.object) m.key (some m.object.spec)
        (λ w k e. L.create_others m.key m.object w k e)
        (λ w h. let (ip, e) = L.create_done m.key m.object w h in (_, ip, e, refl))

  pub update-Implements :
      (m : Manifest) (o : Object) (ip : String)
      → Implements C L
          (Any C L)
          (C.update m.key (record o { spec = with_cluster_ip ip m.object.spec }))
          (wish_for m ∷ [])
  update-Implements m o ip =
      single-Implements C L _ m.key (some m.object.spec) (λ w k e. L.update_others m.key _ w k e)
        (λ w h. (_, _, L.update_done m.key _ w h, refl))

  pub get-Implements : (j : Key) → Implements C L (Any C L) (C.get j) []
  get-Implements j = idle-Implements C L (C.get j) (λ w k. L.get_kept j w k)

  -- The specification itself, for the kinds that leave no field to the cluster.
  pub same-Implements :
      (m : Manifest) (o : Object)
      → Implements C L
          (Any C L)
          (C.update m.key (record o { spec = m.object.spec }))
          (wish_for m ∷ [])
  same-Implements m o =
      subst
        (λ t. Implements C L (Any C L) (C.update m.key (record o { spec = t })) (wish_for m ∷ []))
        (sym (own_ip m.object.spec)) (update-Implements m o (cluster_ip_of m.object.spec))

  pub looked-Implements :
      (m : Manifest) (g : Result Object → C.Cluster → Result (Unit {0}) × C.Cluster)
      → ((r : Result Object) → Implements C L (Any C L) (g r) (wish_for m ∷ []))
      → Implements C L (Any C L) (attempt (C.get m.key) >>= g) (wish_for m ∷ [])
  looked-Implements m g h =
      bind-Implements C L (attempt (C.get m.key)) g [] (wish_for m ∷ [])
        (idle-Implements C L (attempt (C.get m.key)) (λ w k. L.get_kept m.key w k)) h

  put_spec-Implements :
      (m : Manifest) (r : Result Object)
      → Implements C L (Any C L) (put_spec C m r) (wish_for m ∷ [])
  put_spec-Implements m (ok o) = same-Implements m o
  put_spec-Implements m (failed not_found) = create-Implements m
  put_spec-Implements m (failed no_match) = fail-Implements C L no_match _
  put_spec-Implements m (failed (other_error e)) = fail-Implements C L (other_error e) _

  spec-Implements :
      (m : Manifest)
      → Implements C L (Any C L) (attempt (C.get m.key) >>= put_spec C m) (wish_for m ∷ [])
  spec-Implements m = looked-Implements m (put_spec C m) (put_spec-Implements m)

  pub reconcile_deployment-Implements :
      (m : Manifest) → Implements C L (Any C L) (reconcile_deployment C m) (wish_for m ∷ [])
  unfolding reconcile_deployment
  reconcile_deployment-Implements m = spec-Implements m

  pub reconcile_network_policy-Implements :
      (m : Manifest) → Implements C L (Any C L) (reconcile_network_policy C m) (wish_for m ∷ [])
  unfolding reconcile_network_policy
  reconcile_network_policy-Implements m = spec-Implements m

  pub reconcile_ingress-Implements :
      (m : Manifest) → Implements C L (Any C L) (reconcile_ingress C m) (wish_for m ∷ [])
  unfolding reconcile_ingress
  reconcile_ingress-Implements m = spec-Implements m

  put_service-Implements :
      (m : Manifest) (r : Result Object)
      → Implements C L (Any C L) (put_service C m r) (wish_for m ∷ [])
  put_service-Implements m (ok o) = update-Implements m o (cluster_ip_of o.spec)
  put_service-Implements m (failed not_found) = create-Implements m
  put_service-Implements m (failed no_match) = fail-Implements C L no_match _
  put_service-Implements m (failed (other_error e)) = fail-Implements C L (other_error e) _

  pub reconcile_service-Implements :
      (m : Manifest) → Implements C L (Any C L) (reconcile_service C m) (wish_for m ∷ [])
  unfolding reconcile_service
  reconcile_service-Implements m = looked-Implements m (put_service C m) (put_service-Implements m)

  -- What follows a `Get` of the object, from the two ways in which it can change the object.
  found-Implements :
      (j : Key) (s : Option Spec) (g : Result Object → C.Cluster → Result (Unit {0}) × C.Cluster)
      → ((r : Result Object) (w : C.Cluster) (k : Key)
          → key_eq j k ≡ false
          → L.objects (g r w).1 k ≡ L.objects w k)
      → ((r : Result Object) (w : C.Cluster)
          → (C.get j w).0 ≡ r
          → (g r (C.get j w).1).0 ≡ ok tt
          → Granted s (L.objects (g r (C.get j w).1).1 j))
      → Implements C L (Any C L) (attempt (C.get j) >>= g) ((j, s) ∷ [])
  unfolding ◌>>=◌
  found-Implements j s g others done =
      single-Implements C L (attempt (C.get j) >>= g) j s
        (λ w k e. others (C.get j w).0 (C.get j w).1 k e ∙ L.get_kept j w k)
        (λ w e. done (C.get j w).0 w refl e)

  drop_ingress-others :
      (j : Key) (r : Result Object) (w : C.Cluster) (k : Key)
      → key_eq j k ≡ false
      → L.objects (drop_ingress C j r w).1 k ≡ L.objects w k
  drop_ingress-others j (ok o) w k e = L.delete_others j w k e
  drop_ingress-others j (failed not_found) w k e = refl
  drop_ingress-others j (failed no_match) w k e = refl
  drop_ingress-others j (failed (other_error x)) w k e = refl

  drop_ingress-gone :
      (j : Key) (r : Result Object) (w : C.Cluster)
      → (C.get j w).0 ≡ r
      → (drop_ingress C j r (C.get j w).1).0 ≡ ok tt
      → L.objects (drop_ingress C j r (C.get j w).1).1 j ≡ none
  drop_ingress-gone j (ok o) w e h = L.delete_done j (C.get j w).1 h
  drop_ingress-gone j (failed not_found) w e h = L.get_kept j w j ∙ L.get_missing j w e
  drop_ingress-gone j (failed no_match) w e h = cc h
  drop_ingress-gone j (failed (other_error x)) w e h = cc h

  pub delete_ingress_if_exists-Implements :
      (j : Key) → Implements C L (Any C L) (delete_ingress_if_exists C j) ((j, none) ∷ [])
  unfolding delete_ingress_if_exists
  delete_ingress_if_exists-Implements j =
      found-Implements j none (drop_ingress C j) (drop_ingress-others j) (drop_ingress-gone j)
