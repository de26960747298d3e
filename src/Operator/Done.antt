-- ===== src/Operator/Done.antt =====
-- `Reconcile` of agentdeployment_controller.go on a cluster where no call fails: it gets through.
use langopen.Prelude.{
  ◌≡◌, refl, ◌∙◌, String, Bool, none, some, ◌==◌, Bool-cases, Option-cases, inl, inr,
}
use langopen.Operator.{AgentDeployment}
use langopen.Operator.Objects.{Key, Object, Manifest, ingress_kind, key_eq_refl}
use langopen.Operator.Desired.{
  runtime_class_of, mode_of, wants_ingress, key_of, desired_ingress, desired_sandbox_template,
  desired_warm_pool,
}
use langopen.Operator.Client.{not_found, Result, ok, failed, Client, IsLawful, IsUp}
use langopen.Operator.Steps.{attempt, ◌>>=◌, ◌>>◌}
use langopen.Operator.Sync.{wish}
use langopen.Operator.Sandboxes.{reconcile_unstructured-Implements}
use langopen.Operator.Reconcile.{
  done, put_spec, put_service, put_unstructured, reconcile_deployment, reconcile_network_policy,
  reconcile_ingress, reconcile_service, reconcile_unstructured, delete_ingress_if_exists,
  reconcile_sandbox_resources, owned, after_sandbox, mark_ready, reconcile_mode, reconcile_exposure,
  reconcile_agent, reconcile,
}

module _ (C : Client) (L : IsLawful C) (U : IsUp C L) where
  abbrev pub Returns : {A : Type 0} → (C.Cluster → Result A × C.Cluster) → A → Type 0
  Returns m a = (w : C.Cluster) → (m w).0 ≡ ok a

  bind-Returns :
      {A B : Type 0} (m : C.Cluster → Result A × C.Cluster)
      (f : A → C.Cluster → Result B × C.Cluster) (a : A) (b : B)
      → Returns m a
      → Returns (f a) b
      → Returns (m >>= f) b
  unfolding ◌>>=◌
  bind-Returns m f a b hm hf w = rw (hm w) (hf (m w).1)

  -- After a `Get`: an object that is missing, or one that is there.
  looked-Returns :
      (m : Manifest) (g : Result Object → C.Cluster → Result (Unit {0}) × C.Cluster)
      → ((w : C.Cluster) → L.objects w m.key ≡ none → (g (failed not_found) w).0 ≡ ok tt)
      → ((w : C.Cluster) (o : Object) → L.objects w m.key ≡ some o → (g (ok o) w).0 ≡ ok tt)
      → Returns (attempt (C.get m.key) >>= g) tt
  unfolding ◌>>=◌
  looked-Returns m g absent present w = elim (Option-cases (L.objects w m.key)) [
    | inl e ↦
        rw (U.get_answers m.key w, e) (absent (C.get m.key w).1 (L.get_kept m.key w m.key ∙ e))
    | inr (o, e) ↦
        rw (U.get_answers m.key w, e) (present (C.get m.key w).1 o (L.get_kept m.key w m.key ∙ e))
  ]

  spec-Returns : (m : Manifest) → Returns (attempt (C.get m.key) >>= put_spec C m) tt
  spec-Returns m =
      looked-Returns m (put_spec C m) (λ w e. U.create_works m.key m.object w e)
        (λ w o e. U.update_works m.key _ o w e)

  deployment-Returns : (m : Manifest) → Returns (reconcile_deployment C m) tt
  unfolding reconcile_deployment
  deployment-Returns m = spec-Returns m

  policy-Returns : (m : Manifest) → Returns (reconcile_network_policy C m) tt
  unfolding reconcile_network_policy
  policy-Returns m = spec-Returns m

  ingress-Returns : (m : Manifest) → Returns (reconcile_ingress C m) tt
  unfolding reconcile_ingress
  ingress-Returns m = spec-Returns m

  service-Returns : (m : Manifest) → Returns (reconcile_service C m) tt
  unfolding reconcile_service
  service-Returns m =
      looked-Returns m (put_service C m) (λ w e. U.create_works m.key m.object w e)
        (λ w o e. U.update_works m.key _ o w e)

  -- An object that is there can be read.
  get-ok : (k : Key) (w : C.Cluster) {o : Object} → L.objects w k ≡ some o → (C.get k w).0 ≡ ok o
  get-ok k w e = U.get_answers k w ∙ rw e refl

  create-Returns :
      (m : Manifest) (w : C.Cluster)
      → L.objects w m.key ≡ none
      → (put_unstructured C m (failed not_found) w).0 ≡ ok tt
  unfolding ◌>>=◌
  create-Returns m w e =
      let h = U.create_works m.key m.object w e in
      let (ip, there) = L.create_done m.key m.object w h in
      rw (h, get-ok m.key (C.create m.key m.object w).1 there) refl

  unstructured-Returns : (m : Manifest) → Returns (reconcile_unstructured C m) tt
  unfolding reconcile_unstructured
  unstructured-Returns m =
      looked-Returns m (put_unstructured C m) (create-Returns m)
        (λ w o e. U.update_works m.key _ o w e)

  unstructured-there :
      (m : Manifest) (w : C.Cluster)
      → (o : Object) × (L.objects (reconcile_unstructured C m w).1 m.key ≡ some o)
  unfolding wish
  unstructured-there m w =
      let (o, ip, e, s) =
        (reconcile_unstructured-Implements C L m).grants w tt (unstructured-Returns m w) tt m.key
          (some m.object.spec) (rw (key_eq_refl m.key) refl) in
      (o, e)

  pool-Returns :
      (m : Manifest) {B : Type 0} (f : Object → C.Cluster → Result B × C.Cluster) (b : B)
      → ((o : Object) → Returns (f o) b)
      → Returns (reconcile_unstructured C m >> (C.get m.key >>= f)) b
  unfolding ◌>>=◌
  pool-Returns m f b h w =
      let w' = (reconcile_unstructured C m w).1 in
      let (o, e) = unstructured-there m w in
      rw (unstructured-Returns m w, get-ok m.key w' e) (h o (C.get m.key w').1)

  sandbox-Returns :
      (dep : AgentDeployment) (runtime_class : String)
      → Returns (reconcile_sandbox_resources C dep runtime_class) tt
  unfolding reconcile_sandbox_resources
  sandbox-Returns dep runtime_class =
      bind-Returns _ _ tt tt (unstructured-Returns (desired_sandbox_template dep runtime_class))
        (pool-Returns (desired_warm_pool dep) _ tt (λ o w. refl))

  owned-Returns :
      (dep : AgentDeployment) (m : Manifest)
      (put : Manifest → C.Cluster → Result (Unit {0}) × C.Cluster)
      → ((n : Manifest) → Returns (put n) tt)
      → Returns (owned C dep m put) tt
  unfolding ◌>>=◌
  owned-Returns dep m put h w = rw (U.reference_works dep m.object) (h (record m { object = _ }) w)

  drop-Returns : (k : Key) → Returns (delete_ingress_if_exists C k) tt
  unfolding delete_ingress_if_exists ◌>>=◌
  drop-Returns k w = elim (Option-cases (L.objects w k)) [
    | inl e ↦ rw (U.get_answers k w, e) refl
    | inr (o, e) ↦
        rw (U.get_answers k w, e) (U.delete_works k o (C.get k w).1 (L.get_kept k w k ∙ e))
  ]

  exposure-Returns : (dep : AgentDeployment) → Returns (reconcile_exposure C dep) tt
  unfolding reconcile_exposure
  exposure-Returns dep = elim (Bool-cases (wants_ingress dep)) [
    | inl e ↦ rw e (owned-Returns dep (desired_ingress dep) (reconcile_ingress C) ingress-Returns)
    | inr e ↦ rw e (drop-Returns (key_of ingress_kind dep dep.name))
  ]

  ready-Returns : (dep : AgentDeployment) → Returns (mark_ready C dep) done
  unfolding mark_ready
  ready-Returns dep = bind-Returns _ _ tt done (U.status_works _) (λ w. refl)

  mode-Returns : (dep : AgentDeployment) → Returns (reconcile_mode C dep) done
  unfolding reconcile_mode
  mode-Returns dep = elim (Bool-cases (mode_of dep == "mode_b")) [
    | inl e ↦ rw e (
        bind-Returns (attempt (reconcile_sandbox_resources C dep (runtime_class_of dep)))
          (after_sandbox C dep) (ok tt) done
          (λ w. rw (sandbox-Returns dep (runtime_class_of dep) w) refl) (ready-Returns dep))
    | inr e ↦ rw e (bind-Returns _ (λ _. mark_ready C dep) tt done (λ w. refl) (ready-Returns dep))
  ]

  agent-Returns :
      (is_cidr : String → Bool) (dep : AgentDeployment)
      → Returns (reconcile_agent C is_cidr dep) done
  unfolding reconcile_agent
  agent-Returns is_cidr dep =
      bind-Returns _ _ tt done (owned-Returns dep _ (reconcile_deployment C) deployment-Returns) (
        bind-Returns _ _ tt done (owned-Returns dep _ (reconcile_deployment C) deployment-Returns) (
          bind-Returns _ _ tt done (owned-Returns dep _ (reconcile_service C) service-Returns) (
            bind-Returns _ _ tt done
              (owned-Returns dep _ (reconcile_network_policy C) policy-Returns)
              (bind-Returns _ _ tt done (exposure-Returns dep) (mode-Returns dep)))))

  -- On a cluster that is up, with the sandbox types installed, a reconciliation that finds its
  -- AgentDeployment is done: it neither fails nor asks to be called again.
  pub reconcile-done :
      (is_cidr : String → Bool) (namespace name : String) (dep : AgentDeployment) (w : C.Cluster)
      → (C.get_agent namespace name w).0 ≡ ok dep
      → (reconcile C is_cidr namespace name w).0 ≡ ok done
  unfolding reconcile ◌>>=◌
  reconcile-done is_cidr namespace name dep w e =
      rw e (agent-Returns is_cidr dep (C.get_agent namespace name w).1)
