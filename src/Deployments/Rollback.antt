-- ===== src/Deployments/Rollback.antt =====
-- What a rollback of services/control-plane/internal/httpapi/httpapi.go leaves: the row, and what
-- the cluster is asked for.
use mathlib.Core.Path.{subst}
use langopen.Prelude.{
  ◌&&◌, ℕ, ◌≡◌, ◌⊎◌, refl, sym, ◌∙◌, ap, String, true, false, Option, none, some, List, [], ◌∷◌,
  ◌==◌, any, find, eq_iff, eq_refl, Bool-cases, inl, inr,
}
use langopen.Prelude.Text.{trim_space}
use langopen.Auth.Control.{resolve_project_id}
use langopen.Operator.Client.{Result, ok, failed, not_found, no_match, other_error}
use langopen.Deployments.{
  DeploymentRecord, Plane, works, Lookup, found, no_rows, lookup_failed, get_deployment,
  replace_deployment, record_deployment_revision, has_id, in_project,
}
use langopen.Deployments.Agents.{
  set_label, AgentObject, namespace_of, put_agent, handle_agent_sync_error, desired_agent,
  AgentClient, SyncConfig, sync_agent_deployment_record, agent_image_for_deployment,
}
use langopen.Deployments.Handlers.{
  deployment_answer, Draws, publish, after_sync, write_row, rollback_row,
  rollback_deployment_by_digest, is_none,
}

-- The row of an id after it was written, where it was there.
find-replace :
    (rec : DeploymentRecord) (ds : List DeploymentRecord)
    → any (has_id rec.id) ds ≡ true
    → find (has_id rec.id) (replace_deployment rec ds) ≡ some rec
unfolding replace_deployment
find-replace rec [] h = cc h
find-replace rec (d ∷ ds) h = elim (Bool-cases (d.id == rec.id)) [
  | inl e ↦ rw (e, eq_refl rec.id) refl
  | inr e ↦ rw (e, e) (find-replace rec ds (rw e at h))
]

-- What a client of the API server of Kubernetes promises: an object that was written is read back.
pub record IsFaithful (C : AgentClient) : Type 0 where
  pub created :
      (namespace : String) (o : AgentObject) (w : C.Cluster)
      → (C.create namespace o w).0 ≡ ok tt
      → (C.get namespace o.name (C.create namespace o w).1).0 ≡ ok o
  pub updated :
      (namespace : String) (o : AgentObject) (w : C.Cluster)
      → (C.update namespace o w).0 ≡ ok tt
      → (C.get namespace o.name (C.update namespace o w).1).0 ≡ ok o

answer_inj :
    {a b : ℕ} {x y : DeploymentRecord} → deployment_answer a x ≡ deployment_answer b y → x ≡ y
answer_inj h = cc h

found_inj : {x y : DeploymentRecord} → found x ≡ found y → x ≡ y
found_inj h = cc h

revised-deployments :
    (i j : String) (now : ℕ) (rec : DeploymentRecord) (reason : String) (p : Plane)
    → (record_deployment_revision i j now rec reason p).deployments ≡ p.deployments
unfolding record_deployment_revision
revised-deployments i j now rec reason p = elim (Bool-cases (works p)) [
  | inl e ↦ rw e refl
  | inr e ↦ rw e refl
]

module _ (C : AgentClient) (cfg : SyncConfig) (draws : Draws) where
  synced-deployments :
      (code : ℕ) (rec : DeploymentRecord) (r : Result (Unit {0})) (p : Plane) (w : C.Cluster)
      → (after_sync C cfg draws code rec r p w).1.deployments ≡ p.deployments
  synced-deployments code rec (ok t) p w = refl
  synced-deployments code rec (failed e) p w = refl

  -- The cluster has an AgentDeployment of the record, with the record's image.
  abbrev pub Runs : DeploymentRecord → C.Cluster → Type 0
  Runs rec w =
      (o : AgentObject) × ((C.get (namespace_of cfg) rec.id w).0 ≡ ok o)
      × (o.name ≡ rec.id)
      × (o.image ≡ agent_image_for_deployment cfg rec)

  -- Errors are dropped where AgentDeployments are not synchronised, or not strictly.
  abbrev pub Lax : Type 0
  Lax = (cfg.enabled && cfg.strict) ≡ false

  unhandled :
      (r : Result (Unit {0}))
      → cfg.strict ≡ true
      → handle_agent_sync_error cfg r ≡ ok tt
      → r ≡ ok tt
  unfolding handle_agent_sync_error
  unhandled (ok t) strict h = refl
  unhandled (failed e) strict h = cc (rw strict at h)

  written-Runs :
      (rec : DeploymentRecord) (r : Result AgentObject) (w : C.Cluster)
      → IsFaithful C
      → cfg.strict ≡ true
      → (put_agent C cfg rec r w).0 ≡ ok tt
      → Runs rec (put_agent C cfg rec r w).1
  unfolding desired_agent
  written-Runs rec (ok current) w law strict h =
      let o : AgentObject = record (desired_agent cfg rec) {
        labels = set_label "project_id" rec.project_id current.labels;
      } in
      (o, law.updated (namespace_of cfg) o w (unhandled _ strict h), refl, refl)
  written-Runs rec (failed not_found) w law strict h =
      let o = desired_agent cfg rec in
      (o, law.created (namespace_of cfg) o w (unhandled _ strict h), refl, refl)
  written-Runs rec (failed no_match) w law strict h = cc (unhandled (failed no_match) strict h)
  written-Runs rec (failed (other_error e)) w law strict h =
      cc (unhandled (failed (other_error e)) strict h)

  synced-Runs :
      (rec : DeploymentRecord) (w : C.Cluster)
      → IsFaithful C
      → (sync_agent_deployment_record C cfg rec w).0 ≡ ok tt
      → Lax ⊎ Runs rec (sync_agent_deployment_record C cfg rec w).1
  unfolding sync_agent_deployment_record
  synced-Runs rec w law h = elim (Bool-cases cfg.enabled) [
    | inr e ↦ inl (rw e refl)
    | inl e ↦ elim (Bool-cases cfg.strict) [
      | inr s ↦ inl (rw (e, s) refl)
      | inl s ↦ inr (
          rw e (
            written-Runs rec (C.get (namespace_of cfg) rec.id w).0
              (C.get (namespace_of cfg) rec.id w).1 law s (rw e at h)))
    ]
  ]

  -- The record of the answer is the one that was written, the row is that record, and the cluster
  -- runs it.
  abbrev IsWritten : DeploymentRecord → DeploymentRecord → Plane → C.Cluster → Type 0
  IsWritten rec out p w =
      (rec ≡ out) × (find (has_id rec.id) p.deployments ≡ some rec) × (Lax ⊎ Runs rec w)

  after_sync-IsWritten :
      (rec out : DeploymentRecord) (r : Result (Unit {0})) (p : Plane) (w : C.Cluster)
      → (after_sync C cfg draws 200 rec r p w).0 ≡ deployment_answer 200 out
      → find (has_id rec.id) p.deployments ≡ some rec
      → (r ≡ ok tt → Lax ⊎ Runs rec w)
      → IsWritten rec out
          (after_sync C cfg draws 200 rec r p w).1
          (after_sync C cfg draws 200 rec r p w).2
  after_sync-IsWritten rec out (ok t) p w h row runs = (answer_inj h, row, runs refl)
  after_sync-IsWritten rec out (failed e) p w h row runs = cc h

  write_row-IsWritten :
      (reason : String) (rec out : DeploymentRecord) (p : Plane) (w : C.Cluster)
      → IsFaithful C
      → (write_row C cfg draws reason rec p w).0 ≡ deployment_answer 200 out
      → IsWritten rec out
          (write_row C cfg draws reason rec p w).1
          (write_row C cfg draws reason rec p w).2
  unfolding publish
  write_row-IsWritten reason rec out p w law h = elim (Bool-cases (works p)) [
    | inr e ↦ cc
    | inl e ↦ elim (Bool-cases (any (has_id rec.id) p.deployments)) [
      | inr d ↦ cc (rw (e, d) at h)
      | inl d ↦
          rw (e, d)
            (after_sync-IsWritten rec out (sync_agent_deployment_record C cfg rec w).0 _
              (sync_agent_deployment_record C cfg rec w).1 (rw (e, d) at h)
              (rw (revised-deployments draws.revision_row_id draws.revision_id draws.now rec reason)
                (find-replace rec p.deployments d))
              (λ done. synced-Runs rec w law done))
    ]
  ]

  -- A record that was looked up is of the caller's project.
  abbrev pub IsOwned : String → DeploymentRecord → Type 0
  IsOwned authorized rec = (authorized ≡ "") ⊎ (rec.project_id ≡ authorized)

  in_project-IsOwned :
      (authorized : String) (o : Option DeploymentRecord) (rec : DeploymentRecord)
      → in_project authorized o ≡ found rec
      → IsOwned authorized rec
  in_project-IsOwned authorized none rec h = cc h
  in_project-IsOwned authorized (some old) rec h = elim (Bool-cases (authorized == "")) [
    | inl e ↦ inl ((eq_iff authorized "").0 e)
    | inr e ↦ elim (Bool-cases (old.project_id == authorized)) [
      | inr d ↦ cc (rw (e, d) at h)
      | inl d ↦
          let same : old ≡ rec = found_inj (rw (e, d) at h) in
          inr (sym (ap (λ r. r.project_id) same) ∙ (eq_iff old.project_id authorized).0 d)
    ]
  ]

  get_deployment-IsOwned :
      (authorized id : String) (p : Plane) (rec : DeploymentRecord)
      → get_deployment authorized id p ≡ found rec
      → IsOwned authorized rec
  unfolding get_deployment
  get_deployment-IsOwned authorized id p rec h = elim (Bool-cases (works p)) [
    | inl e ↦ in_project-IsOwned authorized _ rec (rw e at h)
    | inr e ↦ cc
  ]

  -- What a rollback that succeeded has done.
  pub record IsRolledBack (authorized digest : String) (out : DeploymentRecord) (after : Plane)
      (cluster : C.Cluster) : Type 0 where
    pub stored : find (has_id out.id) after.deployments ≡ some out
    pub digest_set : out.current_image_digest ≡ digest
    pub owned : IsOwned authorized out
    pub runs :
        Lax
        ⊎ ((o : AgentObject) × ((C.get (namespace_of cfg) out.id cluster).0 ≡ ok o)
            × (o.image ≡ trim_space digest))

  image-digest :
      (rec : DeploymentRecord) (digest : String)
      → rec.current_image_digest ≡ digest
      → (trim_space digest == "") ≡ false
      → agent_image_for_deployment cfg rec ≡ trim_space digest
  unfolding agent_image_for_deployment
  image-digest rec digest e n = rw (e, n, n) refl

  rollback_row-IsRolledBack :
      (authorized digest : String) (l : Lookup) (p : Plane) (w : C.Cluster) (out : DeploymentRecord)
      → ((rec : DeploymentRecord) → l ≡ found rec → IsOwned authorized rec)
      → IsFaithful C
      → (trim_space digest == "") ≡ false
      → (rollback_row C cfg draws authorized digest l p w).0 ≡ deployment_answer 200 out
      → IsRolledBack authorized digest out
          (rollback_row C cfg draws authorized digest l p w).1
          (rollback_row C cfg draws authorized digest l p w).2
  rollback_row-IsRolledBack authorized digest no_rows p w out own law n h = cc h
  rollback_row-IsRolledBack authorized digest lookup_failed p w out own law n h = cc h
  rollback_row-IsRolledBack authorized digest (found old) p w out own law n h =
      let rec : DeploymentRecord = record old {
        current_image_digest = digest;
        updated_at = draws.now;
      } in
      elim (Bool-cases (is_none (resolve_project_id authorized old.project_id))) [
        | inl e ↦ cc
        | inr e ↦
            let (same, row, runs) = write_row-IsWritten "rollback" rec out p w law (rw e at h) in
            rw e (
              subst
                (λ o.
                  IsRolledBack authorized digest o (write_row C cfg draws "rollback" rec p w).1
                    (write_row C cfg draws "rollback" rec p w).2)
                same
                (record {
                  stored = row;
                  digest_set = refl;
                  owned = own old refl;
                  runs = elim runs [
                    | inl lax ↦ inl lax
                    | inr (o, read, name, image) ↦
                        inr (o, read, image ∙ image-digest rec digest refl n)
                  ];
                }))
      ]

  -- A rollback that is answered with a deployment has stored it: its row is the deployment of the
  -- answer, of the caller's project, with the image that was asked for; and where AgentDeployments
  -- are synchronised strictly, the one that the cluster then has of it is given that image.
  pub rollback_deployment_by_digest-IsRolledBack :
      (authorized id digest : String) (p : Plane) (w : C.Cluster) (out : DeploymentRecord)
      → IsFaithful C
      → (trim_space digest == "") ≡ false
      → (rollback_deployment_by_digest C cfg draws authorized id digest p w).0
        ≡ deployment_answer 200 out
      → IsRolledBack authorized digest out
          (rollback_deployment_by_digest C cfg draws authorized id digest p w).1
          (rollback_deployment_by_digest C cfg draws authorized id digest p w).2
  unfolding rollback_deployment_by_digest
  rollback_deployment_by_digest-IsRolledBack authorized id digest p w out law n h =
      rollback_row-IsRolledBack authorized digest (get_deployment authorized id p) p w out
        (λ rec e. get_deployment-IsOwned authorized id p rec e) law n h
