-- ===== src/Deployments/Revert.antt =====
-- Where the handler `rollbackDeploymentV2` of services/control-plane/internal/httpapi/httpapi.go
-- takes the image from: the request, or the revision that it names.
use langopen.Prelude.{
  refl, if◌then◌else◌, ◌≡◌, ◌⊎◌, String, false, Option, none, some, ◌==◌, ◌&&◌, eq_iff, Bool-cases,
  inl, inr,
}
use langopen.Prelude.Text.{trim_space, trim_space_idem}
use langopen.Deployments.{DeploymentRecord, Revision, Plane, get_deployment_revision}
use langopen.Deployments.Agents.{AgentClient, SyncConfig}
use langopen.Deployments.Handlers.{
  deployment_answer, Draws, rollback_deployment_by_digest, rollback_to, rollback_deployment_v2,
}
use langopen.Deployments.Rollback.{
  IsFaithful, IsRolledBack, rollback_deployment_by_digest-IsRolledBack,
}

-- The image that a request means: its own, or, without one, that of the revision that it names.
abbrev pub Means : Plane → String → String → String → String → Type 0
Means p id revision_id asked digest =
    (((asked == "") ≡ false) × (digest ≡ asked))
    ⊎ ((asked ≡ "")
        × (rev : Revision) × (get_deployment_revision id revision_id p ≡ some (some rev))
        × (digest ≡ trim_space rev.image_digest))

-- A request of the handler, trimmed, and the image that its rollback has brought back.
pub record IsReverted (C : AgentClient) (cfg : SyncConfig) (draws : Draws)
    (authorized id revision_id asked : String) (before : Plane) (out : DeploymentRecord)
    (after : Plane) (cluster : C.Cluster) : Type 0 where
  pub digest : String
  pub meant : Means before id revision_id asked digest
  pub rolled_back : IsRolledBack C cfg draws authorized digest out after cluster

trimmed_filled :
    (s : String) → (trim_space s == "") ≡ false → (trim_space (trim_space s) == "") ≡ false
trimmed_filled s h = rw (trim_space_idem s) h

module _ (C : AgentClient) (cfg : SyncConfig) (draws : Draws) where
  rollback_to-IsReverted :
      (authorized id revision_id asked : String) (o : Option (Option Revision)) (p : Plane)
      (w : C.Cluster) (out : DeploymentRecord)
      → IsFaithful C
      → asked ≡ ""
      → get_deployment_revision id revision_id p ≡ o
      → (rollback_to C cfg draws authorized id o p w).0 ≡ deployment_answer 200 out
      → IsReverted C cfg draws authorized id revision_id asked p out
          (rollback_to C cfg draws authorized id o p w).1
          (rollback_to C cfg draws authorized id o p w).2
  rollback_to-IsReverted authorized id revision_id asked none p w out law e f h = cc h
  rollback_to-IsReverted authorized id revision_id asked (some none) p w out law e f h = cc h
  rollback_to-IsReverted authorized id revision_id asked (some (some rev)) p w out law e f h =
      elim (Bool-cases (trim_space rev.image_digest == "")) [
        | inl d ↦ cc
        | inr d ↦ rw d (record {
          digest = trim_space rev.image_digest;
          meant = inr (e, rev, f, refl);
          rolled_back =
              rollback_deployment_by_digest-IsRolledBack C cfg draws authorized id
                (trim_space rev.image_digest) p w out law (trimmed_filled rev.image_digest d)
                (rw d at h);
        })
      ]

  chosen-IsReverted :
      (authorized id revision_id raw_digest : String) (p : Plane) (w : C.Cluster)
      (out : DeploymentRecord)
      → IsFaithful C
      → let asked = trim_space raw_digest in
        let result =
          if asked == ""
          then rollback_to C cfg draws authorized id (get_deployment_revision id revision_id p) p w
          else rollback_deployment_by_digest C cfg draws authorized id asked p w in
        result.0 ≡ deployment_answer 200 out
        → IsReverted C cfg draws authorized id revision_id asked p out result.1 result.2
  chosen-IsReverted authorized id revision_id raw_digest p w out law h =
      elim (Bool-cases (trim_space raw_digest == "")) [
        | inl e ↦ rw e (
            rollback_to-IsReverted authorized id revision_id _ _ p w out law
              ((eq_iff (trim_space raw_digest) "").0 e) refl (rw e at h))
        | inr e ↦ rw e (record {
          digest = trim_space raw_digest;
          meant = inl (e, refl);
          rolled_back =
              rollback_deployment_by_digest-IsRolledBack C cfg draws authorized id
                (trim_space raw_digest) p w out law (trimmed_filled raw_digest e) (rw e at h);
        })
      ]

  -- A rollback of the second version of the API that is answered with a deployment has stored it,
  -- for the caller's project, with the image that the request gives or, if it gives none, with the
  -- image of the revision that it names; and where AgentDeployments are synchronised strictly, by a
  -- client whose writes are read back, the one that the cluster then has of it has that image.
  pub rollback_deployment_v2-IsReverted :
      (authorized raw_id raw_revision raw_digest : String) (p : Plane) (w : C.Cluster)
      (out : DeploymentRecord)
      → IsFaithful C
      → (rollback_deployment_v2 C cfg draws authorized raw_id raw_revision raw_digest p w).0
        ≡ deployment_answer 200 out
      → IsReverted C cfg draws authorized
          (trim_space raw_id)
          (trim_space raw_revision)
          (trim_space raw_digest)
          p
          out
          (rollback_deployment_v2 C cfg draws authorized raw_id raw_revision raw_digest p w).1
          (rollback_deployment_v2 C cfg draws authorized raw_id raw_revision raw_digest p w).2
  unfolding rollback_deployment_v2
  rollback_deployment_v2-IsReverted authorized raw_id raw_revision raw_digest p w out law h =
      let blank = trim_space raw_revision == "" && trim_space raw_digest == "" in
      elim (Bool-cases (trim_space raw_id == "")) [
        | inl e ↦ cc
        | inr e ↦ elim (Bool-cases blank) [
          | inl d ↦ cc
          | inr d ↦
              rw (e, d)
                (chosen-IsReverted authorized (trim_space raw_id) (trim_space raw_revision)
                  raw_digest p w out law (rw (e, d) at h))
        ]
      ]
