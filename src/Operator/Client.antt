-- ===== src/Operator/Client.antt =====
-- The Kubernetes client as `AgentDeploymentReconciler` meets it, a parameter: operations over an
-- unknown cluster, and what its documentation says of them.
use langopen.Prelude.{◌≡◌, String, false, Option, none, some}
use langopen.Prelude.Int.{ℤ}
use langopen.Operator.{AgentDeployment}
use langopen.Operator.Objects.{Key, Object, key_eq, with_cluster_ip}

-- `not_found` is `apierrors.IsNotFound`, `no_match` is `apimeta.IsNoMatchError`.
pub data ApiError : Type 0 where
  not_found no_match : ApiError
  other_error : String → ApiError

pub data Result {ℓ} (A : Type ℓ) : Type ℓ where
  ok : A → Result A
  failed : ApiError → Result A

pub record Client : Type 1 where
  pub Cluster : Type 0
  pub get_agent : String → String → Cluster → Result AgentDeployment × Cluster
  pub get : Key → Cluster → Result Object × Cluster
  pub create : Key → Object → Cluster → Result (Unit {0}) × Cluster
  pub update : Key → Object → Cluster → Result (Unit {0}) × Cluster
  pub delete : Key → Cluster → Result (Unit {0}) × Cluster
  pub update_status : AgentDeployment → Cluster → Result (Unit {0}) × Cluster
  pub set_controller_reference : AgentDeployment → Object → Result Object
  pub set_gauges : String → String → ℤ → ℤ → Cluster → Cluster

-- What a call that succeeded has done; a call that failed has done nothing to the objects.
pub record IsLawful (C : Client) : Type 0 where
  pub objects : C.Cluster → Key → Option Object
  pub agent_kept :
      (n m : String) (w : C.Cluster) (k : Key) → objects (C.get_agent n m w).1 k ≡ objects w k
  pub get_kept : (j : Key) (w : C.Cluster) (k : Key) → objects (C.get j w).1 k ≡ objects w k
  pub get_found :
      (k : Key) (w : C.Cluster) {o : Object} → (C.get k w).0 ≡ ok o → objects w k ≡ some o
  pub get_missing :
      (k : Key) (w : C.Cluster) → (C.get k w).0 ≡ failed not_found → objects w k ≡ none
  pub create_done :
      (k : Key) (o : Object) (w : C.Cluster)
      → (C.create k o w).0 ≡ ok tt
      → (ip : String) × (objects (C.create k o w).1 k
          ≡ some (record o { spec = with_cluster_ip ip o.spec }))
  pub create_others :
      (j : Key) (o : Object) (w : C.Cluster) (k : Key)
      → key_eq j k ≡ false
      → objects (C.create j o w).1 k ≡ objects w k
  pub update_done :
      (k : Key) (o : Object) (w : C.Cluster)
      → (C.update k o w).0 ≡ ok tt
      → objects (C.update k o w).1 k ≡ some o
  pub update_others :
      (j : Key) (o : Object) (w : C.Cluster) (k : Key)
      → key_eq j k ≡ false
      → objects (C.update j o w).1 k ≡ objects w k
  pub delete_done :
      (k : Key) (w : C.Cluster) → (C.delete k w).0 ≡ ok tt → objects (C.delete k w).1 k ≡ none
  pub delete_others :
      (j : Key) (w : C.Cluster) (k : Key)
      → key_eq j k ≡ false
      → objects (C.delete j w).1 k ≡ objects w k
  pub status_kept :
      (dep : AgentDeployment) (w : C.Cluster) (k : Key)
      → objects (C.update_status dep w).1 k ≡ objects w k
  pub gauges_kept :
      (n m : String) (a b : ℤ) (w : C.Cluster) (k : Key)
      → objects (C.set_gauges n m a b w) k ≡ objects w k
  pub reference_set :
      (dep : AgentDeployment) (o : Object) {p : Object}
      → C.set_controller_reference dep o ≡ ok p
      → p ≡ record o { owner = some dep.uid }

abbrev pub answer : Option Object → Result Object
answer none = failed not_found
answer (some o) = ok o

-- A cluster that is up and has the types of every object: no call fails but for what is asked.
pub record IsUp (C : Client) (L : IsLawful C) : Type 0 where
  pub get_answers : (k : Key) (w : C.Cluster) → (C.get k w).0 ≡ answer (L.objects w k)
  pub create_works :
      (k : Key) (o : Object) (w : C.Cluster) → L.objects w k ≡ none → (C.create k o w).0 ≡ ok tt
  pub update_works :
      (k : Key) (o p : Object) (w : C.Cluster) → L.objects w k ≡ some p → (C.update k o w).0 ≡ ok tt
  pub delete_works :
      (k : Key) (p : Object) (w : C.Cluster) → L.objects w k ≡ some p → (C.delete k w).0 ≡ ok tt
  pub status_works : (dep : AgentDeployment) (w : C.Cluster) → (C.update_status dep w).0 ≡ ok tt
  pub reference_works :
      (dep : AgentDeployment) (o : Object)
      → C.set_controller_reference dep o ≡ ok (record o { owner = some dep.uid })
