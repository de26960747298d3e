-- ===== src/Examples/Builder.antt =====
-- A repository with one graph and its root as a dependency, and a builder that knows one build.
use mathlib.Core.Path.{subst}
use langopen.Builder.Below.{IsLexical, leads_up}
use langopen.Prelude.{
  nat_eq, arith, Option, ap, sym, ◌∙◌, ◌≡◌, refl, true, false, none, some, [], ◌∷◌, ◌++◌,
  if◌then◌else◌, Bool-cases, inl, inr,
}
use langopen.Prelude.Int.{pos}
use langopen.Prelude.Maps.{lookup}
use langopen.Prelude.Text.{Codes, codes, codes_eq, codes_eq→≡, trim_codes, has_prefix, drop_prefix}
use langopen.Builder.Langgraph.{Files, Config}
use langopen.Builder.Validate.{validate}
use langopen.Builder.Reports.{no_errors, validate-valid}
use langopen.Builder.Within.{IsWithin, validate-IsWithin}
use langopen.Builder.Api.{BuildRecord, Api, status_of}
use langopen.Builder.Consistent.{IsConsistent}
use langopen.Builder.Handlers.{Service, Kube, BuildRequest, already_exists, trigger_build}
use langopen.Builder.Reads.{get_build}
use langopen.Builder.Kept.{trigger_build-IsConsistent, get_build-IsConsistent}

abbrev one_graph : Config
one_graph = record {
  graphs = (codes "agent", codes " ./agent.py:graph") ∷ [];
  dependencies = [];
  python_version = [];
  pip_installer = [];
}

-- Joined with a slash; what leads up from below the root is not answered.
abbrev below_root : Codes → Codes → Codes
below_root root path = root ++ (b'/' ∷ path)

abbrev level_path : Codes → Option Codes
level_path path = if leads_up path then none else some path

abbrev way_to : Codes → Codes → Option Codes
way_to root path =
    let prefix = root ++ (b'/' ∷ []) in
    if has_prefix path prefix then level_path (drop_prefix path prefix) else none

abbrev repository : Files
repository = record {
  read_file = λ p. some [];
  unmarshal = λ s. some one_graph;
  abs = λ p. some p;
  clean = λ p. p;
  join = below_root;
  is_abs = λ p. false;
  rel = way_to;
  dir = λ p. p;
  base = λ p. p;
  to_slash = λ p. p;
  equal_fold = λ a b. codes_eq a b;
  stat = λ p. some (codes_eq p (codes "/r/."));
}

joined_again :
    (root path way : Codes)
    → has_prefix path (root ++ (b'/' ∷ [])) ≡ true
    → drop_prefix path (root ++ (b'/' ∷ [])) ≡ way
    → below_root root way ≡ path
unfolding has_prefix drop_prefix
joined_again [] [] way h e = cc h
joined_again [] (c ∷ path) way h e = ground (arith, h, e)
joined_again (d ∷ root) [] way h e = cc h
joined_again (d ∷ root) (c ∷ path) way h e = elim (Bool-cases (nat_eq c d)) [
  | inr n ↦ cc (rw n at h)
  | inl n ↦
      let same : c ≡ d = ground (arith, n) in
      let rest : below_root root way ≡ path = joined_again root path way (rw n at h) e in
      cc (same, rest)
]

same_codes : {a b : Codes} → some a ≡ some b → a ≡ b
same_codes h = cc h

way-level :
    (root path way : Codes)
    → way_to root path ≡ some way
    → (below_root root way ≡ path) × (leads_up way ≡ false)
way-level root path way e =
    let prefix = root ++ (b'/' ∷ []) in
    elim (Bool-cases (has_prefix path prefix)) [
      | inr p ↦ cc (rw p at e)
      | inl p ↦ elim (Bool-cases (leads_up (drop_prefix path prefix))) [
        | inl u ↦ cc (rw (p, u) at e)
        | inr u ↦
            let same : drop_prefix path prefix ≡ way = same_codes (rw (p, u) at e) in
            (joined_again root path way p same, ap leads_up (sym same) ∙ u)
      ]
    ]

repository-IsLexical : IsLexical repository
repository-IsLexical = record {
  joined = λ a b. refl;
  relative = λ root path rel e. (way-level root path rel e).0;
  fronted = λ root path rel e level. (way-level root path rel e).1;
}

validate-valid_example :
    (validate repository (codes "/r") (codes "/r/langgraph.json")).valid
    ≡ no_errors (validate repository (codes "/r") (codes "/r/langgraph.json"))
validate-valid_example = validate-valid repository (codes "/r") (codes "/r/langgraph.json")

validate-IsWithin_example :
    IsWithin repository (codes "/r") (validate repository (codes "/r") (codes "/r/langgraph.json"))
validate-IsWithin_example =
    validate-IsWithin repository (codes "/r") (codes "/r") (codes "/r/langgraph.json")
      repository-IsLexical refl

abbrev queued : BuildRecord
queued = record {
  id = codes "b1";
  deployment_id = codes "d1";
  status = codes "queued";
  commit_sha = codes "c0ffee";
  image_name = codes "img";
  image_digest = codes "sha256:0";
  job_name = codes "job-1";
  job_submitted = true;
  logs_ref = codes "k8s://builds/jobs/job-1";
  loki_labels = [];
  created_at = 5;
  updated_at = 5;
}

abbrev one_build : Api
one_build = record {
  execute_jobs = true;
  build_namespace = codes "builds";
  builds = (codes "b1", queued) ∷ [];
  status = (codes "b1", codes "queued") ∷ [];
  logs = [];
  gauge = λ s. if codes_eq (codes "queued") s then pos 1 else pos 0;
  failures = 0;
}

only_queued :
    (i : Codes) (rec : BuildRecord)
    → lookup i one_build.builds ≡ some rec
    → (codes "b1" ≡ i) × (queued ≡ rec)
unfolding lookup
only_queued i rec h = elim (Bool-cases (codes_eq (codes "b1") i)) [
  | inl e ↦ (codes_eq→≡ (codes "b1") i e, some_inj (rw e at h))
  | inr e ↦ cc (rw e at h)
]
  where
    some_inj : {x y : BuildRecord} → some x ≡ some y → x ≡ y
    some_inj h = cc h

one_build-IsConsistent : IsConsistent one_build
unfolding lookup status_of codes_eq
one_build-IsConsistent = record {
  gauges = record {
    counted = λ s f. elim (Bool-cases (codes_eq (codes "queued") s)) [
      | inl e ↦ rw e refl
      | inr e ↦ rw e refl
    ];
  };
  ids = λ i rec h. let (a, b) = only_queued i rec h in subst (λ r. r.id ≡ i) b a;
  statuses = λ i rec h.
      let (a, b) = only_queued i rec h in
      subst (λ r. status_of i one_build ≡ r.status) b
        (subst (λ k. status_of k one_build ≡ codes "queued") a refl);
  filled = λ i rec h.
      let (a, b) = only_queued i rec h in subst (λ r. codes_eq r.status [] ≡ false) b refl;
}

abbrev kube : Kube
kube = record {
  get_job = λ n j. some (record { succeeded = 0; failed = 1; active = 0; conditions = [] });
  pod_log = λ n j. none;
  create_job = λ k n p j. already_exists;
}

abbrev request : BuildRequest
request = record {
  deployment_id = codes "d1";
  project_id = codes "p1";
  repo_url = codes "https://r";
  git_ref = [];
  repo_path = codes "/r";
  langgraph_path = [];
  image_name = codes "img";
  commit_sha = codes "c0ffee";
}

abbrev service : Service
service = record { api = one_build; table = none }

trigger_build-IsConsistent_example :
    IsConsistent
      (trigger_build repository (some kube) (λ s. s) (codes "b2") 9 request service).1.api
trigger_build-IsConsistent_example =
    trigger_build-IsConsistent repository (some kube) (λ s. s) (codes "b2") 9 request service
      one_build-IsConsistent

get_build-IsConsistent_example : IsConsistent (get_build (some kube) 9 (codes " b1") service).1.api
unfolding trim_codes lookup codes_eq
get_build-IsConsistent_example =
    get_build-IsConsistent (some kube) 9 (codes " b1") queued service one_build-IsConsistent refl
