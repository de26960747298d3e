-- ===== src/Builder/Within.antt =====
-- `Validate` of services/builder/internal/langgraph/langgraph.go does not leave the repository: what
-- it resolves is a package, a module, or a path within the root that exists.
use langopen.Prelude.{
  ◌≡◌, ◌≢◌, refl, ◌⊎◌, inl, inr, Bool, true, false, ◌&&◌, not, Option, none, some, List, [], ◌∷◌,
  All, All-append, Bool-cases, length, nat_eq,
}
use langopen.Prelude.Text.{Codes, codes, codes_eq, trim_codes}
use langopen.Builder.Langgraph.{
  Config, Files, ValidationResult, Checked, fine, problem, Problem, ResolvedDependency,
  looks_like_path, module_part, index_rune, is_file,
}
use langopen.Builder.Validate.{
  add_graph, add_dependency, check_graphs, check_dependencies, start, refused, require_graphs,
  dependencies_of, warn_default, give_reason, validate_config, validate_parsed, validate,
}
use langopen.Builder.Below.{IsBelow, IsLexical, within-IsBelow}
use langopen.Builder.Resolve.{
  check_graph, check_module, check_path, stat_graph, normalize_dependency, stat_dependency,
  directory_dependency, file_dependency, parse, is_path_within_root,
}

module _ (F : Files) (root : Codes) where
  -- A path that leads nowhere else.
  abbrev pub InRoot : Codes → Type 0
  InRoot path = (F.is_abs path ≡ false) × IsBelow F root (F.join root path)

  -- A graph's target names a module, or a file of the repository.
  abbrev pub GraphOk : Codes × Codes → Type 0
  GraphOk (name, target) =
      (part : Codes) × (module_part target (index_rune target b':') ≡ some part)
      × ((looks_like_path part ≡ false)
          ⊎ (InRoot (F.clean part) × (F.stat (F.join root (F.clean part)) ≡ some false)))

  -- A dependency is a package, or a path of the repository that exists.
  abbrev pub DependencyOk : ResolvedDependency → Type 0
  DependencyOk d =
      (looks_like_path d.source ≡ false)
      ⊎ ((F.is_abs d.source ≡ false)
          × IsBelow F root (F.join root (F.clean d.source))
          × (F.stat (F.join root (F.clean d.source)) ≢ none))

  pub record IsWithin (res : ValidationResult) : Type 0 where
    pub graphs : All GraphOk res.resolved_graphs
    pub dependencies : All DependencyOk res.resolved_dependencies

  abbrev IfFine : {A : Type 0} → (A → Type 0) → Checked A → Type 0
  IfFine P (fine a) = P a
  IfFine P (problem e) = Unit

module _ (F : Files) (root : Codes) (law : IsLexical F) where
  stat_graph-ok :
      (name target part path : Codes) (s : Option Bool)
      → module_part target (index_rune target b':') ≡ some part
      → InRoot F root (F.clean part)
      → F.stat (F.join root (F.clean part)) ≡ s
      → IfFine F root (GraphOk F root) (stat_graph F name target path s)
  stat_graph-ok name target part path none e inside h = tt
  stat_graph-ok name target part path (some true) e inside h = tt
  stat_graph-ok name target part path (some false) e inside h = (part, e, inr (inside, h))

  check_path-ok :
      (name target part : Codes)
      → module_part target (index_rune target b':') ≡ some part
      → IfFine F root (GraphOk F root) (check_path F root name target (F.clean part))
  unfolding check_path
  check_path-ok name target part e = elim (Bool-cases (F.is_abs (F.clean part))) [
    | inl a ↦ rw a tt
    | inr a ↦ elim (Bool-cases (is_path_within_root F root (F.join root (F.clean part)))) [
      | inr o ↦ rw (a, o) tt
      | inl o ↦
          rw (a, o)
            (stat_graph-ok name target part _ (F.stat (F.join root (F.clean part))) e
              (a, within-IsBelow F root (F.clean part) law o) refl)
    ]
  ]

  check_module-ok :
      (name target : Codes) (p : Option Codes)
      → module_part target (index_rune target b':') ≡ p
      → IfFine F root (GraphOk F root) (check_module F root name target p)
  check_module-ok name target none e = tt
  check_module-ok name target (some part) e = elim (Bool-cases (looks_like_path part)) [
    | inl l ↦ rw l (check_path-ok name target part e)
    | inr l ↦ rw l (part, e, inl l)
  ]

  check_graph-ok : (g : Codes × Codes) → IfFine F root (GraphOk F root) (check_graph F root g)
  unfolding check_graph
  check_graph-ok (name, raw) = elim (Bool-cases (codes_eq (trim_codes raw) [])) [
    | inl e ↦ rw e tt
    | inr e ↦ rw e (check_module-ok name (trim_codes raw) _ refl)
  ]

  -- Every dependency that comes out of a directory or a file keeps the source it was asked for.
  abbrev HasSource : Codes → ResolvedDependency → Type 0
  HasSource source d = d.source ≡ source

  directory-source :
      (source path : Codes)
      → IfFine F root (HasSource source) (directory_dependency F root source path)
  unfolding directory_dependency
  directory-source source path =
      elim (Bool-cases (is_file (F.stat (F.join path (codes "requirements.txt"))))) [
        | inl a ↦ rw a refl
        | inr a ↦ elim (Bool-cases (is_file (F.stat (F.join path (codes "pyproject.toml"))))) [
          | inl b ↦ rw (a, b) refl
          | inr b ↦ elim (Bool-cases (is_file (F.stat (F.join path (codes "setup.py"))))) [
            | inl c ↦ rw (a, b, c) refl
            | inr c ↦ rw (a, b, c) tt
          ]
        ]
      ]

  file-source :
      (source path : Codes) → IfFine F root (HasSource source) (file_dependency F root source path)
  unfolding file_dependency
  file-source source path =
      elim (Bool-cases (F.equal_fold (F.base path) (codes "requirements.txt"))) [
        | inl a ↦ rw a refl
        | inr a ↦ rw a tt
      ]

  with-source :
      (source : Codes) (c : Checked ResolvedDependency)
      → IfFine F root (HasSource source) c
      → (F.is_abs source ≡ false)
      → IsBelow F root (F.join root (F.clean source))
      → (F.stat (F.join root (F.clean source)) ≢ none)
      → IfFine F root (DependencyOk F root) c
  with-source source (problem e) h a o s = tt
  with-source source (fine d) h a o s = rw h (inr (a, o, s))

  stat_dependency-ok :
      (source : Codes) (s : Option Bool)
      → F.stat (F.join root (F.clean source)) ≡ s
      → (F.is_abs source ≡ false)
      → IsBelow F root (F.join root (F.clean source))
      → IfFine F root
          (DependencyOk F root)
          (stat_dependency F root source (F.join root (F.clean source)) s)
  stat_dependency-ok source none e a o = tt
  stat_dependency-ok source (some true) e a o =
      with-source source _ (directory-source source _) a o (λ n. cc (e, n))
  stat_dependency-ok source (some false) e a o =
      with-source source _ (file-source source _) a o (λ n. cc (e, n))

  normalize_dependency-ok :
      (dep : Codes) → IfFine F root (DependencyOk F root) (normalize_dependency F root dep)
  unfolding normalize_dependency
  normalize_dependency-ok dep =
      let source = trim_codes dep in
      elim (Bool-cases (codes_eq source [])) [
        | inl e ↦ rw e tt
        | inr e ↦ elim (Bool-cases (looks_like_path source)) [
          | inr l ↦ rw (e, l) (inl l)
          | inl l ↦ elim (Bool-cases (F.is_abs source)) [
            | inl a ↦ rw (e, l, a) tt
            | inr a ↦
                elim (Bool-cases (is_path_within_root F root (F.join root (F.clean source)))) [
                  | inr o ↦ rw (e, l, a, o) tt
                  | inl o ↦
                      rw (e, l, a, o)
                        (stat_dependency-ok source _ refl a
                          (within-IsBelow F root (F.clean source) law o))
                ]
          ]
        ]
      ]

  add_graph-IsWithin :
      (c : Checked (Codes × Codes)) (res : ValidationResult)
      → IfFine F root (GraphOk F root) c
      → IsWithin F root res
      → IsWithin F root (add_graph c res)
  add_graph-IsWithin (fine g) res h w = record {
    graphs = All-append (GraphOk F root) res.resolved_graphs (g ∷ []) w.graphs (h, tt);
    dependencies = w.dependencies;
  }
  add_graph-IsWithin (problem e) res h w = record {
    graphs = w.graphs;
    dependencies = w.dependencies;
  }

  add_dependency-IsWithin :
      (c : Checked ResolvedDependency) (res : ValidationResult)
      → IfFine F root (DependencyOk F root) c
      → IsWithin F root res
      → IsWithin F root (add_dependency c res)
  add_dependency-IsWithin (fine d) res h w = record {
    graphs = w.graphs;
    dependencies =
        All-append (DependencyOk F root) res.resolved_dependencies (d ∷ []) w.dependencies (h, tt);
  }
  add_dependency-IsWithin (problem e) res h w = record {
    graphs = w.graphs;
    dependencies = w.dependencies;
  }

  check_graphs-IsWithin :
      (gs : List (Codes × Codes)) (res : ValidationResult)
      → IsWithin F root res
      → IsWithin F root (check_graphs F root gs res)
  unfolding check_graphs
  check_graphs-IsWithin [] res w = w
  check_graphs-IsWithin (g ∷ gs) res w =
      check_graphs-IsWithin gs _
        (add_graph-IsWithin (check_graph F root g) res (check_graph-ok g) w)

  check_dependencies-IsWithin :
      (ds : List Codes) (res : ValidationResult)
      → IsWithin F root res
      → IsWithin F root (check_dependencies F root ds res)
  unfolding check_dependencies
  check_dependencies-IsWithin [] res w = w
  check_dependencies-IsWithin (d ∷ ds) res w =
      check_dependencies-IsWithin ds _
        (add_dependency-IsWithin (normalize_dependency F root d) res (normalize_dependency-ok d) w)

  require_graphs-IsWithin :
      (cfg : Config) (gs : List (Codes × Codes)) → IsWithin F root (require_graphs gs (start cfg))
  unfolding require_graphs start
  require_graphs-IsWithin cfg [] = record { graphs = tt; dependencies = tt }
  require_graphs-IsWithin cfg (g ∷ gs) = record { graphs = tt; dependencies = tt }

  warn_default-IsWithin :
      (ds : List Codes) (res : ValidationResult)
      → IsWithin F root res
      → IsWithin F root (warn_default ds res)
  unfolding warn_default
  warn_default-IsWithin [] res w = record { graphs = w.graphs; dependencies = w.dependencies }
  warn_default-IsWithin (d ∷ ds) res w = w

  give_reason-IsWithin :
      (res : ValidationResult) → IsWithin F root res → IsWithin F root (give_reason res)
  unfolding give_reason
  give_reason-IsWithin res w = elim (Bool-cases (not res.valid && nat_eq (length res.errors) 0)) [
    | inl e ↦ rw e (record { graphs = w.graphs; dependencies = w.dependencies })
    | inr e ↦ rw e w
  ]

  validate_config-IsWithin : (cfg : Config) → IsWithin F root (validate_config F root cfg)
  unfolding validate_config
  validate_config-IsWithin cfg = give_reason-IsWithin _ (
      check_dependencies-IsWithin (dependencies_of cfg) _ (
        warn_default-IsWithin cfg.dependencies _
          (check_graphs-IsWithin cfg.graphs _ (require_graphs-IsWithin cfg cfg.graphs))))

  refused-IsWithin : (e : Problem) → IsWithin F root (refused e)
  unfolding refused
  refused-IsWithin e = record { graphs = tt; dependencies = tt }

  parsed-IsWithin :
      (repo_root : Codes) (c : Checked Config)
      → F.abs repo_root ≡ some root
      → IsWithin F root (validate_parsed F repo_root c)
  parsed-IsWithin repo_root (problem p) e = refused-IsWithin p
  parsed-IsWithin repo_root (fine cfg) e = rw e (validate_config-IsWithin cfg)

-- Each graph that a validation resolves names a module, or a file of the repository; each dependency
-- is a package, or something of the repository that exists; and where the paths of the repository
-- lead, no part of them leads up from the root. `Join` and `Rel` are as path/filepath documents them.
pub validate-IsWithin :
    (F : Files) (repo_root root config_path : Codes)
    → IsLexical F
    → F.abs repo_root ≡ some root
    → IsWithin F root (validate F repo_root config_path)
unfolding validate
validate-IsWithin F repo_root root config_path law e =
    parsed-IsWithin F root law repo_root (parse F config_path) e
