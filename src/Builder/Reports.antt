-- ===== src/Builder/Reports.antt =====
-- `Validate` of services/builder/internal/langgraph/langgraph.go: each graph and each dependency is
-- resolved or reported, and the verdict is that nothing was reported.
use langopen.Prelude.{
  ℕ, suc, ◌+◌, ◌≡◌, refl, ◌∙◌, Bool, Option, none, some, List, [], ◌∷◌, length, length-append,
  nat_eq, arith, Bool-cases, inl, inr,
}
use langopen.Prelude.Text.{Codes}
use langopen.Builder.Langgraph.{
  Config, Files, ValidationResult, Checked, fine, problem, Problem, ResolvedDependency,
}
use langopen.Builder.Validate.{
  fail_with, add_graph, add_dependency, check_graphs, check_dependencies, start, refused,
  require_graphs, dependencies_of, warn_default, give_reason, validate_config, validate,
  validate_root, validate_parsed,
}
use langopen.Builder.Resolve.{check_graph, normalize_dependency, parse}

abbrev pub no_errors : ValidationResult → Bool
no_errors res = nat_eq (length res.errors) 0

-- The verdict so far says whether something was reported so far.
pub record IsHonest (res : ValidationResult) : Type 0 where
  pub verdict : res.valid ≡ no_errors res

abbrev pub settled : ValidationResult → ℕ
settled res = length res.errors + length res.resolved_graphs + length res.resolved_dependencies

fail_with-IsHonest :
    (e : Problem) (res : ValidationResult) → IsHonest res → IsHonest (fail_with e res)
fail_with-IsHonest e res h = record { verdict = ground (arith, length-append res.errors (e ∷ [])) }

add_graph-IsHonest :
    (c : Checked (Codes × Codes)) (res : ValidationResult)
    → IsHonest res
    → IsHonest (add_graph c res)
add_graph-IsHonest (fine g) res h = record { verdict = h.verdict }
add_graph-IsHonest (problem e) res h = fail_with-IsHonest e res h

add_dependency-IsHonest :
    (c : Checked ResolvedDependency) (res : ValidationResult)
    → IsHonest res
    → IsHonest (add_dependency c res)
add_dependency-IsHonest (fine d) res h = record { verdict = h.verdict }
add_dependency-IsHonest (problem e) res h = fail_with-IsHonest e res h

add_graph-settled :
    (c : Checked (Codes × Codes)) (res : ValidationResult)
    → settled (add_graph c res) ≡ suc (settled res)
add_graph-settled (fine g) res = omega (arith, length-append res.resolved_graphs (g ∷ []))
add_graph-settled (problem e) res = omega (arith, length-append res.errors (e ∷ []))

add_dependency-settled :
    (c : Checked ResolvedDependency) (res : ValidationResult)
    → settled (add_dependency c res) ≡ suc (settled res)
add_dependency-settled (fine d) res =
    omega (arith, length-append res.resolved_dependencies (d ∷ []))
add_dependency-settled (problem e) res = omega (arith, length-append res.errors (e ∷ []))

module _ (F : Files) (root : Codes) where
  check_graphs-IsHonest :
      (gs : List (Codes × Codes)) (res : ValidationResult)
      → IsHonest res
      → IsHonest (check_graphs F root gs res)
  unfolding check_graphs
  check_graphs-IsHonest [] res h = h
  check_graphs-IsHonest (g ∷ gs) res h =
      check_graphs-IsHonest gs _ (add_graph-IsHonest (check_graph F root g) res h)

  check_dependencies-IsHonest :
      (ds : List Codes) (res : ValidationResult)
      → IsHonest res
      → IsHonest (check_dependencies F root ds res)
  unfolding check_dependencies
  check_dependencies-IsHonest [] res h = h
  check_dependencies-IsHonest (d ∷ ds) res h =
      check_dependencies-IsHonest ds _
        (add_dependency-IsHonest (normalize_dependency F root d) res h)

  check_graphs-settled :
      (gs : List (Codes × Codes)) (res : ValidationResult)
      → settled (check_graphs F root gs res) ≡ length gs + settled res
  unfolding check_graphs
  check_graphs-settled [] res = omega arith
  check_graphs-settled (g ∷ gs) res = omega (
    arith,
    check_graphs-settled gs (add_graph (check_graph F root g) res),
    add_graph-settled (check_graph F root g) res,
  )

  check_dependencies-settled :
      (ds : List Codes) (res : ValidationResult)
      → settled (check_dependencies F root ds res) ≡ length ds + settled res
  unfolding check_dependencies
  check_dependencies-settled [] res = omega arith
  check_dependencies-settled (d ∷ ds) res = omega (
    arith,
    check_dependencies-settled ds (add_dependency (normalize_dependency F root d) res),
    add_dependency-settled (normalize_dependency F root d) res,
  )

require_graphs-IsHonest :
    (gs : List (Codes × Codes)) (res : ValidationResult)
    → IsHonest res
    → IsHonest (require_graphs gs res)
unfolding require_graphs
require_graphs-IsHonest [] res h = fail_with-IsHonest _ res h
require_graphs-IsHonest (g ∷ gs) res h = h

warn_default-IsHonest :
    (ds : List Codes) (res : ValidationResult) → IsHonest res → IsHonest (warn_default ds res)
unfolding warn_default
warn_default-IsHonest [] res h = record { verdict = h.verdict }
warn_default-IsHonest (d ∷ ds) res h = h

warn_default-settled :
    (ds : List Codes) (res : ValidationResult) → settled (warn_default ds res) ≡ settled res
unfolding warn_default
warn_default-settled [] res = refl
warn_default-settled (d ∷ ds) res = refl

-- The last check changes nothing: a verdict against a result always has its reason.
give_reason-same : (res : ValidationResult) → IsHonest res → give_reason res ≡ res
unfolding give_reason
give_reason-same res h = elim (Bool-cases (no_errors res)) [
  | inl e ↦ rw (h.verdict ∙ e) refl
  | inr e ↦ rw (h.verdict ∙ e, e) refl
]

start-IsHonest : (cfg : Config) → IsHonest (start cfg)
unfolding start
start-IsHonest cfg = record { verdict = refl }

abbrev pub one_if_empty : List (Codes × Codes) → ℕ
one_if_empty [] = 1
one_if_empty (g ∷ gs) = 0

started-settled :
    (cfg : Config) (gs : List (Codes × Codes))
    → settled (require_graphs gs (start cfg)) ≡ one_if_empty gs
unfolding require_graphs start
started-settled cfg [] = refl
started-settled cfg (g ∷ gs) = refl

module _ (F : Files) (root : Codes) (cfg : Config) where
  abbrev looped : ValidationResult
  looped = check_dependencies F root (dependencies_of cfg) (
      warn_default cfg.dependencies
        (check_graphs F root cfg.graphs (require_graphs cfg.graphs (start cfg))))

  looped-IsHonest : IsHonest looped
  looped-IsHonest = check_dependencies-IsHonest F root (dependencies_of cfg) _ (
      warn_default-IsHonest cfg.dependencies _ (
        check_graphs-IsHonest F root cfg.graphs _
          (require_graphs-IsHonest cfg.graphs _ (start-IsHonest cfg))))

  validate_config-looped : validate_config F root cfg ≡ looped
  unfolding validate_config
  validate_config-looped = give_reason-same looped looped-IsHonest

  validate_config-IsHonest : IsHonest (validate_config F root cfg)
  validate_config-IsHonest = rw validate_config-looped looped-IsHonest

  -- Nothing that the configuration names is passed over: the errors, the resolved graphs and the
  -- resolved dependencies are together as many as its graphs and its dependencies (the root where
  -- it has none), and one error more where it has no graph.
  pub validate_config-settled :
      settled (validate_config F root cfg)
      ≡ one_if_empty cfg.graphs + length cfg.graphs + length (dependencies_of cfg)
  validate_config-settled =
      let graphs = check_graphs F root cfg.graphs (require_graphs cfg.graphs (start cfg)) in
      rw validate_config-looped (
        omega (
          arith,
          check_dependencies-settled F root (dependencies_of cfg)
              (warn_default cfg.dependencies graphs),
          warn_default-settled cfg.dependencies graphs,
          check_graphs-settled F root cfg.graphs (require_graphs cfg.graphs (start cfg)),
          started-settled cfg cfg.graphs,
        ))

refused-IsHonest : (e : Problem) → IsHonest (refused e)
unfolding refused
refused-IsHonest e = record { verdict = refl }

module _ (F : Files) where
  root-IsHonest : (root : Option Codes) (cfg : Config) → IsHonest (validate_root F root cfg)
  root-IsHonest none cfg = refused-IsHonest _
  root-IsHonest (some root) cfg = validate_config-IsHonest F root cfg

  parsed-IsHonest :
      (repo_root : Codes) (c : Checked Config) → IsHonest (validate_parsed F repo_root c)
  parsed-IsHonest repo_root (problem e) = refused-IsHonest e
  parsed-IsHonest repo_root (fine cfg) = root-IsHonest (F.abs repo_root) cfg

  -- A configuration is valid if and only if the validation reports no error: a verdict against it
  -- comes with a reason, and a reason comes with a verdict against it.
  pub validate-valid :
      (repo_root config_path : Codes)
      → (validate F repo_root config_path).valid ≡ no_errors (validate F repo_root config_path)
  unfolding validate
  validate-valid repo_root config_path = (parsed-IsHonest repo_root (parse F config_path)).verdict
