-- ===== src/Builder/Validate.antt =====
-- `Validate` of services/builder/internal/langgraph/langgraph.go.
use langopen.Prelude.{
  true, false, ◌&&◌, not, Option, none, some, List, [], ◌∷◌, ◌++◌, length, nat_eq, if◌then◌else◌,
}
use langopen.Prelude.Text.{Codes, codes, trim_codes}
use langopen.Builder.Langgraph.{
  Config, ResolvedDependency, Problem, Checked, ValidationResult, Files, or_codes, root_unresolved,
  graphs_missing, validation_failed, fine, problem,
}
use langopen.Builder.Resolve.{parse, check_graph, normalize_dependency}

abbrev pub fail_with : Problem → ValidationResult → ValidationResult
fail_with e res = record res { valid = false; errors = res.errors ++ e ∷ [] }

abbrev pub add_graph : Checked (Codes × Codes) → ValidationResult → ValidationResult
add_graph (fine g) res = record res { resolved_graphs = res.resolved_graphs ++ g ∷ [] }
add_graph (problem e) res = fail_with e res

abbrev pub add_dependency : Checked ResolvedDependency → ValidationResult → ValidationResult
add_dependency (fine d) res = record res {
  resolved_dependencies = res.resolved_dependencies ++ d ∷ [];
}
add_dependency (problem e) res = fail_with e res

-- The result before the loops.
unfoldable pub start : Config → ValidationResult
start cfg = record {
  valid = true;
  errors = [];
  defaulted = false;
  python_version = or_codes (codes "3.11") (trim_codes cfg.python_version);
  pip_installer = or_codes (codes "pip") (trim_codes cfg.pip_installer);
  resolved_graphs = [];
  resolved_dependencies = [];
}

unfoldable pub refused : Problem → ValidationResult
refused e = record {
  valid = false;
  errors = e ∷ [];
  defaulted = false;
  python_version = [];
  pip_installer = [];
  resolved_graphs = [];
  resolved_dependencies = [];
}

unfoldable pub require_graphs : List (Codes × Codes) → ValidationResult → ValidationResult
require_graphs [] res = fail_with graphs_missing res
require_graphs (g ∷ gs) res = res

unfoldable pub dependencies_of : Config → List Codes
dependencies_of cfg = or_root cfg.dependencies
  where
    or_root : List Codes → List Codes
    or_root [] = codes "." ∷ []
    or_root (d ∷ ds) = d ∷ ds

unfoldable pub warn_default : List Codes → ValidationResult → ValidationResult
warn_default [] res = record res { defaulted = true }
warn_default (d ∷ ds) res = res

-- The last check: a result that is not valid says why.
unfoldable pub give_reason : ValidationResult → ValidationResult
give_reason res =
    if not res.valid && nat_eq (length res.errors) 0
    then record res { errors = validation_failed ∷ [] }
    else res

module _ (F : Files) where
  unfoldable pub check_graphs : Codes → List (Codes × Codes) → ValidationResult → ValidationResult
  check_graphs root [] res = res
  check_graphs root (g ∷ gs) res = check_graphs root gs (add_graph (check_graph F root g) res)

  unfoldable pub check_dependencies : Codes → List Codes → ValidationResult → ValidationResult
  check_dependencies root [] res = res
  check_dependencies root (d ∷ ds) res =
      check_dependencies root ds (add_dependency (normalize_dependency F root d) res)

  unfoldable pub validate_config : Codes → Config → ValidationResult
  validate_config root cfg = give_reason (
      check_dependencies root (dependencies_of cfg) (
        warn_default cfg.dependencies
          (check_graphs root cfg.graphs (require_graphs cfg.graphs (start cfg)))))

  abbrev pub validate_root : Option Codes → Config → ValidationResult
  validate_root none cfg = refused root_unresolved
  validate_root (some root) cfg = validate_config root cfg

  abbrev pub validate_parsed : Codes → Checked Config → ValidationResult
  validate_parsed repo_root (problem e) = refused e
  validate_parsed repo_root (fine cfg) = validate_root (F.abs repo_root) cfg

  unfoldable pub validate : Codes → Codes → ValidationResult
  unfolding parse
  validate repo_root config_path = validate_parsed repo_root (parse F config_path)
