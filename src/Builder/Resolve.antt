-- ===== src/Builder/Resolve.antt =====
-- How services/builder/internal/langgraph/langgraph.go reads langgraph.json and resolves one graph or
-- one dependency.
use langopen.Prelude.{
  Bool, true, false, ◌||◌, not, Option, none, some, [], ◌∷◌, ◌++◌, if◌then◌else◌,
}
use langopen.Prelude.Text.{Codes, codes, codes_eq, trim_codes}
use langopen.Builder.Langgraph.{
  Config, ResolvedDependency, Checked, Files, looks_like_path, index_rune, module_part, or_empty,
  within, is_file, config_unreadable, config_malformed, target_empty, target_invalid, graph_outside,
  graph_missing, graph_is_directory, dependency_empty, dependency_outside, dependency_missing,
  dependency_not_directory, dependency_unknown, fine, problem,
}

module _ (F : Files) where
  -- `Parse`.
  abbrev pub decoded : Option Config → Checked Config
  decoded none = problem config_malformed
  decoded (some cfg) = fine cfg

  abbrev pub read : Option Codes → Checked Config
  read none = problem config_unreadable
  read (some content) = decoded (F.unmarshal content)

  unfoldable pub parse : Codes → Checked Config
  parse path = read (F.read_file path)

  unfoldable pub is_path_within_root : Codes → Codes → Bool
  is_path_within_root root candidate = within (F.rel root candidate)

  abbrev pub stat_graph : Codes → Codes → Codes → Option Bool → Checked (Codes × Codes)
  stat_graph name target path none = problem (graph_missing name path)
  stat_graph name target path (some true) = problem (graph_is_directory name path)
  stat_graph name target path (some false) = fine (name, target)

  -- The path of a graph: cleaned, within the root, and a file.
  unfoldable pub check_path : Codes → Codes → Codes → Codes → Checked (Codes × Codes)
  unfolding is_path_within_root
  check_path root name target file =
      if F.is_abs file || not (is_path_within_root root (F.join root file))
      then problem (graph_outside name file)
      else stat_graph name target (F.join root file) (F.stat (F.join root file))

  abbrev pub check_module : Codes → Codes → Codes → Option Codes → Checked (Codes × Codes)
  check_module root name target none = problem (target_invalid name target)
  check_module root name target (some part) =
      if looks_like_path part
      then check_path root name target (F.clean part)
      else fine (name, target)

  -- The loop's body for one graph.
  unfoldable pub check_graph : Codes → Codes × Codes → Checked (Codes × Codes)
  check_graph root (name, raw) =
      let target = trim_codes raw in
      if codes_eq target []
      then problem (target_empty name)
      else check_module root name target (module_part target (index_rune target b':'))

  -- A path as the installer is given it: from the root, with slashes.
  unfoldable pub relative : Codes → Codes → Codes
  relative root path = F.to_slash (or_empty (F.rel root path))

  -- The kinds of a directory, in the order in which their files are looked for.
  unfoldable pub directory_dependency : Codes → Codes → Codes → Checked ResolvedDependency
  unfolding relative
  directory_dependency root source path =
      let requirements_path = F.join path (codes "requirements.txt") in
      let pyproject_path = F.join path (codes "pyproject.toml") in
      let setup_path = F.join path (codes "setup.py") in
      if is_file (F.stat requirements_path)
      then fine (record {
        kind = codes "requirements";
        source = source;
        path = relative root path;
        install = codes "pip install -r " ++ relative root requirements_path;
        files = relative root requirements_path ∷ [];
      })
      else if is_file (F.stat pyproject_path)
      then fine (record {
        kind = codes "pyproject";
        source = source;
        path = relative root path;
        install = codes "pip install " ++ relative root path;
        files = relative root pyproject_path ∷ [];
      })
      else if is_file (F.stat setup_path)
      then fine (record {
        kind = codes "setup";
        source = source;
        path = relative root path;
        install = codes "pip install " ++ relative root path;
        files = relative root setup_path ∷ [];
      })
      else problem (dependency_unknown path)

  unfoldable pub file_dependency : Codes → Codes → Codes → Checked ResolvedDependency
  file_dependency root source path =
      let rel = or_empty (F.rel root path) in
      if F.equal_fold (F.base path) (codes "requirements.txt")
      then fine (record {
        kind = codes "requirements";
        source = source;
        path = F.to_slash (F.dir rel);
        install = codes "pip install -r " ++ F.to_slash rel;
        files = F.to_slash rel ∷ [];
      })
      else problem (dependency_not_directory path)

  abbrev pub stat_dependency : Codes → Codes → Codes → Option Bool → Checked ResolvedDependency
  stat_dependency root source path none = problem (dependency_missing path)
  stat_dependency root source path (some true) = directory_dependency root source path
  stat_dependency root source path (some false) = file_dependency root source path

  unfoldable pub normalize_dependency : Codes → Codes → Checked ResolvedDependency
  unfolding is_path_within_root
  normalize_dependency root dep =
      let source = trim_codes dep in
      let path = F.join root (F.clean source) in
      if codes_eq source []
      then problem dependency_empty
      else if not (looks_like_path source)
      then fine (record {
        kind = codes "package";
        source = source;
        path = [];
        install = codes "pip install " ++ source;
        files = [];
      })
      else if F.is_abs source || not (is_path_within_root root path)
      then problem (dependency_outside dep)
      else stat_dependency root source path (F.stat path)
