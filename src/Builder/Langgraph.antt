-- ===== src/Builder/Langgraph.antt =====
-- services/builder/internal/langgraph/langgraph.go: its data, and its functions on text, which is by
-- the characters' numbers. What the code asks of `os`, `path/filepath` and `encoding/json` is a
-- parameter.
use langopen.Prelude.{
  ℕ, ◌+◌, Bool, false, ◌&&◌, ◌||◌, not, Option, none, some, List, [], ◌∷◌, length, take, nat_eq,
  leb, if◌then◌else◌, any,
}
use langopen.Prelude.Text.{Codes, codes, codes_eq, has_prefix, trim_codes}

-- `graphs` is the map, in the order in which its loop meets it.
pub record Config : Type 0 where
  pub graphs : List (Codes × Codes)
  pub dependencies : List Codes
  pub python_version : Codes
  pub pip_installer : Codes

pub record ResolvedDependency : Type 0 where
  pub kind : Codes
  pub source : Codes
  pub path : Codes
  pub install : Codes
  pub files : List Codes

-- The messages, by what they say and quote.
pub data Problem : Type 0 where
  config_unreadable config_malformed root_unresolved graphs_missing validation_failed : Problem
  target_empty : Codes → Problem
  target_invalid : Codes → Codes → Problem
  graph_outside : Codes → Codes → Problem
  graph_missing : Codes → Codes → Problem
  graph_is_directory : Codes → Codes → Problem
  dependency_empty : Problem
  dependency_outside : Codes → Problem
  dependency_missing : Codes → Problem
  dependency_not_directory : Codes → Problem
  dependency_unknown : Codes → Problem

pub data Checked {ℓ} (A : Type ℓ) : Type ℓ where
  fine : A → Checked A
  problem : Problem → Checked A

pub record ValidationResult : Type 0 where
  pub valid : Bool
  pub errors : List Problem
  pub defaulted : Bool
  pub python_version : Codes
  pub pip_installer : Codes
  pub resolved_graphs : List (Codes × Codes)
  pub resolved_dependencies : List ResolvedDependency

-- The packages that the code calls. `stat` is `os.Stat`: nothing, or whether it is a directory.
pub record Files : Type 0 where
  pub read_file : Codes → Option Codes
  pub unmarshal : Codes → Option Config
  pub abs : Codes → Option Codes
  pub clean : Codes → Codes
  pub join : Codes → Codes → Codes
  pub is_abs : Codes → Bool
  pub rel : Codes → Codes → Option Codes
  pub dir : Codes → Codes
  pub base : Codes → Codes
  pub to_slash : Codes → Codes
  pub equal_fold : Codes → Codes → Bool
  pub stat : Codes → Option Bool

-- `strings.Contains` of one character.
unfoldable pub has_code : ℕ → Codes → Bool
has_code c s = any (nat_eq c) s

unfoldable pub looks_like_path : Codes → Bool
unfolding has_code
looks_like_path value =
    codes_eq value (codes ".")
    || codes_eq value (codes "..")
    || has_prefix value (codes "./")
    || has_prefix value (codes "../")
    || has_prefix value (codes "/")
    || has_code b'/' value
    || has_code 92 value

abbrev pub next_index : Option ℕ → Option ℕ
next_index none = none
next_index (some i) = some (i + 1)

-- `none` is -1.
unfoldable pub index_rune : Codes → ℕ → Option ℕ
index_rune [] sep = none
index_rune (c ∷ s) sep =
    let rest = index_rune s sep in if nat_eq c sep then some 0 else next_index rest

-- The part before the colon, unless the colon is missing, first or last.
abbrev pub module_part : Codes → Option ℕ → Option Codes
module_part target none = none
module_part target (some i) =
    if leb i 0 || leb (length target) (i + 1) then none else some (trim_codes (take i target))

abbrev pub or_codes : Codes → Codes → Codes
or_codes default value = if codes_eq value [] then default else value

abbrev pub or_empty : Option Codes → Codes
or_empty none = []
or_empty (some s) = s

abbrev pub within : Option Codes → Bool
within none = false
within (some rel) =
    codes_eq rel (codes ".")
    || (not (has_prefix rel (codes "../")) && not (codes_eq rel (codes "..")))

abbrev pub is_file : Option Bool → Bool
is_file none = false
is_file (some is_dir) = not is_dir
