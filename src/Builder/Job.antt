-- ===== src/Builder/Job.antt =====
-- `BuildKitJobSpec` of services/builder/internal/langgraph/langgraph.go: the job that builds an
-- image. Text is by the characters' numbers; the commit's hash is ASCII, a byte each.
use langopen.Prelude.{
  ◌||◌, Option, none, some, List, [], ◌∷◌, ◌++◌, length, take, ltb, if◌then◌else◌,
}
use langopen.Prelude.Text.{Codes, codes, codes_eq, has_prefix, drop_prefix, trim_codes}

-- What varies of the job's document.
pub record JobSpec : Type 0 where
  pub name : Codes
  pub build_sha : Codes
  pub build_repo : Codes
  pub runtime_class_name : Codes
  pub image : Codes
  pub command : List Codes
  pub args : List Codes

-- `strings.TrimPrefix`.
abbrev pub trim_prefix : Codes → Codes → Codes
trim_prefix s p = if has_prefix s p then drop_prefix s p else s

abbrev pub with_path : Codes → Codes → Codes
with_path ref path = if codes_eq path [] then ref else ref ++ codes ":" ++ path

unfoldable pub context_ref : Codes → Codes → Codes → Codes
context_ref repo_url git_ref repo_path =
    let ref = trim_codes repo_url ++ codes "#" ++ trim_codes git_ref in
    let path = trim_codes repo_path in
    if codes_eq path [] || codes_eq path (codes ".") || codes_eq path (codes "/")
    then ref
    else with_path ref (trim_prefix (trim_prefix path (codes "./")) (codes "/"))

unfoldable pub short_sha : Codes → Codes
short_sha sha = if ltb 8 (length sha) then take 8 sha else sha

unfoldable pub build_kit_job_spec : Codes → Codes → Codes → Codes → Codes → Option JobSpec
unfolding context_ref short_sha
build_kit_job_spec repo_url git_ref repo_path image_name commit_sha =
    if codes_eq repo_url []
      || codes_eq git_ref []
      || codes_eq image_name []
      || codes_eq commit_sha []
    then none
    else some (record {
      name = codes "buildkit-" ++ short_sha commit_sha;
      build_sha = commit_sha;
      build_repo = repo_url;
      runtime_class_name = codes "kata-qemu";
      image = codes "moby/buildkit:rootless";
      command = codes "buildctl-daemonless.sh" ∷ [];
      args =
          codes "build"
          ∷ codes "--frontend=dockerfile.v0"
          ∷ codes "--opt"
          ∷ (codes "context=" ++ context_ref repo_url git_ref repo_path)
          ∷ codes "--opt"
          ∷ codes "filename=Dockerfile"
          ∷ codes "--output"
          ∷ (codes "type=image,name="
              ++ image_name
              ++ codes ":"
              ++ commit_sha
              ++ codes ",push=true")
          ∷ [];
    })
