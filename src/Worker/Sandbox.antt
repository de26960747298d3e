-- ===== src/Worker/Sandbox.antt =====
-- `sandboxClaimName` and `allocateSandboxClaim` of services/worker/internal/engine/engine.go, on the
-- characters' numbers. The Kubernetes client is a parameter.
pub mod Names
use langopen.Prelude.{
  ℕ, String, Bool, true, false, ◌||◌, ◌&&◌, Option, none, some, List, [], ◌∷◌, ◌++◌, length, take,
  keep, ltb, leb, nat_eq, if◌then◌else◌,
}
use langopen.Prelude.Text.{Codes, codes, codes_eq, to_lower}

-- `strings.ReplaceAll(base, "_", "-")`.
unfoldable pub dashed : Codes → Codes
dashed [] = []
dashed (c ∷ s) = (if nat_eq c b'_' then b'-' else c) ∷ dashed s

abbrev pub is_label : ℕ → Bool
is_label c = (leb b'a' c && leb c b'z') || (leb b'0' c && leb c b'9') || nat_eq c b'-'

-- `strings.TrimLeft(s, "-")` and `strings.TrimRight(s, "-")`.
unfoldable pub trim_left_dash : Codes → Codes
trim_left_dash [] = []
trim_left_dash (c ∷ s) = if nat_eq c b'-' then trim_left_dash s else c ∷ s

unfoldable pub trim_right_dash : Codes → Codes
trim_right_dash [] = []
trim_right_dash (c ∷ s) =
    let rest = trim_right_dash s in if codes_eq rest [] && nat_eq c b'-' then [] else c ∷ rest

abbrev pub or_fresh : Codes → Codes → Codes
or_fresh fresh [] = dashed (to_lower fresh)
or_fresh fresh (c ∷ s) = c ∷ s

-- What is left of the run's id; `fresh` is the new id that stands for an empty rest.
unfoldable pub clean_id : Codes → Codes → Codes
unfolding dashed to_lower trim_left_dash trim_right_dash
clean_id fresh run_id =
    or_fresh fresh (trim_right_dash (trim_left_dash (keep is_label (dashed (to_lower run_id)))))

abbrev pub cut_name : Codes → Codes
cut_name name = if ltb 63 (length name) then trim_right_dash (take 63 name) else name

unfoldable pub sandbox_claim_name : Codes → Codes → Codes
unfolding clean_id trim_right_dash
sandbox_claim_name fresh run_id = cut_name (codes "run-" ++ clean_id fresh run_id)

-- What `Create` answers: done, there already, or an error.
pub data Creation : Type 0 where
  created : Creation
  already_exists : Creation
  create_failed : String → Creation

-- What `allocateSandboxClaim` answers: an error, or the name of the claim.
pub data Claim : Type 0 where
  refused : String → Claim
  allocated : Codes → Claim

pub claim_of : Codes → Creation → Claim
claim_of name created = allocated name
claim_of name already_exists = allocated name
claim_of name (create_failed e) = refused e

-- `create` is the client, or none where there is none.
unfoldable pub allocate_sandbox_claim : Option (Codes → Creation) → Codes → Codes → Claim
unfolding claim_of sandbox_claim_name
allocate_sandbox_claim none fresh run_id = refused "dynamic kubernetes client unavailable"
allocate_sandbox_claim (some create) fresh run_id =
    claim_of (sandbox_claim_name fresh run_id) (create (sandbox_claim_name fresh run_id))
