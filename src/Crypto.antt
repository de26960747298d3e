-- ===== src/Crypto.antt =====
-- pkg/crypto/aesgcm.go: the key of the deployment variables, and how they are sealed and opened.
-- Bytes are numbers; AES-GCM, SHA-256 and base64 are parameters. Any error is `none`.
pub mod Roundtrip
use langopen.Prelude.{
  ℕ, String, Bool, ◌||◌, Option, none, some, List, ◌++◌, length, take, ltb, nat_eq, if◌then◌else◌,
  drop,
}
use langopen.Prelude.Text.{Codes, codes, codes_eq, to_lower, trim_codes}

-- `IsDevEnv`, of the variable LANGOPEN_ENV.
unfoldable pub is_dev_env : Codes → Bool
unfolding to_lower trim_codes codes_eq
is_dev_env value =
    let env = trim_codes (to_lower value) in
    codes_eq env (codes "")
    || codes_eq env (codes "dev")
    || codes_eq env (codes "development")
    || codes_eq env (codes "local")
    || codes_eq env (codes "test")

abbrev pub first_of : Option Codes → Option Codes → Option Codes
first_of none b = b
first_of (some a) b = some a

abbrev pub if_sized : Option Codes → Option Codes
if_sized none = none
if_sized (some key) = if nat_eq (length key) 32 then some key else none

module _ (std_decode raw_decode : Codes → Option Codes) where
  -- `decodeBase64`.
  unfoldable pub decode_base64 : Codes → Option Codes
  decode_base64 input = first_of (std_decode input) (raw_decode input)

  -- `LoadDeploymentVarsKeyFromEnv`; `sum` is SHA-256.
  unfoldable pub load_deployment_vars_key : (Codes → Codes) → Codes → Codes → Option Codes
  unfolding decode_base64
  load_deployment_vars_key sum value env =
      let raw = trim_codes value in
      if codes_eq raw (codes "")
      then if is_dev_env env
        then some (sum (codes "langopen-dev-deployment-runtime-vars"))
        else none
      else if_sized (decode_base64 raw)

-- `NewAESGCM`: the key that is kept.
unfoldable pub new_aesgcm : Codes → Option Codes
new_aesgcm key = if nat_eq (length key) 32 then some key else none

-- `EncryptString`, with the nonce that was drawn; `seal` is that of the key.
unfoldable pub encrypt_string : (Codes → Codes → Codes) → (Codes → Codes) → Codes → Codes → Codes
encrypt_string seal raw_encode nonce plaintext = raw_encode (nonce ++ seal nonce plaintext)

abbrev pub opened : (Codes → Codes → Option Codes) → ℕ → Option Codes → Option Codes
opened unseal nonce_size none = none
opened unseal nonce_size (some packed) =
    if ltb (length packed) nonce_size
    then none
    else unseal (take nonce_size packed) (drop nonce_size packed)

-- `DecryptString`.
unfoldable pub decrypt_string :
    (Codes → Option Codes)
    → (Codes → Option Codes)
    → (Codes → Codes → Option Codes)
    → ℕ
    → Codes
    → Option Codes
unfolding decode_base64
decrypt_string std_decode raw_decode unseal nonce_size encoded =
    opened unseal nonce_size (decode_base64 std_decode raw_decode (trim_codes encoded))
