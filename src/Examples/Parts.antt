-- ===== src/Examples/Parts.antt =====
-- A sealed variable, the name of a sandbox, and an answer of the runtime runner.
use langopen.Prelude.{
  ℕ, ◌≤◌, ◌≡◌, refl, inl, String, false, Option, none, some, [], ◌∷◌, length, All,
}
use langopen.Prelude.Text.{Codes, codes, trim_codes, to_lower}
use langopen.Crypto.{encrypt_string, decrypt_string}
use langopen.Crypto.Roundtrip.{decrypt_string-encrypt_string}
use langopen.Worker.Sandbox.{dashed, sandbox_claim_name}
use langopen.Worker.Sandbox.Names.{IsLabel, ends_in_dash, claim_name_valid}

-- A seal that puts the nonce's first byte before the text.
abbrev seal : Codes → Codes → Codes
seal nonce plaintext = 7 ∷ plaintext

abbrev unseal : Codes → Codes → Option Codes
unseal nonce [] = none
unseal nonce (c ∷ plaintext) = some plaintext

abbrev no_padding : Codes → Option Codes
no_padding s = none

abbrev keep_all : Codes → Option Codes
keep_all s = some s

decrypt_string-encrypt_string_example :
    decrypt_string no_padding keep_all unseal 2
      (encrypt_string seal (λ s. s) (65 ∷ 66 ∷ []) (codes "secret"))
    ≡ some (codes "secret")
unfolding encrypt_string trim_codes
decrypt_string-encrypt_string_example =
    decrypt_string-encrypt_string no_padding keep_all (λ s. s) seal unseal (65 ∷ 66 ∷ [])
      (codes "secret") refl refl refl (inl refl)

abbrev sum : Codes → Codes
sum s = codes "0123456789abcdef0123456789abcdef"

claim_name_valid_example :
    (length (sandbox_claim_name (codes "sandbox_1") (codes "run_A--")) ≤ 63)
    × All IsLabel (sandbox_claim_name (codes "sandbox_1") (codes "run_A--"))
    × (ends_in_dash (sandbox_claim_name (codes "sandbox_1") (codes "run_A--")) ≡ false)
unfolding dashed to_lower
claim_name_valid_example =
    claim_name_valid (codes "sandbox_1") (codes "run_A--") b's' (codes "andbox-1") refl
      (refl, (refl, (refl, (refl, (refl, (refl, (refl, (refl, (refl, tt))))))))) refl

abbrev refusal : ℕ → String → String
refusal code raw = raw
