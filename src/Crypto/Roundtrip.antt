-- ===== src/Crypto/Roundtrip.antt =====
-- What is sealed opens again, and keys have 32 bytes.
use langopen.Prelude.{
  false, Option, none, some, [], ◌∷◌, ◌++◌, length, take, drop, ltb, ◌≡◌, refl, ◌⊎◌, inl, inr,
  arith, length-append,
}
use langopen.Prelude.Text.{Codes, codes, trim_codes}
use langopen.Crypto.{
  decode_base64, load_deployment_vars_key, new_aesgcm, encrypt_string, opened, decrypt_string,
}

take-append : (xs ys : Codes) → take (length xs) (xs ++ ys) ≡ xs
take-append [] ys = refl
take-append (x ∷ xs) ys = rw (take-append xs ys) refl

drop-append : (xs ys : Codes) → drop (length xs) (xs ++ ys) ≡ ys
drop-append [] ys = refl
drop-append (x ∷ xs) ys = drop-append xs ys

long_enough : (xs ys : Codes) → ltb (length (xs ++ ys)) (length xs) ≡ false
long_enough xs ys = ground (arith, length-append xs ys)

-- What was encrypted decrypts to the plaintext: where opening inverts sealing under the nonce drawn,
-- which has the nonce's size, where the text that the packed bytes are encoded as has no space
-- around it and the unpadded alphabet decodes it, and where the padded one refuses it or agrees.
pub decrypt_string-encrypt_string :
    (std_decode raw_decode : Codes → Option Codes) (raw_encode : Codes → Codes)
    (seal : Codes → Codes → Codes) (unseal : Codes → Codes → Option Codes) (nonce plaintext : Codes)
    → unseal nonce (seal nonce plaintext) ≡ some plaintext
    → trim_codes (encrypt_string seal raw_encode nonce plaintext)
      ≡ encrypt_string seal raw_encode nonce plaintext
    → raw_decode (raw_encode (nonce ++ seal nonce plaintext)) ≡ some (nonce ++ seal nonce plaintext)
    → (std_decode (raw_encode (nonce ++ seal nonce plaintext)) ≡ none)
      ⊎ (std_decode (raw_encode (nonce ++ seal nonce plaintext))
          ≡ some (nonce ++ seal nonce plaintext))
    → decrypt_string std_decode raw_decode unseal
        (length nonce)
        (encrypt_string seal raw_encode nonce plaintext)
      ≡ some plaintext
unfolding decrypt_string encrypt_string decode_base64
decrypt_string-encrypt_string std_decode raw_decode raw_encode seal unseal nonce plaintext inverts
      bare unpadded padded =
    let ciphertext = seal nonce plaintext in
    let back : opened unseal (length nonce) (some (nonce ++ ciphertext)) ≡ some plaintext =
      rw
        (
          long_enough nonce ciphertext,
          take-append nonce ciphertext,
          drop-append nonce ciphertext,
          inverts,
        )
        refl in
    elim padded [
      | inl refused ↦ rw (bare, refused, unpadded) back
      | inr agrees ↦ rw (bare, agrees) back
    ]

-- A key that is loaded, from the environment or made up for development, has 32 bytes, where a sum
-- has: `NewAESGCM` takes it.
pub load_deployment_vars_key-new_aesgcm :
    (std_decode raw_decode : Codes → Option Codes) (sum : Codes → Codes) (value env key : Codes)
    → length (sum (codes "langopen-dev-deployment-runtime-vars")) ≡ 32
    → load_deployment_vars_key std_decode raw_decode sum value env ≡ some key
    → new_aesgcm key ≡ some key
unfolding load_deployment_vars_key new_aesgcm
load_deployment_vars_key-new_aesgcm std_decode raw_decode sum value env key sized h =
    ground (arith, sized, h)
