-- ===== src/Crypto.antt =====
-- src/crypto/ed25519.rs: signatures over base64 texts. The curve itself is the `ed25519_dalek` crate's,
-- taken as a parameter.
use plain_rs.Common.{
  ◌<◌, ◌≡◌, Bool, true, false, not, ◌||◌, [], Option, none, some, Bytes, All, length, drop, ◌==◌,
  if◌then◌else◌,
}
use plain_rs.Utils.Base64.{base64_encode, base64_decode}

-- `SigningKey::from_keypair_bytes` with `sign`, which refuses a bad key pair, and
-- `VerifyingKey::from_bytes` with `verify`: key, message and signature.
pub record Dalek : Type 0 where
  pub signs : Bytes → Bytes → Option Bytes
  pub verifies : Bytes → Bytes → Bytes → Bool

-- What the crate documents: a signature has 64 bytes, and the verifying key, which is the second half
-- of the key pair, accepts it.
pub record DalekLaws (dalek : Dalek) : Type 0 where
  pub signature_length :
      {kp message signature : Bytes}
      → dalek.signs kp message ≡ some signature
      → length signature ≡ 64
  pub signature_bytes :
      {kp message signature : Bytes}
      → dalek.signs kp message ≡ some signature
      → All (λ b. b < 256) signature
  pub signature_verifies :
      {kp message signature : Bytes}
      → dalek.signs kp message ≡ some signature
      → dalek.verifies (drop 32 kp) message signature ≡ true

module _ (dalek : Dalek) where
  -- The signature in base64, or the empty text on an error.
  unfoldable pub ed25519_sign : Bytes → Bytes → Bytes
  ed25519_sign kp message =
      if not (length kp == 64)
      then []
      else elim (dalek.signs kp message) [ none ↦ [] | some signature ↦ base64_encode signature ]

  unfoldable pub ed25519_verify : Bytes → Bytes → Bytes → Bool
  ed25519_verify public_key_b64 message signature_b64 =
      let pk_bytes = base64_decode public_key_b64 in
      let sig_bytes = base64_decode signature_b64 in
      if not (length pk_bytes == 32) || not (length sig_bytes == 64)
      then false
      else dalek.verifies pk_bytes message sig_bytes
