-- ===== src/Chat/Signing.antt =====
-- src/crypto/ed25519.rs: a signature in base64, and the key of its sender, as the receiver reads them.
use plain_rs.Common.{
  ℕ, ◌<◌, ◌≡◌, refl, subst, sym, false, [], ◌∷◌, some, Bytes, All, All-drop, Lacks, length,
  length-drop, drop, arith, is_empty,
}
use plain_rs.Utils.Base64.{base64_encode, base64_decode}
use plain_rs.Utils.Base64.RoundTrip.{
  base64_decode-base64_encode, base64_encode-Lacks, base64_encode_ascii,
}
use plain_rs.Crypto.{Dalek, DalekLaws, ed25519_sign, ed25519_verify}
use plain_rs.Chat.Sender.{own_public_key}

base64_encode_nonempty : (bs : Bytes) → is_empty bs ≡ false → is_empty (base64_encode bs) ≡ false
unfolding base64_encode
base64_encode_nonempty [] h = h
base64_encode_nonempty (a ∷ []) h = refl
base64_encode_nonempty (a ∷ b ∷ []) h = refl
base64_encode_nonempty (a ∷ b ∷ c ∷ rest) h = refl

nonempty : (bs : Bytes) (n : ℕ) → length bs ≡ n → 0 < n → is_empty bs ≡ false
nonempty [] n h p = absurd (omega arith)
nonempty (b ∷ bs) n h p = refl

module _ (dalek : Dalek) (laws : DalekLaws dalek) (kp : Bytes) (size : length kp ≡ 64)
    (bytes : All (λ b. b < 256) kp) (message signature : Bytes)
    (signed : dalek.signs kp message ≡ some signature) where
  half : length (drop 32 kp) ≡ 32
  half = omega (arith, length-drop 32 kp)

  own_public_key_decoded : base64_decode (own_public_key kp) ≡ drop 32 kp
  unfolding own_public_key
  own_public_key_decoded =
      ground (arith, base64_decode-base64_encode (drop 32 kp) (All-drop (λ b. b < 256) 32 kp bytes))

  pub own_public_key_nonempty : is_empty (own_public_key kp) ≡ false
  unfolding own_public_key
  own_public_key_nonempty =
      ground
        (arith, base64_encode_nonempty (drop 32 kp) (nonempty (drop 32 kp) 32 half (omega arith)))

  ed25519_sign_encoded : ed25519_sign dalek kp message ≡ base64_encode signature
  unfolding ed25519_sign
  ed25519_sign_encoded = ground arith

  pub ed25519_sign_nonempty : is_empty (ed25519_sign dalek kp message) ≡ false
  ed25519_sign_nonempty = ground (
    arith,
    ed25519_sign_encoded,
    base64_encode_nonempty signature
        (nonempty signature 64 (laws.signature_length signed) (omega arith)),
  )

  pub ed25519_sign-Lacks : Lacks 124 (ed25519_sign dalek kp message)
  ed25519_sign-Lacks =
      subst (Lacks 124) (sym ed25519_sign_encoded)
        (base64_encode-Lacks signature (laws.signature_bytes signed))

  pub ed25519_sign_ascii : All (λ b. b < 0x80) (ed25519_sign dalek kp message)
  ed25519_sign_ascii =
      subst (All (λ b. b < 0x80)) (sym ed25519_sign_encoded)
        (base64_encode_ascii signature (laws.signature_bytes signed))

  ed25519_sign_decoded : base64_decode (ed25519_sign dalek kp message) ≡ signature
  ed25519_sign_decoded = ground (
    arith,
    ed25519_sign_encoded,
    base64_decode-base64_encode signature (laws.signature_bytes signed),
  )

  -- What the receiver finds for any message that it takes the signature for.
  pub ed25519_verify-ed25519_sign :
      (other : Bytes)
      → ed25519_verify dalek (own_public_key kp) other (ed25519_sign dalek kp message)
        ≡ dalek.verifies (drop 32 kp) other signature
  unfolding ed25519_verify
  ed25519_verify-ed25519_sign other =
      ground
        (arith, own_public_key_decoded, ed25519_sign_decoded, half, laws.signature_length signed)
