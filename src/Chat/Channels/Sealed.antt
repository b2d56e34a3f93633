-- ===== src/Chat/Channels/Sealed.antt =====
-- src/chat/channel: the signature of a sender, checked by the receiver.
use plain_rs.Common.{◌<◌, ◌≡◌, ◌∙◌, true, some, Bytes, All, length, drop, arith}
use plain_rs.Crypto.{DalekLaws, ed25519_sign}
use plain_rs.Chat.Service.{Externals}
use plain_rs.Chat.Sender.{own_public_key}
use plain_rs.Chat.Signing.{
  own_public_key_nonempty, ed25519_sign_nonempty, ed25519_verify-ed25519_sign,
}
use plain_rs.Chat.Handler.Steps.{verify_channel_signature}

module _ (ext : Externals) (laws : DalekLaws ext.dalek) (kp : Bytes) (size : length kp ≡ 64)
    (bytes : All (λ b. b < 256) kp) (message signature : Bytes)
    (signed : ext.dalek.signs kp message ≡ some signature) where
  pub verify_channel_signature_lem :
      (other : Bytes)
      → verify_channel_signature ext (own_public_key kp) other (ed25519_sign ext.dalek kp message)
        ≡ ext.dalek.verifies (drop 32 kp) other signature
  unfolding verify_channel_signature
  verify_channel_signature_lem other = ground (
    arith,
    own_public_key_nonempty ext.dalek laws kp size bytes message signature signed,
    ed25519_sign_nonempty ext.dalek laws kp size bytes message signature signed,
    ed25519_verify-ed25519_sign ext.dalek laws kp size bytes message signature signed other,
  )

  pub verify_channel_signature_signed :
      verify_channel_signature ext (own_public_key kp) message (ed25519_sign ext.dalek kp message)
      ≡ true
  verify_channel_signature_signed =
      verify_channel_signature_lem message ∙ laws.signature_verifies signed
