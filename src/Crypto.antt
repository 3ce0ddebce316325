-- ===== src/Crypto.antt =====
-- `Crypto` of crates/common/src/crypto.rs: sealing and opening the relay's objects.
pub mod Laws
use s3_mcp_relay.Base.{
  ℕ, ◌+◌, Bool, true, false, not, ◌||◌, Option, none, some, List, [], ◌∷◌, ◌++◌, Text, codes,
  text_eq, length, take, drop, ok, err, ltb, ◌==◌, if◌then◌else◌,
}
use s3_mcp_relay.Failure.{Error, Outcome}
use s3_mcp_relay.Failure.{◌>>=◌ as bind, ◌>>◌ as then_do}
use s3_mcp_relay.Effect.{Eff, ◌>>=◌, ◌>>◌, lift, pure, sample, option_or}
use s3_mcp_relay.Platform.{Serde, Codec, Host, Envelope}

pub record Crypto : Type 0 where
  pub cipher : List ℕ  -- the 32 bytes of the key
  pub key_id : Text

abbrev pub envelope_version : ℕ
envelope_version = 1

-- `AAD_DOMAIN` ends in a zero byte.
abbrev pub aad_domain : Text
aad_domain = codes "s3-mcp-relay/v1" ++ 0 ∷ []

unfoldable pub aad : Text → List ℕ
aad object_key = aad_domain ++ object_key

unfoldable pub from_base64 : Codec → Text → Text → Outcome Crypto
from_base64 c encoded key_id = elim (c.decode (c.trim encoded)) [
  | none ↦ err Error.key_not_base64
  | some key ↦
      if not (length key == 32)
      then err Error.key_length
      else if length key_id == 0 || ltb 64 (length key_id)
      then err Error.key_id_length
      else ok (record { cipher = key; key_id = key_id })
]

module _ {W : Type 0} (h : Host W) where
  unfoldable pub seal : {A : Type 0} → Serde A → Crypto → Text → A → Eff W (List ℕ)
  unfolding aad
  seal serde crypto object_key value = do
    plaintext ← lift (option_or Error.message_malformed (serde.to_vec value))
    nonce ← sample h.fill_nonce
    ciphertext ← lift (
        option_or Error.encrypt_failed
          (h.codec.encrypt crypto.cipher nonce (aad object_key) plaintext))
    lift (
        option_or Error.envelope_malformed (
          h.codec.envelopes.to_vec (record {
            version = envelope_version;
            key_id = crypto.key_id;
            nonce_b64 = h.codec.encode nonce;
            ciphertext_b64 = h.codec.encode ciphertext;
          })))

  -- Layout: version, nonce, ciphertext.
  unfoldable pub seal_bytes : Crypto → Text → List ℕ → Eff W (List ℕ)
  unfolding aad
  seal_bytes crypto object_key plaintext = do
    nonce ← sample h.fill_nonce
    ciphertext ← lift (
        option_or Error.encrypt_failed
          (h.codec.encrypt crypto.cipher nonce (aad object_key) plaintext))
    pure (envelope_version ∷ nonce ++ ciphertext)

abbrev pub first_is : ℕ → List ℕ → Bool
first_is v [] = false
first_is v (b ∷ _) = b == v

module _ (c : Codec) where
  unfoldable pub open_bytes : Crypto → Text → List ℕ → Outcome (List ℕ)
  unfolding aad
  open_bytes crypto object_key bytes =
      if ltb (length bytes) 41
      then err Error.chunk_too_short
      else if not (first_is envelope_version bytes)
      then err Error.chunk_version
      else option_or Error.chunk_authentication
          (c.decrypt crypto.cipher (take 24 (drop 1 bytes)) (aad object_key) (drop 25 bytes))

  -- The fields of the envelope, once it is decoded.
  unfoldable pub open_envelope : Crypto → Text → Envelope → Outcome (List ℕ)
  unfolding aad
  open_envelope crypto object_key envelope =
      if not (envelope.version == envelope_version)
      then err Error.envelope_version
      else if not (text_eq envelope.key_id crypto.key_id)
      then err Error.key_id_mismatch
      else bind (option_or Error.nonce_not_base64 (c.decode envelope.nonce_b64)) λ nonce.
        if not (length nonce == 24)
        then err Error.nonce_length
        else bind (option_or Error.ciphertext_not_base64 (c.decode envelope.ciphertext_b64))
            λ ciphertext.
              option_or Error.authentication_failed
                (c.decrypt crypto.cipher nonce (aad object_key) ciphertext)

  unfoldable pub open_object : {A : Type 0} → Serde A → Crypto → Text → List ℕ → Outcome A
  unfolding open_envelope
  open_object serde crypto object_key bytes =
      bind (option_or Error.envelope_malformed (c.envelopes.from_slice bytes)) λ envelope.
        bind (open_envelope crypto object_key envelope)
          λ plaintext. option_or Error.message_malformed (serde.from_slice plaintext)
