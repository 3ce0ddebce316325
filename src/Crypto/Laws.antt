-- ===== src/Crypto/Laws.antt =====
-- What is sealed under a key of the bucket opens under that key, and under no other.
use s3_mcp_relay.Base.{
  ℕ, ◌≡◌, ◌≢◌, false, some, List, ◌∷◌, ◌++◌, arith, inl, inr, Text, text_eq_refl, length,
  length-append, ltb, suc, take-append_exact, drop-append_exact, ok, err, append_cancel_left,
  Option-cases,
}
use s3_mcp_relay.Failure.{Error}
use s3_mcp_relay.Platform.{Serde, Host}
use s3_mcp_relay.Platform.Laws.{IsInverse, IsSound, IsBinding}
use s3_mcp_relay.Crypto.{
  Crypto, aad, aad_domain, seal, seal_bytes, open_bytes, open_object, envelope_version,
}

module _ {W : Type 0} (h : Host W) where
  -- What a successful seal has done.
  pub record IsSealed {A : Type 0} (serde : Serde A) (c : Crypto) (key : Text) (value : A)
      (nonce : List ℕ) (body : List ℕ) : Type 0 where
    pub plaintext : Text
    pub ciphertext : List ℕ
    pub written : serde.to_vec value ≡ some plaintext
    pub encrypted : h.codec.encrypt c.cipher nonce (aad key) plaintext ≡ some ciphertext
    pub wrapped :
        h.codec.envelopes.to_vec (record {
          version = envelope_version;
          key_id = c.key_id;
          nonce_b64 = h.codec.encode nonce;
          ciphertext_b64 = h.codec.encode ciphertext;
        })
        ≡ some body

  seal-IsSealed :
      {A : Type 0} (serde : Serde A) (c : Crypto) (key : Text) (value : A) (w w' : W)
      (body : List ℕ)
      → seal h serde c key value w ≡ (ok body, w')
      → IsSealed serde c key value (h.fill_nonce w).0 body
  unfolding seal
  seal-IsSealed serde c key value w w' body e = elim (Option-cases (serde.to_vec value)) [
    | inl bad ↦ absurd (ground arith)
    | inr (plaintext, written) ↦
        let nonce = (h.fill_nonce w).0 in
        elim (Option-cases (h.codec.encrypt c.cipher nonce (aad key) plaintext)) [
          | inl bad ↦ absurd (ground arith)
          | inr (ciphertext, encrypted) ↦ record {
            plaintext = plaintext;
            ciphertext = ciphertext;
            written = written;
            encrypted = encrypted;
            wrapped = ground arith;
          }
        ]
  ]

-- Whoever has the key reads what was sealed for an object key: `open` gives the value back.
pub open_object-seal :
    {W A : Type 0} (h : Host W) (serde : Serde A) (c : Crypto) (key : Text) (value : A) (w w' : W)
    (body : List ℕ)
    → IsSound h.codec
    → IsInverse serde
    → length (h.fill_nonce w).0 ≡ 24
    → seal h serde c key value w ≡ (ok body, w')
    → open_object h.codec serde c key body ≡ ok value
unfolding open_object
open_object-seal h serde c key value w w' body s i n e =
    let z = seal-IsSealed h serde c key value w w' body e in
    rw (s.envelope _ body z.wrapped) (
      rw (text_eq_refl c.key_id, s.base64 (h.fill_nonce w).0, n, s.base64)
        (rw (s.opens _ _ _ _ _ z.encrypted, i value z.plaintext z.written)))

aad-injective : (k j : Text) → aad k ≡ aad j → k ≡ j
unfolding aad
aad-injective k j e = append_cancel_left aad_domain k j e

-- An object that was copied to another key is refused there: with an AEAD that binds its associated
-- payload, `open` under any other object key reports an authentication failure.
pub open_object-moved :
    {W A B : Type 0} (h : Host W) (serde : Serde A) (other : Serde B) (c : Crypto) (key j : Text)
    (value : A) (w w' : W) (body : List ℕ)
    → IsSound h.codec
    → IsBinding h.codec
    → length (h.fill_nonce w).0 ≡ 24
    → key ≢ j
    → seal h serde c key value w ≡ (ok body, w')
    → open_object h.codec other c j body ≡ err Error.authentication_failed
unfolding open_object
open_object-moved h serde other c key j value w w' body s binding n ne e =
    let z = seal-IsSealed h serde c key value w w' body e in
    let closed = binding _ _ _ (aad j) _ _ z.encrypted (λ p. ne (aad-injective key j p)) in
    rw (s.envelope _ body z.wrapped)
      (rw (text_eq_refl c.key_id, s.base64 (h.fill_nonce w).0, n, s.base64) (rw closed))

-- A sealed chunk opens under its object key to the bytes that were sealed.
pub open_bytes-seal_bytes :
    {W : Type 0} (h : Host W) (c : Crypto) (key : Text) (payload : List ℕ) (w w' : W)
    (body : List ℕ)
    → IsSound h.codec
    → length (h.fill_nonce w).0 ≡ 24
    → seal_bytes h c key payload w ≡ (ok body, w')
    → open_bytes h.codec c key body ≡ ok payload
unfolding open_bytes seal_bytes
open_bytes-seal_bytes h c key payload w w' body s n e =
    let nonce = (h.fill_nonce w).0 in
    elim (Option-cases (h.codec.encrypt c.cipher nonce (aad key) payload)) [
      | inl bad ↦ absurd (ground arith)
      | inr (ct, encrypted) ↦
          let layout : body ≡ envelope_version ∷ nonce ++ ct = ground arith in
          let long : ltb (suc (length (nonce ++ ct))) 41 ≡ false =
            ground (arith, length-append nonce ct, s.tagged _ _ _ _ _ encrypted) in
          rw layout (
            rw long (
              rw (take-append_exact 24 nonce ct n, drop-append_exact 24 nonce ct n)
                (rw (s.opens _ _ _ _ _ encrypted))))
    ]
