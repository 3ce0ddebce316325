-- ===== src/Platform.antt =====
-- What the crates call and do not implement, as parameters of the model: the S3 client
-- (`aws_sdk_s3`), the AEAD (`chacha20poly1305`), base64, serde_json, UUIDs, random bytes and the
-- clock. `W` is the state of the world that they act on.
pub mod Laws
use s3_mcp_relay.Base.{ℕ, Bool, List, Option, Text, ℤ}
use s3_mcp_relay.Protocol.Types.{
  Command, Response, Heartbeat, LogChunk, ShareManifest, UpdateManifest, Doorbell,
}

-- A `GetObjectOutput`: the advertised length, and what reading at most so many bytes of the body
-- gives (`none`: the stream failed).
pub record Object : Type 0 where
  pub content_length : Option ℤ
  pub read : ℕ → Option (List ℕ)

-- An entry of a listing, and a page of it.
pub record Listed : Type 0 where
  pub key : Option Text
  pub last_modified : Option ℤ

pub record ListPage : Type 0 where
  pub contents : List Listed
  pub is_truncated : Option Bool
  pub next_token : Option Text

-- serde_json on a type: `to_vec` and `from_slice`.
pub record Serde (A : Type 0) : Type 0 where
  pub to_vec : A → Option Text
  pub from_slice : Text → Option A

-- `Envelope` of crates/common/src/crypto.rs
pub record Envelope : Type 0 where
  pub version : ℕ
  pub key_id : Text
  pub nonce_b64 : Text
  pub ciphertext_b64 : Text

-- The pure libraries. In `encrypt` and `decrypt` the arguments are the key, the nonce, the
-- associated data and the message.
pub record Codec : Type 0 where
  pub is_uuid : Text → Bool
  pub encode : List ℕ → Text
  pub decode : Text → Option (List ℕ)
  pub trim : Text → Text
  pub encrypt : List ℕ → List ℕ → List ℕ → List ℕ → Option (List ℕ)
  pub decrypt : List ℕ → List ℕ → List ℕ → List ℕ → Option (List ℕ)
  pub envelopes : Serde Envelope
  pub commands : Serde Command
  pub responses : Serde Response
  pub heartbeats : Serde Heartbeat
  pub log_chunks : Serde LogChunk
  pub share_manifests : Serde ShareManifest
  pub update_manifests : Serde UpdateManifest
  pub doorbells : Serde Doorbell

-- The calls that read or change the world. `none` is a failure of the service; a `get_object` of a
-- key that is not there, and a `head_object`, give `some none`.
pub record Host (W : Type 0) : Type 0 where
  pub codec : Codec
  pub now_unix : W → ℤ × W
  pub now_instant : W → ℕ × W
  pub sleep : ℕ → W → W
  pub fill_nonce : W → List ℕ × W
  pub new_uuid : W → Text × W
  pub get_object : Text → W → Option (Option Object) × W
  pub put_object : Text → List ℕ → W → Option (Unit {0}) × W
  pub delete_object : Text → W → Option (Unit {0}) × W
  pub head_object : Text → W → Option (Option (Option Text)) × W
  pub list_objects : Text → Option Text → W → Option ListPage × W
