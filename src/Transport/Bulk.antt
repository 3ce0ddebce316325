-- ===== src/Transport/Bulk.antt =====
-- Chunks and manifests of transfers, releases and shares: crates/common/src/transport.rs.
use s3_mcp_relay.Base.{
  ℕ, not, Option, none, some, List, [], ◌∷◌, Text, length, ok, err, text_eq, ltb, if◌then◌else◌,
}
use s3_mcp_relay.Failure.{Error, Outcome}
use s3_mcp_relay.Effect.{Eff, ◌>>=◌, ◌>>◌, lift, pure, fail, request, ignore}
use s3_mcp_relay.Platform.{Host}
use s3_mcp_relay.Protocol.Types.{ShareManifest, UpdateManifest}
use s3_mcp_relay.Protocol.Names.{validate_agent_id, validate_transfer_id, validate_share_name}
use s3_mcp_relay.Crypto.{Crypto, seal, seal_bytes, open_object, open_bytes}
use s3_mcp_relay.Transport.Keys.{
  blob_prefix, blob_chunk_key, update_manifest_key, release_prefix, release_chunk_key, share_prefix,
  share_manifest_key, share_chunk_key,
}
use s3_mcp_relay.Transport.Objects.{
  Transport, max_relay_object_bytes, max_blob_chunk_bytes, put_body, delete_key, get_raw,
  put_encrypted, get_encrypted, list_keys,
}

module _ {W : Type 0} (h : Host W) where
  -- What `put_blob_chunk`, `put_release_chunk` and `put_share_chunk` do once the names are checked.
  unfoldable pub put_chunk : Crypto → Text → List ℕ → Eff W (Unit {0})
  put_chunk crypto key bytes =
      if ltb max_blob_chunk_bytes (length bytes)
      then fail Error.chunk_too_large
      else do body ← seal_bytes h crypto key bytes; put_body h key body

  abbrev open_chunk : Crypto → Text → Option (List ℕ) → Outcome (Option (List ℕ))
  open_chunk crypto key none = ok none
  open_chunk crypto key (some bytes) = elim (open_bytes h.codec crypto key bytes) [
    | ok plain ↦ ok (some plain)
    | err e ↦ err e
  ]

  unfoldable pub get_chunk : Crypto → Text → Eff W (Option (List ℕ))
  get_chunk crypto key = do
    bytes ← get_raw h key max_blob_chunk_bytes
    lift (open_chunk crypto key bytes)

  -- `for key in self.list_keys(prefix).await? { if let Err(error) = self.delete_key(&key).await {} }`
  unfoldable pub delete_each : List Text → Eff W (Unit {0})
  delete_each [] = pure tt
  delete_each (key ∷ keys) = do ignore (delete_key h key); delete_each keys

  unfoldable pub delete_prefix : Text → Eff W (Unit {0})
  unfolding delete_each
  delete_prefix prefix = do keys ← list_keys h prefix; delete_each keys

  module _ (t : Transport) where
    unfoldable pub put_blob_chunk : Text → Text → ℕ → List ℕ → Eff W (Unit {0})
    unfolding put_chunk
    put_blob_chunk agent transfer index bytes = do
      lift (validate_agent_id agent)
      lift (validate_transfer_id h.codec.is_uuid transfer)
      put_chunk t.crypto (blob_chunk_key t.prefix agent transfer index) bytes

    unfoldable pub get_blob_chunk : Text → Text → ℕ → Eff W (Option (List ℕ))
    unfolding get_chunk
    get_blob_chunk agent transfer index = do
      lift (validate_agent_id agent)
      lift (validate_transfer_id h.codec.is_uuid transfer)
      get_chunk t.crypto (blob_chunk_key t.prefix agent transfer index)

    unfoldable pub delete_blob : Text → Text → Eff W (Unit {0})
    unfolding delete_prefix
    delete_blob agent transfer = do
      lift (validate_agent_id agent)
      lift (validate_transfer_id h.codec.is_uuid transfer)
      delete_prefix (blob_prefix t.prefix agent transfer)

    unfoldable pub put_update_manifest : UpdateManifest → Eff W (Unit {0})
    put_update_manifest manifest = do
      lift (validate_agent_id manifest.agent_id)
      lift (validate_transfer_id h.codec.is_uuid manifest.release)
      put_encrypted h h.codec.update_manifests t (update_manifest_key t.prefix manifest.agent_id)
          manifest

    -- The checks on the manifest that was read.
    unfoldable pub check_update_manifest :
        Text → Option UpdateManifest → Outcome (Option UpdateManifest)
    check_update_manifest agent none = ok none
    check_update_manifest agent (some manifest) =
        if not (text_eq manifest.agent_id agent)
        then err Error.manifest_names_other_agent
        else elim (validate_transfer_id h.codec.is_uuid manifest.release) [
          | ok _ ↦ ok (some manifest)
          | err e ↦ err e
        ]

    unfoldable pub read_update_manifest : Text → Eff W (Option UpdateManifest)
    unfolding check_update_manifest
    read_update_manifest agent = do
      lift (validate_agent_id agent)
      found ← get_encrypted h h.codec.update_manifests t (update_manifest_key t.prefix agent)
      lift (check_update_manifest agent found)

    abbrev tag_of : Option (Option Text) → Option Text
    tag_of none = none
    tag_of (some tag) = tag

    unfoldable pub update_manifest_tag : Text → Eff W (Option Text)
    update_manifest_tag agent = do
      lift (validate_agent_id agent)
      found ← request (Error.service 5) (h.head_object (update_manifest_key t.prefix agent))
      pure (tag_of found)

    unfoldable pub delete_update_manifest : Text → Eff W (Unit {0})
    delete_update_manifest agent = do
      lift (validate_agent_id agent)
      delete_key h (update_manifest_key t.prefix agent)

    unfoldable pub put_release_chunk : Text → ℕ → List ℕ → Crypto → Eff W (Unit {0})
    unfolding put_chunk
    put_release_chunk release index bytes crypto = do
      lift (validate_transfer_id h.codec.is_uuid release)
      put_chunk crypto (release_chunk_key t.prefix release index) bytes

    unfoldable pub get_release_chunk : Text → ℕ → Crypto → Eff W (Option (List ℕ))
    unfolding get_chunk
    get_release_chunk release index crypto = do
      lift (validate_transfer_id h.codec.is_uuid release)
      get_chunk crypto (release_chunk_key t.prefix release index)

    unfoldable pub delete_release : Text → Eff W (Unit {0})
    unfolding delete_prefix
    delete_release release = do
      lift (validate_transfer_id h.codec.is_uuid release)
      delete_prefix (release_prefix t.prefix release)

    unfoldable pub put_share_chunk : Text → ℕ → List ℕ → Crypto → Eff W (Unit {0})
    unfolding put_chunk
    put_share_chunk name index bytes crypto = do
      lift (validate_share_name name)
      put_chunk crypto (share_chunk_key t.prefix name index) bytes

    unfoldable pub get_share_chunk : Text → ℕ → Crypto → Eff W (Option (List ℕ))
    unfolding get_chunk
    get_share_chunk name index crypto = do
      lift (validate_share_name name)
      get_chunk crypto (share_chunk_key t.prefix name index)

    unfoldable pub put_share_manifest : ShareManifest → Crypto → Eff W (Unit {0})
    put_share_manifest manifest crypto = do
      lift (validate_share_name manifest.name)
      let key = share_manifest_key t.prefix manifest.name
      body ← seal h h.codec.share_manifests crypto key manifest
      put_body h key body

    unfoldable pub check_share_manifest :
        Text → Crypto → Text → Option (List ℕ) → Outcome (Option ShareManifest)
    check_share_manifest name crypto key none = ok none
    check_share_manifest name crypto key (some bytes) =
        elim (open_object h.codec h.codec.share_manifests crypto key bytes) [
          | err e ↦ err e
          | ok manifest ↦
              if not (text_eq manifest.name name)
              then err Error.manifest_names_other_file
              else ok (some manifest)
        ]

    unfoldable pub read_share_manifest : Text → Crypto → Eff W (Option ShareManifest)
    unfolding check_share_manifest
    read_share_manifest name crypto = do
      lift (validate_share_name name)
      bytes ← get_raw h (share_manifest_key t.prefix name) max_relay_object_bytes
      lift (check_share_manifest name crypto (share_manifest_key t.prefix name) bytes)

    -- The manifest goes first, and each deletion may fail.
    unfoldable pub delete_share : Text → Eff W (Unit {0})
    unfolding delete_prefix
    delete_share name = do
      lift (validate_share_name name)
      ignore (delete_key h (share_manifest_key t.prefix name))
      delete_prefix (share_prefix t.prefix name)
