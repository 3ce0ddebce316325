-- ===== src/Agent/Executor/Transfers.antt =====
-- The handlers on transfers and shares: `push_blob`, `pull_blob`, `share_put` and `share_get` of
-- crates/agent/src/executor.rs.
use s3_mcp_relay.Base.{
  ℕ, min, Option, none, some, List, ◌++◌, Text, codes, ℤ, ok, err, ltb, if◌then◌else◌,
}
use s3_mcp_relay.Failure.{Error, Outcome}
use s3_mcp_relay.Effect.{Eff, ◌>>=◌, ◌>>◌, lift, fail, request, sample, attempt, ignore}
use s3_mcp_relay.Platform.{Host}
use s3_mcp_relay.Protocol.Types.{Command, Response, ResponsePayload, ShareManifest}
use s3_mcp_relay.Protocol.Names.{validate_share_name}
use s3_mcp_relay.Crypto.{Crypto, from_base64}
use s3_mcp_relay.Transport.Objects.{Transport, blob_chunk_bytes}
use s3_mcp_relay.Transport.Bulk.{
  get_blob_chunk, delete_blob, put_share_chunk, get_share_chunk, put_share_manifest,
  read_share_manifest, delete_share,
}
use s3_mcp_relay.Blob.{Manifest, upload_chunks, assemble_file, stage_file}
use s3_mcp_relay.Agent.Policy.{Policy, Paths, check_existing_path, prepare_write_path}
use s3_mcp_relay.Agent.Executor.{Machine, respond}

-- The `key_id` of shares.
abbrev pub share_key_id : Text
share_key_id = codes "share"

abbrev pub or_empty : Option Text → Text
or_empty none = codes ""
or_empty (some name) = name

-- `temp_sibling` of crates/common/src/blob.rs, which `share_get` repeats.
unfoldable pub temp_sibling : Paths → Text → Text
temp_sibling paths dest =
    paths.with_file_name dest (or_empty (paths.file_name dest) ++ codes ".relay-partial")

-- What a share's manifest says of its bytes.
abbrev pub share_contents : ShareManifest → Manifest
share_contents m = record { chunks = m.chunks; total_bytes = m.total_bytes; sha256 = m.sha256 }

module _ {W : Type 0} (h : Host W) (m : Machine W) (policy : Policy) (t : Transport)
    (cmd : Command) where
  -- Rebuilds what `get` fetches at `dest`, by way of its temporary sibling.
  unfoldable pub assemble_at : (ℕ → Eff W (Option (List ℕ))) → Manifest → Text → Eff W ℕ
  unfolding temp_sibling
  assemble_at get manifest dest =
      assemble_file m.disk m.digest get manifest (temp_sibling m.paths dest) dest

  unfoldable pub push_blob : Text → Text → Manifest → Eff W Response
  unfolding assemble_at respond
  push_blob transfer dest_path manifest =
      if ltb policy.max_blob_bytes manifest.total_bytes then fail Error.exceeds_max_blob else do
        dest ← prepare_write_path m.paths policy m.files dest_path
        bytes ← assemble_at (get_blob_chunk h t cmd.agent_id transfer) manifest dest
        ignore (delete_blob h t cmd.agent_id transfer)
        respond h cmd (ResponsePayload.blob_written bytes manifest.sha256)

  -- What follows the staging of a file; a failure cleans up.
  unfoldable pub staged_response : Text → Outcome Manifest → Eff W Response
  unfolding respond
  staged_response transfer (ok manifest) =
      respond h cmd
        (ResponsePayload.blob_staged manifest.chunks manifest.total_bytes manifest.sha256)
  staged_response transfer (err e) = ignore (delete_blob h t cmd.agent_id transfer) >> fail e

  unfoldable pub pull_blob : ℕ → Text → Text → ℕ → Eff W Response
  unfolding staged_response
  pull_blob fuel transfer path max_bytes = do
    source ← check_existing_path m.paths policy m.files path
    size ← request (Error.service 51) (m.files.size source)
    if ltb (min max_bytes policy.max_blob_bytes) size then fail Error.exceeds_max_blob else do
      staged ←
          attempt
            (stage_file h m.disk m.digest t m.upload_concurrency fuel cmd.agent_id transfer source)
      staged_response transfer staged

  -- What follows the upload of a shared file: the manifest is written last.
  unfoldable pub publish_share : Crypto → Text → ℤ → Outcome (ℕ × ℕ × Text) → Eff W Response
  unfolding respond
  publish_share crypto name expires_at (err e) = ignore (delete_share h t name) >> fail e
  publish_share crypto name expires_at (ok staged) = do
    now ← sample h.now_unix
    put_share_manifest h t
        (record {
          name = name;
          chunks = staged.0;
          total_bytes = staged.1;
          sha256 = staged.2;
          source_agent = cmd.agent_id;
          created_at = now;
          expires_at = expires_at;
        })
        crypto
    respond h cmd (ResponsePayload.shared name staged.0 staged.1 staged.2)

  unfoldable pub put_share_with : Crypto → Text → ℕ → List ℕ → Eff W (Unit {0})
  put_share_with crypto name index bytes = put_share_chunk h t name index bytes crypto

  unfoldable pub share_put : ℕ → Text → Text → Text → ℤ → Eff W Response
  unfolding publish_share put_share_with
  share_put fuel name path key_b64 expires_at = do
    lift (validate_share_name name)
    source ← check_existing_path m.paths policy m.files path
    size ← request (Error.service 52) (m.files.size source)
    if ltb policy.max_blob_bytes size then fail Error.exceeds_max_blob else do
      crypto ← lift (from_base64 h.codec key_b64 share_key_id)
      staged ← attempt (
          upload_chunks m.disk m.digest (put_share_with crypto name) fuel source blob_chunk_bytes
            m.upload_concurrency)
      publish_share crypto name expires_at staged

  abbrev pub some_manifest : Option ShareManifest → Outcome ShareManifest
  some_manifest none = err Error.nothing_shared
  some_manifest (some manifest) = ok manifest

  unfoldable pub get_share_with : Crypto → Text → ℕ → Eff W (Option (List ℕ))
  get_share_with crypto name index = get_share_chunk h t name index crypto

  -- What follows the reading of a share's manifest.
  unfoldable pub receive_share : Crypto → Text → ShareManifest → Eff W Response
  unfolding assemble_at get_share_with respond
  receive_share crypto dest_path manifest =
      if ltb policy.max_blob_bytes manifest.total_bytes then fail Error.exceeds_max_blob else do
        dest ← prepare_write_path m.paths policy m.files dest_path
        bytes ← assemble_at (get_share_with crypto manifest.name) (share_contents manifest) dest
        respond h cmd (
            ResponsePayload.shared manifest.name manifest.chunks manifest.total_bytes
              manifest.sha256)

  unfoldable pub share_get : Text → Text → Text → Eff W Response
  unfolding receive_share
  share_get name dest_path key_b64 = do
    lift (validate_share_name name)
    crypto ← lift (from_base64 h.codec key_b64 share_key_id)
    found ← read_share_manifest h t name crypto
    manifest ← lift (some_manifest found)
    receive_share crypto dest_path manifest
