-- ===== src/Transport/Keys.antt =====
-- The object keys of crates/common/src/transport.rs, under the prefix of the configuration.
pub mod Laws
use s3_mcp_relay.Base.{ℕ, ◌++◌, Text, codes, decimal, padded}
use s3_mcp_relay.Protocol.Types.{LogChunk}

module _ (prefix : Text) where
  unfoldable pub cmd_prefix : Text → Text
  cmd_prefix agent = prefix ++ codes "cmd/" ++ agent ++ codes "/"

  unfoldable pub cmd_key : Text → Text → Text
  cmd_key agent id = prefix ++ codes "cmd/" ++ agent ++ codes "/" ++ id ++ codes ".json"

  unfoldable pub resp_key : Text → Text → Text
  resp_key agent id = prefix ++ codes "resp/" ++ agent ++ codes "/" ++ id ++ codes ".json"

  unfoldable pub agents_prefix : Text
  agents_prefix = prefix ++ codes "agents/"

  unfoldable pub agent_key : Text → Text
  agent_key agent = prefix ++ codes "agents/" ++ agent ++ codes ".json"

  unfoldable pub doorbell_key : Text → Text
  doorbell_key agent = prefix ++ codes "doorbell/" ++ agent ++ codes ".json"

  unfoldable pub log_prefix : Text → Text
  log_prefix agent = prefix ++ codes "logs/" ++ agent ++ codes "/"

  -- `{:020}`
  unfoldable pub log_key : LogChunk → Text
  unfolding log_prefix
  log_key chunk =
      log_prefix chunk.agent_id
      ++ chunk.source
      ++ codes "-"
      ++ padded 20 chunk.offset
      ++ codes ".json"

  unfoldable pub blob_prefix : Text → Text → Text
  blob_prefix agent transfer =
      prefix ++ codes "blob/" ++ agent ++ codes "/" ++ transfer ++ codes "/"

  -- `{index:08}`
  unfoldable pub blob_chunk_key : Text → Text → ℕ → Text
  unfolding blob_prefix
  blob_chunk_key agent transfer index = blob_prefix agent transfer ++ padded 8 index

  unfoldable pub update_manifest_key : Text → Text
  update_manifest_key agent = prefix ++ codes "updates/manifest/" ++ agent ++ codes ".json"

  unfoldable pub release_prefix : Text → Text
  release_prefix release = prefix ++ codes "updates/blob/" ++ release ++ codes "/"

  unfoldable pub release_chunk_key : Text → ℕ → Text
  unfolding release_prefix
  release_chunk_key release index = release_prefix release ++ padded 8 index

  unfoldable pub share_prefix : Text → Text
  share_prefix name = prefix ++ codes "share/" ++ name ++ codes "/"

  unfoldable pub share_manifest_key : Text → Text
  unfolding share_prefix
  share_manifest_key name = share_prefix name ++ codes "manifest"

  unfoldable pub share_chunk_key : Text → ℕ → Text
  unfolding share_prefix
  share_chunk_key name index = share_prefix name ++ padded 8 index
