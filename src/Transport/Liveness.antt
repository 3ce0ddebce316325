-- ===== src/Transport/Liveness.antt =====
-- Heartbeats and log chunks: crates/common/src/transport.rs.
use s3_mcp_relay.Base.{
  Bool, true, false, not, ◌||◌, Option, none, some, List, [], ◌∷◌, ◌++◌, Text, codes, length, all,
  ok, err, text_eq, text_lt, starts_with, pos, ltb_ℤ, leb_ℤ, ltb, ◌==◌, if◌then◌else◌, sort,
}
use s3_mcp_relay.Failure.{Error, Outcome}
use s3_mcp_relay.Effect.{Eff, ◌>>=◌, ◌>>◌, lift, pure, fail, sample, attempt, ignore}
use s3_mcp_relay.Platform.{Host}
use s3_mcp_relay.Protocol.Types.{Heartbeat, LogChunk}
use s3_mcp_relay.Protocol.Names.{is_name_byte, validate_agent_id}
use s3_mcp_relay.Protocol.Checks.{is_stale}
use s3_mcp_relay.Transport.Keys.{agent_key, agents_prefix, log_key, log_prefix}
use s3_mcp_relay.Transport.Objects.{Transport, delete_key, put_encrypted, get_encrypted, list_keys}

abbrev pub is_ok : Outcome (Unit {0}) → Bool
is_ok (ok _) = true
is_ok (err _) = false

-- `sort_by(|a, b| a.agent_id.cmp(&b.agent_id))`
abbrev pub id_before : Heartbeat → Heartbeat → Bool
id_before a b = text_lt a.agent_id b.agent_id

unfoldable pub validate_source : Text → Outcome (Unit {0})
validate_source source =
    if length source == 0 || ltb 96 (length source) || not (all is_name_byte source)
    then err Error.unsafe_log_source
    else ok tt

module _ {W : Type 0} (h : Host W) (t : Transport) where
  unfoldable pub write_heartbeat : Heartbeat → Eff W (Unit {0})
  write_heartbeat heartbeat = do
    lift (validate_agent_id heartbeat.agent_id)
    put_encrypted h h.codec.heartbeats t (agent_key t.prefix heartbeat.agent_id) heartbeat

  unfoldable pub delete_heartbeat : Text → Eff W (Unit {0})
  delete_heartbeat agent = do
    lift (validate_agent_id agent)
    delete_key h (agent_key t.prefix agent)

  -- `heartbeat.filter(|value| !value.is_stale())`
  unfoldable pub keep_fresh : Option Heartbeat → Eff W (Option Heartbeat)
  keep_fresh none = pure none
  keep_fresh (some value) = do
    now ← sample h.now_unix
    pure (if is_stale now value then none else some value)

  unfoldable pub read_heartbeat : Text → Eff W (Option Heartbeat)
  unfolding keep_fresh
  read_heartbeat agent = do
    lift (validate_agent_id agent)
    found ← get_encrypted h h.codec.heartbeats t (agent_key t.prefix agent)
    keep_fresh found

  unfoldable pub publish_log_chunk : LogChunk → Eff W (Unit {0})
  unfolding validate_source
  publish_log_chunk chunk = do
    lift (validate_agent_id chunk.agent_id)
    lift (validate_source chunk.source)
    put_encrypted h h.codec.log_chunks t (log_key t.prefix chunk) chunk

  unfoldable pub read_log_chunks : List Text → Eff W (List (Text × LogChunk))
  read_log_chunks [] = pure []
  read_log_chunks (key ∷ keys) = do
    found ← get_encrypted h h.codec.log_chunks t key
    rest ← read_log_chunks keys
    pure (elim found [ none ↦ rest | some chunk ↦ (key, chunk) ∷ rest ])

  unfoldable pub pending_log_chunks : Text → Eff W (List (Text × LogChunk))
  unfolding read_log_chunks
  pending_log_chunks agent = do
    lift (validate_agent_id agent)
    keys ← list_keys h (log_prefix t.prefix agent)
    read_log_chunks (sort text_lt keys)

  unfoldable pub acknowledge_log_chunk : Text → Eff W (Unit {0})
  acknowledge_log_chunk key =
      if starts_with key (t.prefix ++ codes "logs/")
      then delete_key h key
      else fail Error.invalid_log_key

  -- The first guard of `list_heartbeats`: bad routing or time to live.
  unfoldable pub is_misplaced : Text → Heartbeat → Bool
  is_misplaced key heartbeat =
      not (is_ok (validate_agent_id heartbeat.agent_id))
      || not (text_eq (agent_key t.prefix heartbeat.agent_id) key)
      || leb_ℤ heartbeat.ttl_secs (pos 0)
      || ltb_ℤ (pos 3600) heartbeat.ttl_secs

  -- One arm each of the `match` in `list_heartbeats`, with the live heartbeats so far.
  unfoldable pub keep_heartbeat :
      Text → Outcome (Option Heartbeat) → List Heartbeat → Eff W (List Heartbeat)
  unfolding is_misplaced
  keep_heartbeat key (ok (some heartbeat)) live =
      if is_misplaced key heartbeat then ignore (delete_key h key) >> pure live else do
        now ← sample h.now_unix
        if is_stale now heartbeat
            then ignore (delete_key h key) >> pure live
            else pure (live ++ heartbeat ∷ [])
  keep_heartbeat key (ok none) live = pure live
  keep_heartbeat key (err e) live = ignore (delete_key h key) >> pure live

  unfoldable pub collect_heartbeats : List Text → List Heartbeat → Eff W (List Heartbeat)
  unfolding keep_heartbeat
  collect_heartbeats [] live = pure live
  collect_heartbeats (key ∷ keys) live = do
    found ← attempt (get_encrypted h h.codec.heartbeats t key)
    live' ← keep_heartbeat key found live
    collect_heartbeats keys live'

  unfoldable pub list_heartbeats : Eff W (List Heartbeat)
  unfolding collect_heartbeats
  list_heartbeats = do
    keys ← list_keys h (agents_prefix t.prefix)
    live ← collect_heartbeats keys []
    pure (sort id_before live)
