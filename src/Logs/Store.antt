-- ===== src/Logs/Store.antt =====
-- `LogStore::ingest` of crates/controller/src/log_store.rs. The database and the file system are
-- parameters.
pub mod Disk
pub mod Laws
use s3_mcp_relay.Base.{
  ℕ, ◌+◌, ◌-◌, ◌^◌, min, Bool, true, false, not, ◌||◌, Option, none, some, List, Text, length, all,
  ℤ, pos, negsuc, ok, err, ltb, ◌==◌, if◌then◌else◌,
}
use s3_mcp_relay.Failure.{Error, Outcome}
use s3_mcp_relay.Effect.{Eff, ◌>>=◌, ◌>>◌, lift, pure, fail, request, option_or}
use s3_mcp_relay.Protocol.Types.{LogChunk}
use s3_mcp_relay.Protocol.Names.{validate_agent_id, is_name_byte}

-- What a store does outside: `write_at` opens the log of a source of an agent, seeks to an offset,
-- writes and syncs; `next_offset` and `set_next` are the row of the table for the two; `connect`
-- opens the database.
pub record LogDisk (W : Type 0) : Type 0 where
  pub create_dir_all : Text → W → Option (Unit {0}) × W
  pub connect : W → Option (Unit {0}) × W
  pub next_offset : Text → Text → W → Option (Option ℤ) × W
  pub write_at : Text → Text → ℕ → List ℕ → W → Option (Unit {0}) × W
  pub set_next : Text → Text → ℤ → ℤ → W → Option (Unit {0}) × W

-- `.unwrap_or(0).max(0) as u64`
abbrev pub row_offset : Option ℤ → ℕ
row_offset none = 0
row_offset (some (pos n)) = n
row_offset (some (negsuc n)) = 0

-- `as i64` of a `u64`
unfoldable pub to_i64 : ℕ → ℤ
to_i64 n = if ltb n (2 ^ 63) then pos n else negsuc (2 ^ 64 - 1 - n)

-- `next.saturating_add(data.len() as u64)`
abbrev pub advance : ℕ → ℕ → ℕ
advance next count = min (next + count) (2 ^ 64 - 1)

abbrev pub check_source : Text → Outcome (Unit {0})
check_source source =
    if length source == 0 || not (all is_name_byte source)
    then err Error.unsafe_log_source
    else ok tt

module _ {W : Type 0} (disk : LogDisk W) (decode : Text → Option (List ℕ)) where
  -- The chunk that comes next.
  unfoldable pub store_chunk : LogChunk → ℕ → List ℕ → Eff W (Unit {0})
  unfolding to_i64
  store_chunk chunk next bytes = do
    request (Error.service 80) (disk.write_at chunk.agent_id chunk.source chunk.offset bytes)
    request (Error.service 81)
        (disk.set_next chunk.agent_id chunk.source (to_i64 (advance next (length bytes))) chunk.at)

  unfoldable pub place_chunk : LogChunk → List ℕ → Option ℤ → Eff W (Unit {0})
  unfolding store_chunk
  place_chunk chunk bytes row =
      let next = row_offset row in
      if ltb next chunk.offset
      then fail Error.log_gap
      else if chunk.offset == next
      then store_chunk chunk next bytes
      else pure tt

  unfoldable pub ingest : LogChunk → Eff W (Unit {0})
  unfolding place_chunk
  ingest chunk = do
    lift (validate_agent_id chunk.agent_id)
    lift (check_source chunk.source)
    bytes ← lift (option_or Error.chunk_not_base64 (decode chunk.data_b64))
    request (Error.service 82) (disk.create_dir_all chunk.agent_id)
    request (Error.service 83) disk.connect
    row ← request (Error.service 84) (disk.next_offset chunk.agent_id chunk.source)
    place_chunk chunk bytes row
