-- ===== src/Agent/Executor/Handlers.antt =====
-- The handlers on paths: `read_file`, `write_file`, `list_dir`, `make_dir`, `remove` and `move_path`
-- of crates/agent/src/executor.rs.
use s3_mcp_relay.Base.{ℕ, min, Bool, Option, none, some, [], Text, length, ltb, if◌then◌else◌, sort}
use s3_mcp_relay.Failure.{Error}
use s3_mcp_relay.Effect.{Eff, ◌>>=◌, ◌>>◌, lift, fail, request, sample, option_or}
use s3_mcp_relay.Platform.{Host}
use s3_mcp_relay.Protocol.Types.{Command, Response, ResponsePayload}
use s3_mcp_relay.Agent.Policy.{Policy, check_existing_path, check_write_path, prepare_write_path}
use s3_mcp_relay.Agent.Executor.{Machine, read_bounded, dir_entries, name_before, respond}

abbrev pub or_limit : Option ℕ → ℕ → ℕ
or_limit none limit = limit
or_limit (some n) limit = n

module _ {W : Type 0} (h : Host W) (m : Machine W) (policy : Policy) (cmd : Command) where
  unfoldable pub read_file : Text → Option ℕ → Eff W Response
  unfolding respond
  read_file value requested = do
    path ← check_existing_path m.paths policy m.files value
    let limit = min (or_limit requested policy.max_file_bytes) policy.max_file_bytes
    reads ← request (Error.service 42) (m.files.open_reader path)
    kept ← lift (read_bounded reads limit)
    respond h cmd (ResponsePayload.file_contents (h.codec.encode kept.0) kept.1)

  unfoldable pub write_file : Text → Text → Bool → Eff W Response
  unfolding respond
  write_file value contents_b64 append = do
    path ← check_write_path m.paths policy m.files value
    contents ← lift (option_or Error.content_not_base64 (h.codec.decode contents_b64))
    if ltb policy.max_file_bytes (length contents) then fail Error.exceeds_max_file else do
      request (Error.service 43) (m.files.open_writer path append)
      request (Error.service 44) (m.files.write_all contents)
      request (Error.service 45) m.files.flush
      respond h cmd (ResponsePayload.written (length contents))

  unfoldable pub list_dir : Text → Eff W Response
  unfolding respond
  list_dir value = do
    path ← check_existing_path m.paths policy m.files value
    directory ← request (Error.service 46) (m.files.read_dir path)
    entries ← lift (dir_entries directory [])
    respond h cmd (ResponsePayload.dir_listing (sort name_before entries))

  -- Something is at the path already.
  unfoldable pub make_present : Text → Eff W Response
  unfolding respond
  make_present path = do
    resolved ← check_existing_path m.paths policy m.files path
    directory ← sample (m.files.is_dir resolved)
    if directory then respond h cmd ResponsePayload.empty else fail Error.not_a_directory

  unfoldable pub make_absent : Text → Bool → Eff W Response
  unfolding respond
  make_absent path parents = do
    target ← prepare_write_path m.paths policy m.files path
    request (Error.service 47)
        (if parents then m.files.create_dir_all target else m.files.create_dir target)
    respond h cmd ResponsePayload.empty

  unfoldable pub make_dir : Text → Bool → Eff W Response
  unfolding make_present make_absent
  make_dir path parents = do
    present ← sample (m.files.exists path)
    if present then make_present path else make_absent path parents

  unfoldable pub remove_path : Text → Bool → Eff W Response
  unfolding respond
  remove_path path recursive = do
    target ← check_existing_path m.paths policy m.files path
    directory ← sample (m.files.is_dir target)
    if directory
        then request (Error.service 48)
            (if recursive then m.files.remove_dir_all target else m.files.remove_dir target)
        else request (Error.service 49) (m.files.remove_file target)
    respond h cmd ResponsePayload.empty

  unfoldable pub move_path : Text → Text → Eff W Response
  unfolding respond
  move_path from to = do
    source ← check_existing_path m.paths policy m.files from
    dest ← prepare_write_path m.paths policy m.files to
    request (Error.service 50) (m.files.rename source dest)
    respond h cmd ResponsePayload.empty
