-- ===== src/Agent/Executor/Run.antt =====
-- `run` and `execute` of crates/agent/src/executor.rs: one command, whatever its kind.
use s3_mcp_relay.Base.{ℕ, Text, ok, err}
use s3_mcp_relay.Failure.{Outcome}
use s3_mcp_relay.Effect.{Eff, ◌>>◌, lift}
use s3_mcp_relay.Platform.{Host}
use s3_mcp_relay.Protocol.Types.{Command, CommandKind, Response, ResponsePayload}
use s3_mcp_relay.Protocol.Checks.{response_err}
use s3_mcp_relay.Transport.Objects.{Transport}
use s3_mcp_relay.Agent.Jobs.{Table, cancel_job, list_jobs}
use s3_mcp_relay.Agent.Policy.{Policy}
use s3_mcp_relay.Agent.Executor.{Machine, respond}
use s3_mcp_relay.Agent.Executor.Handlers.{
  read_file, write_file, list_dir, make_dir, remove_path, move_path,
}
use s3_mcp_relay.Agent.Executor.Transfers.{push_blob, pull_blob, share_put, share_get}
use s3_mcp_relay.Agent.Executor.Programs.{exec, start_job, job_output}

-- A handler that leaves the job table alone.
abbrev pub keep_table : {W : Type 0} → Eff W Response → Table → W → (Outcome Response × Table) × W
keep_table m table w = let (r, w') = m w in ((r, table), w')

module _ {W : Type 0} (h : Host W) (m : Machine W) (policy : Policy) (t : Transport) (fuel : ℕ)
    (dir : Text) (cmd : Command) where
  unfoldable pub cancel_response : Text → Table → W → (Outcome Response × Table) × W
  unfolding respond
  cancel_response job table w =
      let (cancelled, table') = cancel_job job table in
      let (r, w') = (lift cancelled >> respond h cmd ResponsePayload.empty) w in ((r, table'), w')

  unfoldable pub run : CommandKind → Table → W → (Outcome Response × Table) × W
  unfolding cancel_response
  run CommandKind.ping = keep_table (respond h cmd (ResponsePayload.pong m.hostname m.os m.version))
  run CommandKind.stand_down = keep_table (respond h cmd ResponsePayload.empty)
  run (CommandKind.exec program args cwd stdin_b64) =
      keep_table (exec h m policy cmd program args cwd stdin_b64)
  run (CommandKind.read_file path max_bytes) = keep_table (read_file h m policy cmd path max_bytes)
  run (CommandKind.write_file path contents_b64 append) =
      keep_table (write_file h m policy cmd path contents_b64 append)
  run (CommandKind.list_dir path) = keep_table (list_dir h m policy cmd path)
  run (CommandKind.push_blob transfer dest_path chunks total_bytes sha256) = keep_table (
      push_blob h m policy t cmd transfer dest_path
        (record { chunks = chunks; total_bytes = total_bytes; sha256 = sha256 }))
  run (CommandKind.pull_blob transfer path max_bytes) =
      keep_table (pull_blob h m policy t cmd fuel transfer path max_bytes)
  run (CommandKind.share_put name path key_b64 expires_at) =
      keep_table (share_put h m policy t cmd fuel name path key_b64 expires_at)
  run (CommandKind.share_get name dest_path key_b64) =
      keep_table (share_get h m policy t cmd name dest_path key_b64)
  run (CommandKind.start_job job program args cwd max_runtime_secs label) =
      start_job h m policy cmd dir job program args cwd max_runtime_secs label
  run CommandKind.list_jobs =
      λ table. keep_table (respond h cmd (ResponsePayload.job_list (list_jobs table))) table
  run (CommandKind.job_output job tail_bytes) =
      λ table. keep_table (job_output h m policy cmd dir job tail_bytes table) table
  run (CommandKind.cancel_job job) = cancel_response job
  run (CommandKind.make_dir path parents) = keep_table (make_dir h m policy cmd path parents)
  run (CommandKind.remove path recursive) = keep_table (remove_path h m policy cmd path recursive)
  run (CommandKind.move from to) = keep_table (move_path h m policy cmd from to)

  -- An error becomes the text of a response.
  abbrev pub answer : (Outcome Response × Table) × W → (Response × Table) × W
  answer ((ok response, table), w) = ((response, table), w)
  answer ((err e, table), w) = let (now, w') = h.now_unix w in ((response_err now cmd e, table), w')

  unfoldable pub execute : Table → W → (Response × Table) × W
  unfolding run
  execute table w = answer (run cmd.kind table w)
