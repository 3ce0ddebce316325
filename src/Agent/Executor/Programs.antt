-- ===== src/Agent/Executor/Programs.antt =====
-- The handlers on programs: `exec`, `start_job` and `job_output` of crates/agent/src/executor.rs.
use s3_mcp_relay.Base.{
  ℕ, min, max, Bool, true, false, ◌||◌, Option, none, some, List, Text, length, ℤ, ok, err, ltb,
  ◌==◌, if◌then◌else◌,
}
use s3_mcp_relay.Failure.{Error, Outcome}
use s3_mcp_relay.Effect.{Eff, ◌>>=◌, ◌>>◌, lift, pure, fail, request, option_or}
use s3_mcp_relay.Platform.{Host}
use s3_mcp_relay.Protocol.Types.{Command, Response, ResponsePayload}
use s3_mcp_relay.Protocol.Names.{validate_transfer_id}
use s3_mcp_relay.Protocol.Checks.{response_ok}
use s3_mcp_relay.Agent.Jobs.{Table, get, start, stdout_path, stderr_path, tail_file}
use s3_mcp_relay.Agent.Policy.{Policy, check_existing_path, check_program}
use s3_mcp_relay.Agent.Executor.{Machine, Waited, read_bounded, respond}

-- The exit code, and whether the time was over.
abbrev pub exit_status : Waited → Outcome (Option ℤ × Bool)
exit_status (Waited.exited code) = ok (code, false)
exit_status Waited.wait_failed = err (Error.service 60)
exit_status Waited.timed_out = ok (none, true)

module _ {W : Type 0} (h : Host W) (m : Machine W) (policy : Policy) (cmd : Command) where
  -- `cwd.map(|value| policy.check_existing_path(value)).transpose()?`
  unfoldable pub check_cwd : Option Text → Eff W (Option Text)
  check_cwd none = pure none
  check_cwd (some value) = do
    path ← check_existing_path m.paths policy m.files value
    pure (some path)

  unfoldable pub decode_stdin : Option Text → Outcome (Option (List ℕ))
  decode_stdin none = ok none
  decode_stdin (some value) = elim (h.codec.decode value) [
    | none ↦ err Error.content_not_base64
    | some bytes ↦
        if ltb policy.max_file_bytes (length bytes)
        then err Error.stdin_too_large
        else ok (some bytes)
  ]

  -- `cmd.timeout_secs.min(policy.max_timeout_secs).max(1)`
  abbrev pub exec_seconds : ℕ
  exec_seconds = max (min cmd.timeout_secs policy.max_timeout_secs) 1

  unfoldable pub exec : Text → List Text → Option Text → Option Text → Eff W Response
  unfolding check_cwd decode_stdin respond
  exec program args cwd stdin_b64 = do
    program ← check_program m.paths policy m.files program
    cwd ← check_cwd cwd
    stdin ← lift (decode_stdin stdin_b64)
    finished ←
        request (Error.service 61)
          (m.run_program program args cwd policy.child_env stdin exec_seconds)
    status ← lift (exit_status finished.waited)
    out ← lift (read_bounded finished.stdout policy.max_output_bytes)
    errs ← lift (read_bounded finished.stderr policy.max_output_bytes)
    respond h cmd (
        ResponsePayload.exec (h.codec.encode out.0) (h.codec.encode errs.0) out.1 errs.1 status.0
          status.1)

  -- What `start_job` checks before the job starts; first its identifier.
  unfoldable pub admit_job : Text → Option Text → ℕ → Eff W (Text × Option Text)
  unfolding check_cwd
  admit_job program cwd max_runtime_secs = do
    program ← check_program m.paths policy m.files program
    cwd ← check_cwd cwd
    if max_runtime_secs == 0 || ltb policy.max_job_secs max_runtime_secs
        then fail Error.job_time_outside_policy
        else pure (program, cwd)

  unfoldable pub prepare_job : Text → Text → Option Text → ℕ → Eff W (Text × Option Text)
  unfolding admit_job
  prepare_job job program cwd max_runtime_secs =
      lift (validate_transfer_id h.codec.is_uuid job) >> admit_job program cwd max_runtime_secs

  -- `dir` is the directory of the job manager.
  module _ (dir : Text) where
    -- The response once the job manager has answered.
    abbrev pub start_answer :
        Text → (Outcome (Option ℕ) × Table) × W → (Outcome Response × Table) × W
    start_answer job ((err e, table), w) = ((err e, table), w)
    start_answer job ((ok pid, table), w) =
        let (now, w') = h.now_unix w in
        ((ok (response_ok now cmd (ResponsePayload.job_started job pid)), table), w')

    abbrev pub start_prepared :
        Text
        → List Text
        → Option Text
        → Table
        → Outcome (Text × Option Text) × W
        → (Outcome Response × Table) × W
    start_prepared job args label table (err e, w) = ((err e, table), w)
    start_prepared job args label table (ok (program, cwd), w) =
        start_answer job (start m.shell dir job program args cwd policy.child_env label table w)

    unfoldable pub start_job :
        Text
        → Text
        → List Text
        → Option Text
        → ℕ
        → Option Text
        → Table
        → W
        → (Outcome Response × Table) × W
    unfolding prepare_job
    start_job job program args cwd max_runtime_secs label table w =
        start_prepared job args label table (prepare_job job program cwd max_runtime_secs w)

    unfoldable pub job_output : Text → Option ℕ → Table → Eff W Response
    unfolding respond
    job_output job tail_bytes table = do
      lift (validate_transfer_id h.codec.is_uuid job)
      entry ← lift (option_or Error.no_such_job (get job table))
      out ← request (Error.service 62) (m.read_tail (stdout_path dir job))
      errs ← request (Error.service 63) (m.read_tail (stderr_path dir job))
      let stdout_tail = tail_file m.lossy tail_bytes out
      let stderr_tail = tail_file m.lossy tail_bytes errs
      respond h cmd (
          ResponsePayload.job_output stdout_tail.0 stderr_tail.0 stdout_tail.1 stderr_tail.1
            entry.status.stdout_path entry.status.stderr_path)
