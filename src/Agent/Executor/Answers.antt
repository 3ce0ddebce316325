-- ===== src/Agent/Executor/Answers.antt =====
-- Whatever a command is and whatever becomes of it, its response is one that its sender accepts.
use s3_mcp_relay.Base.{
  ℕ, ◌≡◌, Bool, true, false, Option, List, Text, ℤ, pos, saturating_add, ◌≤ℤ◌, ok, err, arith, refl,
  subst, if◌then◌else◌,
}
use s3_mcp_relay.Failure.{Error, Outcome}
use s3_mcp_relay.Effect.{Eff, Ensures-continue, fail, lift, ◌>>=◌}
use s3_mcp_relay.Platform.{Host}
use s3_mcp_relay.Transport.Objects.{Transport}
use s3_mcp_relay.Protocol.Types.{Command, CommandKind, Response, ResponsePayload}
use s3_mcp_relay.Protocol.Checks.{response_ok, response_err, validate_for, protocol_version}
use s3_mcp_relay.Protocol.Checks.Laws.{validate_for_iff}
use s3_mcp_relay.Crypto.{Crypto}
use s3_mcp_relay.Blob.{Manifest}
use s3_mcp_relay.Agent.Jobs.{Table, cancel_job}
use s3_mcp_relay.Agent.Policy.{Policy}
use s3_mcp_relay.Agent.Executor.{Machine, respond}
use s3_mcp_relay.Agent.Executor.Handlers.{
  read_file, write_file, list_dir, make_present, make_absent, make_dir, remove_path, move_path,
}
use s3_mcp_relay.Agent.Executor.Transfers.{
  push_blob, staged_response, pull_blob, publish_share, share_put, receive_share, share_get,
}
use s3_mcp_relay.Agent.Executor.Programs.{exec, start_answer, start_prepared, start_job, job_output}
use s3_mcp_relay.Agent.Executor.Run.{cancel_response, run, answer, execute}

-- The response carries the command's identifier and agent and this protocol version.
abbrev IsAnswer : Command → Response → Type 0
IsAnswer cmd r = (r.id ≡ cmd.id) × (r.agent_id ≡ cmd.agent_id) × (r.protocol ≡ protocol_version)

response_ok-valid :
    (now : ℤ) (cmd : Command) (p : ResponsePayload) → IsAnswer cmd (response_ok now cmd p)
unfolding response_ok
response_ok-valid now cmd p = (refl, refl, refl)

response_err-valid : (now : ℤ) (cmd : Command) (e : Error) → IsAnswer cmd (response_err now cmd e)
unfolding response_err
response_err-valid now cmd e = (refl, refl, refl)

-- A response, if it comes to one, answers the command.
record Answers {W : Type 0} (cmd : Command) (m : Eff W Response) : Type 0 where
  at : (w : W) (r : Response) → (m w).0 ≡ ok r → IsAnswer cmd r

module _ {W : Type 0} (cmd : Command) where
  Answers-fail : (e : Error) → Answers {W = W} cmd (fail e)
  Answers-fail e = record { at = λ w r h. absurd (ground arith) }

  Answers-bind :
      {A : Type 0} (m : Eff W A) (f : A → Eff W Response)
      → ((a : A) → Answers cmd (f a))
      → Answers cmd (m >>= f)
  Answers-bind m f k = record {
    at = λ w.
        Ensures-continue (λ a v. Unit {0}) (λ r v. IsAnswer cmd r) f (m w) (λ a h. tt)
          (λ a v t r h. (k a).at v r h);
  }

  Answers-if :
      (b : Bool) (m n : Eff W Response)
      → Answers cmd m
      → Answers cmd n
      → Answers cmd (if b then m else n)
  Answers-if true m n hm hn = hm
  Answers-if false m n hm hn = hn

ruleset answers_rules = (Answers-fail, Answers-bind, Answers-if)

module _ {W : Type 0} (h : Host W) (m : Machine W) (policy : Policy) (t : Transport)
    (cmd : Command) where
  respond-Answers : (p : ResponsePayload) → Answers cmd (respond h cmd p)
  unfolding respond
  respond-Answers p = record {
    at = λ w r e.
        let same : response_ok (h.now_unix w).0 cmd p ≡ r = ground arith in
        subst (λ x. IsAnswer cmd x) same (response_ok-valid (h.now_unix w).0 cmd p);
  }

  read_file-Answers : (p : Text) (n : Option ℕ) → Answers cmd (read_file h m policy cmd p n)
  unfolding read_file
  read_file-Answers p n = search (answers_rules, respond-Answers)

  write_file-Answers : (p c : Text) (a : Bool) → Answers cmd (write_file h m policy cmd p c a)
  unfolding write_file
  write_file-Answers p c a = search (answers_rules, respond-Answers) depth 12

  list_dir-Answers : (p : Text) → Answers cmd (list_dir h m policy cmd p)
  unfolding list_dir
  list_dir-Answers p = search (answers_rules, respond-Answers)

  make_dir-Answers : (p : Text) (b : Bool) → Answers cmd (make_dir h m policy cmd p b)
  unfolding make_dir make_present make_absent
  make_dir-Answers p b = search (answers_rules, respond-Answers) depth 12

  remove_path-Answers : (p : Text) (b : Bool) → Answers cmd (remove_path h m policy cmd p b)
  unfolding remove_path
  remove_path-Answers p b = search (answers_rules, respond-Answers) depth 12

  move_path-Answers : (p q : Text) → Answers cmd (move_path h m policy cmd p q)
  unfolding move_path
  move_path-Answers p q = search (answers_rules, respond-Answers)

  exec-Answers :
      (p : Text) (args : List Text) (cwd stdin : Option Text)
      → Answers cmd (exec h m policy cmd p args cwd stdin)
  unfolding exec
  exec-Answers p args cwd stdin = search (answers_rules, respond-Answers) depth 14

  push_blob-Answers :
      (transfer dest : Text) (c : Manifest)
      → Answers cmd (push_blob h m policy t cmd transfer dest c)
  unfolding push_blob
  push_blob-Answers transfer dest c = search (answers_rules, respond-Answers) depth 12

  staged_response-Answers :
      (transfer : Text) (r : Outcome Manifest)
      → Answers cmd (staged_response h m policy t cmd transfer r)
  unfolding staged_response
  staged_response-Answers transfer (ok c) = respond-Answers _
  staged_response-Answers transfer (err e) = search answers_rules

  pull_blob-Answers :
      (fuel : ℕ) (transfer path : Text) (most : ℕ)
      → Answers cmd (pull_blob h m policy t cmd fuel transfer path most)
  unfolding pull_blob
  pull_blob-Answers fuel transfer path most =
      search (answers_rules, respond-Answers, staged_response-Answers) depth 12

  publish_share-Answers :
      (crypto : Crypto) (name : Text) (expires : ℤ) (r : Outcome (ℕ × ℕ × Text))
      → Answers cmd (publish_share h m policy t cmd crypto name expires r)
  unfolding publish_share
  publish_share-Answers crypto name expires (ok staged) = search (answers_rules, respond-Answers)
  publish_share-Answers crypto name expires (err e) = search answers_rules

  share_put-Answers :
      (fuel : ℕ) (name path key : Text) (expires : ℤ)
      → Answers cmd (share_put h m policy t cmd fuel name path key expires)
  unfolding share_put
  share_put-Answers fuel name path key expires =
      search (answers_rules, publish_share-Answers) depth 14

  share_get-Answers :
      (name dest key : Text) → Answers cmd (share_get h m policy t cmd name dest key)
  unfolding share_get receive_share
  share_get-Answers name dest key = search (answers_rules, respond-Answers) depth 16

  module _ (dir : Text) where
    job_output-Answers :
        (job : Text) (most : Option ℕ) (table : Table)
        → Answers cmd (job_output h m policy cmd dir job most table)
    unfolding job_output
    job_output-Answers job most table = search (answers_rules, respond-Answers) depth 14

    -- The same of what leads to a response and a job table.
    abbrev Fits : (Outcome Response × Table) × W → Type 0
    Fits x = (r : Response) → x.0.0 ≡ ok r → IsAnswer cmd r

    start_answer-Fits :
        (job : Text) (x : (Outcome (Option ℕ) × Table) × W)
        → Fits (start_answer h m policy cmd dir job x)
    start_answer-Fits job ((ok pid, table), w) = λ r e.
        let same : response_ok (h.now_unix w).0 cmd (ResponsePayload.job_started job pid) ≡ r =
          ground arith in
        subst (λ x. IsAnswer cmd x) same
          (response_ok-valid (h.now_unix w).0 cmd (ResponsePayload.job_started job pid))
    start_answer-Fits job ((err e, table), w) = λ r bad. absurd (ground arith)

    start_prepared-Fits :
        (job : Text) (args : List Text) (label : Option Text) (table : Table)
        (x : Outcome (Text × Option Text) × W)
        → Fits (start_prepared h m policy cmd dir job args label table x)
    start_prepared-Fits job args label table (ok (program, cwd), w) = start_answer-Fits job _
    start_prepared-Fits job args label table (err e, w) = λ r bad. absurd (ground arith)

    start_job-Fits :
        (job program : Text) (args : List Text) (cwd : Option Text) (secs : ℕ) (label : Option Text)
        (table : Table) (w : W)
        → Fits (start_job h m policy cmd dir job program args cwd secs label table w)
    unfolding start_job
    start_job-Fits job program args cwd secs label table w =
        start_prepared-Fits job args label table _

    run-Fits :
        (fuel : ℕ) (kind : CommandKind) (table : Table) (w : W)
        → Fits (run h m policy t fuel dir cmd kind table w)
    unfolding run cancel_response
    run-Fits fuel CommandKind.ping table w = (respond-Answers _).at w
    run-Fits fuel CommandKind.stand_down table w = (respond-Answers _).at w
    run-Fits fuel (CommandKind.exec program args cwd stdin) table w =
        (exec-Answers program args cwd stdin).at w
    run-Fits fuel (CommandKind.read_file path most) table w = (read_file-Answers path most).at w
    run-Fits fuel (CommandKind.write_file path contents append) table w =
        (write_file-Answers path contents append).at w
    run-Fits fuel (CommandKind.list_dir path) table w = (list_dir-Answers path).at w
    run-Fits fuel (CommandKind.push_blob transfer dest chunks total sha) table w =
        (push_blob-Answers transfer dest _).at w
    run-Fits fuel (CommandKind.pull_blob transfer path most) table w =
        (pull_blob-Answers fuel transfer path most).at w
    run-Fits fuel (CommandKind.share_put name path key expires) table w =
        (share_put-Answers fuel name path key expires).at w
    run-Fits fuel (CommandKind.share_get name dest key) table w =
        (share_get-Answers name dest key).at w
    run-Fits fuel (CommandKind.start_job job program args cwd secs label) table w =
        start_job-Fits job program args cwd secs label table w
    run-Fits fuel CommandKind.list_jobs table w = (respond-Answers _).at w
    run-Fits fuel (CommandKind.job_output job most) table w =
        (job_output-Answers job most table).at w
    run-Fits fuel (CommandKind.cancel_job job) table w =
        (Answers-bind cmd (lift (cancel_job job table).0) (λ u. respond h cmd ResponsePayload.empty)
            (λ u. respond-Answers ResponsePayload.empty)).at
          w
    run-Fits fuel (CommandKind.make_dir path parents) table w = (make_dir-Answers path parents).at w
    run-Fits fuel (CommandKind.remove path recursive) table w =
        (remove_path-Answers path recursive).at w
    run-Fits fuel (CommandKind.move from to) table w = (move_path-Answers from to).at w

    answer-valid :
        (fuel : ℕ) (x : (Outcome Response × Table) × W)
        → Fits x
        → IsAnswer cmd (answer h m policy t fuel dir cmd x).0.0
    answer-valid fuel ((ok r, table), w) fits = fits r refl
    answer-valid fuel ((err e, table), w) fits = response_err-valid (h.now_unix w).0 cmd e

-- Whatever the kind of a command and whether it succeeds or fails, `execute` gives a response that
-- passes the check of the controller against the command, unless the controller's clock is more
-- than 60 seconds behind the time at which the response was finished.
pub execute-valid :
    {W : Type 0} (h : Host W) (m : Machine W) (policy : Policy) (t : Transport) (fuel : ℕ)
    (dir : Text) (cmd : Command) (table : Table) (w : W) (now : ℤ)
    → (execute h m policy t fuel dir cmd table w).0.0.finished_at ≤ℤ saturating_add now (pos 60)
    → validate_for now (execute h m policy t fuel dir cmd table w).0.0 cmd ≡ ok tt
unfolding execute
execute-valid h m policy t fuel dir cmd table w now soon =
    let (id, agent, version) =
      answer-valid h m policy t cmd dir fuel _
        (run-Fits h m policy t cmd dir fuel cmd.kind table w) in
    (validate_for_iff now _ cmd).1 (id, agent, version, soon)
