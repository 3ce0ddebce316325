-- ===== src/Agent/Executor/Confined/Execute.antt =====
-- Commands of every kind stay inside the places that the policy allows: `start_job`, `run` and
-- `execute` of crates/agent/src/executor.rs.
use s3_mcp_relay.Base.{
  ℕ, Bool, true, ◌≡◌, inl, inr, ◌||◌, ◌==◌, ltb, Option, List, Text, All, ok, err, arith, subst,
  refl, Bool-cases,
}
use s3_mcp_relay.Failure.{Error, Outcome, Outcome-cases}
use s3_mcp_relay.Effect.{Good, Good-continue, Good-if, Good-fail, Good-pure, lift}
use s3_mcp_relay.Effect.Keeps.{Keeps, Keeps-bind, Keeps-lift, keeps_rules}
use s3_mcp_relay.Platform.{Host}
use s3_mcp_relay.Transport.Objects.{Transport}
use s3_mcp_relay.Transport.Quiet.{IsQuiet}
use s3_mcp_relay.Protocol.Types.{Command, CommandKind, Response, ResponsePayload}
use s3_mcp_relay.Protocol.Names.{validate_transfer_id}
use s3_mcp_relay.Agent.Jobs.{Table, stdout_path, stderr_path, start, launch, has_job, cancel_job}
use s3_mcp_relay.Agent.Policy.{Policy, Paths, check_program}
use s3_mcp_relay.Agent.Policy.Laws.{IsAllowed, IsRunnable, IsPaths, check_program_lem}
use s3_mcp_relay.Agent.Policy.Laws.Tracked.{IsTracked}
use s3_mcp_relay.Agent.Executor.{Machine, respond}
use s3_mcp_relay.Agent.Executor.Confined.{
  read_file-Kept, write_file-Kept, list_dir-Kept, make_dir-Kept, remove_path-Kept, move_path-Kept,
}
use s3_mcp_relay.Agent.Executor.Confined.Transfers.{
  IsTrackedMachine, respond-Still, push_blob-Still, pull_blob-Still, share_put-Still,
  share_get-Still, check_program-keeps, check_cwd-Still, exec-Still, job_output-Still,
}
use s3_mcp_relay.Agent.Executor.Programs.{
  check_cwd, admit_job, prepare_job, start_answer, start_prepared, start_job,
}
use s3_mcp_relay.Agent.Executor.Transfers.{temp_sibling}
use s3_mcp_relay.Agent.Executor.Run.{cancel_response, run, answer, execute}

-- The path below which a command may make directories satisfies `P`.
abbrev pub HasPlain : (Text → Type 0) → CommandKind → Type 0
HasPlain P (CommandKind.push_blob transfer dest chunks total sha) = P dest
HasPlain P (CommandKind.share_get name dest key) = P dest
HasPlain P (CommandKind.make_dir path parents) = P path
HasPlain P (CommandKind.move from to) = P to
HasPlain P _ = Unit {0}

HasPlain-any : (kind : CommandKind) → HasPlain (λ p. Unit {0}) kind
HasPlain-any CommandKind.ping = tt
HasPlain-any CommandKind.stand_down = tt
HasPlain-any (CommandKind.exec program args cwd stdin) = tt
HasPlain-any (CommandKind.read_file path most) = tt
HasPlain-any (CommandKind.write_file path contents append) = tt
HasPlain-any (CommandKind.list_dir path) = tt
HasPlain-any (CommandKind.push_blob transfer dest chunks total sha) = tt
HasPlain-any (CommandKind.pull_blob transfer path most) = tt
HasPlain-any (CommandKind.share_put name path key expires) = tt
HasPlain-any (CommandKind.share_get name dest key) = tt
HasPlain-any (CommandKind.start_job job program args cwd secs label) = tt
HasPlain-any CommandKind.list_jobs = tt
HasPlain-any (CommandKind.job_output job most) = tt
HasPlain-any (CommandKind.cancel_job job) = tt
HasPlain-any (CommandKind.make_dir path parents) = tt
HasPlain-any (CommandKind.remove path recursive) = tt
HasPlain-any (CommandKind.move from to) = tt

module _ {W : Type 0} (h : Host W) (m : Machine W) (policy : Policy) (t : Transport) (dir : Text)
    {I : W → Type 0} {Resolves : W → Text → Text → Type 0} {Absent : W → Text → Type 0}
    {Plain Safe Runs : Text → Type 0} (l : IsPaths m.paths)
    (s : IsTracked m.paths m.files I Resolves Absent Plain Safe)
    (safe : (p : Text) → IsAllowed m.paths policy p → Safe p) (q : IsQuiet h I)
    (tracked : IsTrackedMachine m I Safe Runs)
    (partial : (p : Text) → IsAllowed m.paths policy p → Safe (temp_sibling m.paths p))
    (runs : (p : Text) → IsRunnable policy p → Runs p)
    (output : (job : Text)
      → h.codec.is_uuid job ≡ true
      → Safe (stdout_path dir job) × Safe (stderr_path dir job)) where
  abbrev Stays : W → Type 0
  Stays w = I w

  launch-Stays :
      (job program : Text) (args : List Text) (cwd : Option Text) (env : List (Text × Text))
      → h.codec.is_uuid job ≡ true
      → Runs program
      → Keeps Stays (launch m.shell dir job program args cwd env)
  unfolding launch
  launch-Stays job program args cwd env uuid allowed =
      let (out, errs) = output job uuid in
      search (keeps_rules, tracked.create, out, errs, tracked.spawn, allowed, tracked.job_clock)
        depth 14

  start-Stays :
      (job program : Text) (args : List Text) (cwd : Option Text) (env : List (Text × Text))
      (label : Option Text) (table : Table) (w : W)
      → h.codec.is_uuid job ≡ true
      → Runs program
      → Stays w
      → Stays (start m.shell dir job program args cwd env label table w).1
  unfolding start
  start-Stays job program args cwd env label table w uuid allowed i =
      let launched : Stays (launch m.shell dir job program args cwd env w).1 =
        (launch-Stays job program args cwd env uuid allowed).at w i in
      elim (Bool-cases (has_job job table)) [
        | inl there ↦
            subst (λ v. Stays v)
              (let e : w ≡ (start m.shell dir job program args cwd env label table w).1 =
                  ground arith in
                e)
              i
        | inr new ↦
            subst (λ v. Stays v)
              (let e : (launch m.shell dir job program args cwd env w).1
                    ≡ (start m.shell dir job program args cwd env label table w).1 =
                  elim (Outcome-cases (launch m.shell dir job program args cwd env w).0) [
                    | inl x ↦ ground arith
                    | inr x ↦ ground arith
                  ] in
                e)
              launched
      ]

  -- What is admitted is a program that may run.
  abbrev Admitted : Text × Option Text → W → Type 0
  Admitted a v = Runs a.0

  admit_job-Good :
      (cmd : Command) (program : Text) (cwd : Option Text) (secs : ℕ) (w : W)
      → Stays w
      → Good Stays Admitted (admit_job h m policy cmd program cwd secs w)
  unfolding admit_job
  admit_job-Good cmd program cwd secs w i =
      Good-continue Stays (λ c v. Runs c) Admitted _
        (check_program m.paths policy m.files program w)
        (
          (check_program-keeps h m policy t l s safe q tracked partial dir runs output program).at w
              i,
          λ c e. runs c (check_program_lem m.paths policy m.files program c w e).3,
        )
        (λ c v j allowed.
          Good-continue Stays (λ d x. Unit {0}) Admitted _ (check_cwd h m policy cmd cwd v)
            (
              (check_cwd-Still h m policy t l s safe q tracked partial dir runs output cmd cwd).at v
                  j,
              λ d e. tt,
            )
            (λ d x k u.
              Good-if Stays Admitted (secs == 0 || ltb policy.max_job_secs secs) _ _ _
                (λ bad. Good-fail Stays Admitted Error.job_time_outside_policy x k)
                (λ fine. Good-pure Stays Admitted (c, d) x k allowed)))

  prepare_job-Good :
      (cmd : Command) (job program : Text) (cwd : Option Text) (secs : ℕ) (w : W)
      → Stays w
      → Good Stays
          (λ a v. (h.codec.is_uuid job ≡ true) × Runs a.0)
          (prepare_job h m policy cmd job program cwd secs w)
  unfolding prepare_job validate_transfer_id
  prepare_job-Good cmd job program cwd secs w i =
      Good-continue Stays (λ u v. h.codec.is_uuid job ≡ true)
        (λ a v. (h.codec.is_uuid job ≡ true) × Runs a.0) _
        (lift (validate_transfer_id h.codec.is_uuid job) w)
        (
          i,
          λ u e. elim (Bool-cases (h.codec.is_uuid job)) [
            | inl y ↦ y
            | inr n ↦ absurd (ground arith)
          ],
        )
        (λ u v j uuid.
          let (kept, admitted) = admit_job-Good cmd program cwd secs v j in
          (kept, λ a e. (uuid, admitted a e)))

  start_answer-Stays :
      (cmd : Command) (job : Text) (r : (Outcome (Option ℕ) × Table) × W)
      → Stays r.1
      → Stays (start_answer h m policy cmd dir job r).1
  start_answer-Stays cmd job ((ok pid, table), w) i = q.now_unix w i
  start_answer-Stays cmd job ((err e, table), w) i = i

  start_prepared-Stays :
      (cmd : Command) (job : Text) (args : List Text) (label : Option Text) (table : Table)
      (r : Outcome (Text × Option Text) × W)
      → Good Stays (λ a v. (h.codec.is_uuid job ≡ true) × Runs a.0) r
      → Stays (start_prepared h m policy cmd dir job args label table r).1
  start_prepared-Stays cmd job args label table (ok (program, cwd), w) (i, ready) =
      let (uuid, allowed) = ready (program, cwd) refl in
      start_answer-Stays cmd job _
        (start-Stays job program args cwd policy.child_env label table w uuid allowed i)
  start_prepared-Stays cmd job args label table (err e, w) (i, uuid) = i

  start_job-Stays :
      (cmd : Command) (job program : Text) (args : List Text) (cwd : Option Text) (secs : ℕ)
      (label : Option Text) (table : Table) (w : W)
      → Stays w
      → Stays (start_job h m policy cmd dir job program args cwd secs label table w).1
  unfolding start_job
  start_job-Stays cmd job program args cwd secs label table w i =
      start_prepared-Stays cmd job args label table _
        (prepare_job-Good cmd job program cwd secs w i)

  answer-Stays :
      (fuel : ℕ) (cmd : Command) (r : (Outcome Response × Table) × W)
      → Stays r.1
      → Stays (answer h m policy t fuel dir cmd r).1
  answer-Stays fuel cmd ((ok response, table), w) i = i
  answer-Stays fuel cmd ((err e, table), w) i = q.now_unix w i

  run-Stays :
      (fuel : ℕ) (cmd : Command) (kind : CommandKind) (table : Table) (w : W)
      → HasPlain Plain kind
      → Stays w
      → Stays (run h m policy t fuel dir cmd kind table w).1
  unfolding run cancel_response respond
  run-Stays fuel cmd CommandKind.ping table w plain i = q.now_unix w i
  run-Stays fuel cmd CommandKind.stand_down table w plain i = q.now_unix w i
  run-Stays fuel cmd (CommandKind.exec program args cwd stdin) table w plain i =
      (exec-Still h m policy t l s safe q tracked partial dir runs output cmd program args cwd
          stdin).at
        w i
  run-Stays fuel cmd (CommandKind.read_file path most) table w plain i =
      (read_file-Kept h m policy l s safe q cmd path most).at w i
  run-Stays fuel cmd (CommandKind.write_file path contents append) table w plain i =
      (write_file-Kept h m policy l s safe q cmd path contents append).at w i
  run-Stays fuel cmd (CommandKind.list_dir path) table w plain i =
      (list_dir-Kept h m policy l s safe q cmd path).at w i
  run-Stays fuel cmd (CommandKind.push_blob transfer dest chunks total sha) table w plain i =
      (push_blob-Still h m policy t l s safe q tracked partial cmd transfer dest _ plain).at w i
  run-Stays fuel cmd (CommandKind.pull_blob transfer path most) table w plain i =
      (pull_blob-Still h m policy t l s safe q tracked partial cmd fuel transfer path most).at w i
  run-Stays fuel cmd (CommandKind.share_put name path key expires) table w plain i =
      (share_put-Still h m policy t l s safe q tracked partial cmd fuel name path key expires).at w
        i
  run-Stays fuel cmd (CommandKind.share_get name dest key) table w plain i =
      (share_get-Still h m policy t l s safe q tracked partial cmd name dest key plain).at w i
  run-Stays fuel cmd (CommandKind.start_job job program args cwd secs label) table w plain i =
      start_job-Stays cmd job program args cwd secs label table w i
  run-Stays fuel cmd CommandKind.list_jobs table w plain i = q.now_unix w i
  run-Stays fuel cmd (CommandKind.job_output job most) table w plain i =
      (job_output-Still h m policy t l s safe q tracked partial dir runs output cmd job most
          table).at
        w i
  run-Stays fuel cmd (CommandKind.cancel_job job) table w plain i =
      (Keeps-bind _ _ (Keeps-lift (cancel_job job table).0)
          (λ u. respond-Still h m policy t l s safe q tracked partial cmd ResponsePayload.empty)).at
        w i
  run-Stays fuel cmd (CommandKind.make_dir path parents) table w plain i =
      (make_dir-Kept h m policy l s safe q cmd path parents plain).at w i
  run-Stays fuel cmd (CommandKind.remove path recursive) table w plain i =
      (remove_path-Kept h m policy l s safe q cmd path recursive).at w i
  run-Stays fuel cmd (CommandKind.move from to) table w plain i =
      (move_path-Kept h m policy l s safe q cmd from to plain).at w i

  pub execute-Stays :
      (fuel : ℕ) (cmd : Command) (table : Table) (w : W)
      → HasPlain Plain cmd.kind
      → Stays w
      → Stays (execute h m policy t fuel dir cmd table w).1
  unfolding execute
  execute-Stays fuel cmd table w plain i =
      answer-Stays fuel cmd _ (run-Stays fuel cmd cmd.kind table w plain i)

-- A path that the agent may touch: an allowed one, the temporary sibling of an allowed one, or an
-- output file of a job in the directory of the jobs.
pub data IsTouchable (paths : Paths) (policy : Policy) (is_uuid : Text → Bool) (dir : Text)
    : Text → Type 0 where
  allowed : {p : Text} → IsAllowed paths policy p → IsTouchable paths policy is_uuid dir p
  sibling :
      {p : Text}
      → IsAllowed paths policy p
      → IsTouchable paths policy is_uuid dir (temp_sibling paths p)
  output_file :
      {job : Text} → is_uuid job ≡ true → IsTouchable paths policy is_uuid dir (stdout_path dir job)
  error_file :
      {job : Text} → is_uuid job ≡ true → IsTouchable paths policy is_uuid dir (stderr_path dir job)

-- A command whose destination has no `..`, whatever its kind and outcome, leaves every place
-- touchable at which a directory has been made or something opened for writing, renamed or removed,
-- where the file system behaves as `IsTracked` and `IsTrackedMachine` say and the bucket and the
-- clock touch no file. A place counts by the path that the call is given, also if a symbolic link is
-- there, and by its canonical path where `create_dir_all` has made it; what the programs change that
-- a command runs is not counted.
pub execute-IsTouchable :
    {W : Type 0} (h : Host W) (m : Machine W) (policy : Policy) (t : Transport) (dir : Text)
    (touched : W → List Text) (Resolves : W → Text → Text → Type 0) (Absent : W → Text → Type 0)
    (Plain : Text → Type 0)
    → IsPaths m.paths
    → IsTracked m.paths m.files
        (λ w. All (IsTouchable m.paths policy h.codec.is_uuid dir) (touched w))
        Resolves
        Absent
        Plain
        (IsTouchable m.paths policy h.codec.is_uuid dir)
    → IsQuiet h (λ w. All (IsTouchable m.paths policy h.codec.is_uuid dir) (touched w))
    → IsTrackedMachine m
        (λ w. All (IsTouchable m.paths policy h.codec.is_uuid dir) (touched w))
        (IsTouchable m.paths policy h.codec.is_uuid dir)
        (λ p. Unit {0})
    → (fuel : ℕ) (cmd : Command) (table : Table) (w : W) → HasPlain Plain cmd.kind
    → All (IsTouchable m.paths policy h.codec.is_uuid dir) (touched w)
    → All
        (IsTouchable m.paths policy h.codec.is_uuid dir)
        (touched (execute h m policy t fuel dir cmd table w).1)
execute-IsTouchable h m policy t dir touched Resolves Absent Plain l s q tracked fuel cmd table w
      plain i =
    execute-Stays h m policy t dir l s (λ p a. IsTouchable.allowed a) q tracked
      (λ p a. IsTouchable.sibling a) (λ p a. tt)
      (λ job uuid. (IsTouchable.output_file uuid, IsTouchable.error_file uuid)) fuel cmd table w
      plain i

-- Every program that the agent runs, for whatever command and by `exec` or as a job, is on the
-- policy's list or the policy allows any program. Here `ran w` lists the programs that were run: only
-- `run_program` and `spawn` add to it, and only the program that they are given.
pub execute-IsRunnable :
    {W : Type 0} (h : Host W) (m : Machine W) (policy : Policy) (t : Transport) (dir : Text)
    (ran : W → List Text) (Resolves : W → Text → Text → Type 0) (Absent : W → Text → Type 0)
    → IsPaths m.paths
    → IsTracked m.paths m.files
        (λ w. All (IsRunnable policy) (ran w))
        Resolves
        Absent
        (λ p. Unit {0})
        (λ p. Unit {0})
    → IsQuiet h (λ w. All (IsRunnable policy) (ran w))
    → IsTrackedMachine m (λ w. All (IsRunnable policy) (ran w)) (λ p. Unit {0}) (IsRunnable policy)
    → (fuel : ℕ) (cmd : Command) (table : Table) (w : W) → All (IsRunnable policy) (ran w)
    → All (IsRunnable policy) (ran (execute h m policy t fuel dir cmd table w).1)
execute-IsRunnable h m policy t dir ran Resolves Absent l s q tracked fuel cmd table w i =
    execute-Stays h m policy t dir l s (λ p a. tt) q tracked (λ p a. tt) (λ p a. a)
      (λ job uuid. (tt, tt)) fuel cmd table w (HasPlain-any cmd.kind) i
