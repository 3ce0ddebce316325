-- ===== src/Agent/Jobs.antt =====
-- `JobManager` of crates/agent/src/jobs.rs: detached long-running processes. The table behind the
-- mutex is an association list; the order of its entries is the order in which the map happens to
-- be iterated. No holder of the lock panics, so the branches for a poisoned lock are left out.
pub mod Laws
use s3_mcp_relay.Base.{
  ℕ, zero, suc, ◌+◌, ◌-◌, ◌%◌, ◌^◌, min, max, Bool, true, false, not, ◌||◌, ◌&&◌, Option, none,
  some, List, [], ◌∷◌, ◌++◌, Text, codes, text_eq, length, take, drop, ℤ, pos, ltb_ℤ, ok, err, ltb,
  leb, if◌then◌else◌, sort, decimal,
}
use s3_mcp_relay.Failure.{Error, Outcome}
use s3_mcp_relay.Effect.{Eff, ◌>>=◌, ◌>>◌, lift, pure, fail, request, sample}
use s3_mcp_relay.Protocol.Types.{JobState, JobStatus, is_terminal}

abbrev pub finished_in_heartbeat : ℕ
finished_in_heartbeat = 5

abbrev pub finished_retained : ℕ
finished_retained = 50

abbrev pub default_tail_bytes : ℕ
default_tail_bytes = 8192

abbrev pub max_tail_bytes : ℕ
max_tail_bytes = 262144

-- `cancel` is whether the sender of the channel is still there.
pub record Entry : Type 0 where
  pub status : JobStatus
  pub cancel : Bool

abbrev pub Table : Type 0
Table = List (Text × Entry)

-- The operations of `HashMap` that the code uses.
unfoldable pub get : Text → Table → Option Entry
get job [] = none
get job ((k, e) ∷ table) = if text_eq k job then some e else get job table

unfoldable pub remove : Text → Table → Table
remove job [] = []
remove job ((k, e) ∷ table) =
    let rest = remove job table in if text_eq k job then rest else (k, e) ∷ rest

unfoldable pub insert : Text → Entry → Table → Table
unfolding remove
insert job entry table = (job, entry) ∷ remove job table

-- `if let Some(entry) = guard.get_mut(&job) { … }`
unfoldable pub alter : (Entry → Entry) → Text → Table → Table
alter f job [] = []
alter f job ((k, e) ∷ table) =
    let rest = alter f job table in if text_eq k job then (k, f e) ∷ table else (k, e) ∷ rest

abbrev pub is_finished : Entry → Bool
is_finished e = is_terminal e.status.state

abbrev pub or_zero : Option ℤ → ℤ
or_zero none = pos 0
or_zero (some at) = at

abbrev pub finish_time : Entry → ℤ
finish_time e = or_zero e.status.finished_at

-- The ids of the finished jobs and when they finished.
unfoldable pub finished : Table → List (Text × ℤ)
finished [] = []
finished ((k, e) ∷ table) =
    let rest = finished table in if is_finished e then (k, finish_time e) ∷ rest else rest

abbrev pub ended_before : Text × ℤ → Text × ℤ → Bool
ended_before a b = ltb_ℤ a.1 b.1

unfoldable pub remove_all : List (Text × ℤ) → Table → Table
unfolding remove
remove_all [] table = table
remove_all ((id, at) ∷ ids) table = remove_all ids (remove id table)

unfoldable pub prune : Table → Table
unfolding finished remove_all
prune table =
    let done = finished table in
    if leb (length done) finished_retained
    then table
    else remove_all (take (length done - finished_retained) (sort ended_before done)) table

-- What the supervisor of a job learns: its process exited with a code and a success flag, waiting
-- for it failed, its task failed, its time was over, or it was cancelled.
pub data Ending : Type 0 where
  exited : (code : Option ℤ) (success : Bool) → Ending
  wait_failed supervisor_failed : (error : Text) → Ending
  out_of_time : (max_runtime_secs : ℕ) → Ending
  was_cancelled : Ending

-- The tuple that the `select!` gives.
unfoldable pub outcome_of : Ending → JobState × Option ℤ × Option Text
outcome_of (Ending.exited code success) =
    (if success then JobState.succeeded else JobState.failed, code, none)
outcome_of (Ending.wait_failed error) =
    (JobState.failed, none, some (codes "wait failed: " ++ error))
outcome_of (Ending.supervisor_failed error) =
    (JobState.failed, none, some (codes "supervisor failed: " ++ error))
outcome_of (Ending.out_of_time secs) = (
  JobState.timed_out,
  none,
  some (codes "killed after max_runtime_secs (" ++ decimal secs ++ codes "s)"),
)
outcome_of Ending.was_cancelled = (JobState.cancelled, none, some (codes "cancelled"))

unfoldable pub close : Ending → ℤ → Entry → Entry
unfolding outcome_of
close ending now entry =
    let (state, exit_code, error) = outcome_of ending in
    record {
      status = record entry.status {
        state = state;
        exit_code = exit_code;
        error = error;
        finished_at = some now;
      };
      cancel = false;
    }

-- The last block of the supervisor.
unfoldable pub finish : Text → Ending → ℤ → Table → Table
unfolding prune alter close
finish job ending now table = prune (alter (close ending now) job table)

abbrev pub disarm : Entry → Entry
disarm entry = record entry { cancel = false }

unfoldable pub cancel_job : Text → Table → Outcome (Unit {0}) × Table
unfolding get alter
cancel_job job table = elim (get job table) [
  | none ↦ (err Error.no_such_job, table)
  | some entry ↦
      if is_finished entry
      then (err Error.job_already_finished, table)
      else if entry.cancel
      then (ok tt, alter disarm job table)
      else (err Error.job_being_cancelled, table)
]

abbrev pub statuses : Table → List JobStatus
statuses [] = []
statuses ((k, e) ∷ table) = e.status ∷ statuses table

-- Running first, then most recently started.
abbrev pub listed_before : JobStatus → JobStatus → Bool
listed_before a b =
    (not (is_terminal a.state) && is_terminal b.state)
    || (not (is_terminal a.state) || is_terminal b.state)
      && (is_terminal a.state || not (is_terminal b.state))
      && ltb_ℤ b.started_at a.started_at

unfoldable pub list_jobs : Table → List JobStatus
list_jobs table = sort listed_before (statuses table)

abbrev pub running : Table → ℕ
running [] = zero
running ((k, e) ∷ table) = if is_finished e then running table else suc (running table)

-- `… .count() as u32`
unfoldable pub running_count : Table → ℕ
running_count table = running table % 2 ^ 32

abbrev pub done_statuses : Table → List JobStatus
done_statuses [] = []
done_statuses ((k, e) ∷ table) =
    if is_finished e then e.status ∷ done_statuses table else done_statuses table

-- `Reverse(status.finished_at.unwrap_or(0))`
abbrev pub ended_after : JobStatus → JobStatus → Bool
ended_after a b = ltb_ℤ (or_zero b.finished_at) (or_zero a.finished_at)

unfoldable pub recently_finished : Table → List JobStatus
recently_finished table = take finished_in_heartbeat (sort ended_after (done_statuses table))

-- The file system and the process table, as `start` uses them: creating an output file, spawning
-- the program, which gives its process id, and the clock.
pub record Shell (W : Type 0) : Type 0 where
  pub create : Text → W → Option (Unit {0}) × W
  pub spawn : Text → List Text → Option Text → List (Text × Text) → W → Option (Option ℕ) × W
  pub now_unix : W → ℤ × W

-- `self.dir.join(format!("{job}.out"))`, and the same for `.err`.
abbrev pub stdout_path : Text → Text → Text
stdout_path dir job = dir ++ codes "/" ++ job ++ codes ".out"

abbrev pub stderr_path : Text → Text → Text
stderr_path dir job = dir ++ codes "/" ++ job ++ codes ".err"

abbrev pub has_job : Text → Table → Bool
has_job job table = elim (get job table) [ none ↦ false | some _ ↦ true ]

module _ {W : Type 0} (s : Shell W) (dir : Text) where
  -- What `start` does outside the table: the two files, the process and the clock.
  unfoldable pub launch :
      Text → Text → List Text → Option Text → List (Text × Text) → Eff W (Option ℕ × ℤ)
  launch job program args cwd env = do
    request (Error.service 10) (s.create (stdout_path dir job))
    request (Error.service 11) (s.create (stderr_path dir job))
    pid ← request (Error.service 12) (s.spawn program args cwd env)
    now ← sample s.now_unix
    pure (pid, now)

  abbrev pub new_entry : Text → Text → Option Text → ℤ → Entry
  new_entry job program label now = record {
    status = record {
      job = job;
      label = label;
      program = program;
      state = JobState.running;
      started_at = now;
      finished_at = none;
      exit_code = none;
      error = none;
      stdout_path = stdout_path dir job;
      stderr_path = stderr_path dir job;
    };
    cancel = true;
  }

  unfoldable pub start :
      Text
      → Text
      → List Text
      → Option Text
      → List (Text × Text)
      → Option Text
      → Table
      → W
      → (Outcome (Option ℕ) × Table) × W
  unfolding launch insert
  start job program args cwd env label table w =
      if has_job job table
      then ((err Error.job_exists, table), w)
      else let (r, w') = launch job program args cwd env w in
        elim r [
          | ok launched ↦
              ((ok launched.0, insert job (new_entry job program label launched.1) table), w')
          | err e ↦ ((err e, table), w')
        ]

-- What `tail` reads of a file: `size` is its length when it is looked at, `contents` what it holds
-- when it is read, and `lossy` is `String::from_utf8_lossy`.
abbrev pub tail_limit : Option ℕ → ℕ
tail_limit none = default_tail_bytes
tail_limit (some limit) = max 1 (min limit max_tail_bytes)

unfoldable pub tail_file : (List ℕ → Text) → Option ℕ → Option (ℕ × List ℕ) → Text × Bool
tail_file lossy limit none = ([], false)
tail_file lossy limit (some (size, contents)) =
    let most = tail_limit limit in
    let truncated = ltb most size in
    (lossy (take most (if truncated then drop (size - most) contents else contents)), truncated)
