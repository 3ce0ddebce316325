-- ===== src/Agent/Executor.antt =====
-- What the handlers of crates/agent/src/executor.rs act on, and the pieces that they share.
pub mod Handlers
pub mod Transfers
pub mod Programs
pub mod Run
pub mod Bounded
pub mod Answers
pub mod Confined
use s3_mcp_relay.Base.{
  ℕ, zero, suc, ◌+◌, ◌-◌, min, max, Bool, true, false, not, ◌||◌, Option, none, some, List, [], ◌∷◌,
  ◌++◌, Text, codes, text_lt, length, take, drop, ℤ, ok, err, ltb, leb, ◌==◌, if◌then◌else◌, sort,
}
use s3_mcp_relay.Failure.{Error, Outcome}
use s3_mcp_relay.Effect.{Eff, ◌>>=◌, ◌>>◌, lift, pure, fail, request, sample}
use s3_mcp_relay.Platform.{Host}
use s3_mcp_relay.Protocol.Types.{Command, Response, ResponsePayload, DirEntry}
use s3_mcp_relay.Protocol.Checks.{response_ok}
use s3_mcp_relay.Blob.{Disk}
use s3_mcp_relay.Agent.Policy.{Files, Paths}
use s3_mcp_relay.Agent.Jobs.{Shell}

-- What `child.wait()` under the timeout came to.
pub data Waited : Type 0 where
  exited : (code : Option ℤ) → Waited
  wait_failed timed_out : Waited

-- The reads of a stream, one after the other up to its end; `none` is a failed read.
abbrev pub Reads : Type 0
Reads = List (Option (List ℕ))

pub record Finished : Type 0 where
  pub waited : Waited
  pub stdout : Reads
  pub stderr : Reads

-- The machine of an agent: its files, the process table, what it says of itself, and the
-- environment's setting for overlapping uploads. `run_program` spawns a program with its arguments,
-- directory, environment and input, and waits so many seconds; `none`: it could not be spawned.
-- `read_tail` is the file of `jobs::tail`, its size and contents, or that it does not exist.
pub record Machine (W : Type 0) : Type 0 where
  pub files : Files W
  pub disk : Disk W
  pub shell : Shell W
  pub run_program :
      Text
      → List Text
      → Option Text
      → List (Text × Text)
      → Option (List ℕ)
      → ℕ
      → W
      → Option Finished × W
  pub read_tail : Text → W → Option (Option (ℕ × List ℕ)) × W
  pub digest : List ℕ → List ℕ
  pub lossy : List ℕ → Text
  pub hostname : Text
  pub os : Text
  pub version : Text
  pub upload_concurrency : ℕ
  pub paths : Paths

-- The loop of `read_bounded`.
unfoldable pub read_bounded_from : Reads → ℕ → List ℕ → Bool → Outcome (List ℕ × Bool)
read_bounded_from [] limit kept truncated = ok (kept, truncated)
read_bounded_from (none ∷ reads) limit kept truncated = err (Error.service 40)
read_bounded_from (some buffer ∷ reads) limit kept truncated =
    let count = length buffer in
    let taken = min (limit - length kept) count in
    let rest =
      read_bounded_from reads limit (kept ++ take taken buffer) (truncated || ltb taken count) in
    if count == 0 then ok (kept, truncated) else rest

unfoldable pub read_bounded : Reads → ℕ → Outcome (List ℕ × Bool)
unfolding read_bounded_from
read_bounded reads limit = read_bounded_from reads limit [] false

abbrev pub max_dir_entries : ℕ
max_dir_entries = 10000

abbrev pub dir_entry : Text → Option (Bool × ℕ) → DirEntry
dir_entry name none = record { name = name; is_dir = false; size = 0 }
dir_entry name (some (is_dir, size)) = record { name = name; is_dir = is_dir; size = size }

-- The loop of `list_dir`.
unfoldable pub dir_entries :
    List (Option (Text × Option (Bool × ℕ))) → List DirEntry → Outcome (List DirEntry)
dir_entries [] entries = ok entries
dir_entries (none ∷ more) entries = err (Error.service 41)
dir_entries (some (name, meta) ∷ more) entries =
    let rest = dir_entries more (entries ++ dir_entry name meta ∷ []) in
    if leb max_dir_entries (length entries) then err Error.directory_too_large else rest

abbrev pub name_before : DirEntry → DirEntry → Bool
name_before a b = text_lt a.name b.name

-- `Response::ok(cmd, payload)` and its clock.
unfoldable pub respond : {W : Type 0} → Host W → Command → ResponsePayload → Eff W Response
respond h cmd payload = do now ← sample h.now_unix; pure (response_ok now cmd payload)
