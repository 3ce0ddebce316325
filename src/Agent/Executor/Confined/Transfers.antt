-- ===== src/Agent/Executor/Confined/Transfers.antt =====
-- The handlers on transfers, shares and programs stay inside the places that the policy allows.

use s3_mcp_relay.Base.{ℕ, true, ◌≡◌, Option, none, some, List, Text, ok, err, ℤ}
use s3_mcp_relay.Failure.{Error, Outcome}
use s3_mcp_relay.Effect.{Eff, ◌>>=◌}
use s3_mcp_relay.Effect.Keeps.{
  Keeps, Keeps-bind, Keeps-given, Keeps-if, Keeps-ignore, Keeps-fail, Keeps-lift, Keeps-pure,
  keeps_rules,
}
use s3_mcp_relay.Platform.{Host}
use s3_mcp_relay.Crypto.{Crypto}
use s3_mcp_relay.Transport.Objects.{Transport}
use s3_mcp_relay.Transport.Quiet.{
  IsQuiet, put_blob_chunk-Keeps, get_blob_chunk-Keeps, delete_blob-Keeps, put_share_chunk-Keeps,
  get_share_chunk-Keeps, put_share_manifest-Keeps, read_share_manifest-Keeps, delete_share-Keeps,
}
use s3_mcp_relay.Protocol.Types.{Command, ResponsePayload, ShareManifest}
use s3_mcp_relay.Blob.{Manifest, stage_file}
use s3_mcp_relay.Blob.Quiet.{IsQuietReader, IsQuietWriter, upload_chunks-Keeps, assemble_file-Keeps}
use s3_mcp_relay.Agent.Jobs.{Table, stdout_path, stderr_path}
use s3_mcp_relay.Agent.Policy.{Policy, check_program}
use s3_mcp_relay.Agent.Policy.Laws.{IsAllowed, IsRunnable, IsPaths, check_program_lem}
use s3_mcp_relay.Agent.Policy.Laws.Tracked.{IsTracked}
use s3_mcp_relay.Agent.Policy.Laws.Prepared.{prepare_write_path-Good}
use s3_mcp_relay.Agent.Executor.{Machine, respond}
use s3_mcp_relay.Agent.Executor.Confined.{respond-Kept, existing-Kept, prepared-Kept}
use s3_mcp_relay.Agent.Executor.Programs.{check_cwd, exec, job_output}
use s3_mcp_relay.Agent.Executor.Transfers.{
  temp_sibling, assemble_at, push_blob, staged_response, pull_blob, publish_share, put_share_with,
  share_put, get_share_with, receive_share, share_get, share_contents,
}

-- What the rest of the machine keeps `I` for: reading files and asking the clock at any path, writing
-- a file where its temporary sibling and its destination may be changed, starting a job where its two
-- files may be, and running a program of which `Runs` holds.
pub record IsTrackedMachine {W : Type 0} (m : Machine W) (I : W → Type 0)
    (Safe Runs : Text → Type 0) : Type 0 where
  pub reader : IsQuietReader m.disk I
  pub writer : (temp dest : Text) → Safe temp → Safe dest → IsQuietWriter m.disk temp dest I
  pub run_program :
      (p : Text) (args : List Text) (cwd : Option Text) (env : List (Text × Text))
      (stdin : Option (List ℕ)) (secs : ℕ) (w : W)
      → Runs p
      → I w
      → I (m.run_program p args cwd env stdin secs w).1
  pub read_tail : (p : Text) (w : W) → I w → I (m.read_tail p w).1
  pub create : (p : Text) (w : W) → Safe p → I w → I (m.shell.create p w).1
  pub spawn :
      (p : Text) (args : List Text) (cwd : Option Text) (env : List (Text × Text)) (w : W)
      → Runs p
      → I w
      → I (m.shell.spawn p args cwd env w).1
  pub job_clock : (w : W) → I w → I (m.shell.now_unix w).1

module _ {W : Type 0} (h : Host W) (m : Machine W) (policy : Policy) (t : Transport)
    {I : W → Type 0} {Resolves : W → Text → Text → Type 0} {Absent : W → Text → Type 0}
    {Plain Safe Runs : Text → Type 0} (l : IsPaths m.paths)
    (s : IsTracked m.paths m.files I Resolves Absent Plain Safe)
    (safe : (p : Text) → IsAllowed m.paths policy p → Safe p) (q : IsQuiet h I)
    (tracked : IsTrackedMachine m I Safe Runs)
    (partial : (p : Text) → IsAllowed m.paths policy p → Safe (temp_sibling m.paths p)) where
  abbrev pub Still : {A : Type 0} → Eff W A → Type 0
  Still e = Keeps I e

  pub respond-Still : (cmd : Command) (p : ResponsePayload) → Still (respond h cmd p)
  respond-Still cmd p = respond-Kept h m policy l s safe q cmd p

  assemble_at-Still :
      (cmd : Command) (get : ℕ → Eff W (Option (List ℕ))) (c : Manifest) (dest : Text)
      → ((i : ℕ) → Still (get i))
      → IsAllowed m.paths policy dest
      → Still (assemble_at h m policy t cmd get c dest)
  unfolding assemble_at
  assemble_at-Still cmd get c dest k allowed =
      assemble_file-Keeps
        (tracked.writer (temp_sibling m.paths dest) dest (partial dest allowed) (safe dest allowed))
        m.digest get k c

  pub push_blob-Still :
      (cmd : Command) (transfer dest : Text) (c : Manifest)
      → Plain dest
      → Still (push_blob h m policy t cmd transfer dest c)
  unfolding push_blob
  push_blob-Still cmd transfer dest c plain = Keeps-if _ _ _ (Keeps-fail Error.exceeds_max_blob) (
      prepared-Kept h m policy l s safe q _ _ (prepare_write_path-Good l s policy safe dest plain)
        (λ p allowed.
          Keeps-bind _ _
            (assemble_at-Still cmd _ c p (λ i. get_blob_chunk-Keeps q t cmd.agent_id transfer i)
              allowed)
            (λ bytes.
              Keeps-bind _ _ (Keeps-ignore _ (delete_blob-Keeps q t cmd.agent_id transfer))
                (λ u. respond-Still cmd (ResponsePayload.blob_written bytes c.sha256)))))

  staged_response-Still :
      (cmd : Command) (transfer : Text) (r : Outcome Manifest)
      → Still (staged_response h m policy t cmd transfer r)
  unfolding staged_response
  staged_response-Still cmd transfer (ok c) = respond-Still cmd _
  staged_response-Still cmd transfer (err e) =
      Keeps-bind _ _ (Keeps-ignore _ (delete_blob-Keeps q t cmd.agent_id transfer))
        (λ u. Keeps-fail e)

  stage_file-Still :
      (fuel : ℕ) (agent transfer source : Text)
      → Still (stage_file h m.disk m.digest t m.upload_concurrency fuel agent transfer source)
  unfolding stage_file
  stage_file-Still fuel agent transfer source =
      search (keeps_rules, put_blob_chunk-Keeps, upload_chunks-Keeps, tracked.reader, q)

  pub pull_blob-Still :
      (cmd : Command) (fuel : ℕ) (transfer path : Text) (most : ℕ)
      → Still (pull_blob h m policy t cmd fuel transfer path most)
  unfolding pull_blob
  pull_blob-Still cmd fuel transfer path most =
      existing-Kept h m policy l s safe q path _ (λ p allowed.
        search (keeps_rules, s.size_keeps, stage_file-Still, staged_response-Still) depth 12)

  publish_share-Still :
      (cmd : Command) (crypto : Crypto) (name : Text) (expires : ℤ) (r : Outcome (ℕ × ℕ × Text))
      → Still (publish_share h m policy t cmd crypto name expires r)
  unfolding publish_share
  publish_share-Still cmd crypto name expires (ok staged) =
      search (keeps_rules, q.now_unix, put_share_manifest-Keeps q t, respond-Still)
  publish_share-Still cmd crypto name expires (err e) =
      Keeps-bind _ _ (Keeps-ignore _ (delete_share-Keeps q t name)) (λ u. Keeps-fail e)

  put_share_with-Still :
      (cmd : Command) (crypto : Crypto) (name : Text) (i : ℕ) (b : List ℕ)
      → Still (put_share_with h m policy t cmd crypto name i b)
  unfolding put_share_with
  put_share_with-Still cmd crypto name i b = put_share_chunk-Keeps q t name i b crypto

  get_share_with-Still :
      (cmd : Command) (crypto : Crypto) (name : Text) (i : ℕ)
      → Still (get_share_with h m policy t cmd crypto name i)
  unfolding get_share_with
  get_share_with-Still cmd crypto name i = get_share_chunk-Keeps q t name i crypto

  pub share_put-Still :
      (cmd : Command) (fuel : ℕ) (name path key : Text) (expires : ℤ)
      → Still (share_put h m policy t cmd fuel name path key expires)
  unfolding share_put
  share_put-Still cmd fuel name path key expires = Keeps-bind _ _ (Keeps-lift _) (λ u.
      existing-Kept h m policy l s safe q path _ (λ p allowed.
        search
          (
            keeps_rules, s.size_keeps, upload_chunks-Keeps, tracked.reader, put_share_with-Still,
            publish_share-Still,
          )
          depth 14))

  receive_share-Still :
      (cmd : Command) (crypto : Crypto) (dest : Text) (c : ShareManifest)
      → Plain dest
      → Still (receive_share h m policy t cmd crypto dest c)
  unfolding receive_share
  receive_share-Still cmd crypto dest c plain = Keeps-if _ _ _ (Keeps-fail Error.exceeds_max_blob) (
      prepared-Kept h m policy l s safe q _ _ (prepare_write_path-Good l s policy safe dest plain)
        (λ p allowed.
          Keeps-bind _ _
            (assemble_at-Still cmd _ (share_contents c) p (get_share_with-Still cmd crypto c.name)
              allowed)
            (λ bytes.
              respond-Still cmd (ResponsePayload.shared c.name c.chunks c.total_bytes c.sha256))))

  pub share_get-Still :
      (cmd : Command) (name dest key : Text)
      → Plain dest
      → Still (share_get h m policy t cmd name dest key)
  unfolding share_get
  share_get-Still cmd name dest key plain =
      search (keeps_rules, read_share_manifest-Keeps q t, receive_share-Still, plain) depth 12

  module _ (dir : Text) (runs : (p : Text) → IsRunnable policy p → Runs p)
      (output : (job : Text)
        → h.codec.is_uuid job ≡ true
        → Safe (stdout_path dir job) × Safe (stderr_path dir job)) where
    pub check_cwd-Still : (cmd : Command) (cwd : Option Text) → Still (check_cwd h m policy cmd cwd)
    unfolding check_cwd
    check_cwd-Still cmd none = search keeps_rules
    check_cwd-Still cmd (some value) =
        existing-Kept h m policy l s safe q value _ (λ p allowed. Keeps-pure (some p))

    pub check_program-keeps : (p : Text) → Still (check_program m.paths policy m.files p)
    unfolding check_program
    check_program-keeps p = search (keeps_rules, s.canonicalize_keeps) depth 12

    -- A block that begins with the check of a program.
    program-Still :
        {A : Type 0} (p : Text) (f : Text → Eff W A)
        → ((c : Text) → Runs c → Still (f c))
        → Still (check_program m.paths policy m.files p >>= f)
    program-Still p f k =
        Keeps-given Runs _ f
          (λ w i. (
            (check_program-keeps p).at w i,
            λ c e. runs c (check_program_lem m.paths policy m.files p c w e).3,
          ))
          k

    pub exec-Still :
        (cmd : Command) (p : Text) (args : List Text) (cwd stdin : Option Text)
        → Still (exec h m policy cmd p args cwd stdin)
    unfolding exec
    exec-Still cmd p args cwd stdin = program-Still p _ (λ c allowed.
        search (keeps_rules, check_cwd-Still, tracked.run_program, allowed, respond-Still) depth 16)

    pub job_output-Still :
        (cmd : Command) (job : Text) (most : Option ℕ) (table : Table)
        → Still (job_output h m policy cmd dir job most table)
    unfolding job_output
    job_output-Still cmd job most table =
        search (keeps_rules, tracked.read_tail, respond-Still) depth 14
