-- ===== src/Protocol/Types.antt =====
-- The wire types of crates/common/src/protocol.rs. Paths and base64 texts are `Text`, an `f32` is
-- its bit pattern, and an error text is the error that it renders.
use s3_mcp_relay.Base.{ℕ, Bool, false, true, List, Option, Text, ℤ}
use s3_mcp_relay.Failure.{Error}

pub data CommandKind : Type 0 where
  ping : CommandKind
  exec :
      (program : Text) (args : List Text) (cwd : Option Text) (stdin_b64 : Option Text)
      → CommandKind
  read_file : (path : Text) (max_bytes : Option ℕ) → CommandKind
  write_file : (path contents_b64 : Text) (append : Bool) → CommandKind
  list_dir : (path : Text) → CommandKind
  push_blob : (transfer dest_path : Text) (chunks total_bytes : ℕ) (sha256 : Text) → CommandKind
  start_job :
      (job program : Text) (args : List Text) (cwd : Option Text) (max_runtime_secs : ℕ)
      (label : Option Text)
      → CommandKind
  list_jobs : CommandKind
  job_output : (job : Text) (tail_bytes : Option ℕ) → CommandKind
  cancel_job : (job : Text) → CommandKind
  make_dir : (path : Text) (parents : Bool) → CommandKind
  remove : (path : Text) (recursive : Bool) → CommandKind
  move : (from to : Text) → CommandKind
  share_put : (name path key_b64 : Text) (expires_at : ℤ) → CommandKind
  share_get : (name dest_path key_b64 : Text) → CommandKind
  stand_down : CommandKind
  pull_blob : (transfer path : Text) (max_bytes : ℕ) → CommandKind

pub record Command : Type 0 where
  pub id : Text
  pub agent_id : Text
  pub protocol : ℕ
  pub created_at : ℤ
  pub expires_at : ℤ
  pub timeout_secs : ℕ
  pub instance_id : Option Text  -- the field `instance`
  pub kind : CommandKind

pub data JobState : Type 0 where
  running succeeded failed timed_out cancelled lost : JobState

-- `JobState::is_terminal`
abbrev pub is_terminal : JobState → Bool
is_terminal JobState.running = false
is_terminal _ = true

pub record JobStatus : Type 0 where
  pub job : Text
  pub label : Option Text
  pub program : Text
  pub state : JobState
  pub started_at : ℤ
  pub finished_at : Option ℤ
  pub exit_code : Option ℤ
  pub error : Option Text
  pub stdout_path : Text
  pub stderr_path : Text

pub record DirEntry : Type 0 where
  pub name : Text
  pub is_dir : Bool
  pub size : ℕ

pub data ResponsePayload : Type 0 where
  pong : (hostname os agent_version : Text) → ResponsePayload
  exec :
      (stdout_b64 stderr_b64 : Text) (stdout_truncated stderr_truncated : Bool)
      (exit_code : Option ℤ) (timed_out : Bool)
      → ResponsePayload
  file_contents : (contents_b64 : Text) (truncated : Bool) → ResponsePayload
  written : (bytes : ℕ) → ResponsePayload
  dir_listing : (entries : List DirEntry) → ResponsePayload
  job_started : (job : Text) (pid : Option ℕ) → ResponsePayload
  job_list : (jobs : List JobStatus) → ResponsePayload
  job_output :
      (stdout_tail stderr_tail : Text) (stdout_truncated stderr_truncated : Bool)
      (stdout_path stderr_path : Text)
      → ResponsePayload
  blob_written : (bytes : ℕ) (sha256 : Text) → ResponsePayload
  blob_staged : (chunks total_bytes : ℕ) (sha256 : Text) → ResponsePayload
  shared : (name : Text) (chunks total_bytes : ℕ) (sha256 : Text) → ResponsePayload
  empty : ResponsePayload

pub record Response : Type 0 where
  pub id : Text
  pub agent_id : Text
  pub protocol : ℕ
  pub finished_at : ℤ
  pub succeeded : Bool  -- the field `ok`
  pub error : Option Error
  pub payload : ResponsePayload

pub data EventKind : Type 0 where
  heartbeat poll doorbell response command transfer update collision : EventKind

pub record AgentEvent : Type 0 where
  pub at : ℤ
  pub kind : EventKind
  pub message : Text

pub record GpuMetrics : Type 0 where
  pub index : ℕ
  pub name : Text
  pub utilization_pct : Option ℕ
  pub memory_used_mb : Option ℕ
  pub memory_total_mb : Option ℕ
  pub temperature_c : Option ℕ

pub record Metrics : Type 0 where
  pub load_1m : Option ℕ
  pub cpu_count : Option ℕ
  pub mem_total_mb : Option ℕ
  pub mem_available_mb : Option ℕ
  pub disk_total_mb : Option ℕ
  pub disk_free_mb : Option ℕ
  pub gpus : List GpuMetrics

pub record Heartbeat : Type 0 where
  pub agent_id : Text
  pub hostname : Text
  pub os : Text
  pub agent_version : Text
  pub binary_sha256 : Option Text
  pub instance_id : Text  -- the field `instance`
  pub conflict_with : Option Text
  pub suspended : Bool
  pub at : ℤ
  pub ttl_secs : ℤ
  pub recent_errors : List AgentEvent
  pub jobs_running : ℕ
  pub jobs_finished : List JobStatus
  pub metrics : Option Metrics

pub record LogChunk : Type 0 where
  pub agent_id : Text
  pub source : Text
  pub offset : ℕ
  pub data_b64 : Text
  pub at : ℤ

pub record ShareManifest : Type 0 where
  pub name : Text
  pub chunks : ℕ
  pub total_bytes : ℕ
  pub sha256 : Text
  pub source_agent : Text
  pub created_at : ℤ
  pub expires_at : ℤ

pub record UpdateManifest : Type 0 where
  pub agent_id : Text
  pub version : Text
  pub target : Text
  pub release : Text
  pub chunks : ℕ
  pub total_bytes : ℕ
  pub sha256 : Text
  pub release_key_b64 : Text
  pub published_at : ℤ

pub record Doorbell : Type 0 where
  pub agent_id : Text
  pub at : ℤ
